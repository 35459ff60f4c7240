-- ===== src/Server/Waits.antt =====
-- `handle_packet` of sigmadsp/sigmastudio/server.py up to the wait for the backend and from there on, on
-- a write packet, on a read request, and at the end of the stream.
use sigmadsp.Prelude.{
  arith, ap, false, ℕ, ◌≡◌, refl, ◌∙◌, true, some, List, [], ◌∷◌, ◌++◌, length, concat, All,
}
use sigmadsp.Prelude.Int.{pos}
use sigmadsp.Prelude.Result.{Result, ok, err, connection_error}
use sigmadsp.Prelude.Exec.{Exec, lift, ◌>>=◌}
use sigmadsp.Header.{
  OperationKey, read_request_key, read_response_key, write_key, address, data_length, success, int,
  set_item, get_item, same_name, is_write_request, is_read_request,
}
use sigmadsp.Header.Items.{HasValue, contains-SameLayout, value_of}
use sigmadsp.Header.Update.{set_item-update, pow_positive}
use sigmadsp.Header.Copy.{HasRoom}
use sigmadsp.Header.Generator.{PacketHeaderGenerator, new_header_from_operation_key}
use sigmadsp.Header.Generator.Laws.{IsGenerator}
use sigmadsp.Server.Messages.{Message, read_request}
use sigmadsp.Server.Packets.{Packet, as_bytes, new_packet}
use sigmadsp.Server.Socket.{Connection, put, get_response, sendall}
use sigmadsp.Server.Segments.{AllArrive}
use sigmadsp.Server.Stream.{Takes}
use sigmadsp.Server.Frames.{IsFrame, frame_bytes, operation_test, new_packet-payload}
use sigmadsp.Server.Receive.{receive_packet-Takes}
use sigmadsp.Server.Handle.{logged, as_bytes-frame, has_field, store_raw-frame}
use sigmadsp.Server.Reply.{
  response_template, response_header, response_header-SameLayout, response_header-HasValue,
  response_header_made, reply, reply-IsFrame,
}
use sigmadsp.Server.{receive_packet}
use sigmadsp.Server.Turns.{
  request_data, send_response, begin_dispatch, begin_packet, Turn, reading, waiting,
}
use sigmadsp.Server.Handle.{message_of, after_write, write_message-frame}
use sigmadsp.Server.Stream.{read_short}
use sigmadsp.Server.{handle_write_request}

-- A call that returns is followed by the rest.
pub run_lift :
    {S A B : Type 0} (r : Result A) (a : A) (f : A → Exec S B) (s : S)
    → r ≡ ok a
    → (lift r >>= f) s ≡ f a s
run_lift r a f s e = rw e refl

-- The request that a read request stands for.
abbrev pub asked : Packet → Message
asked p = read_request (pos (value_of address p.header)) (pos (value_of data_length p.header))

module _ (g : PacketHeaderGenerator) (laws : IsGenerator g) where
  -- The data that the backend has put for a request: as long as the request asks for, and the values
  -- that the answer copies from the request fit into it.
  pub record IsAnswered (p : Packet) (response : List ℕ) : Type 0 where
    pub frame : IsFrame g read_request_key p
    pub long : HasValue data_length (length response) p.header
    pub wide : All (HasRoom (response_template g laws)) p.header

  -- The connection after the answer was sent.
  abbrev pub after_sent : Packet → List ℕ → List (List ℕ) → Connection → Connection
  after_sent p response more s = record s {
    send_queue = more;
    sent = s.sent ++ frame_bytes (reply g laws p.header response);
  }

  -- The connection after a read request was answered.
  abbrev pub after_read : Packet → List ℕ → List (List ℕ) → Connection → Connection
  after_read p response more s = record s {
    receive_queue = s.receive_queue ++ asked p ∷ [];
    send_queue = more;
    sent = s.sent ++ frame_bytes (reply g laws p.header response);
  }

  -- The connection after the request for data was handed to the backend.
  abbrev pub after_asked : Packet → List (List ℕ) → Connection → Connection
  after_asked p segments s = record s {
    segments = segments;
    receive_queue = s.receive_queue ++ asked p ∷ [];
    raw_receive_queue = logged s.raw_receive_queue (frame_bytes p ∷ []);
  }

  request_data-asked :
      (p : Packet) (s : Connection)
      → IsFrame g read_request_key p
      → request_data p s ≡ (ok tt, record s { receive_queue = s.receive_queue ++ asked p ∷ [] })
  unfolding request_data put
  request_data-asked p s frame =
      let has = (laws.template read_request_key).2.has in
      let at : HasValue address (value_of address p.header) p.header =
        has_field g laws read_request_key p address frame has.1.0 in
      let long : HasValue data_length (value_of data_length p.header) p.header =
        has_field g laws read_request_key p data_length frame has.0 in
      let h = p.header in
      run_lift (get_item address h) at.item _ s at.found
      ∙ run_lift (get_item data_length h) long.item _ s long.found
      ∙ rw (at.value_is, long.value_is) refl

  pub send_response-reply :
      (p : Packet) (response : List ℕ) (more : List (List ℕ)) (s : Connection)
      → IsAnswered p response
      → s.send_queue ≡ response ∷ more
      → s.is_writable ≡ true
      → send_response g p s ≡ (ok tt, after_sent p response more s)
  unfolding send_response get_response sendall
  send_response-reply p response more s answered queue writable =
      let frame = answered.frame in
      let has_r = (laws.template read_response_key).2.has in
      let h = p.header in
      let r = reply g laws h response in
      let is_reply : IsFrame g read_response_key r =
        reply-IsFrame g laws p response frame answered.wide answered.long in
      let made = response_header_made g laws h frame.header_is.fits answered.wide in
      let stored : new_packet (response_header g laws h) (some response)
          ≡ ok (record { header = response_header g laws h; stored = some response }) =
        new_packet-payload (response_header g laws h) response (
          response_header-HasValue g laws data_length _ h frame.header_is (unfold same_name in refl)
            answered.long has_r.0) in
      let set : set_item success (int (pos 0)) (response_header g laws h) ≡ ok r.header =
        set_item-update success 0 (response_header g laws h)
          (contains-SameLayout success _ (response_template g laws)
              (response_header-SameLayout g laws h)
            ∙ has_r.1.0)
          (pow_positive _) in
      let printed : as_bytes r ≡ ok (frame_bytes r) =
        as_bytes-frame g laws read_response_key r is_reply in
      rw queue (
        run_lift (new_header_from_operation_key g read_response_key (some h))
          (response_header g laws h) _ _ made
        ∙ run_lift (new_packet (response_header g laws h) (some response)) _ _ _ stored
        ∙ run_lift (set_item success (int (pos 0)) (response_header g laws h)) r.header _ _ set
        ∙ run_lift (as_bytes r) (frame_bytes r) _ _ printed
        ∙ rw writable refl)

  begin_dispatch-write :
      (p : Packet) (s : Connection)
      → IsFrame g write_key p
      → begin_dispatch p s
        ≡ (ok reading, record s { receive_queue = s.receive_queue ++ message_of p ∷ [] })
  unfolding begin_dispatch handle_write_request is_write_request put
  begin_dispatch-write p s frame =
      rw (operation_test g laws write_key write_key p.header frame.header_is)
        (rw (write_message-frame g laws p frame))

  begin_dispatch-read :
      (p : Packet) (s : Connection)
      → IsFrame g read_request_key p
      → begin_dispatch p s
        ≡ (ok (waiting p), record s { receive_queue = s.receive_queue ++ asked p ∷ [] })
  unfolding begin_dispatch is_write_request is_read_request
  begin_dispatch-read p s frame =
      rw (operation_test g laws write_key read_request_key p.header frame.header_is) (
        rw (operation_test g laws read_request_key read_request_key p.header frame.header_is)
          (rw (request_data-asked p s frame)))

  -- A packet that is received is logged and then goes by its operation.
  module _ (k : OperationKey) (p : Packet) (rest : List ℕ) (s : Connection) (frame : IsFrame g k p)
      (arrive : AllArrive s.segments) (stream : concat s.segments ≡ frame_bytes p ++ rest)
      (turn : Turn) (m : Message)
      (goes : (t : Connection)
        → begin_dispatch p t
          ≡ (ok turn, record t { receive_queue = t.receive_queue ++ m ∷ [] })) where
    begin_packet-goes :
        (segments : List (List ℕ)) × (begin_packet g s ≡ (
          ok turn,
          record s {
            segments = segments;
            receive_queue = s.receive_queue ++ m ∷ [];
            raw_receive_queue = logged s.raw_receive_queue (frame_bytes p ∷ []);
          },
        ))
        × (concat segments ≡ rest)
        × AllArrive segments
    unfolding begin_packet
    begin_packet-goes =
        let got : Takes (receive_packet g) s p rest =
          receive_packet-Takes g laws k p rest s frame arrive stream in
        (
          got.segments,
          rw got.returns (
              rw (store_raw-frame g laws k p (record s { segments = got.segments }) frame) (
                goes (record s {
                  segments = got.segments;
                  raw_receive_queue = logged s.raw_receive_queue (frame_bytes p ∷ []);
                }))),
          got.left,
          got.arrive,
        )

  pub begin_packet-write :
      (p : Packet) (rest : List ℕ) (s : Connection)
      → IsFrame g write_key p
      → AllArrive s.segments
      → concat s.segments ≡ frame_bytes p ++ rest
      → (segments : List (List ℕ)) × (begin_packet g s
          ≡ (ok reading, after_write g laws p s segments))
        × (concat segments ≡ rest)
        × AllArrive segments
  begin_packet-write p rest s frame arrive stream =
      begin_packet-goes write_key p rest s frame arrive stream reading (message_of p)
        λ t. begin_dispatch-write p t frame

  pub begin_packet-read :
      (p : Packet) (rest : List ℕ) (s : Connection)
      → IsFrame g read_request_key p
      → AllArrive s.segments
      → concat s.segments ≡ frame_bytes p ++ rest
      → (segments : List (List ℕ)) × (begin_packet g s ≡ (ok (waiting p), after_asked p segments s))
        × (concat segments ≡ rest)
        × AllArrive segments
  begin_packet-read p rest s frame arrive stream =
      begin_packet-goes read_request_key p rest s frame arrive stream (waiting p) (asked p)
        λ t. begin_dispatch-read p t frame

  pub begin_packet-end :
      (s : Connection)
      → concat s.segments ≡ []
      → AllArrive s.segments
      → begin_packet g s
        ≡ (err connection_error, record s { segments = []; is_open = false; is_writable = false })
  unfolding begin_packet receive_packet
  begin_packet-end s done arrive =
      rw (read_short s 1 arrive (omega (arith, ap (length {A = ℕ}) done)))
