-- ===== src/Server/Session.antt =====
-- `SigmaStudioRequestHandler.handle` of sigmadsp/sigmastudio/server.py on a connection on which
-- SigmaStudio sends write packets and read requests, in any order.
use sigmadsp.Prelude.{
  ℕ, zero, suc, ◌<◌, ◌≡◌, refl, ◌∙◌, true, false, List, [], ◌∷◌, ◌++◌, map, append_assoc,
  append-nil, arith, length, concat, All,
}
use sigmadsp.Prelude.Result.{ok}
use sigmadsp.Header.{write_key}
use sigmadsp.Header.Generator.{PacketHeaderGenerator}
use sigmadsp.Header.Generator.Laws.{IsGenerator}
use sigmadsp.Server.Messages.{Message, connection_closed}
use sigmadsp.Server.Packets.{Packet}
use sigmadsp.Server.Socket.{Connection}
use sigmadsp.Server.Segments.{AllArrive}
use sigmadsp.Server.Frames.{IsFrame, frame_bytes}
use sigmadsp.Server.Handle.{message_of, logged}
use sigmadsp.Server.Exchange.{handle_packet-write}
use sigmadsp.Server.Reply.{reply}
use sigmadsp.Server.Exchange.{handle_packet-read}
use sigmadsp.Server.Waits.{asked, IsAnswered}
use sigmadsp.Server.Loop.{handle_step, handle-end, logged-logged, logged-nil}
use sigmadsp.Server.{handle_packet, on_result, handle}

-- What SigmaStudio and the server do with one packet: a packet is written, or data is asked for and
-- the backend answers with it.
pub data Exchange : Type 0 where
  written : Packet → Exchange
  answered : Packet → List ℕ → Exchange

abbrev pub packet_of : Exchange → Packet
packet_of (written p) = p
packet_of (answered p _) = p

-- What the backend gets.
abbrev pub request_of : Exchange → Message
request_of (written p) = message_of p
request_of (answered p _) = asked p

-- What the backend puts.
abbrev pub response_of : Exchange → List (List ℕ)
response_of (written _) = []
response_of (answered _ response) = response ∷ []

abbrev pub bytes_of : Exchange → List ℕ
bytes_of e = frame_bytes (packet_of e)

module _ (g : PacketHeaderGenerator) (laws : IsGenerator g) where
  abbrev pub IsExchange : Exchange → Type 0
  IsExchange (written p) = IsFrame g write_key p
  IsExchange (answered p response) = IsAnswered g laws p response

  -- What SigmaStudio gets.
  abbrev pub reply_bytes : Exchange → List ℕ
  reply_bytes (written _) = []
  reply_bytes (answered p response) = frame_bytes (reply g laws p.header response)

  abbrev after_exchange : Exchange → List (List ℕ) → List (List ℕ) → Connection → Connection
  after_exchange e more segments s = record s {
    segments = segments;
    sent = s.sent ++ reply_bytes e;
    receive_queue = s.receive_queue ++ request_of e ∷ [];
    send_queue = more;
    raw_receive_queue = logged s.raw_receive_queue (bytes_of e ∷ []);
  }

  handle_packet-exchange :
      (e : Exchange) (more : List (List ℕ)) (rest : List ℕ) (s : Connection)
      → IsExchange e
      → s.send_queue ≡ response_of e ++ more
      → s.is_writable ≡ true
      → AllArrive s.segments
      → concat s.segments ≡ bytes_of e ++ rest
      → (segments : List (List ℕ)) × (handle_packet g s ≡ (ok tt, after_exchange e more segments s))
        × (concat segments ≡ rest)
        × AllArrive segments
  handle_packet-exchange (written p) more rest s frame queue writable arrive stream =
      let (segments, run, left, arrive') =
        handle_packet-write g laws p rest s frame arrive stream in
      (segments, run ∙ rw (append-nil, ← queue) refl, left, arrive')
  handle_packet-exchange (answered p response) more rest s valid queue writable arrive stream =
      handle_packet-read g laws p response more rest s valid queue writable arrive stream

  -- The connection after some exchanges and the end of the stream.
  abbrev pub after_exchanges : List Exchange → List (List ℕ) → Connection → Connection
  after_exchanges es more s = record s {
    segments = [];
    is_open = false;
    is_writable = false;
    sent = s.sent ++ concat (map reply_bytes es);
    receive_queue = s.receive_queue ++ (map request_of es ++ connection_closed ∷ []);
    send_queue = more;
    raw_receive_queue = logged s.raw_receive_queue (map bytes_of es);
  }

  -- SigmaStudio sends write packets and read requests, in any order, and closes the connection; the
  -- backend answers each read request with as many bytes as it asks for, and the peer takes the
  -- answers. However the network cuts the bytes into segments, `handle` ends in order; the queue to
  -- the backend has got one request for each packet, in the order sent, and then the note that the
  -- connection was closed; SigmaStudio has got, in the order of its requests, one read response for
  -- each, with the data of the backend; the debugging queue, where there is one, has got the raw
  -- packets. One round of the loop for each packet and one more are enough.
  pub handle-exchanges :
      (es : List Exchange) (fuel : ℕ) (more : List (List ℕ)) (s : Connection)
      → All IsExchange es
      → s.send_queue ≡ concat (map response_of es) ++ more
      → s.is_writable ≡ true
      → AllArrive s.segments
      → concat s.segments ≡ concat (map bytes_of es)
      → length es < fuel
      → handle g fuel s ≡ (ok tt, after_exchanges es more s)
  unfolding on_result
  handle-exchanges es zero more s valid queue writable arrive stream h = absurd (omega arith)
  handle-exchanges [] (suc fuel) more s valid queue writable arrive stream h =
      handle-end g laws fuel s stream arrive
      ∙ rw (logged-nil s.raw_receive_queue, append-nil, ← queue) refl
  handle-exchanges (e ∷ es) (suc fuel) more s valid queue writable arrive stream h =
      let later = concat (map response_of es) ++ more in
      let (segments, run, left, arrive') =
        handle_packet-exchange e later (concat (map bytes_of es)) s valid.0
          (queue ∙ append_assoc (response_of e) (concat (map response_of es)) more) writable arrive
          stream in
      let s' = after_exchange e later segments s in
      let rest : handle g fuel s' ≡ (ok tt, after_exchanges es more s') =
        handle-exchanges es fuel more s' valid.1 refl writable arrive' left (omega arith) in
      handle_step g laws fuel s s' (ok tt) run
      ∙ rest
      ∙ rw
          (
            append_assoc s.sent (reply_bytes e) (concat (map reply_bytes es)),
            append_assoc s.receive_queue (request_of e ∷ [])
                (map request_of es ++ connection_closed ∷ []),
            logged-logged s.raw_receive_queue (bytes_of e) (map bytes_of es),
          )
          refl
