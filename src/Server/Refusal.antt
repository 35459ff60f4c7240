-- ===== src/Server/Refusal.antt =====
-- `SigmaStudioRequestHandler.handle` of sigmadsp/sigmastudio/server.py on a read request with a value
-- that does not fit into the answer.
use sigmadsp.Prelude.{ℕ, suc, ◌^◌, ◌≤◌, ◌≡◌, refl, ◌∙◌, true, List, [], ◌∷◌, ◌++◌, concat}
use sigmadsp.Prelude.Result.{err, assertion_error}
use sigmadsp.Header.{
  FieldName, read_request_key, write_key, address, data_length, get_item, name_key, contains,
  is_write_request, is_read_request,
}
use sigmadsp.Header.Items.{HasValue, value_of}
use sigmadsp.Header.Update.{size_of}
use sigmadsp.Header.Generator.{PacketHeaderGenerator}
use sigmadsp.Header.Generator.Laws.{IsGenerator}
use sigmadsp.Server.Packets.{Packet}
use sigmadsp.Server.Socket.{Connection, put, get_response}
use sigmadsp.Server.Segments.{AllArrive}
use sigmadsp.Server.Stream.{Takes}
use sigmadsp.Server.Frames.{IsFrame, frame_bytes, operation_test}
use sigmadsp.Server.Receive.{receive_packet-Takes}
use sigmadsp.Server.Handle.{logged, has_field, store_raw-frame}
use sigmadsp.Server.Reply.{response_template, response_header_refused}
use sigmadsp.Server.Waits.{run_lift}
use sigmadsp.Server.Waits.{asked}
use sigmadsp.Server.Loop.{handle_step}
use sigmadsp.Server.{
  receive_packet, handle_read_request, dispatch, handle_packet, on_result, handle,
}

module _ (g : PacketHeaderGenerator) (laws : IsGenerator g) where
  handle_read_request-refused :
      (p : Packet) (n : FieldName) (v : ℕ) (response : List ℕ) (more : List (List ℕ))
      (s : Connection)
      → IsFrame g read_request_key p
      → HasValue n v p.header
      → contains (name_key n) (response_template g laws) ≡ true
      → 256 ^ size_of n (response_template g laws) ≤ v
      → s.send_queue ≡ response ∷ more
      → handle_read_request g p s ≡ (
        err assertion_error,
        record s { receive_queue = s.receive_queue ++ asked p ∷ []; send_queue = more },
      )
  unfolding handle_read_request put get_response
  handle_read_request-refused p n v response more s frame value c big queue =
      let has = (laws.template read_request_key).2.has in
      let h = p.header in
      let at : HasValue address (value_of address h) h =
        has_field g laws read_request_key p address frame has.1.0 in
      let long : HasValue data_length (value_of data_length h) h =
        has_field g laws read_request_key p data_length frame has.0 in
      let refused = response_header_refused g laws n v h frame.header_is.fits value c big in
      run_lift (get_item address h) at.item _ s at.found
      ∙ run_lift (get_item data_length h) long.item _ s long.found
      ∙ rw queue (rw refused (rw (at.value_is, long.value_is) refl))

  -- The connection after such a request.
  abbrev pub after_refusal : Packet → List (List ℕ) → List (List ℕ) → Connection → Connection
  after_refusal p segments more s = record s {
    segments = segments;
    receive_queue = s.receive_queue ++ asked p ∷ [];
    raw_receive_queue = logged s.raw_receive_queue (frame_bytes p ∷ []);
    send_queue = more;
  }

  handle_packet-refused :
      (p : Packet) (n : FieldName) (v : ℕ) (response rest : List ℕ) (more : List (List ℕ))
      (s : Connection)
      → IsFrame g read_request_key p
      → HasValue n v p.header
      → contains (name_key n) (response_template g laws) ≡ true
      → 256 ^ size_of n (response_template g laws) ≤ v
      → s.send_queue ≡ response ∷ more
      → AllArrive s.segments
      → concat s.segments ≡ frame_bytes p ++ rest
      → (segments : List (List ℕ)) × (handle_packet g s
          ≡ (err assertion_error, after_refusal p segments more s))
        × (concat segments ≡ rest)
  unfolding handle_packet dispatch is_write_request is_read_request
  handle_packet-refused p n v response rest more s frame value c big queue arrive stream =
      let valid = frame.header_is in
      let got : Takes (receive_packet g) s p rest =
        receive_packet-Takes g laws read_request_key p rest s frame arrive stream in
      let s' = record s {
        segments = got.segments;
        raw_receive_queue = logged s.raw_receive_queue (frame_bytes p ∷ []);
      } in
      (
        got.segments,
        rw got.returns (
            rw
              (store_raw-frame g laws read_request_key p (record s { segments = got.segments })
                frame)
              (rw (operation_test g laws write_key read_request_key p.header valid) (
                rw (operation_test g laws read_request_key read_request_key p.header valid)
                  (handle_read_request-refused p n v response more s' frame value c big queue)))),
        got.left,
      )

  -- A read request with a value that does not fit into its field of the read response ends the
  -- handler with an assertion error: the backend has got the request and its data is taken off the
  -- queue, but SigmaStudio gets no answer, what follows on the stream is not read, the handler does not
  -- close the socket, and the backend is not told that the connection ended.
  pub handle-refused :
      (p : Packet) (n : FieldName) (v fuel : ℕ) (response rest : List ℕ) (more : List (List ℕ))
      (s : Connection)
      → IsFrame g read_request_key p
      → HasValue n v p.header
      → contains (name_key n) (response_template g laws) ≡ true
      → 256 ^ size_of n (response_template g laws) ≤ v
      → s.send_queue ≡ response ∷ more
      → AllArrive s.segments
      → concat s.segments ≡ frame_bytes p ++ rest
      → (segments : List (List ℕ)) × (handle g (suc fuel) s
          ≡ (err assertion_error, after_refusal p segments more s))
        × (concat segments ≡ rest)
  unfolding on_result
  handle-refused p n v fuel response rest more s frame value c big queue arrive stream =
      let (segments, run, left) =
        handle_packet-refused p n v response rest more s frame value c big queue arrive stream in
      (segments, handle_step g laws fuel s _ _ run, left)
