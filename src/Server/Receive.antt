-- ===== src/Server/Receive.antt =====
-- `SigmaStudioRequestHandler.new_packet` of sigmadsp/sigmastudio/server.py on the bytes of a
-- packet.
use sigmadsp.Prelude.{
  ℕ, ◌-◌, ◌≡◌, ap, ◌∙◌, true, none, some, List, [], ◌∷◌, ◌++◌, append_assoc, arith, length, concat,
}
use sigmadsp.Prelude.Int.{pos_part}
use sigmadsp.Prelude.Result.{ok}
use sigmadsp.Prelude.Exec.{lift}
use sigmadsp.Header.{
  PacketHeader, OperationKey, read_request_key, read_response_key, write_key, key_value,
  data_length, size, parse, get_item, carries_payload,
}
use sigmadsp.Header.Codec.{SameLayout, SameLayout-trans, SameLayout-size, encode, parse-encode}
use sigmadsp.Header.Items.{HasValue}
use sigmadsp.Header.Generator.{PacketHeaderGenerator, new_header_from_operation_byte}
use sigmadsp.Header.Generator.Laws.{IsGenerator}
use sigmadsp.Server.Packets.{Packet, new_packet, payload}
use sigmadsp.Server.Socket.{Connection, read}
use sigmadsp.Server.Segments.{AllArrive}
use sigmadsp.Server.Stream.{Takes, read-Takes, Takes-bind, Takes-lift}
use sigmadsp.Server.Frames.{
  layout_of, IsFrame, IsHeader, frame_bytes, carries, header_from_byte, header-IsPacked,
  encode-header, carries_payload_lem, new_packet-payload,
}
use sigmadsp.Server.{receive_payload, receive_packet}

module _ (g : PacketHeaderGenerator) where
  -- A payload of the announced length.
  payload-Takes :
      (h : PacketHeader) (bs rest : List ℕ) (s : Connection)
      → HasValue data_length (length bs) h
      → AllArrive s.segments
      → concat s.segments ≡ bs ++ rest
      → Takes (receive_payload g h true) s (record { header = h; stored = some bs }) rest
  unfolding receive_payload
  payload-Takes h bs rest s v arrive stream =
      Takes-bind (lift (get_item data_length h)) _ s v.item _ (bs ++ rest) rest
        (Takes-lift (get_item data_length h) s v.item (bs ++ rest) v.found arrive stream)
        λ segments arrive' stream'.
          Takes-bind (read (pos_part v.item.value)) _ (record s { segments = segments }) bs _ rest
            rest
            (rw v.value_is (read-Takes (record s { segments = segments }) bs rest arrive' stream'))
            λ segments' arrive'' stream''.
              Takes-lift (new_packet h (some bs)) (record s { segments = segments' }) _ rest
                (new_packet-payload h bs v) arrive'' stream''

  stored-Takes :
      (p : Packet) (bs rest : List ℕ) (s : Connection)
      → p.stored ≡ some bs
      → HasValue data_length (length bs) p.header
      → AllArrive s.segments
      → concat s.segments ≡ payload p ++ rest
      → Takes (receive_payload g p.header true) s p rest
  unfolding payload
  stored-Takes p bs rest s stored v arrive stream =
      let same : record { header = p.header; stored = some bs } ≡ p = cc stored in
      rw same at (payload-Takes p.header bs rest s v arrive (rw stored at stream))

  receive_payload-Takes :
      (laws : IsGenerator g) (k : OperationKey) (p : Packet) (rest : List ℕ) (s : Connection)
      → IsFrame g k p
      → AllArrive s.segments
      → concat s.segments ≡ payload p ++ rest
      → Takes (receive_payload g p.header (carries k)) s p rest
  unfolding carries receive_payload new_packet payload
  receive_payload-Takes laws read_request_key p rest s frame arrive stream =
      Takes-lift (new_packet p.header none) s p rest (cc frame.payload_follows) arrive
        (rw frame.payload_follows at stream)
  receive_payload-Takes laws read_response_key p rest s frame arrive stream =
      let (bs, stored, v) = frame.payload_follows in stored-Takes p bs rest s stored v arrive stream
  receive_payload-Takes laws write_key p rest s frame arrive stream =
      let (bs, stored, v) = frame.payload_follows in stored-Takes p bs rest s stored v arrive stream

  -- From a stream that begins with the bytes of a packet, however they are cut into segments,
  -- `new_packet` returns that packet, leaves what follows it, and changes nothing else.
  pub receive_packet-Takes :
      (laws : IsGenerator g) (k : OperationKey) (p : Packet) (rest : List ℕ) (s : Connection)
      → IsFrame g k p
      → AllArrive s.segments
      → concat s.segments ≡ frame_bytes p ++ rest
      → Takes (receive_packet g) s p rest
  unfolding receive_packet
  receive_packet-Takes laws k p rest s frame arrive stream =
      let h = p.header in
      let valid : IsHeader g k h = frame.header_is in
      let (tail, begins, tail_size) = encode-header g laws k h valid in
      let (fresh, made, fresh_layout) = header_from_byte g laws k in
      let same : SameLayout fresh h =
        SameLayout-trans fresh (laws.template k).0 h fresh_layout (layout_of g laws k h valid) in
      let after_byte : List ℕ = tail ++ (payload p ++ rest) in
      let cut : concat s.segments ≡ (key_value k ∷ []) ++ after_byte =
        stream
        ∙ append_assoc (encode h) (payload p) rest
        ∙ ap (λ (l : List ℕ). l ++ (payload p ++ rest)) begins in
      let tail_is : size fresh - 1 ≡ length tail = omega (arith, SameLayout-size fresh h same) in
      let parsed : parse ((key_value k ∷ []) ++ tail) fresh ≡ ok h =
        rw (← begins) (parse-encode h fresh (header-IsPacked g laws k h valid) valid.fits same) in
      Takes-bind (read 1) _ s (key_value k ∷ []) p after_byte rest
        (read-Takes s (key_value k ∷ []) after_byte arrive cut)
        λ s1 a1 e1.
          Takes-bind (lift (new_header_from_operation_byte g (key_value k ∷ []) none)) _ _ fresh p
            after_byte rest (Takes-lift _ (record s { segments = s1 }) fresh after_byte made a1 e1)
            λ s2 a2 e2.
              Takes-bind (read (size fresh - 1)) _ _ tail p (payload p ++ rest) rest
                (rw tail_is (read-Takes (record s { segments = s2 }) tail _ a2 e2))
                λ s3 a3 e3.
                  Takes-bind (lift (parse ((key_value k ∷ []) ++ tail) fresh)) _ _ h p
                    (payload p ++ rest) rest
                    (Takes-lift _ (record s { segments = s3 }) h _ parsed a3 e3)
                    λ s4 a4 e4.
                      Takes-bind (lift (carries_payload h)) _ _ (carries k) p (payload p ++ rest)
                        rest
                        (Takes-lift _ (record s { segments = s4 }) (carries k) _
                          (carries_payload_lem g laws k h valid) a4 e4)
                        λ s5 a5 e5.
                          receive_payload-Takes laws k p rest (record s { segments = s5 }) frame a5
                            e5
