-- ===== src/Server/Handle.antt =====
-- A write packet in sigmadsp/sigmastudio/server.py: the request that it stands for, and the debugging
-- queue.
use sigmadsp.Prelude.{
  ℕ, ◌≡◌, sym, ◌∙◌, true, Option, none, some, List, [], ◌∷◌, ◌++◌, arith, ◌==◌, if◌then◌else◌,
}
use sigmadsp.Prelude.Int.{pos}
use sigmadsp.Prelude.Result.{ok}
use sigmadsp.Header.{
  FieldName, OperationKey, write_key, address, safeload, contains, name_key, is_safeload,
  is_write_request,
}
use sigmadsp.Header.Codec.{as_bytes-eq-encode}
use sigmadsp.Header.Items.{HasValue, HasValue-value_of, value_of, contains-SameLayout}
use sigmadsp.Header.Generator.{PacketHeaderGenerator}
use sigmadsp.Header.Generator.Laws.{IsGenerator}
use sigmadsp.Server.Messages.{Message, write_request, safeload_request}
use sigmadsp.Server.Packets.{Packet, payload, as_bytes}
use sigmadsp.Server.Socket.{Connection, put_raw}
use sigmadsp.Server.Frames.{layout_of, IsFrame, frame_bytes, header-IsPacked, operation_test}
use sigmadsp.Server.{write_message, store_raw}

-- The request that a write packet stands for.
unfoldable pub message_of : Packet → Message
message_of p =
    if value_of safeload p.header == 1
    then safeload_request (pos (value_of address p.header)) (payload p)
    else write_request (pos (value_of address p.header)) (payload p)

-- What the debugging queue holds after some packets.
abbrev pub logged : Option (List (List ℕ)) → List (List ℕ) → Option (List (List ℕ))
logged none packets = none
logged (some queue) packets = some (queue ++ packets)

module _ (g : PacketHeaderGenerator) (laws : IsGenerator g) where
  pub as_bytes-frame :
      (k : OperationKey) (p : Packet) → IsFrame g k p → as_bytes p ≡ ok (frame_bytes p)
  unfolding as_bytes
  as_bytes-frame k p frame = rw (
      as_bytes-eq-encode p.header (header-IsPacked g laws k p.header frame.header_is)
        frame.header_is.fits)

  pub has_field :
      (k : OperationKey) (p : Packet) (n : FieldName)
      → IsFrame g k p
      → contains (name_key n) (laws.template k).0 ≡ true
      → HasValue n (value_of n p.header) p.header
  has_field k p n frame c =
      HasValue-value_of n p.header
        (sym (
            contains-SameLayout n (laws.template k).0 p.header
              (layout_of g laws k p.header frame.header_is))
          ∙ c)
        frame.header_is.fits

  pub write_message-frame :
      (p : Packet) → IsFrame g write_key p → write_message p ≡ ok (message_of p)
  unfolding write_message is_safeload is_write_request message_of
  write_message-frame p frame =
      let has = (laws.template write_key).2.has in
      let safe : HasValue safeload (value_of safeload p.header) p.header =
        has_field write_key p safeload frame has.0 in
      let at : HasValue address (value_of address p.header) p.header =
        has_field write_key p address frame has.1.1.0 in
      rw (operation_test g laws write_key write_key p.header frame.header_is)
        (rw safe.found (rw safe.value_is (rw at.found (rw at.value_is (ground arith)))))

  -- The debugging queue gets the raw packet, where there is one.
  pub store_raw-frame :
      (k : OperationKey) (p : Packet) (s : Connection)
      → IsFrame g k p
      → store_raw p s
        ≡ (ok tt, record s { raw_receive_queue = logged s.raw_receive_queue (frame_bytes p ∷ []) })
  unfolding store_raw put_raw
  store_raw-frame k p s frame = ground (arith, as_bytes-frame k p frame)

  -- The connection after a write packet.
  abbrev pub after_write : Packet → Connection → List (List ℕ) → Connection
  after_write p s segments = record s {
    segments = segments;
    receive_queue = s.receive_queue ++ message_of p ∷ [];
    raw_receive_queue = logged s.raw_receive_queue (frame_bytes p ∷ []);
  }
