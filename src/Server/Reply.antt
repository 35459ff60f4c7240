-- ===== src/Server/Reply.antt =====
-- The answer to a read request: the packet that `handle_read_request` of
-- sigmadsp/sigmastudio/server.py builds from the request and the data that the backend returns.
use sigmadsp.Prelude.{
  ℕ, ◌^◌, ◌≤◌, ◌≡◌, refl, ap, ◌∙◌, true, false, some, List, [], ◌∷◌, arith, length, All,
}
use sigmadsp.Prelude.Int.{abs, pos}
use sigmadsp.Prelude.Result.{ok, err, assertion_error}
use sigmadsp.Conversion.{from_bytes, to_bytes}
use sigmadsp.Header.{
  FieldName, PacketHeader, read_request_key, read_response_key, key_value, data_length, operation,
  success, name_key, same_name, contains, set_item, bytes, int,
}
use sigmadsp.Header.Codec.{SameLayout, SameLayout-sym, SameLayout-trans, Fits}
use sigmadsp.Header.Items.{HasValue, HasValue-lookup, contains-SameLayout}
use sigmadsp.Header.Fields.{Distinct}
use sigmadsp.Header.Update.{
  pow_positive, update, size_of, size_of-SameLayout, set_item-bytes, set_item-update,
  update-SameLayout, update-Fits, HasValue-update, HasValue-other,
}
use sigmadsp.Header.Copy.{
  copied, HasRoom, copied-SameLayout, copied-Fits, copy_from_template-copied, copied-HasValue,
  copy_from_template_too_big, Distinct-SameLayout,
}
use sigmadsp.Header.Generator.{
  PacketHeaderGenerator, new_header_from_operation_byte, new_header_from_operation_key,
}
use sigmadsp.Header.Generator.Laws.{IsGenerator, IsTemplate}
use sigmadsp.Server.Packets.{Packet}
use sigmadsp.Server.Frames.{BeginsWith, IsHeader, IsFrame, layout_of, operation_key_lem}

-- A header that begins with the operation byte has one byte for it, and keeps it first.
has_operation_byte :
    (h : PacketHeader)
    → IsTemplate read_response_key h
    → (contains (name_key operation) h ≡ true) × (size_of operation h ≡ 1)
unfolding contains size_of same_name
has_operation_byte h t = rw (t.split, t.first_name, t.first_size) (refl, refl)

-- Whatever the values were, the answer begins with the operation byte.
reply_begins :
    (h template : PacketHeader)
    → IsTemplate read_response_key template
    → SameLayout h template
    → BeginsWith read_response_key
        (update success 0 (update operation (key_value read_response_key) h))
unfolding update same_name
reply_begins [] template t same = rw t.split at same
reply_begins (f ∷ h) template t same =
    let with_first : SameLayout (f ∷ h) (t.first ∷ t.rest) = rw t.split at same in
    let named : f.name ≡ operation = with_first.0 ∙ t.first_name in rw named refl

module _ (g : PacketHeaderGenerator) (laws : IsGenerator g) where
  -- The header that the generator makes for a response.
  abbrev pub response_template : PacketHeader
  response_template = (laws.template read_response_key).0

  -- The header of a response, with the values of the request.
  abbrev pub response_header : PacketHeader → PacketHeader
  response_header h = update operation (key_value read_response_key) (copied h response_template)

  pub response_header_made :
      (h : PacketHeader)
      → All Fits h
      → All (HasRoom response_template) h
      → new_header_from_operation_key g read_response_key (some h) ≡ ok (response_header h)
  unfolding new_header_from_operation_key new_header_from_operation_byte to_bytes update
  response_header_made h fits wide =
      let (template, made, t) = laws.template read_response_key in
      let same : SameLayout (copied h template) template = copied-SameLayout h template in
      let (c, size) = has_operation_byte template t in
      let set : set_item operation (bytes (key_value read_response_key ∷ [])) (copied h template)
          ≡ ok (response_header h) =
        set_item-bytes operation _ (copied h template)
          (contains-SameLayout operation (copied h template) template same ∙ c)
          (size_of-SameLayout operation (copied h template) template same ∙ size)
        ∙ unfold from_bytes in refl in
      rw (operation_key_lem read_response_key)
        (rw made (rw (copy_from_template-copied h template fits wide) set))

  -- Where a value of the request does not fit into the response, there is no header for it.
  pub response_header_refused :
      (n : FieldName) (v : ℕ) (h : PacketHeader)
      → All Fits h
      → HasValue n v h
      → contains (name_key n) response_template ≡ true
      → 256 ^ size_of n response_template ≤ v
      → new_header_from_operation_key g read_response_key (some h) ≡ err assertion_error
  unfolding new_header_from_operation_key new_header_from_operation_byte to_bytes
  response_header_refused n v h fits value c big =
      let (template, made, _) = laws.template read_response_key in
      let (found, _) = HasValue-lookup n v h value in
      let large : 256 ^ size_of n template ≤ abs value.item.value = rw (value.value_is) big in
      rw (operation_key_lem read_response_key)
        (rw made (rw (copy_from_template_too_big n value.item h template fits found c large) refl))

  -- The packet of the answer.
  abbrev pub reply : PacketHeader → List ℕ → Packet
  reply h response = record {
    header = update success 0 (response_header h);
    stored = some response;
  }

  pub response_header-SameLayout :
      (h : PacketHeader) → SameLayout (response_header h) response_template
  response_header-SameLayout h =
      let c = copied h response_template in
      SameLayout-trans (response_header h) c response_template (update-SameLayout operation _ c)
        (copied-SameLayout h response_template)

  reply-SameLayout :
      (h : PacketHeader) → SameLayout (update success 0 (response_header h)) response_template
  reply-SameLayout h =
      SameLayout-trans _ (response_header h) response_template
        (update-SameLayout success 0 (response_header h)) (response_header-SameLayout h)

  -- A field other than the operation, which a response has too, keeps the value of the request.
  pub response_header-HasValue :
      (n : FieldName) (v : ℕ) (h : PacketHeader)
      → IsHeader g read_request_key h
      → same_name n operation ≡ false
      → HasValue n v h
      → contains (name_key n) response_template ≡ true
      → HasValue n v (response_header h)
  response_header-HasValue n v h valid other value c =
      let (_, _, request) = laws.template read_request_key in
      let d : Distinct h =
        Distinct-SameLayout _ h (layout_of g laws read_request_key h valid) request.distinct in
      let (found, _) = HasValue-lookup n v h value in
      rw (ap abs value.value_is) at (
        HasValue-other n operation (key_value read_response_key) (abs value.item.value)
          (copied h response_template) other
          (copied-HasValue n value.item h response_template d found c))

  reply-IsHeader :
      (h : PacketHeader) (response : List ℕ)
      → All Fits h
      → All (HasRoom response_template) h
      → IsHeader g read_response_key (reply h response).header
  reply-IsHeader h response fits wide =
      let (template, made, t) = laws.template read_response_key in
      let c = copied h template in
      let same : SameLayout c template = copied-SameLayout h template in
      let (has, one) = has_operation_byte template t in
      record {
        template = template;
        made = made;
        layout = SameLayout-sym _ template (reply-SameLayout h);
        fits = update-Fits success 0 (response_header h) (pow_positive _) (
            update-Fits operation (key_value read_response_key) c
              (rw (size_of-SameLayout operation c template same, one) (omega arith))
              (copied-Fits h template wide t.fits));
        begins = reply_begins c template t same;
      }

  -- Where the values of the request fit into a response, and the data has the length that the request
  -- asks for, the answer is a packet of the protocol.
  pub reply-IsFrame :
      (p : Packet) (response : List ℕ)
      → IsFrame g read_request_key p
      → All (HasRoom response_template) p.header
      → HasValue data_length (length response) p.header
      → IsFrame g read_response_key (reply p.header response)
  unfolding same_name
  reply-IsFrame p response frame wide long =
      let has = (laws.template read_response_key).2.has in
      record {
        header_is = reply-IsHeader p.header response frame.header_is.fits wide;
        payload_follows = (
          response,
          refl,
          HasValue-other data_length success 0 _ (response_header p.header) refl
              (response_header-HasValue data_length _ p.header frame.header_is refl long has.0),
        );
      }

  -- Where the values of a read request fit into a response, and the data has the length that the request
  -- asks for, the generator makes a header for the response from that of the request, and the flag
  -- for success can be set to 0 in it. With that header and the data, the answer is a packet of the
  -- protocol; a field that both headers have, other than the operation and the flag for success, has
  -- the value of the request; and the flag for success is 0.
  pub reply_lem :
      (p : Packet) (response : List ℕ) (n : FieldName) (v : ℕ)
      → IsFrame g read_request_key p
      → All (HasRoom response_template) p.header
      → HasValue data_length (length response) p.header
      → same_name n operation ≡ false
      → same_name n success ≡ false
      → HasValue n v p.header
      → contains (name_key n) response_template ≡ true
      → (made finished : PacketHeader) × (new_header_from_operation_key g read_response_key
            (some p.header)
          ≡ ok made)
        × (set_item success (int (pos 0)) made ≡ ok finished)
        × IsFrame g read_response_key (record { header = finished; stored = some response })
        × HasValue n v finished
        × HasValue success 0 finished
  reply_lem p response n v frame wide long other not_success value c =
      let has_success : contains (name_key success) (response_header p.header) ≡ true =
        contains-SameLayout success (response_header p.header) response_template
          (response_header-SameLayout p.header)
        ∙ (laws.template read_response_key).2.has.1.0 in
      (
        response_header p.header,
        (reply p.header response).header,
        response_header_made p.header frame.header_is.fits wide,
        set_item-update success 0 (response_header p.header) has_success (pow_positive _),
        reply-IsFrame p response frame wide long,
        HasValue-other n success 0 v (response_header p.header) not_success
            (response_header-HasValue n v p.header frame.header_is other value c),
        HasValue-update success 0 (response_header p.header) has_success,
      )
