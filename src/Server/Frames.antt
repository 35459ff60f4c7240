-- ===== src/Server/Frames.antt =====
-- Whole packets on the stream of sigmadsp/sigmastudio/server.py: their headers, their payloads and
-- their bytes.
use sigmadsp.Prelude.{
  ℕ, ◌-◌, ◌%◌, ◌≡◌, refl, ap, sym, ◌∙◌, Bool, true, false, none, some, List, [], ◌∷◌, ◌++◌, arith,
  length, All,
}
use sigmadsp.Prelude.Int.{pos, eqb_ℤ}
use sigmadsp.Prelude.Result.{ok}
use sigmadsp.Conversion.{bytes_to_int, from_bytes, to_bytes}
use sigmadsp.Header.{
  Field, PacketHeader, OperationKey, read_request_key, read_response_key, write_key, key_value,
  operation_key, operation, data_length, size, get_item, set_item, bytes, has_operation,
  is_write_request, is_read_response, carries_payload,
}
use sigmadsp.Header.Codec.{
  IsPacked, Fits, SameLayout, SameLayout-refl, SameLayout-IsPacked, encode, length-encode,
}
use sigmadsp.Header.Items.{HasValue, get_item_named, set_operation, set_item_zero}
use sigmadsp.Header.Generator.{PacketHeaderGenerator, header_for, new_header_from_operation_byte}
use sigmadsp.Header.Generator.Laws.{IsGenerator}
use sigmadsp.Server.Packets.{Packet, new_packet, payload, set_payload}

-- The operation byte comes first.
abbrev pub BeginsWith : OperationKey → PacketHeader → Type 0
BeginsWith k [] = ⊥
BeginsWith k (f ∷ h) = f.value ≡ pos (key_value k)

-- The byte of an operation is read as that operation.
pub operation_key_lem :
    (k : OperationKey) → operation_key (bytes_to_int (key_value k ∷ []) 0 (some 1)) ≡ ok k
unfolding operation_key bytes_to_int from_bytes
operation_key_lem read_request_key = refl
operation_key_lem read_response_key = refl
operation_key_lem write_key = refl

set_operation_split :
    (h : PacketHeader) (f : Field) (r : PacketHeader) (b : ℕ)
    → h ≡ f ∷ r
    → f.name ≡ operation
    → f.size ≡ 1
    → (h' : PacketHeader) × (set_item operation (bytes (b ∷ [])) h ≡ ok h') × SameLayout h' h
set_operation_split h f r b split named one = rw split (
  record f { value = pos (from_bytes (b ∷ [])) } ∷ r,
  set_operation f r b named one,
  (refl, refl, refl, SameLayout-refl r),
)

-- What follows the header: the payload, where the operation carries one.
abbrev pub PayloadFollows : OperationKey → Packet → Type 0
PayloadFollows read_request_key p = p.stored ≡ none
PayloadFollows read_response_key p =
    (bs : List ℕ) × (p.stored ≡ some bs) × HasValue data_length (length bs) p.header
PayloadFollows write_key p =
    (bs : List ℕ) × (p.stored ≡ some bs) × HasValue data_length (length bs) p.header

-- The bytes of a packet on the stream.
abbrev pub frame_bytes : Packet → List ℕ
frame_bytes p = encode p.header ++ payload p

-- Whether a packet of the operation carries a payload.
unfoldable pub carries : OperationKey → Bool
carries read_request_key = false
carries read_response_key = true
carries write_key = true

module _ (g : PacketHeaderGenerator) where
  -- A header of the kind `k`, as a client of the protocol builds it: it has the layout of the headers
  -- that the generator makes, and begins with the operation byte.
  pub record IsHeader (k : OperationKey) (h : PacketHeader) : Type 0 where
    pub template : PacketHeader
    pub made : header_for g k ≡ ok template
    pub layout : SameLayout template h
    pub fits : All Fits h
    pub begins : BeginsWith k h

  -- A packet as a client of the protocol sends it.
  pub record IsFrame (k : OperationKey) (p : Packet) : Type 0 where
    pub header_is : IsHeader k p.header
    pub payload_follows : PayloadFollows k p

key_small : (k : OperationKey) → key_value k % 256 ≡ key_value k
key_small read_request_key = refl
key_small read_response_key = refl
key_small write_key = refl

module _ (g : PacketHeaderGenerator) (laws : IsGenerator g) where
  -- Such a header has the layout of the template of its kind.
  pub layout_of :
      (k : OperationKey) (h : PacketHeader) → IsHeader g k h → SameLayout (laws.template k).0 h
  layout_of k h valid =
      let same : valid.template ≡ (laws.template k).0 = cc (valid.made, (laws.template k).1) in
      rw same at valid.layout

  -- The header that the generator makes for an operation byte has the layout of its template.
  pub header_from_byte :
      (k : OperationKey)
      → (h : PacketHeader) × (new_header_from_operation_byte g (key_value k ∷ []) none ≡ ok h)
        × SameLayout h (laws.template k).0
  unfolding new_header_from_operation_byte
  header_from_byte k =
      let (template, built, t) = laws.template k in
      let (h, set, same) =
        set_operation_split template t.first t.rest (key_value k) t.split t.first_name
          t.first_size in
      (h, rw (operation_key_lem k) (rw built set), same)

  -- The first field of such a header.
  first_field :
      (k : OperationKey) (h : PacketHeader)
      → IsHeader g k h
      → (f : Field) × (r : PacketHeader) × (h ≡ f ∷ r)
        × (f.name ≡ operation)
        × (f.size ≡ 1)
        × (f.value ≡ pos (key_value k))
  first_field k [] h = absurd h.begins
  first_field k (f ∷ r) h =
      let (template, _, t) = laws.template k in
      let same : SameLayout (t.first ∷ t.rest) (f ∷ r) = rw t.split at (layout_of k (f ∷ r) h) in
      (f, r, refl, sym same.0 ∙ t.first_name, sym same.2 ∙ t.first_size, h.begins)

  pub header-IsPacked : (k : OperationKey) (h : PacketHeader) → IsHeader g k h → IsPacked 0 h
  header-IsPacked k h valid =
      SameLayout-IsPacked 0 (laws.template k).0 h (layout_of k h valid) (laws.template k).2.packed

  -- The bytes of the header begin with the operation byte.
  pub encode-header :
      (k : OperationKey) (h : PacketHeader)
      → IsHeader g k h
      → (tail : List ℕ) × (encode h ≡ key_value k ∷ tail) × (length tail ≡ size h - 1)
  unfolding encode to_bytes
  encode-header k h valid =
      let (f, r, split, _, one, value) = first_field k h valid in
      let small : key_value k % 256 ≡ key_value k = key_small k in
      let bytes_are : encode h ≡ key_value k ∷ encode r = rw (split, one, value) (rw small) in
      (encode r, bytes_are, omega (arith, ap (length {A = ℕ}) bytes_are, length-encode h))

  -- The tests on the operation see the kind of the header.
  pub operation_test :
      (j k : OperationKey) (h : PacketHeader)
      → IsHeader g k h
      → has_operation j h ≡ ok (eqb_ℤ (pos (key_value k)) (pos (key_value j)))
  unfolding has_operation
  operation_test j k h valid =
      let (f, r, split, named, _, value) = first_field k h valid in
      let found : get_item operation h ≡ ok f = get_item_named operation f r h split named in
      rw found (rw value)

  pub carries_payload_lem :
      (k : OperationKey) (h : PacketHeader) → IsHeader g k h → carries_payload h ≡ ok (carries k)
  unfolding carries_payload is_write_request is_read_response carries
  carries_payload_lem read_request_key h valid =
      rw (operation_test write_key read_request_key h valid)
        (operation_test read_response_key read_request_key h valid)
  carries_payload_lem read_response_key h valid =
      rw (operation_test write_key read_response_key h valid)
        (operation_test read_response_key read_response_key h valid)
  carries_payload_lem write_key h valid = rw (operation_test write_key write_key h valid)

-- A payload of the announced length is stored as it is.
pub new_packet-payload :
    (h : PacketHeader) (bs : List ℕ)
    → HasValue data_length (length bs) h
    → new_packet h (some bs) ≡ ok (record { header = h; stored = some bs })
unfolding new_packet set_payload
new_packet-payload h [] v = rw (v.found, v.value_is) (rw (set_item_zero data_length h v))
new_packet-payload h (b ∷ bs) v = rw (v.found, v.value_is) (ground arith)
