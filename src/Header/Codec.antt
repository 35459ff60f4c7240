-- ===== src/Header/Codec.antt =====
-- `PacketHeader.parse` and `PacketHeader.as_bytes` of sigmadsp/sigmastudio/header.py on packed
-- headers.
use native.Mathlib.Nat.{pow-suc}
use native.Mathlib.Numerals.{towards_suc}
use sigmadsp.Prelude.{
  ℕ, zero, suc, ◌+◌, ◌*◌, ◌^◌, ◌≤◌, ◌<◌, ◌≡◌, refl, ap, sym, ◌∙◌, some, List, [], ◌∷◌, ◌++◌,
  append-nil, append_assoc, arith, length, take, drop, All, length-append, take-append, drop-append,
  drop-drop, lt→ltb, le→leb, ==_refl, leb→le, leb, Bool-cases, inl, inr,
}
use sigmadsp.Prelude.Int.{pos, abs}
use sigmadsp.Prelude.Result.{ok, err, assertion_error, ◌>>=◌}
use sigmadsp.Conversion.{
  to_bytes, from_bytes, length-to_bytes, from_bytes-to_bytes, bytes_to_int, int_to_bytes,
  bit_length,
}
use sigmadsp.Conversion.Buffer.{splice_end}
use sigmadsp.Conversion.Fixpoint.Range.{bit_length_iff}
use sigmadsp.Header.{
  Field, PacketHeader, set_value, int, size, write_fields, as_bytes, parse_fields, parse,
}

-- The fields follow each other without gaps from byte `k` on.
abbrev pub IsPacked : ℕ → PacketHeader → Type 0
IsPacked k [] = Unit
IsPacked k (f ∷ h) = (f.offset ≡ k) × IsPacked (k + f.size) h

-- The value of a field is not negative and fits into its bytes.
pub record Fits (f : Field) : Type 0 where
  pub nonneg : f.value ≡ pos (abs f.value)
  pub bound : abs f.value < 256 ^ f.size

-- The same names, offsets and sizes, in the same order.
abbrev pub SameLayout : PacketHeader → PacketHeader → Type 0
SameLayout [] [] = Unit
SameLayout (f ∷ h) (g ∷ k) =
    (f.name ≡ g.name) × (f.offset ≡ g.offset) × (f.size ≡ g.size) × SameLayout h k
SameLayout _ _ = ⊥

pub SameLayout-refl : (h : PacketHeader) → SameLayout h h
SameLayout-refl [] = tt
SameLayout-refl (f ∷ h) = (refl, refl, refl, SameLayout-refl h)

pub SameLayout-sym : (h k : PacketHeader) → SameLayout h k → SameLayout k h
SameLayout-sym [] [] same = tt
SameLayout-sym [] (y ∷ k) same = absurd same
SameLayout-sym (x ∷ h) [] same = absurd same
SameLayout-sym (x ∷ h) (y ∷ k) same =
    (sym same.0, sym same.1, sym same.2, SameLayout-sym h k same.3)

pub SameLayout-trans : (h k l : PacketHeader) → SameLayout h k → SameLayout k l → SameLayout h l
SameLayout-trans [] [] [] p q = tt
SameLayout-trans [] [] (z ∷ l) p q = absurd q
SameLayout-trans [] (y ∷ k) l p q = absurd p
SameLayout-trans (x ∷ h) [] l p q = absurd p
SameLayout-trans (x ∷ h) (y ∷ k) [] p q = absurd q
SameLayout-trans (x ∷ h) (y ∷ k) (z ∷ l) p q =
    (p.0 ∙ q.0, p.1 ∙ q.1, p.2 ∙ q.2, SameLayout-trans h k l p.3 q.3)

pub SameLayout-IsPacked :
    (k : ℕ) (g h : PacketHeader) → SameLayout g h → IsPacked k g → IsPacked k h
SameLayout-IsPacked k [] [] same p = tt
SameLayout-IsPacked k [] (f ∷ h) same p = absurd same
SameLayout-IsPacked k (x ∷ g) [] same p = absurd same
SameLayout-IsPacked k (x ∷ g) (f ∷ h) same p =
    (sym same.1 ∙ p.0, SameLayout-IsPacked (k + f.size) g h same.3 (rw same.2 at p.1))

-- The big-endian values of the fields, one after the other.
unfoldable pub encode : PacketHeader → List ℕ
encode [] = []
encode (f ∷ h) = to_bytes f.size (abs f.value) ++ encode h

pub length-encode : (h : PacketHeader) → length (encode h) ≡ size h
unfolding encode size
length-encode [] = refl
length-encode (f ∷ h) = omega (
  arith,
  length-append (to_bytes f.size (abs f.value)) (encode h),
  length-to_bytes f.size (abs f.value),
  length-encode h,
)

write_field :
    (f : Field) (buffer : List ℕ)
    → f.offset ≡ length buffer
    → Fits f
    → int_to_bytes f.value (some buffer) f.offset f.size
      ≡ ok (buffer ++ to_bytes f.size (abs f.value))
unfolding int_to_bytes
write_field f buffer e fits =
    rw (fits.nonneg, lt→ltb (abs f.value) (256 ^ f.size) fits.bound)
      (ap (λ (l : List ℕ). ok l)
        (splice_end buffer (to_bytes f.size (abs f.value)) f.offset f.size e))

write_fields_lem :
    (h : PacketHeader) (k : ℕ) (buffer : List ℕ)
    → length buffer ≡ k
    → IsPacked k h
    → All Fits h
    → write_fields h buffer ≡ ok (buffer ++ encode h)
unfolding write_fields encode
write_fields_lem [] k buffer e packed fits = rw append-nil
write_fields_lem (f ∷ h) k buffer e packed fits =
    let piece = to_bytes f.size (abs f.value) in
    rw (write_field f buffer (packed.0 ∙ sym e) fits.0) (
      rw
        (write_fields_lem h (k + f.size) (buffer ++ piece)
          (omega (arith, length-append buffer piece, length-to_bytes f.size (abs f.value))) packed.1
          fits.1)
        (ap (λ (l : List ℕ). ok l) (append_assoc buffer piece (encode h))))

-- A packed header whose values fit is written as the concatenation of its values.
pub as_bytes-eq-encode : (h : PacketHeader) → IsPacked 0 h → All Fits h → as_bytes h ≡ ok (encode h)
unfolding as_bytes
as_bytes-eq-encode h packed fits = write_fields_lem h 0 [] refl packed fits

pub pow_256 : (n : ℕ) → 256 ^ n ≡ 2 ^ (n * 8)
pow_256 zero = refl
pow_256 (suc n) =
    let step : suc n * 8 ≡ n * 8 + 8 = omega arith in
    rw step (simp towards_suc (omega (arith, pow_256 n, pow-suc 256 n)))

-- The setter accepts a number that fits into the bytes of the field.
pub set_value_fits :
    (f : Field) (v : ℕ)
    → v < 256 ^ f.size
    → set_value f (int (pos v)) ≡ ok (record f { value = pos v })
unfolding set_value
set_value_fits f v h =
    let short : bit_length (pos v) ≤ f.size * 8 =
      (bit_length_iff (pos v) (f.size * 8)).1 (rw (pow_256 f.size) at h) in
    rw (le→leb _ _ short)

-- It refuses a number that does not fit.
pub set_value_too_big :
    (f : Field) (v : ℕ) → 256 ^ f.size ≤ v → set_value f (int (pos v)) ≡ err assertion_error
unfolding set_value
set_value_too_big f v h = elim (Bool-cases (leb (bit_length (pos v)) (f.size * 8))) [
  | inl short ↦
      let small : v < 2 ^ (f.size * 8) =
        (bit_length_iff (pos v) (f.size * 8)).0 (leb→le _ _ short) in
      absurd (omega (arith, pow_256 f.size))
  | inr long ↦ rw long refl
]

module _ (bs piece tail : List ℕ) (k n : ℕ) (at : drop k bs ≡ piece ++ tail)
    (e : n ≡ length piece) where
  -- The field at `k` of bytes that hold `piece` there.
  field_at : bytes_to_int bs k (some n) ≡ from_bytes piece
  unfolding bytes_to_int
  field_at = ap from_bytes (ap (take n) at ∙ take-append piece tail n e)

  after_field : drop (k + n) bs ≡ tail
  after_field =
      sym (drop-drop n k (k + n) bs (omega arith)) ∙ ap (drop n) at ∙ drop-append piece tail n e

filled :
    (f g : Field)
    → Fits f
    → g.name ≡ f.name
    → g.offset ≡ f.offset
    → g.size ≡ f.size
    → (v : ℕ) → v ≡ abs f.value
    → set_value g (int (pos v)) ≡ ok f
filled f g fits same_name same_offset same_size v e =
    set_value_fits g v (rw (e, same_size) fits.bound)
    ∙ cc (same_name, same_offset, same_size, e, fits.nonneg)

-- Reading the fields of a packed header out of bytes that hold the values of another header of the
-- same layout gives that header.
pub parse_fields-encode :
    (bs : List ℕ) (k : ℕ) (h g : PacketHeader)
    → IsPacked k h
    → All Fits h
    → SameLayout g h
    → drop k bs ≡ encode h
    → parse_fields bs g ≡ ok h
unfolding parse_fields encode
parse_fields-encode bs k [] [] packed fits same e = refl
parse_fields-encode bs k [] (g ∷ gs) packed fits same e = absurd same
parse_fields-encode bs k (f ∷ h) [] packed fits same e = absurd same
parse_fields-encode bs k (f ∷ h) (g ∷ gs) packed fits same e =
    let piece = to_bytes f.size (abs f.value) in
    let long : f.size ≡ length piece = sym (length-to_bytes f.size (abs f.value)) in
    let value : bytes_to_int bs g.offset (some g.size) ≡ abs f.value =
      rw (same.1, same.2, packed.0) (field_at bs piece (encode h) k f.size e long)
      ∙ from_bytes-to_bytes f.size (abs f.value) fits.0.bound in
    rw (filled f g fits.0 same.0 same.1 same.2 _ value) (
      rw (
        parse_fields-encode bs (k + f.size) h gs packed.1 fits.1 same.3
          (after_field bs piece (encode h) k f.size e long)))

pub SameLayout-size : (g h : PacketHeader) → SameLayout g h → size g ≡ size h
unfolding size
SameLayout-size [] [] same = refl
SameLayout-size [] (f ∷ h) same = absurd same
SameLayout-size (g ∷ gs) [] same = absurd same
SameLayout-size (g ∷ gs) (f ∷ h) same = omega (arith, same.2, SameLayout-size gs h same.3)

-- The bytes of a packed header whose values fit parse, into any header of the same layout, to it.
pub parse-encode :
    (h g : PacketHeader) → IsPacked 0 h → All Fits h → SameLayout g h → parse (encode h) g ≡ ok h
unfolding parse
parse-encode h g packed fits same =
    let long : length (encode h) ≡ size g = length-encode h ∙ sym (SameLayout-size g h same) in
    rw long (rw (==_refl (size g)) (parse_fields-encode (encode h) 0 h g packed fits same refl))

-- Writing a packed header whose values fit, and parsing the bytes into any header of the same
-- layout, gives that header back.
pub parse-as_bytes :
    (h g : PacketHeader)
    → IsPacked 0 h
    → All Fits h
    → SameLayout g h
    → (as_bytes h >>= λ bs. parse bs g) ≡ ok h
parse-as_bytes h g packed fits same =
    rw (as_bytes-eq-encode h packed fits) (parse-encode h g packed fits same)
