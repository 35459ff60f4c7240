-- ===== src/Header/Parse.antt =====
-- `PacketHeader.parse` of sigmadsp/sigmastudio/header.py on received bytes of the header's size.
use sigmadsp.Prelude.{
  ℕ, ◌+◌, ◌≡◌, refl, ap, sym, ◌∙◌, List, [], ◌∷◌, arith, length, take, drop, All, length-take,
  length-drop, take-append-drop, All-take, All-drop, ==_refl, length_zero,
}
use sigmadsp.Prelude.Int.{pos}
use sigmadsp.Prelude.Result.{ok}
use sigmadsp.Conversion.{IsBytes, from_bytes, to_bytes-from_bytes, from_bytes-lt}
use sigmadsp.Header.{PacketHeader, size, as_bytes, parse}
use sigmadsp.Header.Codec.{
  IsPacked, Fits, SameLayout, encode, parse_fields-encode, as_bytes-eq-encode,
}

-- A header whose values are taken from the bytes, one field after the other.
unfoldable pub decode : List ℕ → PacketHeader → PacketHeader
decode bs [] = []
decode bs (f ∷ h) =
    record f { value = pos (from_bytes (take f.size bs)) } ∷ decode (drop f.size bs) h

pub decode-IsPacked :
    (bs : List ℕ) (k : ℕ) (h : PacketHeader) → IsPacked k h → IsPacked k (decode bs h)
unfolding decode
decode-IsPacked bs k [] p = tt
decode-IsPacked bs k (f ∷ h) p = (p.0, decode-IsPacked (drop f.size bs) (k + f.size) h p.1)

pub decode-SameLayout : (bs : List ℕ) (h : PacketHeader) → SameLayout h (decode bs h)
unfolding decode
decode-SameLayout bs [] = tt
decode-SameLayout bs (f ∷ h) = (refl, refl, refl, decode-SameLayout (drop f.size bs) h)

length-piece : (n m : ℕ) (bs : List ℕ) → length bs ≡ n + m → length (take n bs) ≡ n
length-piece n m bs e = omega (arith, length-take n bs)

length-rest : (n m : ℕ) (bs : List ℕ) → length bs ≡ n + m → length (drop n bs) ≡ m
length-rest n m bs e = omega (arith, length-drop n bs)

pub decode-Fits :
    (bs : List ℕ) (h : PacketHeader) → length bs ≡ size h → IsBytes bs → All Fits (decode bs h)
unfolding decode size
decode-Fits bs [] e valid = tt
decode-Fits bs (f ∷ h) e valid = (
  record {
    nonneg = refl;
    bound =
        from_bytes-lt f.size (take f.size bs) (length-piece f.size (size h) bs e)
          (All-take _ f.size bs valid);
  },
  decode-Fits (drop f.size bs) h (length-rest f.size (size h) bs e) (All-drop _ f.size bs valid),
)

pub encode-decode :
    (bs : List ℕ) (h : PacketHeader) → length bs ≡ size h → IsBytes bs → encode (decode bs h) ≡ bs
unfolding encode decode size
encode-decode bs [] e valid = sym (length_zero bs e)
encode-decode bs (f ∷ h) e valid =
    rw
      (
        to_bytes-from_bytes f.size (take f.size bs) (length-piece f.size (size h) bs e)
            (All-take _ f.size bs valid),
        encode-decode (drop f.size bs) h (length-rest f.size (size h) bs e)
            (All-drop _ f.size bs valid),
      )
      (take-append-drop f.size bs)

-- What a successful parse of `bs` into `g` gives: a header of the layout of `g`, packed, with
-- values that fit, which is written as `bs`.
pub record Parsed (bs : List ℕ) (g h : PacketHeader) : Type 0 where
  pub packed : IsPacked 0 h
  pub fits : All Fits h
  pub layout : SameLayout g h
  pub written : as_bytes h ≡ ok bs

-- Bytes, each below 256 and as many as a packed header has, parse into it: the result is packed, with
-- the same names, offsets and sizes, its values fit, and it is written as those bytes.
pub parse-Parsed :
    (bs : List ℕ) (g : PacketHeader)
    → IsPacked 0 g
    → IsBytes bs
    → length bs ≡ size g
    → (h : PacketHeader) × (parse bs g ≡ ok h) × Parsed bs g h
unfolding parse
parse-Parsed bs g packed valid e =
    let h = decode bs g in
    let packed' : IsPacked 0 h = decode-IsPacked bs 0 g packed in
    let fits : All Fits h = decode-Fits bs g e valid in
    let whole : encode h ≡ bs = encode-decode bs g e valid in
    (
      h,
      rw e (
          rw (==_refl (size g))
            (parse_fields-encode bs 0 h g packed' fits (decode-SameLayout bs g) (sym whole))),
      record {
        packed = packed';
        fits = fits;
        layout = decode-SameLayout bs g;
        written = as_bytes-eq-encode h packed' fits ∙ ap (λ (l : List ℕ). ok l) whole;
      },
    )
