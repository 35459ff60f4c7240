-- ===== src/Conversion/Bytes.antt =====
-- Big-endian bytes: `int.from_bytes` and `int.to_bytes` of Python.
use native.Mathlib.Nat.{pow-suc}
use sigmadsp.Prelude.{
  ℕ, zero, suc, ◌+◌, ◌*◌, ◌/◌, ◌%◌, ◌^◌, ◌<◌, ◌≡◌, ◌⊎◌, inl, inr, refl, sym, ap, ◌∙◌, List, [], ◌∷◌,
  ◌++◌, arith, length, All, All-append, length-append,
}

-- A byte string: numbers below 256.
abbrev pub IsBytes : List ℕ → Type 0
IsBytes = All (λ b. b < 256)

from_digits : ℕ → List ℕ → ℕ
from_digits acc [] = acc
from_digits acc (b ∷ bs) = from_digits (acc * 256 + b) bs

-- `int.from_bytes(bytes, byteorder="big")`
unfoldable pub from_bytes : List ℕ → ℕ
unfolding from_digits
from_bytes bs = from_digits 0 bs

-- The `length` last base-256 digits, the most significant first.
unfoldable pub to_bytes : ℕ → ℕ → List ℕ
to_bytes zero v = []
to_bytes (suc n) v = to_bytes n (v / 256) ++ v % 256 ∷ []

from_digits-append :
    (acc : ℕ) (xs ys : List ℕ) → from_digits acc (xs ++ ys) ≡ from_digits (from_digits acc xs) ys
unfolding from_digits
from_digits-append acc [] ys = refl
from_digits-append acc (x ∷ xs) ys = from_digits-append (acc * 256 + x) xs ys

-- One more byte at the end is one more base-256 digit.
pub from_bytes-append : (xs : List ℕ) (b : ℕ) → from_bytes (xs ++ b ∷ []) ≡ from_bytes xs * 256 + b
unfolding from_bytes
from_bytes-append xs b = from_digits-append 0 xs (b ∷ [])

pub length-to_bytes : (n v : ℕ) → length (to_bytes n v) ≡ n
unfolding to_bytes
length-to_bytes zero v = refl
length-to_bytes (suc n) v =
    omega
      (arith, length-append (to_bytes n (v / 256)) ((v % 256) ∷ []), length-to_bytes n (v / 256))

pub to_bytes-IsBytes : (n v : ℕ) → IsBytes (to_bytes n v)
unfolding to_bytes
to_bytes-IsBytes zero v = tt
to_bytes-IsBytes (suc n) v =
    All-append _ (to_bytes n (v / 256)) _ (to_bytes-IsBytes n (v / 256)) (omega arith, tt)

-- Writing a number that fits and reading it back gives the number.
pub from_bytes-to_bytes : (n v : ℕ) → v < 256 ^ n → from_bytes (to_bytes n v) ≡ v
unfolding to_bytes
from_bytes-to_bytes zero v h = unfold from_bytes in omega arith
from_bytes-to_bytes (suc n) v h =
    let fits : v / 256 < 256 ^ n = omega (arith, pow-suc 256 n) in
    from_bytes-append (to_bytes n (v / 256)) (v % 256)
    ∙ omega (arith, from_bytes-to_bytes n (v / 256) fits)

-- A list that is not empty has a last element.
snoc-cases : (xs : List ℕ) → (xs ≡ []) ⊎ ((ys : List ℕ) × (y : ℕ) × (xs ≡ ys ++ y ∷ []))
snoc-cases [] = inl refl
snoc-cases (x ∷ xs) = elim (snoc-cases xs) [
  | inl e ↦ inr ([], x, ap (λ (l : List ℕ). x ∷ l) e)
  | inr (ys, y, e) ↦ inr (x ∷ ys, y, ap (λ (l : List ℕ). x ∷ l) e)
]

IsBytes-snoc : (ys : List ℕ) (y : ℕ) → IsBytes (ys ++ y ∷ []) → IsBytes ys × (y < 256)
IsBytes-snoc [] y h = (tt, h.0)
IsBytes-snoc (x ∷ ys) y h = ((h.0, (IsBytes-snoc ys y h.1).0), (IsBytes-snoc ys y h.1).1)

-- Reading a byte string and writing the number with as many bytes gives the string.
pub to_bytes-from_bytes :
    (n : ℕ) (bs : List ℕ) → length bs ≡ n → IsBytes bs → to_bytes n (from_bytes bs) ≡ bs
unfolding to_bytes
to_bytes-from_bytes zero [] e h = refl
to_bytes-from_bytes zero (b ∷ bs) e h = absurd (omega arith)
to_bytes-from_bytes (suc n) bs e h = elim (snoc-cases bs) [
  | inl none_left ↦ absurd (omega (arith, ap (length {A = ℕ}) none_left))
  | inr (ys, y, split) ↦
      let valid : IsBytes ys × (y < 256) = IsBytes-snoc ys y (rw split at h) in
      let size : length ys ≡ n =
        omega (arith, ap (length {A = ℕ}) split, length-append ys (y ∷ [])) in
      let value : from_bytes bs ≡ from_bytes ys * 256 + y =
        ap from_bytes split ∙ from_bytes-append ys y in
      let high : from_bytes bs / 256 ≡ from_bytes ys = omega (arith, valid.1) in
      let low : from_bytes bs % 256 ≡ y = omega (arith, valid.1) in
      rw (high, low, to_bytes-from_bytes n ys size valid.0) (sym split)
]

pub from_bytes-lt : (n : ℕ) (bs : List ℕ) → length bs ≡ n → IsBytes bs → from_bytes bs < 256 ^ n
from_bytes-lt zero [] e h = unfold from_bytes in omega arith
from_bytes-lt zero (b ∷ bs) e h = absurd (omega arith)
from_bytes-lt (suc n) bs e h = elim (snoc-cases bs) [
  | inl none_left ↦ absurd (omega (arith, ap (length {A = ℕ}) none_left))
  | inr (ys, y, split) ↦
      let valid : IsBytes ys × (y < 256) = IsBytes-snoc ys y (rw split at h) in
      let size : length ys ≡ n =
        omega (arith, ap (length {A = ℕ}) split, length-append ys (y ∷ [])) in
      omega (
        arith,
        ap from_bytes split,
        from_bytes-append ys y,
        valid.1,
        from_bytes-lt n ys size valid.0,
        pow-suc 256 n,
      )
]
