-- ===== src/Header/Update.antt =====
-- The setter `__setitem__` of sigmadsp/sigmastudio/header.py on a field that is there: which field
-- changes, and what stays.
use native.Mathlib.Nat.{pow-le-pow_right}
use sigmadsp.Prelude.{
  ℕ, ◌≤◌, ◌^◌, ◌<◌, ◌≡◌, refl, Bool-cases, true, false, inl, inr, List, [], ◌∷◌, arith, All,
  if◌then◌else◌, length, ==_refl,
}
use sigmadsp.Prelude.Int.{pos}
use sigmadsp.Prelude.Result.{ok, err, assertion_error}
use sigmadsp.Conversion.{from_bytes, bytes_to_int}
use sigmadsp.Header.{
  Field, FieldName, PacketHeader, name_key, same_name, same_name_iff, int, bytes, contains, lookup,
  get_item, assign, set_item, set_value,
}
use sigmadsp.Header.Codec.{SameLayout, SameLayout-refl, Fits, set_value_fits, set_value_too_big}
use sigmadsp.Header.Items.{HasValue, contains-SameLayout}

-- The header with the number `v` in its field `n`.
unfoldable pub update : FieldName → ℕ → PacketHeader → PacketHeader
update n v [] = []
update n v (f ∷ h) = if same_name n f.name then record f { value = pos v } ∷ h else f ∷ update n v h

pub pow_positive : (n : ℕ) → 0 < 256 ^ n
pow_positive n =
    let more : 256 ^ 0 ≤ 256 ^ n = pow-le-pow_right (omega arith) {i = 0} (omega arith) in
    omega (arith, more)

-- The number of bytes of the field `n`, 0 where there is none.
unfoldable pub size_of : FieldName → PacketHeader → ℕ
size_of n [] = 0
size_of n (f ∷ h) = if same_name n f.name then f.size else size_of n h

pub size_of-SameLayout :
    (n : FieldName) (g h : PacketHeader) → SameLayout g h → size_of n g ≡ size_of n h
unfolding size_of
size_of-SameLayout n [] [] same = refl
size_of-SameLayout n [] (f ∷ h) same = absurd same
size_of-SameLayout n (f ∷ g) [] same = absurd same
size_of-SameLayout n (f ∷ g) (f' ∷ h) same = rw (same.0, same.2, size_of-SameLayout n g h same.3)

-- The assignment behind `__setitem__`, of a number that fits.
pub assign-update :
    (n : FieldName) (v : ℕ) (h : PacketHeader)
    → contains (name_key n) h ≡ true
    → v < 256 ^ size_of n h
    → assign n (int (pos v)) h ≡ ok (update n v h)
unfolding contains assign update size_of
assign-update n v [] c room = cc
assign-update n v (f ∷ h) c room = elim (Bool-cases (same_name n f.name)) [
  | inl here ↦ rw here (rw (set_value_fits f v (rw here at room)))
  | inr there ↦ rw there (rw (assign-update n v h (rw there at c) (rw there at room)))
]

-- The assignment of a number that does not fit is refused.
pub assign_too_big :
    (n : FieldName) (v : ℕ) (h : PacketHeader)
    → contains (name_key n) h ≡ true
    → 256 ^ size_of n h ≤ v
    → assign n (int (pos v)) h ≡ err assertion_error
unfolding contains assign size_of
assign_too_big n v [] c big = cc
assign_too_big n v (f ∷ h) c big = elim (Bool-cases (same_name n f.name)) [
  | inl here ↦ rw here (rw (set_value_too_big f v (rw here at big)) refl)
  | inr there ↦ rw there (rw (assign_too_big n v h (rw there at c) (rw there at big)) refl)
]

-- A number that fits is stored in the field, where there is one.
pub set_item-update :
    (n : FieldName) (v : ℕ) (h : PacketHeader)
    → contains (name_key n) h ≡ true
    → v < 256 ^ size_of n h
    → set_item n (int (pos v)) h ≡ ok (update n v h)
unfolding set_item
set_item-update n v h c room = rw c (assign-update n v h c room)

set_value_bytes :
    (f : Field) (bs : List ℕ)
    → f.size ≡ length bs
    → set_value f (bytes bs) ≡ ok (record f { value = pos (from_bytes bs) })
unfolding set_value bytes_to_int
set_value_bytes f bs e = rw e (rw (==_refl (length bs)))

assign_bytes :
    (n : FieldName) (bs : List ℕ) (h : PacketHeader)
    → contains (name_key n) h ≡ true
    → size_of n h ≡ length bs
    → assign n (bytes bs) h ≡ ok (update n (from_bytes bs) h)
unfolding contains assign update size_of
assign_bytes n bs [] c e = cc
assign_bytes n bs (f ∷ h) c e = elim (Bool-cases (same_name n f.name)) [
  | inl here ↦ rw here (rw (set_value_bytes f bs (rw here at e)))
  | inr there ↦ rw there (rw (assign_bytes n bs h (rw there at c) (rw there at e)))
]

-- Bytes as many as the field has are stored as the number that they stand for.
pub set_item-bytes :
    (n : FieldName) (bs : List ℕ) (h : PacketHeader)
    → contains (name_key n) h ≡ true
    → size_of n h ≡ length bs
    → set_item n (bytes bs) h ≡ ok (update n (from_bytes bs) h)
unfolding set_item
set_item-bytes n bs h c e = rw c (assign_bytes n bs h c e)

pub update-SameLayout : (n : FieldName) (v : ℕ) (h : PacketHeader) → SameLayout (update n v h) h
unfolding update
update-SameLayout n v [] = tt
update-SameLayout n v (f ∷ h) = elim (Bool-cases (same_name n f.name)) [
  | inl here ↦ rw here (refl, refl, refl, SameLayout-refl h)
  | inr there ↦ rw there (refl, refl, refl, update-SameLayout n v h)
]

pub update-Fits :
    (n : FieldName) (v : ℕ) (h : PacketHeader)
    → v < 256 ^ size_of n h
    → All Fits h
    → All Fits (update n v h)
unfolding update size_of
update-Fits n v [] room fits = tt
update-Fits n v (f ∷ h) room fits = elim (Bool-cases (same_name n f.name)) [
  | inl here ↦ rw here (record { nonneg = refl; bound = rw here at room }, fits.1)
  | inr there ↦ rw there (fits.0, update-Fits n v h (rw there at room) fits.1)
]

-- Another field is found as before.
pub lookup-update :
    (m n : FieldName) (v : ℕ) (h : PacketHeader)
    → same_name m n ≡ false
    → lookup m (update n v h) ≡ lookup m h
unfolding lookup update
lookup-update m n v [] other = refl
lookup-update m n v (f ∷ h) other = ground (
  arith,
  lookup-update m n v h other,
  same_name_iff m f.name,
  same_name_iff n f.name,
  same_name_iff m n,
)

lookup_updated :
    (n : FieldName) (v : ℕ) (h : PacketHeader)
    → contains (name_key n) h ≡ true
    → (f : Field) × (lookup n (update n v h) ≡ ok f) × (f.value ≡ pos v)
unfolding contains update lookup
lookup_updated n v [] c = cc
lookup_updated n v (f ∷ h) c = elim (Bool-cases (same_name n f.name)) [
  | inl here ↦ rw here (record f { value = pos v }, rw here refl, refl)
  | inr there ↦ rw there (rw there (lookup_updated n v h (rw there at c)))
]

-- The field itself has the number.
pub HasValue-update :
    (n : FieldName) (v : ℕ) (h : PacketHeader)
    → contains (name_key n) h ≡ true
    → HasValue n v (update n v h)
unfolding get_item
HasValue-update n v h c =
    let (f, found, value) = lookup_updated n v h c in
    record {
      item = f;
      found = rw (contains-SameLayout n (update n v h) h (update-SameLayout n v h)) (rw c found);
      value_is = value;
    }

-- The value of another field stays.
pub HasValue-other :
    (m n : FieldName) (v w : ℕ) (h : PacketHeader)
    → same_name m n ≡ false
    → HasValue m w h
    → HasValue m w (update n v h)
unfolding get_item
HasValue-other m n v w h other value = record {
  item = value.item;
  found =
      rw (contains-SameLayout m (update n v h) h (update-SameLayout n v h))
        (rw (lookup-update m n v h other) value.found);
  value_is = value.value_is;
}
