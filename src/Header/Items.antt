-- ===== src/Header/Items.antt =====
-- Looking up and setting fields by name: `__contains__`, `__getitem__`, `__setitem__` of
-- sigmadsp/sigmastudio/header.py.
use sigmadsp.Prelude.{ℕ, ◌≡◌, refl, ap, sym, ◌∙◌, true, Bool-cases, inl, inr, [], ◌∷◌, arith, All}
use sigmadsp.Prelude.Int.{pos, abs}
use sigmadsp.Prelude.Result.{ok, err}
use sigmadsp.Conversion.{from_bytes, bit_length}
use sigmadsp.Header.{
  Field, FieldName, PacketHeader, name_key, same_name, same_name_iff, same_name_refl, int, bytes,
  operation, contains, lookup, get_item, assign, set_item, set_value,
}
use sigmadsp.Header.Codec.{SameLayout, Fits}

-- The header has a field `n`, and its value is `v`.
pub record HasValue (n : FieldName) (v : ℕ) (h : PacketHeader) : Type 0 where
  pub item : Field
  pub found : get_item n h ≡ ok item
  pub value_is : item.value ≡ pos v

pub contains-SameLayout :
    (n : FieldName) (g h : PacketHeader)
    → SameLayout g h
    → contains (name_key n) g ≡ contains (name_key n) h
unfolding contains
contains-SameLayout n [] [] same = refl
contains-SameLayout n [] (f ∷ h) same = absurd same
contains-SameLayout n (f ∷ g) [] same = absurd same
contains-SameLayout n (f ∷ g) (f' ∷ h) same = rw (same.0, contains-SameLayout n g h same.3)

-- A field that is there is found, and has its name.
pub lookup-contains :
    (n : FieldName) (h : PacketHeader)
    → contains (name_key n) h ≡ true
    → (f : Field) × (lookup n h ≡ ok f) × (f.name ≡ n)
unfolding contains lookup
lookup-contains n [] c = cc
lookup-contains n (g ∷ h) c = elim (Bool-cases (same_name n g.name)) [
  | inl here ↦ (g, rw here, sym ((same_name_iff n g.name).0 here))
  | inr there ↦ rw there (lookup-contains n h (rw there at c))
]

-- The first field is found first.
pub get_item_first : (f : Field) (h : PacketHeader) → get_item f.name (f ∷ h) ≡ ok f
unfolding get_item contains lookup
get_item_first f h = rw (same_name_refl f.name)

pub get_item_named :
    (n : FieldName) (f : Field) (r h : PacketHeader) → h ≡ f ∷ r → f.name ≡ n → get_item n h ≡ ok f
get_item_named n f r h split named = rw split (rw (← named) (get_item_first f r))

-- Setting the operation byte of a header that begins with it.
pub set_operation :
    (f : Field) (h : PacketHeader) (b : ℕ)
    → f.name ≡ operation
    → f.size ≡ 1
    → set_item operation (bytes (b ∷ [])) (f ∷ h)
      ≡ ok (record f { value = pos (from_bytes (b ∷ [])) } ∷ h)
unfolding set_item contains assign set_value same_name from_bytes
set_operation f h b named one = rw (named, one)

set_value_zero : (f : Field) → set_value f (int (pos 0)) ≡ ok (record f { value = pos 0 })
unfolding set_value bit_length
set_value_zero f = ground arith

same_with_zero : (g f : Field) → ok g ≡ ok f → f.value ≡ pos 0 → record g { value = pos 0 } ≡ g
same_with_zero g f e z = ground arith

assign_zero :
    (n : FieldName) (h : PacketHeader) (f : Field)
    → lookup n h ≡ ok f
    → f.value ≡ pos 0
    → assign n (int (pos 0)) h ≡ ok h
unfolding lookup assign
assign_zero n [] f found zero_value = cc
assign_zero n (g ∷ h) f found zero_value = elim (Bool-cases (same_name n g.name)) [
  | inl here ↦ rw here (
      rw (set_value_zero g)
        (ap (λ (f' : Field). ok (f' ∷ h)) (same_with_zero g f (rw here at found) zero_value)))
  | inr there ↦ rw there (rw (assign_zero n h f (rw there at found) zero_value))
]

-- Setting a field to 0 that is 0 changes nothing.
pub set_item_zero :
    (n : FieldName) (h : PacketHeader) → HasValue n 0 h → set_item n (int (pos 0)) h ≡ ok h
unfolding set_item get_item
set_item_zero n h v = elim (Bool-cases (contains (name_key n) h)) [
  | inl c ↦ rw c (assign_zero n h v.item (rw c at v.found) v.value_is)
  | inr c ↦ cc (rw c at v.found)
]

-- The value of a field, 0 where there is none.
unfoldable pub value_of : FieldName → PacketHeader → ℕ
value_of n h = elim (get_item n h) [ ok f ↦ abs f.value | err _ ↦ 0 ]

Fits-lookup :
    (n : FieldName) (h : PacketHeader) (f : Field) → All Fits h → lookup n h ≡ ok f → Fits f
unfolding lookup
Fits-lookup n [] f fits found = cc
Fits-lookup n (g ∷ h) f fits found = elim (Bool-cases (same_name n g.name)) [
  | inl here ↦ let e : g ≡ f = ground arith in rw (← e) fits.0
  | inr there ↦ Fits-lookup n h f fits.1 (rw there at found)
]

value_of_found :
    (n : FieldName) (h : PacketHeader) (f : Field)
    → get_item n h ≡ ok f
    → value_of n h ≡ abs f.value
unfolding value_of
value_of_found n h f found = rw (found, value_of)

pub HasValue-lookup :
    (n : FieldName) (v : ℕ) (h : PacketHeader) (value : HasValue n v h)
    → (lookup n h ≡ ok value.item) × (contains (name_key n) h ≡ true)
unfolding get_item
HasValue-lookup n v h value = elim (Bool-cases (contains (name_key n) h)) [
  | inl c ↦ (rw c at value.found, c)
  | inr c ↦ cc (rw c at value.found)
]

-- A field that is there has a value, which is not negative where the values fit.
pub HasValue-value_of :
    (n : FieldName) (h : PacketHeader)
    → contains (name_key n) h ≡ true
    → All Fits h
    → HasValue n (value_of n h) h
HasValue-value_of n h c fits =
    let (f, found, _) = lookup-contains n h c in
    let got : get_item n h ≡ ok f = unfold get_item in rw c found in
    record {
      item = f;
      found = got;
      value_is = (Fits-lookup n h f fits found).nonneg ∙ ap pos (sym (value_of_found n h f got));
    }
