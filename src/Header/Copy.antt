-- ===== src/Header/Copy.antt =====
-- `PacketHeader.copy_from_template` of sigmadsp/sigmastudio/header.py: the fields that both headers
-- have.
use sigmadsp.Prelude.{
  ℕ, ◌^◌, ◌<◌, ◌≡◌, refl, ap, sym, leb, leb→le, not_leb→lt, ◌≤◌, ◌∙◌, Bool-cases, true, false, inl,
  inr, ◌⊎◌, [], ◌∷◌, arith, All, if◌then◌else◌,
}
use sigmadsp.Prelude.Int.{ℤ, abs}
use sigmadsp.Prelude.Result.{ok, err, assertion_error}
use sigmadsp.Header.{
  Field, FieldName, PacketHeader, name_key, same_name, same_name_iff, contains, lookup, assign, int,
  copy_from_template,
}
use sigmadsp.Header.Codec.{SameLayout, SameLayout-refl, SameLayout-trans, Fits}
use sigmadsp.Header.Items.{HasValue, contains-SameLayout}
use sigmadsp.Header.Fields.{Distinct}
use sigmadsp.Header.Update.{
  update, size_of, assign_too_big, size_of-SameLayout, assign-update, update-SameLayout,
  update-Fits, HasValue-update, HasValue-other,
}

unfoldable copy_field : Field → PacketHeader → PacketHeader
copy_field f h = if contains (name_key f.name) h then update f.name (abs f.value) h else h

-- The header with the values of the template in the fields that both have.
unfoldable pub copied : PacketHeader → PacketHeader → PacketHeader
unfolding copy_field
copied [] h = h
copied (f ∷ template) h = copied template (copy_field f h)

-- Where the header has the field, the value fits into it there.
abbrev pub HasRoom : PacketHeader → Field → Type 0
HasRoom h f = contains (name_key f.name) h ≡ true → abs f.value < 256 ^ size_of f.name h

copy_field-SameLayout : (f : Field) (h : PacketHeader) → SameLayout (copy_field f h) h
unfolding copy_field
copy_field-SameLayout f h = elim (Bool-cases (contains (name_key f.name) h)) [
  | inl c ↦ rw c (update-SameLayout f.name (abs f.value) h)
  | inr c ↦ rw c (SameLayout-refl h)
]

copy_field-Fits :
    (f : Field) (h : PacketHeader) → HasRoom h f → All Fits h → All Fits (copy_field f h)
unfolding copy_field
copy_field-Fits f h wide all_fit = elim (Bool-cases (contains (name_key f.name) h)) [
  | inl c ↦ rw c (update-Fits f.name (abs f.value) h (wide c) all_fit)
  | inr c ↦ rw c all_fit
]

HasRoom-SameLayout : (t g h : PacketHeader) → SameLayout g h → All (HasRoom h) t → All (HasRoom g) t
HasRoom-SameLayout [] g h same wide = tt
HasRoom-SameLayout (f ∷ t) g h same wide = (
  λ c.
      rw (size_of-SameLayout f.name g h same)
        (wide.0 (sym (contains-SameLayout f.name g h same) ∙ c)),
  HasRoom-SameLayout t g h same wide.1,
)

pub copied-SameLayout : (t h : PacketHeader) → SameLayout (copied t h) h
unfolding copied
copied-SameLayout [] h = SameLayout-refl h
copied-SameLayout (f ∷ t) h =
    SameLayout-trans (copied t (copy_field f h)) (copy_field f h) h
      (copied-SameLayout t (copy_field f h)) (copy_field-SameLayout f h)

after_field :
    (f : Field) (t h : PacketHeader) → All (HasRoom h) t → All (HasRoom (copy_field f h)) t
after_field f t h wide = HasRoom-SameLayout t (copy_field f h) h (copy_field-SameLayout f h) wide

pub copied-Fits : (t h : PacketHeader) → All (HasRoom h) t → All Fits h → All Fits (copied t h)
unfolding copied
copied-Fits [] h wide all_fit = all_fit
copied-Fits (f ∷ t) h wide all_fit =
    copied-Fits t (copy_field f h) (after_field f t h wide.1) (copy_field-Fits f h wide.0 all_fit)

-- One round of the copy, where the value fits.
copy_step :
    (f : Field) (t h : PacketHeader)
    → Fits f
    → HasRoom h f
    → copy_from_template (f ∷ t) h ≡ copy_from_template t (copy_field f h)
unfolding copy_from_template copy_field
copy_step f t h fits wide = elim (Bool-cases (contains (name_key f.name) h)) [
  | inl c ↦
      let set : assign f.name (int f.value) h ≡ ok (update f.name (abs f.value) h) =
        ap (λ (v : ℤ). assign f.name (int v) h) fits.nonneg
        ∙ assign-update f.name (abs f.value) h c (wide c) in
      rw c (rw set refl)
  | inr c ↦ rw c refl
]

-- The copy succeeds where the values fit and the fields have room for them.
pub copy_from_template-copied :
    (t h : PacketHeader) → All Fits t → All (HasRoom h) t → copy_from_template t h ≡ ok (copied t h)
unfolding copied
copy_from_template-copied [] h fits wide = unfold copy_from_template in refl
copy_from_template-copied (f ∷ t) h fits wide =
    copy_step f t h fits.0 wide.0
    ∙ copy_from_template-copied t (copy_field f h) fits.1 (after_field f t h wide.1)

-- A round fails where the value does not fit.
copy_refused :
    (f : Field) (t h : PacketHeader)
    → Fits f
    → contains (name_key f.name) h ≡ true
    → 256 ^ size_of f.name h ≤ abs f.value
    → copy_from_template (f ∷ t) h ≡ err assertion_error
unfolding copy_from_template
copy_refused f t h fits c big =
    let set : assign f.name (int f.value) h ≡ err assertion_error =
      ap (λ (v : ℤ). assign f.name (int v) h) fits.nonneg
      ∙ assign_too_big f.name (abs f.value) h c big in
    rw c (rw set refl)

HasRoom-cases :
    (f : Field) (h : PacketHeader)
    → HasRoom h f ⊎ ((contains (name_key f.name) h ≡ true) × (256 ^ size_of f.name h ≤ abs f.value))
HasRoom-cases f h = elim (Bool-cases (contains (name_key f.name) h)) [
  | inl c ↦ elim (Bool-cases (leb (256 ^ size_of f.name h) (abs f.value))) [
    | inl big ↦ inr (c, leb→le _ _ big)
    | inr fit ↦ inl λ _. not_leb→lt _ _ fit
  ]
  | inr c ↦ inl λ has. let never : true ≡ false = sym has ∙ c in cc
]

-- The copy fails where a value does not fit into its field of the header.
pub copy_from_template_too_big :
    (n : FieldName) (f : Field) (t h : PacketHeader)
    → All Fits t
    → lookup n t ≡ ok f
    → contains (name_key n) h ≡ true
    → 256 ^ size_of n h ≤ abs f.value
    → copy_from_template t h ≡ err assertion_error
unfolding lookup
copy_from_template_too_big n f [] h fits found c big = cc
copy_from_template_too_big n f (g ∷ t) h fits found c big = elim (HasRoom-cases g h) [
  | inr (has, wide) ↦ copy_refused g t h fits.0 has wide
  | inl fit ↦ elim (Bool-cases (same_name n g.name)) [
    | inl here ↦
        let named : n ≡ g.name = (same_name_iff n g.name).0 here in
        let is : ok g ≡ ok f = rw here at found in
        let same : g ≡ f = ground arith in
        copy_refused g t h fits.0 (rw named at c) (rw (named, ← same) at big)
    | inr there ↦
        let same = copy_field-SameLayout g h in
        copy_step g t h fits.0 fit
        ∙ copy_from_template_too_big n f t (copy_field g h) fits.1 (rw there at found)
            (contains-SameLayout n (copy_field g h) h same ∙ c)
            (rw (size_of-SameLayout n (copy_field g h) h same) big)
  ]
]

copy_field-other :
    (n : FieldName) (v : ℕ) (f : Field) (h : PacketHeader)
    → same_name n f.name ≡ false
    → HasValue n v h
    → HasValue n v (copy_field f h)
unfolding copy_field
copy_field-other n v f h other value = elim (Bool-cases (contains (name_key f.name) h)) [
  | inl c ↦ rw c (HasValue-other n f.name (abs f.value) v h other value)
  | inr c ↦ rw c value
]

copied-other :
    (n : FieldName) (v : ℕ) (t h : PacketHeader)
    → contains (name_key n) t ≡ false
    → HasValue n v h
    → HasValue n v (copied t h)
unfolding copied contains
copied-other n v [] h c value = value
copied-other n v (f ∷ t) h c value = elim (Bool-cases (same_name n f.name)) [
  | inl here ↦ let no : true ≡ false = rw here at c in cc
  | inr there ↦
      copied-other n v t (copy_field f h) (rw there at c) (copy_field-other n v f h there value)
]

-- A field of the template that the header has too has the value of the template after the copy.
pub copied-HasValue :
    (n : FieldName) (f : Field) (t h : PacketHeader)
    → Distinct t
    → lookup n t ≡ ok f
    → contains (name_key n) h ≡ true
    → HasValue n (abs f.value) (copied t h)
unfolding copied lookup
copied-HasValue n f [] h d found c = cc
copied-HasValue n f (g ∷ t) h d found c = elim (Bool-cases (same_name n g.name)) [
  | inl here ↦
      let named : n ≡ g.name = (same_name_iff n g.name).0 here in
      let is : ok g ≡ ok f = rw here at found in
      let same : g ≡ f = ground arith in
      let has : contains (name_key g.name) h ≡ true = rw named at c in
      let one : copy_field g h ≡ update g.name (abs g.value) h = unfold copy_field in rw has refl in
      rw (named, ← same)
        (copied-other g.name (abs g.value) t (copy_field g h) d.0
          (rw one (HasValue-update g.name (abs g.value) h has)))
  | inr there ↦
      copied-HasValue n f t (copy_field g h) d.1 (rw there at found)
        (contains-SameLayout n (copy_field g h) h (copy_field-SameLayout g h) ∙ c)
]

-- Whether the names differ depends on the layout alone.
pub Distinct-SameLayout : (g h : PacketHeader) → SameLayout g h → Distinct g → Distinct h
Distinct-SameLayout [] [] same d = tt
Distinct-SameLayout [] (f ∷ h) same d = absurd same
Distinct-SameLayout (f ∷ g) [] same d = absurd same
Distinct-SameLayout (f ∷ g) (f' ∷ h) same d = (
  sym (contains-SameLayout f'.name g h same.3) ∙ rw same.0 at d.0,
  Distinct-SameLayout g h same.3 d.1,
)
