-- ===== src/Header/Fields.antt =====
-- `PacketHeader.add_field` and the constructors of sigmadsp/sigmastudio/header.py: what adding a field
-- does to the dictionary of fields.
use sigmadsp.Prelude.{
  ◌+◌, ◌≤◌, ◌<◌, ◌≡◌, refl, ap, ◌∙◌, false, Bool-cases, inl, inr, ◌||◌, [], ◌∷◌, arith,
  if◌then◌else◌,
}
use sigmadsp.Prelude.Result.{ok}
use sigmadsp.Header.{
  Field, FieldName, PacketHeader, name_key, field_key, same_name, same_name_iff, same_name_refl,
  contains, lookup, insert, insert_by_offset, sort_fields_by_offset, check_for_overlaps, add_field,
  new_header,
}

-- The keys of a dictionary differ.
abbrev pub Distinct : PacketHeader → Type 0
Distinct [] = Unit
Distinct (f ∷ h) = (contains (name_key f.name) h ≡ false) × Distinct h

-- The offsets do not go down.
abbrev pub IsSorted : PacketHeader → Type 0
IsSorted [] = Unit
IsSorted (f ∷ []) = Unit
IsSorted (f ∷ g ∷ h) = (f.offset ≤ g.offset) × IsSorted (g ∷ h)

-- A field ends at most one byte into the next one: what `_check_for_overlaps` tests.
abbrev pub EndsBefore : PacketHeader → Type 0
EndsBefore [] = Unit
EndsBefore (f ∷ []) = Unit
EndsBefore (f ∷ g ∷ h) = (f.offset + f.size ≤ g.offset + 1) × EndsBefore (g ∷ h)

same_name_sym : (a b : FieldName) → same_name a b ≡ same_name b a
same_name_sym a b = ground (arith, same_name_iff a b, same_name_iff b a)

contains-insert :
    (n : FieldName) (f : Field) (h : PacketHeader)
    → contains (name_key n) (insert f h) ≡ (same_name n f.name || contains (name_key n) h)
unfolding contains insert
contains-insert n f [] = refl
contains-insert n f (g ∷ h) = ground (
  arith,
  contains-insert n f h,
  same_name_iff f.name g.name,
  same_name_iff n f.name,
  same_name_iff n g.name,
)

lookup-insert :
    (n : FieldName) (f : Field) (h : PacketHeader)
    → lookup n (insert f h) ≡ (if same_name n f.name then ok f else lookup n h)
unfolding lookup insert
lookup-insert n f [] = refl
lookup-insert n f (g ∷ h) = ground (
  arith,
  lookup-insert n f h,
  same_name_iff f.name g.name,
  same_name_iff n f.name,
  same_name_iff n g.name,
)

insert-Distinct : (f : Field) (h : PacketHeader) → Distinct h → Distinct (insert f h)
unfolding insert
insert-Distinct f [] d = (unfold contains in refl, tt)
insert-Distinct f (g ∷ h) d = elim (Bool-cases (same_name f.name g.name)) [
  | inl same ↦
      let e : f.name ≡ g.name = (same_name_iff f.name g.name).0 same in rw same (rw e d.0, d.1)
  | inr other ↦ rw other (
    contains-insert g.name f h ∙ rw (same_name_sym g.name f.name, other) d.0,
    insert-Distinct f h d.1,
  )
]

contains-insert_by_offset :
    (n : FieldName) (f : Field) (h : PacketHeader)
    → contains (name_key n) (insert_by_offset f h) ≡ (same_name n f.name || contains (name_key n) h)
unfolding contains insert_by_offset
contains-insert_by_offset n f [] = refl
contains-insert_by_offset n f (g ∷ h) = ground (arith, contains-insert_by_offset n f h)

lookup-insert_by_offset :
    (n : FieldName) (f : Field) (h : PacketHeader)
    → contains (name_key f.name) h ≡ false
    → lookup n (insert_by_offset f h) ≡ (if same_name n f.name then ok f else lookup n h)
unfolding lookup contains insert_by_offset
lookup-insert_by_offset n f [] c = refl
lookup-insert_by_offset n f (g ∷ h) c = ground (
  arith,
  lookup-insert_by_offset n f h,
  same_name_iff f.name g.name,
  same_name_iff n f.name,
  same_name_iff n g.name,
)

insert_by_offset-Distinct :
    (f : Field) (h : PacketHeader)
    → contains (name_key f.name) h ≡ false
    → Distinct h
    → Distinct (insert_by_offset f h)
unfolding insert_by_offset contains
insert_by_offset-Distinct f [] c d = (refl, tt)
insert_by_offset-Distinct f (g ∷ h) c d = ground (
  arith,
  contains-insert_by_offset g.name f h,
  insert_by_offset-Distinct f h,
  same_name_sym f.name g.name,
)

insert_by_offset-IsSorted :
    (f : Field) (h : PacketHeader) → IsSorted h → IsSorted (insert_by_offset f h)
unfolding insert_by_offset
insert_by_offset-IsSorted f [] s = tt
insert_by_offset-IsSorted f (g ∷ []) s = ground arith
insert_by_offset-IsSorted f (g ∷ k ∷ h) s = ground (arith, insert_by_offset-IsSorted f (k ∷ h) s.1)

contains-sort :
    (n : FieldName) (h : PacketHeader)
    → contains (name_key n) (sort_fields_by_offset h) ≡ contains (name_key n) h
unfolding contains sort_fields_by_offset
contains-sort n [] = refl
contains-sort n (f ∷ h) =
    contains-insert_by_offset n f (sort_fields_by_offset h) ∙ rw (contains-sort n h)

sort-Distinct : (h : PacketHeader) → Distinct h → Distinct (sort_fields_by_offset h)
unfolding sort_fields_by_offset
sort-Distinct [] d = tt
sort-Distinct (f ∷ h) d =
    insert_by_offset-Distinct f (sort_fields_by_offset h) (contains-sort f.name h ∙ d.0)
      (sort-Distinct h d.1)

pub sort-IsSorted : (h : PacketHeader) → IsSorted (sort_fields_by_offset h)
unfolding sort_fields_by_offset
sort-IsSorted [] = tt
sort-IsSorted (f ∷ h) = insert_by_offset-IsSorted f (sort_fields_by_offset h) (sort-IsSorted h)

lookup-sort :
    (n : FieldName) (h : PacketHeader)
    → Distinct h
    → lookup n (sort_fields_by_offset h) ≡ lookup n h
unfolding lookup sort_fields_by_offset
lookup-sort n [] d = refl
lookup-sort n (f ∷ h) d =
    lookup-insert_by_offset n f (sort_fields_by_offset h) (contains-sort f.name h ∙ d.0)
    ∙ rw (lookup-sort n h d.1)

-- No `Field` object is a key of the dictionary.
pub contains-field : (f : Field) (h : PacketHeader) → contains (field_key f) h ≡ false
unfolding contains
contains-field f [] = refl
contains-field f (g ∷ h) = contains-field f h

check-EndsBefore : (h : PacketHeader) (u : Unit {0}) → check_for_overlaps h ≡ ok u → EndsBefore h
unfolding check_for_overlaps
check-EndsBefore [] u e = tt
check-EndsBefore (f ∷ []) u e = tt
check-EndsBefore (f ∷ g ∷ h) u e = ground (arith, check-EndsBefore (g ∷ h) u)

-- A header as `add_field` leaves it.
pub record IsHeaderDict (h : PacketHeader) : Type 0 where
  pub distinct : Distinct h
  pub sorted : IsSorted h
  pub ends : EndsBefore h

add_field_result :
    (f : Field) (h h' : PacketHeader)
    → add_field f h ≡ ok h'
    → (check_for_overlaps h' ≡ ok tt) × (h' ≡ sort_fields_by_offset (insert f h))
unfolding add_field
add_field_result f h h' e = ground (arith, contains-field f h)

-- Where `add_field` succeeds on a dictionary with distinct names, the field is stored under its name,
-- also where that name was there before (its old field is gone, whatever its offset and size); every
-- other name is as it was; names are distinct, the offsets do not go down, and each field ends at most
-- one byte into the next.
pub add_field_lem :
    (f : Field) (h h' : PacketHeader)
    → Distinct h
    → add_field f h ≡ ok h'
    → (lookup f.name h' ≡ ok f)
      × ((n : FieldName) → same_name n f.name ≡ false → lookup n h' ≡ lookup n h)
      × IsHeaderDict h'
add_field_lem f h h' d e =
    let (checked, is) = add_field_result f h h' e in
    let placed = insert-Distinct f h d in
    let found = λ (n : FieldName).
      ap (lookup n) is ∙ lookup-sort n (insert f h) placed ∙ lookup-insert n f h in
    (
      found f.name ∙ rw (same_name_refl f.name),
      λ n other. found n ∙ rw other,
      record {
        distinct = rw is (sort-Distinct (insert f h) placed);
        sorted = rw is (sort-IsSorted (insert f h));
        ends = check-EndsBefore h' tt checked;
      },
    )

-- Two fields of different names that share exactly one byte, the last of the first and the first of
-- the second, are accepted as a header.
pub new_header-one_byte_overlap :
    (f g : Field)
    → same_name f.name g.name ≡ false
    → 1 < f.size
    → f.offset + f.size ≡ g.offset + 1
    → new_header (f ∷ g ∷ []) ≡ ok (f ∷ g ∷ [])
unfolding new_header add_field insert sort_fields_by_offset insert_by_offset check_for_overlaps
    contains
new_header-one_byte_overlap f g other big share =
    let apart : same_name g.name f.name ≡ false = same_name_sym g.name f.name ∙ other in
    rw apart (ground arith)
