-- ===== src/Header/Generator/Layout.antt =====
-- `PacketHeader([Field(...), ...])`: a header from a list of names, offsets and sizes.
use sigmadsp.Prelude.{ℕ, ◌≡◌, refl, true, List, [], ◌∷◌, All}
use sigmadsp.Prelude.Int.{pos}
use sigmadsp.Prelude.Result.{Result, ok, ◌>>=◌}
use sigmadsp.Header.{
  Field, FieldName, PacketHeader, OperationKey, operation, name_key, contains, new_field,
  new_header,
}
use sigmadsp.Header.Codec.{IsPacked, Fits}
use sigmadsp.Header.Fields.{Distinct}
use sigmadsp.Header.Update.{pow_positive}
use sigmadsp.Header.Generator.Laws.{required, IsTemplate}

unfoldable pub new_fields : List (FieldName × ℕ × ℕ) → Result (List Field)
unfolding new_field
new_fields [] = ok []
new_fields ((name, offset, size) ∷ rest) = do
  f ← new_field name (pos offset) (pos size)
  fs ← new_fields rest
  ok (f ∷ fs)

unfoldable pub header_of : List (FieldName × ℕ × ℕ) → Result PacketHeader
unfolding new_fields new_header
header_of layout = do fields ← new_fields layout; new_header fields

-- The header that a list without gaps and repetitions describes, with all values 0.
abbrev pub placed : List (FieldName × ℕ × ℕ) → PacketHeader
placed [] = []
placed ((name, offset, size) ∷ rest) =
    record { name = name; offset = offset; size = size; value = pos 0 } ∷ placed rest

-- The list begins with the operation byte.
abbrev pub BeginsWithOperation : List (FieldName × ℕ × ℕ) → Type 0
BeginsWithOperation [] = ⊥
BeginsWithOperation ((name, _, size) ∷ _) = (name ≡ operation) × (size ≡ 1)

placed-Fits : (layout : List (FieldName × ℕ × ℕ)) → All Fits (placed layout)
placed-Fits [] = tt
placed-Fits ((name, offset, size) ∷ rest) =
    (record { nonneg = refl; bound = pow_positive size }, placed-Fits rest)

pub placed-IsTemplate :
    (k : OperationKey) (layout : List (FieldName × ℕ × ℕ))
    → BeginsWithOperation layout
    → IsPacked 0 (placed layout)
    → Distinct (placed layout)
    → All (λ n. contains (name_key n) (placed layout) ≡ true) (required k)
    → IsTemplate k (placed layout)
placed-IsTemplate k [] begins packed distinct has = absurd begins
placed-IsTemplate k ((name, offset, size) ∷ rest) begins packed distinct has = record {
  first = record { name = name; offset = offset; size = size; value = pos 0 };
  rest = placed rest;
  split = refl;
  first_name = begins.0;
  first_size = begins.1;
  packed = packed;
  distinct = distinct;
  fits = placed-Fits ((name, offset, size) ∷ rest);
  has = has;
}
