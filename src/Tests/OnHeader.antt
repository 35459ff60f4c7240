-- ===== src/Tests/OnHeader.antt =====
-- The theorems on sigmadsp/sigmastudio/header.py at concrete headers.
use sigmadsp.Prelude.{ℕ, ◌≡◌, refl, true, false, ◌↔◌, List, [], ◌∷◌, arith}
use sigmadsp.Prelude.Int.{pos}
use sigmadsp.Prelude.Result.{ok}
use sigmadsp.Header.{
  Field, PacketHeader, operation, data_length, address, FieldName, same_name, contains, lookup,
  parse, add_field, new_header, insert, sort_fields_by_offset, insert_by_offset, check_for_overlaps,
  size, is_continuous,
}
use sigmadsp.Header.Parse.{Parsed, parse-Parsed}
use sigmadsp.Header.Continuous.{IsPartition, continuous-IsPartition}
use sigmadsp.Header.Fields.{IsHeaderDict, add_field_lem, new_header-one_byte_overlap}

abbrev field : FieldName → ℕ → ℕ → ℕ → Field
field name offset size value = record {
  name = name;
  offset = offset;
  size = size;
  value = pos value;
}

-- A header of five bytes, and its bytes.
abbrev small_template : PacketHeader
small_template = field operation 0 1 0 ∷ field data_length 1 2 0 ∷ field address 3 2 0 ∷ []

abbrev small_bytes : List ℕ
small_bytes = 9 ∷ 1 ∷ 44 ∷ 255 ∷ 255 ∷ []

parse-Parsed_example :
    (h : PacketHeader) × (parse small_bytes small_template ≡ ok h)
    × Parsed small_bytes small_template h
unfolding size
parse-Parsed_example =
    parse-Parsed small_bytes small_template (refl, (refl, (refl, tt))) (omega arith) refl

-- A second field of the name `address` takes the place of the first.
add_field_lem_example :
    (lookup address (field operation 0 1 9 ∷ field address 2 1 7 ∷ []) ≡ ok (field address 2 1 7))
    × ((n : FieldName)
        → same_name n address ≡ false
        → lookup n (field operation 0 1 9 ∷ field address 2 1 7 ∷ [])
          ≡ lookup n (field operation 0 1 9 ∷ field address 5 2 1 ∷ []))
    × IsHeaderDict (field operation 0 1 9 ∷ field address 2 1 7 ∷ [])
unfolding add_field contains same_name insert sort_fields_by_offset insert_by_offset
    check_for_overlaps
add_field_lem_example =
    add_field_lem (field address 2 1 7) (field operation 0 1 9 ∷ field address 5 2 1 ∷ [])
      (field operation 0 1 9 ∷ field address 2 1 7 ∷ []) (refl, (refl, tt)) refl

new_header-one_byte_overlap_example :
    new_header (field operation 0 2 0 ∷ field address 1 4 0 ∷ [])
    ≡ ok (field operation 0 2 0 ∷ field address 1 4 0 ∷ [])
unfolding same_name
new_header-one_byte_overlap_example =
    new_header-one_byte_overlap (field operation 0 2 0) (field address 1 4 0) refl (omega arith)
      refl

abbrev later_fields : PacketHeader
later_fields = field data_length 1 2 300 ∷ field address 3 2 65535 ∷ []

continuous-IsPartition_example :
    (is_continuous (field operation 0 1 9 ∷ later_fields) ≡ true)
    ↔ IsPartition (field operation 0 1 9) later_fields
unfolding contains same_name
continuous-IsPartition_example =
    continuous-IsPartition (field operation 0 1 9) later_fields
      (record {
        distinct = (refl, (refl, (refl, tt)));
        sorted = (omega arith, (omega arith, tt));
        ends = (omega arith, (omega arith, tt));
      })
      (omega arith, (omega arith, (omega arith, tt)))
