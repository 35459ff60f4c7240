-- ===== src/Header/Generator/Adau1x01.antt =====
-- sigmadsp/sigmastudio/adau1x01.py: the headers of the ADAU1x01 parts.
use sigmadsp.Prelude.{ℕ, refl, List, [], ◌∷◌, arith}
use sigmadsp.Prelude.Result.{Result}
use sigmadsp.Header.{
  FieldName, PacketHeader, operation, safeload, channel, total_length, chip_address, data_length,
  address, success, read_request_key, read_response_key, write_key, contains, same_name,
}
use sigmadsp.Header.Generator.{PacketHeaderGenerator, header_for}
use sigmadsp.Header.Generator.Layout.{header_of, placed, placed-IsTemplate}
use sigmadsp.Header.Generator.Laws.{IsGenerator}

abbrev pub write_layout : List (FieldName × ℕ × ℕ)
write_layout =
    (operation, 0, 1)
    ∷ (safeload, 1, 1)
    ∷ (channel, 2, 1)
    ∷ (total_length, 3, 2)
    ∷ (chip_address, 5, 1)
    ∷ (data_length, 6, 2)
    ∷ (address, 8, 2)
    ∷ []

abbrev pub read_request_layout : List (FieldName × ℕ × ℕ)
read_request_layout =
    (operation, 0, 1)
    ∷ (total_length, 1, 2)
    ∷ (chip_address, 3, 1)
    ∷ (data_length, 4, 2)
    ∷ (address, 6, 2)
    ∷ []

abbrev pub read_response_layout : List (FieldName × ℕ × ℕ)
read_response_layout = (operation, 0, 1) ∷ (data_length, 1, 2) ∷ (success, 3, 1) ∷ []

unfoldable pub new_write_header : Result PacketHeader
unfolding header_of
new_write_header = header_of write_layout

unfoldable pub new_read_request_header : Result PacketHeader
unfolding header_of
new_read_request_header = header_of read_request_layout

unfoldable pub new_read_response_header : Result PacketHeader
unfolding header_of
new_read_response_header = header_of read_response_layout

abbrev pub generator : PacketHeaderGenerator
generator = record {
  new_write_header = new_write_header;
  new_read_request_header = new_read_request_header;
  new_read_response_header = new_read_response_header;
}

-- The generator meets the laws that the server relies on: each of its headers can be built, is
-- packed, begins with the operation byte and has the fields that the server looks up.
pub adau1x01-IsGenerator : IsGenerator generator
unfolding header_for new_write_header new_read_request_header new_read_response_header contains
    same_name
adau1x01-IsGenerator = record {
  template = elim [
    | read_request_key ↦ (
      placed read_request_layout,
      refl,
      placed-IsTemplate _ read_request_layout (refl, refl) (omega arith) (ground arith)
          (refl, (refl, tt)),
    )
    | read_response_key ↦ (
      placed read_response_layout,
      refl,
      placed-IsTemplate _ read_response_layout (refl, refl) (omega arith) (ground arith)
          (refl, (refl, tt)),
    )
    | write_key ↦ (
      placed write_layout,
      refl,
      placed-IsTemplate _ write_layout (refl, refl) (omega arith) (ground arith)
          (refl, (refl, (refl, tt))),
    )
  ];
}
