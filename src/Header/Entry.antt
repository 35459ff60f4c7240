-- ===== src/Header/Entry.antt =====
-- `class Field` of sigmadsp/sigmastudio/header.py.
use sigmadsp.Prelude.{ℕ, ◌+◌, ◌*◌, List, none, not, leb, ◌==◌, length}
use sigmadsp.Prelude.Int.{ℤ, pos, pos_part, ◌*ℤ◌, sub_ℕ, leb_ℤ, ltb_ℤ}
use sigmadsp.Prelude.Result.{Result, ok, err, assertion_error, type_error, value_error, guard, ◌>>◌}
use sigmadsp.Conversion.{bytes_to_int, bit_length}
use sigmadsp.Header.Names.{FieldName}

pub record Field : Type 0 where
  pub name : FieldName
  pub offset : ℕ
  pub size : ℕ
  pub value : ℤ

-- What may be assigned to the `value` property; `other` is an object of any other type.
pub data NewValue : Type 0 where
  int : ℤ → NewValue
  bytes bytearray : List ℕ → NewValue
  other : NewValue

abbrev store_bytes : Field → List ℕ → Result Field
store_bytes f bs = do
  guard (length bs == f.size) assertion_error
  ok (record f { value = pos (bytes_to_int bs 0 none) })

-- The setter of `value`.
unfoldable pub set_value : Field → NewValue → Result Field
unfolding bytes_to_int
set_value f (bytearray bs) = store_bytes f bs
set_value f (bytes bs) = store_bytes f bs
set_value f (int v) = do
  guard (leb (bit_length v) (f.size * 8)) assertion_error
  ok (record f { value = v })
set_value f other = err type_error

-- The first step of `__post_init__`, `self.value = 0`, for a size of either sign.
abbrev zero_fits : ℤ → Result (Unit {0})
zero_fits size = guard (leb_ℤ (pos (bit_length (pos 0))) (size *ℤ pos 8)) assertion_error

-- `Field(name, offset, size)` with `__post_init__`.
unfoldable pub new_field : FieldName → ℤ → ℤ → Result Field
unfolding bit_length ◌*ℤ◌
new_field name offset size = do
  zero_fits size
  guard (not (ltb_ℤ size (pos 0))) value_error
  guard (not (ltb_ℤ offset (pos 0))) value_error
  ok (record { name = name; offset = pos_part offset; size = pos_part size; value = pos 0 })

-- The index of the last byte of a field; -1 for an empty field at the start.
unfoldable pub end : Field → ℤ
end f = sub_ℕ (f.offset + f.size) 1
