-- ===== src/Header.antt =====
-- sigmadsp/sigmastudio/header.py: the packet header, a dictionary of fields sorted by their
-- offsets, and the generators of headers. The dictionary is a list of fields, whose names are its
-- keys. The proofs are in the modules below.
mod Names
mod Entry
pub mod Codec
pub mod Parse
pub mod Items
pub mod Fields
pub mod Update
pub mod Copy
pub mod Continuous
pub mod Generator
unfoldable pub use Names.*
unfoldable pub use Entry.*
use sigmadsp.Prelude.{
  ℕ, ◌+◌, ◌≡◌, Bool, true, false, ◌&&◌, ◌||◌, some, List, [], ◌∷◌, ◌++◌, leb, ◌==◌, if◌then◌else◌,
  length,
}
use sigmadsp.Prelude.Int.{ℤ, pos, ◌+ℤ◌, leb_ℤ, eqb_ℤ}
use sigmadsp.Prelude.Result.{
  Result, ok, err, assertion_error, key_error, memory_error, value_error, guard, ◌>>=◌, ◌>>◌,
}
use sigmadsp.Conversion.{bytes_to_int, int_to_bytes}

pub data OperationKey : Type 0 where
  read_request_key read_response_key write_key : OperationKey

abbrev pub key_value : OperationKey → ℕ
key_value read_request_key = 0x0a
key_value read_response_key = 0x0b
key_value write_key = 0x09

-- `OperationKey(value)`
unfoldable pub operation_key : ℕ → Result OperationKey
operation_key value =
    if value == 0x0a
    then ok read_request_key
    else if value == 0x0b
    then ok read_response_key
    else if value == 0x09
    then ok write_key
    else err value_error

abbrev pub PacketHeader : Type 0
PacketHeader = List Field

-- What stands before `in`: the code uses names and, in `add_field`, a field.
pub data Key : Type 0 where
  name_key : FieldName → Key
  field_key : Field → Key

-- A key of the dictionary is a text, and equals no `Field` object.
abbrev pub key_matches : Key → FieldName → Bool
key_matches (name_key n) m = same_name n m
key_matches (field_key f) m = false

-- `__contains__`
unfoldable pub contains : Key → PacketHeader → Bool
contains k [] = false
contains k (g ∷ h) = key_matches k g.name || contains k h

-- `self._fields[name]`
unfoldable pub lookup : FieldName → PacketHeader → Result Field
lookup n [] = err key_error
lookup n (g ∷ h) = if same_name n g.name then ok g else lookup n h

-- `__getitem__`
unfoldable pub get_item : FieldName → PacketHeader → Result Field
unfolding contains lookup
get_item n h = do guard (contains (name_key n) h) assertion_error; lookup n h

-- `self._fields[name].value = value`
unfoldable pub assign : FieldName → NewValue → PacketHeader → Result PacketHeader
assign n v [] = err key_error
assign n v (g ∷ h) =
    if same_name n g.name
    then (do g' ← set_value g v; ok (g' ∷ h))
    else (do h' ← assign n v h; ok (g ∷ h'))

-- `__setitem__`
unfoldable pub set_item : FieldName → NewValue → PacketHeader → Result PacketHeader
unfolding contains assign
set_item n v h = do guard (contains (name_key n) h) assertion_error; assign n v h

-- `self._fields[field.name] = field` keeps the place of a key that is there.
unfoldable pub insert : Field → PacketHeader → PacketHeader
insert f [] = f ∷ []
insert f (g ∷ h) = if same_name f.name g.name then f ∷ h else g ∷ insert f h

unfoldable pub insert_by_offset : Field → PacketHeader → PacketHeader
insert_by_offset f [] = f ∷ []
insert_by_offset f (g ∷ h) = if leb f.offset g.offset then f ∷ g ∷ h else g ∷ insert_by_offset f h

-- Python's `sorted` is stable.
unfoldable pub sort_fields_by_offset : PacketHeader → PacketHeader
unfolding insert_by_offset
sort_fields_by_offset [] = []
sort_fields_by_offset (f ∷ h) = insert_by_offset f (sort_fields_by_offset h)

unfoldable pub check_for_overlaps : PacketHeader → Result (Unit {0})
unfolding end
check_for_overlaps [] = ok tt
check_for_overlaps (f ∷ []) = ok tt
check_for_overlaps (f ∷ g ∷ h) = do
  guard (leb_ℤ (end f) (pos g.offset)) memory_error
  check_for_overlaps (g ∷ h)

unfoldable pub add_field : Field → PacketHeader → Result PacketHeader
unfolding contains insert sort_fields_by_offset check_for_overlaps
add_field f h =
    if contains (field_key f) h
    then ok h
    else do let sorted = sort_fields_by_offset (insert f h); check_for_overlaps sorted; ok sorted

unfoldable pub add : FieldName → ℤ → ℤ → PacketHeader → Result PacketHeader
unfolding new_field add_field
add n offset size h = do f ← new_field n offset size; add_field f h

unfoldable pub add_fields : List Field → PacketHeader → Result PacketHeader
unfolding add_field
add_fields [] h = ok h
add_fields (f ∷ fs) h = do h' ← add_field f h; add_fields fs h'

-- `PacketHeader(fields)`
unfoldable pub new_header : List Field → Result PacketHeader
unfolding add_fields
new_header fields = add_fields fields []

unfoldable pub copy_from_template : PacketHeader → PacketHeader → Result PacketHeader
unfolding contains set_item
copy_from_template [] h = ok h
copy_from_template (f ∷ template) h = do
  h' ← if contains (name_key f.name) h then set_item f.name (int f.value) h else ok h
  copy_from_template template h'

unfoldable pub size : PacketHeader → ℕ
size [] = 0
size (f ∷ h) = f.size + size h

unfoldable pub is_continuous : PacketHeader → Bool
is_continuous [] = true
is_continuous (f ∷ []) = true
is_continuous (f ∷ g ∷ h) = eqb_ℤ (end f +ℤ pos 1) (pos g.offset) && is_continuous (g ∷ h)

unfoldable pub write_fields : PacketHeader → List ℕ → Result (List ℕ)
write_fields [] buffer = ok buffer
write_fields (f ∷ h) buffer = do
  buffer' ← int_to_bytes f.value (some buffer) f.offset f.size
  write_fields h buffer'

unfoldable pub as_bytes : PacketHeader → Result (List ℕ)
unfolding write_fields
as_bytes h = write_fields h []

unfoldable pub parse_fields : List ℕ → PacketHeader → Result PacketHeader
parse_fields bs [] = ok []
parse_fields bs (f ∷ h) = do
  f' ← set_value f (int (pos (bytes_to_int bs f.offset (some f.size))))
  h' ← parse_fields bs h
  ok (f' ∷ h')

unfoldable pub parse : List ℕ → PacketHeader → Result PacketHeader
unfolding size parse_fields
parse bs h = do guard (length bs == size h) value_error; parse_fields bs h

-- `self["operation"].value == key.value`
unfoldable pub has_operation : OperationKey → PacketHeader → Result Bool
unfolding get_item
has_operation k h = do f ← get_item operation h; ok (eqb_ℤ f.value (pos (key_value k)))

unfoldable pub is_write_request : PacketHeader → Result Bool
unfolding has_operation
is_write_request = has_operation write_key

unfoldable pub is_read_request : PacketHeader → Result Bool
unfolding has_operation
is_read_request = has_operation read_request_key

unfoldable pub is_read_response : PacketHeader → Result Bool
unfolding has_operation
is_read_response = has_operation read_response_key

unfoldable pub is_safeload : PacketHeader → Result Bool
unfolding is_write_request
is_safeload h = do
  write ← is_write_request h
  if write then (do f ← get_item safeload h; ok (eqb_ℤ f.value (pos 1))) else ok false

unfoldable pub carries_payload : PacketHeader → Result Bool
unfolding is_write_request is_read_response
carries_payload h = do write ← is_write_request h; if write then ok true else is_read_response h
