-- ===== src/Header/Generator.antt =====
-- `class PacketHeaderGenerator` of sigmadsp/sigmastudio/header.py: the abstract methods are the
-- fields of a record, and the two concrete methods are functions on it.
pub mod Laws
pub mod Layout
pub mod Adau1x01
pub mod Adau14xx
use sigmadsp.Prelude.{ℕ, Option, none, some, List, ◌==◌, length}
use sigmadsp.Prelude.Int.{pos}
use sigmadsp.Prelude.Result.{Result, ok, err, assertion_error, guard, ◌>>=◌, ◌>>◌}
use sigmadsp.Conversion.{bytes_to_int, int8_to_bytes}
use sigmadsp.Header.{
  PacketHeader, OperationKey, read_request_key, read_response_key, write_key, key_value,
  operation_key, copy_from_template, set_item, operation, bytes,
}

pub record PacketHeaderGenerator : Type 0 where
  pub new_write_header : Result PacketHeader
  pub new_read_request_header : Result PacketHeader
  pub new_read_response_header : Result PacketHeader

-- The chain of tests on the key. The enumeration has no other member, so the last branch of the
-- code is never taken.
unfoldable pub header_for : PacketHeaderGenerator → OperationKey → Result PacketHeader
header_for g read_request_key = g.new_read_request_header
header_for g read_response_key = g.new_read_response_header
header_for g write_key = g.new_write_header

unfoldable pub copy_if_given : Option PacketHeader → PacketHeader → Result PacketHeader
unfolding copy_from_template
copy_if_given none header = ok header
copy_if_given (some template) header = copy_from_template template header

unfoldable pub new_header_from_operation_byte :
    PacketHeaderGenerator → List ℕ → Option PacketHeader → Result PacketHeader
unfolding operation_key header_for copy_if_given set_item bytes_to_int
new_header_from_operation_byte g operation_byte template = do
  guard (length operation_byte == 1) assertion_error
  key ← operation_key (bytes_to_int operation_byte 0 (some 1))
  header ← header_for g key
  header' ← copy_if_given template header
  set_item operation (bytes operation_byte) header'

unfoldable pub new_header_from_operation_key :
    PacketHeaderGenerator → OperationKey → Option PacketHeader → Result PacketHeader
unfolding new_header_from_operation_byte int8_to_bytes
new_header_from_operation_key g key template = do
  operation_byte ← int8_to_bytes (pos (key_value key)) none 0
  new_header_from_operation_byte g operation_byte template
