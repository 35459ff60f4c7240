-- ===== src/Conversion.antt =====
-- sigmadsp/helper/conversion.py: integers and byte strings, and the fixed-point formats. The
-- proofs are in the modules below.
mod Bytes
mod BitLength
pub mod Buffer
pub mod Fixpoint
pub mod Decibel
unfoldable pub use Bytes.*
unfoldable pub use BitLength.*
use sigmadsp.Prelude.{
  ℕ, ◌+◌, ◌*◌, ◌/◌, ◌^◌, ◌≡◌, Option, none, some, List, ◌++◌, ltb, if◌then◌else◌, take, drop,
  replicate,
}
use sigmadsp.Prelude.Int.{ℤ, pos, negsuc, abs}
use sigmadsp.Prelude.Result.{Result, ok, err, overflow_error, ◌>>=◌}

-- `int.bit_length` of Python's signed integers looks at the absolute value.
unfoldable pub bit_length : ℤ → ℕ
unfolding bit_count
bit_length v = bit_count (abs v) (abs v)

-- `data[offset : offset + length]`, or `data[offset:]` where the length is `None`.
unfoldable pub bytes_to_int : List ℕ → ℕ → Option ℕ → ℕ
bytes_to_int bytes offset (some length) = from_bytes (take length (drop offset bytes))
bytes_to_int bytes offset none = from_bytes (drop offset bytes)

unfoldable pub bytes_to_int8 : List ℕ → ℕ → ℕ
unfolding bytes_to_int
bytes_to_int8 bytes offset = bytes_to_int bytes offset (some 1)

unfoldable pub bytes_to_int16 : List ℕ → ℕ → ℕ
unfolding bytes_to_int
bytes_to_int16 bytes offset = bytes_to_int bytes offset (some 2)

unfoldable pub bytes_to_int32 : List ℕ → ℕ → ℕ
unfolding bytes_to_int
bytes_to_int32 bytes offset = bytes_to_int bytes offset (some 4)

-- `value.to_bytes(length, byteorder="big")`: unsigned, so it refuses what is negative or too large.
unfoldable pub int_bytes : ℤ → ℕ → Result (List ℕ)
int_bytes (pos v) length =
    if ltb v (256 ^ length) then ok (to_bytes length v) else err overflow_error
int_bytes (negsuc v) length = err overflow_error

-- `buffer[offset : offset + length] = piece` of a `bytearray`: what lies past the end is appended.
unfoldable pub splice : List ℕ → ℕ → ℕ → List ℕ → List ℕ
splice buffer offset length piece = take offset buffer ++ (piece ++ drop (offset + length) buffer)

-- The argument `buffer`, or a new zeroed one.
unfoldable pub buffer_or_new : Option (List ℕ) → ℕ → List ℕ
buffer_or_new none size = replicate size 0
buffer_or_new (some buffer) size = buffer

unfoldable pub int_to_bytes : ℤ → Option (List ℕ) → ℕ → ℕ → Result (List ℕ)
unfolding int_bytes splice buffer_or_new
int_to_bytes value buffer offset length = do
  let target = buffer_or_new buffer (length + offset)
  piece ← int_bytes value length
  ok (splice target offset length piece)

unfoldable pub int8_to_bytes : ℤ → Option (List ℕ) → ℕ → Result (List ℕ)
unfolding int_to_bytes
int8_to_bytes value buffer offset = int_to_bytes value buffer offset 1

unfoldable pub int16_to_bytes : ℤ → Option (List ℕ) → ℕ → Result (List ℕ)
unfolding int_to_bytes
int16_to_bytes value buffer offset = int_to_bytes value buffer offset 2

unfoldable pub int32_to_bytes : ℤ → Option (List ℕ) → ℕ → Result (List ℕ)
unfolding int_to_bytes
int32_to_bytes value buffer offset = int_to_bytes value buffer offset 4
