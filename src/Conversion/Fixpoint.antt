-- ===== src/Conversion/Fixpoint.antt =====
-- The 8.24 and 5.23 fixed-point formats of sigmadsp/helper/conversion.py, and `clamp`. Python's
-- `float` is a parameter: a type, the operations that the code uses, and the exactness of IEEE
-- doubles on small integers.
pub mod Dyadic
pub mod Range
use sigmadsp.Prelude.{ℕ, ◌^◌, ◌≤◌, ◌≡◌, Bool, ltb, if◌then◌else◌}
use sigmadsp.Prelude.Int.{ℤ}
use sigmadsp.Prelude.Result.{Result, ok, err, overflow_error, value_error, ◌>>=◌}
use sigmadsp.Conversion.{bit_length}

abbrev pub bit_length_8_24 : ℕ
bit_length_8_24 = 31

abbrev pub bit_length_5_23 : ℕ
bit_length_5_23 = 27

pub record FloatOps : Type 1 where
  pub Float : Type 0
  -- `value * 2**k`
  pub mul_pow : Float → ℕ → Float
  -- `value / 2**k` of an int
  pub div_pow : ℤ → ℕ → Float
  -- `int(value)`: it raises at infinities and at nan.
  pub to_int : Float → Result ℤ
  -- `a < b`
  pub ltf : Float → Float → Bool
  -- A double holds integers of up to 53 bits, and scaling by a small power of two is exact.
  pub exact : (n : ℤ) (k : ℕ) → bit_length n ≤ 53 → k ≤ 24 → to_int (mul_pow (div_pow n k) k) ≡ ok n

module _ (ops : FloatOps) where
  open ops use {Float, mul_pow, div_pow, to_int, ltf}

  unfoldable pub clamp : Float → Float → Float → Result Float
  clamp value min_value max_value =
      if ltf max_value min_value
      then err value_error
      else if ltf max_value value
      then ok max_value
      else if ltf value min_value
      then ok min_value
      else ok value

  unfoldable pub frac_8_24_to_float : ℤ → Result Float
  frac_8_24_to_float value =
      if ltb bit_length_8_24 (bit_length value) then err overflow_error else ok (div_pow value 24)

  unfoldable pub float_to_frac_8_24 : Float → Result ℤ
  float_to_frac_8_24 value = do
    frac ← to_int (mul_pow value 24)
    if ltb bit_length_8_24 (bit_length frac) then err overflow_error else ok frac

  unfoldable pub frac_5_23_to_float : ℤ → Result Float
  frac_5_23_to_float value =
      if ltb bit_length_5_23 (bit_length value) then err overflow_error else ok (div_pow value 23)

  unfoldable pub float_to_frac_5_23 : Float → Result ℤ
  float_to_frac_5_23 value = do
    frac ← to_int (mul_pow value 23)
    if ltb bit_length_5_23 (bit_length frac) then err overflow_error else ok frac
