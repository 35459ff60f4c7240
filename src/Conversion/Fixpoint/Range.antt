-- ===== src/Conversion/Fixpoint/Range.antt =====
-- The conversions from registers to floats and back in sigmadsp/helper/conversion.py: which integers
-- the fixed-point formats accept.
use sigmadsp.Prelude.{ℕ, ◌^◌, ◌≤◌, ◌<◌, ◌≡◌, ◌↔◌, ◌⊎◌, arith}
use sigmadsp.Prelude.Int.{ℤ, abs}
use sigmadsp.Prelude.Result.{ok, err, overflow_error, ◌>>=◌}
use sigmadsp.Conversion.{bit_length, bit_count_iff}
use sigmadsp.Conversion.Fixpoint.{
  FloatOps, frac_8_24_to_float, float_to_frac_8_24, frac_5_23_to_float, float_to_frac_5_23,
}

-- The meaning of `bit_length`, for integers of both signs.
pub bit_length_iff : (v : ℤ) (k : ℕ) → (bit_length v ≤ k) ↔ (abs v < 2 ^ k)
unfolding bit_length
bit_length_iff v k = bit_count_iff (abs v) (abs v) k (omega arith)

module _ (ops : FloatOps) where
  -- A register value of 8.24 converts to a float exactly when its absolute value is below 2 ^ 31,
  -- and that float converts back to the same value; any other value overflows. So -2 ^ 31 is
  -- refused.
  pub frac_8_24_roundtrip :
      (v : ℤ)
      → ((abs v < 2 ^ 31) × ((frac_8_24_to_float ops v >>= float_to_frac_8_24 ops) ≡ ok v))
        ⊎ ((2 ^ 31 ≤ abs v) × (frac_8_24_to_float ops v ≡ err overflow_error))
  unfolding frac_8_24_to_float float_to_frac_8_24
  frac_8_24_roundtrip v = ground (arith, bit_length_iff v 31, ops.exact v 24)

  -- The same of 5.23, with the bound 2 ^ 27.
  pub frac_5_23_roundtrip :
      (v : ℤ)
      → ((abs v < 2 ^ 27) × ((frac_5_23_to_float ops v >>= float_to_frac_5_23 ops) ≡ ok v))
        ⊎ ((2 ^ 27 ≤ abs v) × (frac_5_23_to_float ops v ≡ err overflow_error))
  unfolding frac_5_23_to_float float_to_frac_5_23
  frac_5_23_roundtrip v = ground (arith, bit_length_iff v 27, ops.exact v 23)
