-- ===== src/Tests/OnConversion.antt =====
-- The theorems on sigmadsp/helper/conversion.py at concrete values.
use sigmadsp.Prelude.{◌≡◌, ◌≤◌, ◌<◌, ◌^◌, ◌⊎◌}
use sigmadsp.Prelude.Int.{negsuc, abs}
use sigmadsp.Prelude.Result.{ok, err, overflow_error, ◌>>=◌}
use sigmadsp.Conversion.Fixpoint.{frac_8_24_to_float, float_to_frac_8_24}
use sigmadsp.Conversion.Fixpoint.Dyadic.{dyadic_ops}
use sigmadsp.Conversion.Fixpoint.Range.{frac_8_24_roundtrip}

-- One half in 8.24, negative.
frac_8_24_roundtrip_example :
    ((abs (negsuc 8388607) < 2 ^ 31)
      × ((frac_8_24_to_float dyadic_ops (negsuc 8388607) >>= float_to_frac_8_24 dyadic_ops)
          ≡ ok (negsuc 8388607)))
    ⊎ ((2 ^ 31 ≤ abs (negsuc 8388607))
        × (frac_8_24_to_float dyadic_ops (negsuc 8388607) ≡ err overflow_error))
frac_8_24_roundtrip_example = frac_8_24_roundtrip dyadic_ops (negsuc 8388607)
