-- ===== src/Conversion/Decibel.antt =====
-- sigmadsp/helper/conversion.py: volumes in dB. The arithmetic of floats and `math.log10` are parameters.
use sigmadsp.Prelude.{Bool, if◌then◌else◌}
use sigmadsp.Prelude.Result.{Result, ok, ◌>>=◌}
use sigmadsp.Conversion.Fixpoint.{FloatOps}

module _ (ops : FloatOps) where
  open ops use {Float}

  -- `x / 20`, `10 ** x`, which may overflow, `x == 0`, `-math.inf`, `math.log10(x)`, which is not defined
  -- below 0, and `20 * x`.
  pub record DecibelOps : Type 0 where
    pub over_20 : Float → Float
    pub ten_to : Float → Result Float
    pub is_zero : Float → Bool
    pub minus_infinity : Float
    pub log10 : Float → Result Float
    pub times_20 : Float → Float

  module _ (decibels : DecibelOps) where
    open decibels use {over_20, ten_to, is_zero, minus_infinity, log10, times_20}

    unfoldable pub db_to_linear : Float → Result Float
    db_to_linear value_db = ten_to (over_20 value_db)

    unfoldable pub linear_to_db : Float → Result Float
    linear_to_db value_linear =
        if is_zero value_linear
        then ok minus_infinity
        else do v ← log10 value_linear; ok (times_20 v)
