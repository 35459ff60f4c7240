-- ===== src/Conversion/Fixpoint/Dyadic.antt =====
-- Numbers `num / 2 ^ exp`: a concrete type of floats that meets the assumptions on `float`.
use native.Mathlib.Nat.{mul-div_cancel}
use sigmadsp.Prelude.{ℕ, zero, suc, ◌-◌, ◌*◌, ◌/◌, ◌^◌, ◌≤◌, ◌<◌, ◌≡◌, ap, arith, Bool}
use sigmadsp.Prelude.Int.{ℤ, pos, negsuc, ltb_ℤ}
use sigmadsp.Prelude.Result.{Result, ok}
use sigmadsp.Conversion.{bit_length, two_pow_pos}
use sigmadsp.Conversion.Fixpoint.{FloatOps}

pub record Dyadic : Type 0 where
  pub num : ℤ
  pub exp : ℕ

-- n * m, and n / m rounded towards zero.
abbrev pub scale : ℤ → ℕ → ℤ
scale (pos n) m = pos (n * m)
scale (negsuc n) m = negsuc (suc n * m - 1)

abbrev negated : ℕ → ℤ
negated zero = pos zero
negated (suc n) = negsuc n

abbrev quotient : ℤ → ℕ → ℤ
quotient (pos n) m = pos (n / m)
quotient (negsuc n) m = negated (suc n / m)

pub quotient-scale : (n : ℤ) (m : ℕ) → 0 < m → quotient (scale n m) m ≡ n
quotient-scale (pos n) m h = ap pos (mul-div_cancel n h)
quotient-scale (negsuc n) m h =
    let whole : suc (suc n * m - 1) ≡ suc n * m = grind arith in
    rw whole (rw (mul-div_cancel (suc n) h))

abbrev pub dyadic_mul_pow : Dyadic → ℕ → Dyadic
dyadic_mul_pow x k = record { num = scale x.num (2 ^ k); exp = x.exp }

abbrev pub dyadic_to_int : Dyadic → Result ℤ
dyadic_to_int x = ok (quotient x.num (2 ^ x.exp))

abbrev pub dyadic_ltf : Dyadic → Dyadic → Bool
dyadic_ltf x y = ltb_ℤ (scale x.num (2 ^ y.exp)) (scale y.num (2 ^ x.exp))

abbrev pub dyadic_of : ℤ → ℕ → Dyadic
dyadic_of n k = record { num = n; exp = k }

pub dyadic_exact :
    (n : ℤ) (k : ℕ)
    → bit_length n ≤ 53
    → k ≤ 24
    → dyadic_to_int (dyadic_mul_pow (dyadic_of n k) k) ≡ ok n
dyadic_exact n k _ _ = ap (λ (v : ℤ). ok v) (quotient-scale n (2 ^ k) (two_pow_pos k))

abbrev pub dyadic_ops : FloatOps
dyadic_ops = record {
  Float = Dyadic;
  mul_pow = dyadic_mul_pow;
  div_pow = dyadic_of;
  to_int = dyadic_to_int;
  ltf = dyadic_ltf;
  exact = dyadic_exact;
}
