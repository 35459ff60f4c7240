-- ===== src/Conversion/BitLength.antt =====
-- `int.bit_length`: the number of binary digits, and its meaning as a bound by a power of two.
use native.Mathlib.Nat.{pow-suc}
use sigmadsp.Prelude.{ℕ, zero, suc, ◌/◌, ◌^◌, ◌≤◌, ◌<◌, ◌↔◌, ◌==◌, arith, if◌then◌else◌}

pub two_pow_pos : (k : ℕ) → 0 < 2 ^ k
two_pow_pos zero = omega arith
two_pow_pos (suc k) = omega (arith, pow-suc 2 k, two_pow_pos k)

-- The digits of `n`, with fuel: halving `n` ends within `n` rounds.
unfoldable pub bit_count : ℕ → ℕ → ℕ
bit_count zero n = 0
bit_count (suc fuel) n = let rest = bit_count fuel (n / 2) in if n == 0 then 0 else suc rest

-- With fuel `n`, or more, `n` has at most `k` digits exactly when it is below 2 ^ k.
pub bit_count_iff : (fuel n k : ℕ) → n ≤ fuel → (bit_count fuel n ≤ k) ↔ (n < 2 ^ k)
unfolding bit_count
bit_count_iff zero n k h = (λ _. omega (arith, two_pow_pos k), λ _. omega arith)
bit_count_iff (suc fuel) n zero h = ground arith
bit_count_iff (suc fuel) n (suc k) h =
    ground (arith, pow-suc 2 k, two_pow_pos k, bit_count_iff fuel (n / 2) k (omega arith))
