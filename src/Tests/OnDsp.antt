-- ===== src/Tests/OnDsp.antt =====
-- The theorems on sigmadsp/dsp at hardware that records the writes.
use sigmadsp.Prelude.{
  take, length, take_all, ℕ, ◌≡◌, refl, ◌+◌, ◌^◌, ◌⊎◌, true, false, List, [], ◌∷◌, ◌++◌, arith,
  replicate,
}
use sigmadsp.Prelude.Int.{ℤ, pos, negsuc, ◌+ℤ◌}
use sigmadsp.Prelude.Result.{◌>>=◌ as bind_result, ok, index_error}
use sigmadsp.Prelude.Exec.{Exec, raise, ◌>>◌}
use sigmadsp.Conversion.Fixpoint.Dyadic.{Dyadic, dyadic_ops, dyadic_of, dyadic_ltf, scale}
use sigmadsp.Protocol.{Hardware}
use sigmadsp.Dsp.{
  Dsp, VolumeOps, float_parameter, float_format, set_parameter_value, get_parameter_value,
}
use sigmadsp.Dsp.Parameters.{KeepsRegister, set_parameter_value-get}
use sigmadsp.Conversion.{to_bytes, bit_length}
use sigmadsp.Conversion.Fixpoint.{float_to_frac_8_24, frac_8_24_to_float}
use sigmadsp.Dsp.Words.{AreWords, run_writes}
use sigmadsp.Dsp.Adau14xx as Adau14xx
use sigmadsp.Dsp.Adau1x0x as Adau1x0x
use sigmadsp.Dsp.Volume.{IsSafe, set_volume, set_volume-IsSafe, read_out, stored}

abbrev pub Recorded : Type 0
Recorded = List (ℕ × List ℕ)

abbrev pub record_write : ℕ → List ℕ → Exec Recorded (Unit {0})
record_write address bytes d = (ok tt, d ++ (address, bytes) ∷ [])

abbrev pub read_zeros : ℕ → ℕ → Exec Recorded (List ℕ)
read_zeros address length d = (ok (replicate length 0), d)

abbrev pub recorder : Hardware
recorder = record { Device = Recorded; write_hw = record_write; read_hw = read_zeros }

-- Volumes in steps of a factor 2.
abbrev pub dyadic_plus : Dyadic → Dyadic → Dyadic
dyadic_plus x y = record {
  num = scale x.num (2 ^ y.exp) +ℤ scale y.num (2 ^ x.exp);
  exp = x.exp + y.exp;
}

abbrev pub step_to_linear : ℤ → Dyadic
step_to_linear (pos n) = dyadic_of (pos (2 ^ n)) 0
step_to_linear (negsuc n) = dyadic_of (pos 1) (n + 1)

pub dyadic_irrefl : (x : Dyadic) → dyadic_ltf x x ≡ false
dyadic_irrefl x = ground arith

abbrev pub dyadic_volume : VolumeOps dyadic_ops
dyadic_volume = record {
  zero_float = dyadic_of (pos 0) 0;
  one_float = dyadic_of (pos 1) 0;
  plus = dyadic_plus;
  is_nan = λ x. false;
  decibels = record {
    over_20 = λ x. x;
    ten_to = λ x. ok (step_to_linear x.num);
    is_zero = λ x. false;
    minus_infinity = dyadic_of (pos 0) 0;
    log10 = λ x. ok x;
    times_20 = λ x. x;
  };
  ltf_irrefl = dyadic_irrefl;
  one_above_zero = refl;
}

abbrev pub dsp14 : Dsp dyadic_ops recorder
dsp14 = Adau14xx.adau14xx recorder dyadic_ops true

abbrev six_bytes : List ℕ
six_bytes = 1 ∷ 2 ∷ 3 ∷ 4 ∷ 5 ∷ 6 ∷ []

abbrev many_bytes : List ℕ
many_bytes = replicate 21 7

safeload-run_writes_example :
    (ws : List (List ℕ)) × AreWords six_bytes ws
    × (Adau14xx.safeload recorder (pos 300) six_bytes []
        ≡ run_writes recorder (Adau14xx.safeload_writes recorder 300 ws) [])
safeload-run_writes_example =
    Adau14xx.safeload-run_writes recorder 300 six_bytes [] (omega arith) (omega arith)

safeload-start_transfer_example :
    (ws : List (List ℕ)) × AreWords six_bytes ws
    × (Adau1x0x.safeload recorder (pos 300) six_bytes []
        ≡ (run_writes recorder (Adau1x0x.in_registers Adau1x0x.safeload_registers 300 ws)
              >> Adau1x0x.start_transfer recorder)
            [])
safeload-start_transfer_example =
    Adau1x0x.safeload-start_transfer recorder 300 six_bytes [] (omega arith) (omega arith)

safeload-too_long_example :
    (ws : List (List ℕ)) × AreWords many_bytes ws
    × (Adau1x0x.safeload recorder (pos 300) many_bytes []
        ≡ (run_writes recorder (Adau1x0x.in_registers Adau1x0x.safeload_registers 300 ws)
              >> raise index_error)
            [])
safeload-too_long_example =
    Adau1x0x.safeload-too_long recorder 300 many_bytes [] (omega arith) (omega arith)

abbrev volume_run : Recorded
volume_run =
    (set_volume dyadic_ops dyadic_volume recorder dsp14 (dyadic_of (pos 3) 0) (pos 12) false []).1

set_volume-IsSafe_example :
    (volume_run ≡ read_out dyadic_ops dyadic_volume recorder dsp14 (pos 12) [])
    ⊎ ((v : Dyadic) × IsSafe dyadic_ops dyadic_volume recorder dsp14 v
        × ((volume_run
              ≡ stored dyadic_ops dyadic_volume recorder dsp14 v
                  (pos 12)
                  (read_out dyadic_ops dyadic_volume recorder dsp14 (pos 12) []))
            ⊎ (volume_run
                ≡ read_out dyadic_ops dyadic_volume recorder dsp14 (pos 12) (
                    stored dyadic_ops dyadic_volume recorder dsp14 v
                      (pos 12)
                      (read_out dyadic_ops dyadic_volume recorder dsp14 (pos 12) [])))))
set_volume-IsSafe_example =
    set_volume-IsSafe dyadic_ops dyadic_volume recorder dsp14 (dyadic_of (pos 3) 0) (pos 12) false
      []

-- Hardware that keeps the bytes last written.
abbrev last_write : ℕ → List ℕ → Exec (List ℕ) (Unit {0})
last_write address bytes d = (ok tt, bytes)

abbrev last_read : ℕ → ℕ → Exec (List ℕ) (List ℕ)
last_read address length d = (ok (take length d), d)

abbrev register : Hardware
register = record { Device = List ℕ; write_hw = last_write; read_hw = last_read }

abbrev plain_dsp : Dsp dyadic_ops register
plain_dsp = Adau14xx.adau14xx register dyadic_ops false

kept_bytes :
    (bytes : List ℕ) (d : List ℕ) → length bytes ≡ 4 → last_read 9 4 bytes ≡ (ok bytes, bytes)
kept_bytes bytes d four = rw (take_all 4 bytes (omega (arith, four))) refl

abbrev keeps : KeepsRegister dyadic_ops register plain_dsp 9
keeps = record { after_write = λ bytes d. bytes; written = λ bytes d. refl; kept = kept_bytes }

-- Three steps of the format.
set_parameter_value-get_example :
    (set_parameter_value dyadic_ops register plain_dsp
          (float_parameter (dyadic_of (pos 3) 24))
          (pos 9)
        >> get_parameter_value dyadic_ops register plain_dsp (pos 9) float_format)
      []
    ≡ (
      bind_result (frac_8_24_to_float dyadic_ops (pos 3)) λ w. ok (float_parameter w),
      to_bytes 4 3,
    )
unfolding float_to_frac_8_24 bit_length
set_parameter_value-get_example =
    set_parameter_value-get dyadic_ops register plain_dsp 9 3 (dyadic_of (pos 3) 24) [] keeps refl
      refl (omega arith)
