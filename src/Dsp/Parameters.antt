-- ===== src/Dsp/Parameters.antt =====
-- `set_parameter_value` and `get_parameter_value` of sigmadsp/dsp/common.py.
use sigmadsp.Prelude.{ℕ, ◌<◌, ◌^◌, ◌≡◌, refl, ◌∙◌, true, false, List, arith, length, take_all}
use sigmadsp.Prelude.Int.{ℤ, pos, negsuc, leb_ℤ}
use sigmadsp.Prelude.Result.{ok, err, overflow_error, ◌>>=◌ as bind_result}
use sigmadsp.Prelude.Exec.{◌>>◌}
use sigmadsp.Conversion.{
  bytes_to_int32, to_bytes, length-to_bytes, from_bytes-to_bytes, int32_to_bytes,
}
use sigmadsp.Conversion.Buffer.{int32_to_bytes-new}
use sigmadsp.Conversion.Fixpoint.{FloatOps}
use sigmadsp.Protocol.{Hardware}
use sigmadsp.Dsp.{
  Dsp, float_parameter, float_format, register_bytes, set_parameter_value, get_parameter_value,
  write, read,
}

bytes_to_int32-to_bytes : (n : ℕ) → n < 256 ^ 4 → bytes_to_int32 (to_bytes 4 n) 0 ≡ n
unfolding bytes_to_int32
bytes_to_int32-to_bytes n h =
    rw (take_all 4 (to_bytes 4 n) (omega (arith, length-to_bytes 4 n))) (from_bytes-to_bytes 4 n h)

module _ (ops : FloatOps) (hw : Hardware) (dsp : Dsp ops hw) where
  open ops use {Float}
  open hw use {Device}

  write_nonneg :
      (address : ℕ) (bytes : List ℕ) (d : Device)
      → write hw (pos address) bytes d ≡ hw.write_hw address bytes d
  unfolding write
  write_nonneg address bytes d =
      let nonneg : leb_ℤ (pos 0) (pos address) ≡ true = ground arith in rw nonneg refl

  read_nonneg :
      (address : ℕ) (d : Device) → read hw (pos address) (pos 4) d ≡ hw.read_hw address 4 d
  unfolding read
  read_nonneg address d =
      let nonneg : leb_ℤ (pos 0) (pos address) ≡ true = ground arith in rw nonneg refl

  get_from :
      (address n : ℕ) (d : Device)
      → n < 256 ^ 4
      → read hw (pos address) (pos 4) d ≡ (ok (to_bytes 4 n), d)
      → get_parameter_value ops hw dsp (pos address) float_format d
        ≡ (bind_result (dsp.frac_to_float (pos n)) (λ w. ok (float_parameter w)), d)
  unfolding get_parameter_value
  get_from address n d fits e = rw e (rw (bytes_to_int32-to_bytes n fits) refl)

  set_plain :
      (address n : ℕ) (v : Float) (d : Device)
      → dsp.use_safeload ≡ false
      → dsp.float_to_frac v ≡ ok (pos n)
      → n < 256 ^ 4
      → set_parameter_value ops hw dsp (float_parameter v) (pos address) d
        ≡ write hw (pos address) (to_bytes 4 n) d
  unfolding set_parameter_value register_bytes
  set_plain address n v d plain converted fits =
      rw (plain, converted, int32_to_bytes-new n fits) refl

  -- A register of the hardware keeps four bytes that are written to it.
  pub record KeepsRegister (address : ℕ) : Type 0 where
    pub after_write : List ℕ → Device → Device
    pub written :
        (bytes : List ℕ) (d : Device) → hw.write_hw address bytes d ≡ (ok tt, after_write bytes d)
    pub kept :
        (bytes : List ℕ) (d : Device)
        → length bytes ≡ 4
        → hw.read_hw address 4 (after_write bytes d) ≡ (ok bytes, after_write bytes d)

  -- On a DSP without safeload, at a register that keeps the four bytes that are written to it: a float whose fixed-point value is not negative and fits into 32 bits is
  -- stored, and the readout is that value, converted back.
  pub set_parameter_value-get :
      (address n : ℕ) (v : Float) (d : Device) (keeps : KeepsRegister address)
      → dsp.use_safeload ≡ false
      → dsp.float_to_frac v ≡ ok (pos n)
      → n < 256 ^ 4
      → (set_parameter_value ops hw dsp (float_parameter v) (pos address)
            >> get_parameter_value ops hw dsp (pos address) float_format)
          d
        ≡ (
          bind_result (dsp.frac_to_float (pos n)) λ w. ok (float_parameter w),
          keeps.after_write (to_bytes 4 n) d,
        )
  set_parameter_value-get address n v d keeps plain converted fits =
      let bytes = to_bytes 4 n in
      let d' = keeps.after_write bytes d in
      let stored : set_parameter_value ops hw dsp (float_parameter v) (pos address) d
          ≡ (ok tt, d') =
        set_plain address n v d plain converted fits
        ∙ write_nonneg address bytes d
        ∙ keeps.written bytes d in
      let answered : read hw (pos address) (pos 4) d' ≡ (ok bytes, d') =
        read_nonneg address d' ∙ keeps.kept bytes d (length-to_bytes 4 n) in
      rw stored (get_from address n d' fits answered)

  -- A float whose fixed-point value is negative is never stored: the conversion to bytes raises, and
  -- the DSP is not called.
  pub set_parameter_value_negative :
      (address : ℤ) (k : ℕ) (v : Float) (d : Device)
      → dsp.float_to_frac v ≡ ok (negsuc k)
      → set_parameter_value ops hw dsp (float_parameter v) address d ≡ (err overflow_error, d)
  unfolding set_parameter_value register_bytes int32_to_bytes
  set_parameter_value_negative address k v d e = rw e refl
