-- ===== src/Dsp/Volume.antt =====
-- `Dsp.set_volume` of sigmadsp/dsp/common.py.
use sigmadsp.Prelude.{◌≡◌, refl, Bool, true, false, ◌⊎◌, inl, inr, arith, Bool-cases, if◌then◌else◌}
use sigmadsp.Prelude.Int.{ℤ}
use sigmadsp.Prelude.Result.{Result, ok, err, overflow_error, value_error, ◌>>=◌ as bind_result}
use sigmadsp.Prelude.Exec.{Exec, pure, raise, lift, continue, ◌>>=◌, ◌>>◌}
use sigmadsp.Conversion.Fixpoint.{FloatOps, clamp}
use sigmadsp.Conversion.Decibel.{db_to_linear, linear_to_db}
use sigmadsp.Protocol.{Hardware}
use sigmadsp.Dsp.{
  Dsp, VolumeOps, as_float, float_parameter, float_format, set_parameter_value, get_parameter_value,
}

module _ (ops : FloatOps) (volume : VolumeOps ops) (hw : Hardware) (dsp : Dsp ops hw) where
  open ops use {Float, ltf}
  open volume use {zero_float, one_float, plus, is_nan, decibels}
  open hw use {Device}

  -- The readout of a register as a float.
  unfoldable pub read_float : ℤ → Exec Device Float
  read_float address = do
    value ← get_parameter_value ops hw dsp address float_format
    lift (as_float ops value)

  -- The log entry and the readback at the end of `set_volume`; `linear_to_db` of the entry may
  -- raise.
  unfoldable pub read_back : Float → ℤ → Exec Device Float
  read_back new_volume address = do
    lift (linear_to_db ops decibels new_volume)
    value ← read_float address
    lift (linear_to_db ops decibels value)

  -- `except ValueError` around `set_parameter_value`
  unfoldable pub after_store : Float → Float → ℤ → Result (Unit {0}) → Exec Device Float
  after_store current_db new_volume address (ok _) = read_back new_volume address
  after_store current_db new_volume address (err value_error) = pure current_db
  after_store current_db new_volume address (err e) = raise e

  -- `except OverflowError` around the conversion of the volume, and what follows it.
  unfoldable pub store_volume : Float → ℤ → Result Float → Exec Device Float
  store_volume current_db address (ok new_volume) d =
      let (r, d') = set_parameter_value ops hw dsp (float_parameter new_volume) address d in
      after_store current_db new_volume address r d'
  store_volume current_db address (err overflow_error) d = (ok current_db, d)
  store_volume current_db address (err e) d = (err e, d)

  unfoldable pub safe_volume : Float → Result Float
  safe_volume volume_db =
      bind_result (db_to_linear ops decibels volume_db) λ v. clamp ops v zero_float one_float

  unfoldable pub set_volume : Float → ℤ → Bool → Exec Device Float
  set_volume volume_db address relative = do
    current_volume ← read_float address
    current_db ← lift (linear_to_db ops decibels current_volume)
    if is_nan volume_db
        then pure current_db
        else store_volume current_db address
            (safe_volume (if relative then plus volume_db current_db else volume_db))

  unfoldable pub adjust_volume : Float → ℤ → Exec Device Float
  adjust_volume adjustment_db address = set_volume adjustment_db address true

  -- A volume between 0 and 1, or one that does not compare with them.
  pub record IsSafe (v : Float) : Type 0 where
    pub not_above : ltf one_float v ≡ false
    pub not_below : ltf v zero_float ≡ false

  safe_volume-IsSafe : (x v : Float) → safe_volume x ≡ ok v → IsSafe v
  unfolding safe_volume clamp
  safe_volume-IsSafe x v e = record {
    not_above =
        ground
          (arith, volume.ltf_irrefl one_float, volume.one_above_zero, volume.ltf_irrefl zero_float);
    not_below =
        ground
          (arith, volume.ltf_irrefl one_float, volume.one_above_zero, volume.ltf_irrefl zero_float);
  }

  -- The DSP after the readout of the register.
  abbrev pub read_out : ℤ → Device → Device
  read_out address d = (read_float address d).1

  -- The DSP after a volume was stored.
  abbrev pub stored : Float → ℤ → Device → Device
  stored v address d = (set_parameter_value ops hw dsp (float_parameter v) address d).1

  -- Where a call that reads the register leaves the DSP.
  abbrev Unchanged : ℤ → Device → Device → Type 0
  Unchanged address d d' = (d' ≡ d) ⊎ (d' ≡ read_out address d)

  converted :
      (r : Result Float) (s : Device)
      → (continue r (λ (v : Float). lift (linear_to_db ops decibels v)) s).1 ≡ s
  converted (ok v) s = refl
  converted (err e) s = refl

  read_back_state :
      (r : Result Float) (address : ℤ) (d : Device)
      → Unchanged address d
          (continue r
            (λ (x : Float).
              read_float address >>= λ (v : Float). lift (linear_to_db ops decibels v))
            d).1
  read_back_state (ok x) address d =
      inr (converted (read_float address d).0 (read_float address d).1)
  read_back_state (err e) address d = inl refl

  after_store_state :
      (current v : Float) (address : ℤ) (r : Result (Unit {0})) (d : Device)
      → Unchanged address d (after_store current v address r d).1
  unfolding after_store read_back
  after_store_state current v address (ok tt) d =
      read_back_state (linear_to_db ops decibels v) address d
  after_store_state current v address (err e) d = inl (ground arith)

  store_volume_cases :
      (current : Float) (address : ℤ) (r : Result Float) (d : Device)
      → ((v : Float) → r ≡ ok v → IsSafe v)
      → ((store_volume current address r d).1 ≡ d)
        ⊎ ((v : Float) × IsSafe v
            × Unchanged address (stored v address d) (store_volume current address r d).1)
  unfolding store_volume
  store_volume_cases current address (ok v) d safe =
      inr (v, safe v refl, after_store_state current v address _ _)
  store_volume_cases current address (err e) d safe = inl (ground arith)

  -- `set_volume` after the readout.
  abbrev continued : Float → ℤ → Bool → Float → Exec Device Float
  continued volume_db address relative current_volume = do
    current_db ← lift (linear_to_db ops decibels current_volume)
    if is_nan volume_db
        then pure current_db
        else store_volume current_db address
            (safe_volume (if relative then plus volume_db current_db else volume_db))

  after_conversion :
      (volume_db : Float) (address : ℤ) (r : Result Float) (m : Float → Exec Device Float)
      (d : Device)
      → ((current : Float)
          → ((m current d).1 ≡ d)
            ⊎ ((v : Float) × IsSafe v × Unchanged address (stored v address d) (m current d).1))
      → ((continue r m d).1 ≡ d)
        ⊎ ((v : Float) × IsSafe v × Unchanged address (stored v address d) (continue r m d).1)
  after_conversion volume_db address (ok current) m d h = h current
  after_conversion volume_db address (err e) m d h = inl refl

  after_readout :
      (volume_db : Float) (address : ℤ) (relative : Bool) (r : Result Float) (d : Device)
      → ((continue r (continued volume_db address relative) d).1 ≡ d)
        ⊎ ((v : Float) × IsSafe v
            × Unchanged address
                (stored v address d)
                (continue r (continued volume_db address relative) d).1)
  after_readout volume_db address relative (err e) d = inl refl
  after_readout volume_db address relative (ok current_volume) d =
      after_conversion volume_db address (linear_to_db ops decibels current_volume) _ d
        λ current_db. elim (Bool-cases (is_nan volume_db)) [
          | inl nan ↦ inl (rw nan refl)
          | inr other ↦ rw other (
              store_volume_cases current_db address
                (safe_volume (if relative then plus volume_db current_db else volume_db)) d
                (safe_volume-IsSafe (if relative then plus volume_db current_db else volume_db)))
        ]

  -- Whatever the arguments and the answers of the DSP, and whether or not it raises, `set_volume` reads
  -- the register, and then does nothing more to the DSP, or stores one volume, which is not above 1 and
  -- not below 0, and reads the register once more at most.
  pub set_volume-IsSafe :
      (volume_db : Float) (address : ℤ) (relative : Bool) (d : Device)
      → ((set_volume volume_db address relative d).1 ≡ read_out address d)
        ⊎ ((v : Float) × IsSafe v
            × (((set_volume volume_db address relative d).1 ≡ stored v address (read_out address d))
                ⊎ ((set_volume volume_db address relative d).1
                    ≡ read_out address (stored v address (read_out address d)))))
  unfolding set_volume
  set_volume-IsSafe volume_db address relative d =
      after_readout volume_db address relative (read_float address d).0 (read_float address d).1
