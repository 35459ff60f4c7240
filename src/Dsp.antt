-- ===== src/Dsp.antt =====
-- sigmadsp/dsp/common.py: `class Dsp`. Its protocol object is a `Hardware`, which is called
-- directly, without the queues and the thread of Protocol.Queues. So a call of the hardware that
-- raises, raises at the caller here, where the code ends the thread of the protocol. The parts of
-- the ADAU14xx and ADAU1x0x families, and the proofs, are in the modules below.
pub mod Words
pub mod Adau14xx
pub mod Adau1x0x
pub mod Config
pub mod Pins
pub mod Factory
pub mod Volume
pub mod Parameters
use sigmadsp.Prelude.{ℕ, ◌≡◌, Bool, false, Option, none, some, List, if◌then◌else◌}
use sigmadsp.Prelude.Int.{ℤ, pos, pos_part, leb_ℤ, ltb_ℤ}
use sigmadsp.Prelude.Result.{
  Result, ok, err, assertion_error, type_error, value_error, ◌>>=◌ as bind_result,
}
use sigmadsp.Prelude.Exec.{Exec, pure, lift, require, ◌>>=◌, ◌>>◌}
use sigmadsp.Conversion.{bytes_to_int32, int32_to_bytes}
use sigmadsp.Conversion.Fixpoint.{FloatOps}
use sigmadsp.Conversion.Decibel.{DecibelOps}
use sigmadsp.Protocol.{Hardware}
use sigmadsp.Dsp.Pins.{Pin, get_pin_by_name}

-- `data_format`; `other_format` is any other text.
pub data DataFormat : Type 0 where
  float_format int_format other_format : DataFormat

abbrev pub fixpoint_register_length : ℕ
fixpoint_register_length = 4

module _ (hw : Hardware) where
  open hw use {Device, write_hw, read_hw}

  unfoldable pub write : ℤ → List ℕ → Exec Device (Unit {0})
  write address bytes = do
    require (leb_ℤ (pos 0) address) assertion_error
    write_hw (pos_part address) bytes

  unfoldable pub read : ℤ → ℤ → Exec Device (List ℕ)
  read address length = do
    require (leb_ℤ (pos 0) address) assertion_error
    require (ltb_ℤ (pos 0) length) assertion_error
    read_hw (pos_part address) (pos_part length)

-- The list of pins, and the methods `on` and `off` of the `control` of each.
pub record Gpio (hw : Hardware) : Type 0 where
  pub pins : List Pin
  pub switch_on : Pin → Exec (hw.Device) (Unit {0})
  pub switch_off : Pin → Exec (hw.Device) (Unit {0})

module _ (ops : FloatOps) where
  open ops use {Float, ltf}

  -- A value with its format, as `set_parameter_value` takes it and `get_parameter_value` returns it.
  pub data Parameter : Type 0 where
    float_parameter : Float → Parameter
    int_parameter : ℤ → Parameter

  -- What the code uses of `math` and of the arithmetic of floats for volumes. `is_nan` tells whether
  -- the object is `math.nan` itself.
  pub record VolumeOps : Type 0 where
    pub zero_float : Float
    pub one_float : Float
    pub plus : Float → Float → Float
    pub is_nan : Float → Bool
    pub decibels : DecibelOps ops
    -- No float is less than itself, and 1 is not less than 0.
    pub ltf_irrefl : (x : Float) → ltf x x ≡ false
    pub one_above_zero : ltf one_float zero_float ≡ false

  -- `isinstance(value, float)`
  abbrev pub as_float : Parameter → Result Float
  as_float (float_parameter v) = ok v
  as_float (int_parameter v) = err type_error

  module _ (hw : Hardware) where
    open hw use {Device}

    -- A `Dsp` object: `use_safeload`, and the methods of its class.
    pub record Dsp : Type 0 where
      pub use_safeload : Bool
      pub float_to_frac : Float → Result ℤ
      pub frac_to_float : ℤ → Result Float
      pub soft_reset : Exec Device (Unit {0})
      pub safeload : ℤ → List ℕ → Exec Device (Unit {0})

    unfoldable pub register_bytes : Dsp → Parameter → Result (List ℕ)
    register_bytes dsp (float_parameter value) =
        bind_result (dsp.float_to_frac value) λ frac. int32_to_bytes frac none 0
    register_bytes dsp (int_parameter value) = int32_to_bytes value none 0

    unfoldable pub set_parameter_value : Dsp → Parameter → ℤ → Exec Device (Unit {0})
    unfolding register_bytes write
    set_parameter_value dsp value address = do
      data_register ← lift (register_bytes dsp value)
      if dsp.use_safeload
          then dsp.safeload address data_register
          else write hw address data_register

    abbrev from_register : Dsp → DataFormat → ℤ → Result Parameter
    from_register dsp int_format n = ok (int_parameter n)
    from_register dsp float_format n = bind_result (dsp.frac_to_float n) λ v. ok (float_parameter v)
    from_register dsp other_format n = err value_error

    unfoldable pub get_parameter_value : Dsp → ℤ → DataFormat → Exec Device Parameter
    unfolding read bytes_to_int32
    get_parameter_value dsp address data_format = do
      data_register ← read hw address (pos fixpoint_register_length)
      lift (from_register dsp data_format (pos (bytes_to_int32 data_register 0)))

    abbrev toggle : Gpio hw → Option Pin → Exec Device (Unit {0})
    toggle gpio none = pure tt
    toggle gpio (some pin) = gpio.switch_on pin >> gpio.switch_off pin

    -- `hard_reset`, without the delay.
    unfoldable pub hard_reset : Gpio hw → Dsp → Exec Device (Unit {0})
    unfolding get_pin_by_name
    hard_reset gpio dsp = toggle gpio (get_pin_by_name "reset" gpio.pins) >> dsp.soft_reset
