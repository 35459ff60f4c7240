-- ===== src/Dsp/Factory.antt =====
-- sigmadsp/dsp/factory.py: the DSP object that a configuration describes.
pub mod Described
pub mod Created
use Prim.Native.String.{String}
use sigmadsp.Prelude.{Bool, true, List, [], ◌∷◌, if◌then◌else◌}
use sigmadsp.Prelude.Int.{ℤ}
use sigmadsp.Prelude.Result.{
  Error, Result, ok, err, configuration_error, key_error, type_error, ◌>>=◌ as bind_result,
}
use sigmadsp.Prelude.Exec.{Exec, pure, lift, modify, ◌>>=◌, ◌>>◌}
use sigmadsp.Conversion.Fixpoint.{FloatOps}
use sigmadsp.Protocol.{Hardware}
use sigmadsp.Parser.Texts.{Text, same_text, codes}
use sigmadsp.Dsp.{Dsp}
use sigmadsp.Dsp.Adau14xx.{adau14xx}
use sigmadsp.Dsp.Adau1x0x.{adau1x0x}
use sigmadsp.Dsp.Config.{Value, subscript, iterate, lower, int, is_string}
use sigmadsp.Dsp.Pins.{Pin, input_pin, output_pin, add_pin}

-- The classes that the factory returns.
pub data DspType : Type 0 where
  adau14xx_type adau1x0x_type : DspType

unfoldable pub dsp_factory : Text → Result DspType
unfolding same_text
dsp_factory dsp_type_name =
    if same_text dsp_type_name (codes "adau14xx")
    then ok adau14xx_type
    else if same_text dsp_type_name (codes "adau1x0x")
    then ok adau1x0x_type
    else err type_error

-- What the factory calls: the constructors of the protocols, which open the device, `int` of a text, and
-- the constructors of gpiozero's `DigitalOutputDevice` and `DigitalInputDevice`.
pub record Interfaces : Type 1 where
  pub spi_protocol : ℤ → ℤ → Result Hardware
  pub i2c_protocol : ℤ → ℤ → Result Hardware
  pub int_of : String → Result ℤ
  pub output_device : Value → Value → Value → Result (Unit {0})
  pub input_device : Value → Value → Value → Value → Result (Unit {0})

module _ (ops : FloatOps) (interfaces : Interfaces) where
  open interfaces use {spi_protocol, i2c_protocol, int_of, output_device, input_device}

  -- The object that is created.
  pub record DspObject : Type 1 where
    pub hardware : Hardware
    pub dsp : Dsp ops hardware
    pub pins : List Pin

  -- `dsp_type(use_safeload, dsp_protocol)`
  abbrev pub new_dsp : DspType → Bool → (hw : Hardware) → Dsp ops hw
  new_dsp adau14xx_type use_safeload hw = adau14xx hw ops use_safeload
  new_dsp adau1x0x_type use_safeload hw = adau1x0x hw ops use_safeload

  -- `OutputPin(...)`, and adding it.
  unfoldable pub add_output_pin : String → Value → Exec (List Pin) (Unit {0})
  unfolding subscript add_pin
  add_output_pin key definition = do
    number ← lift (subscript definition "number")
    initial_state ← lift (subscript definition "initial_state")
    active_high ← lift (subscript definition "active_high")
    lift (output_device number active_high initial_state)
    modify
        (add_pin (record { name = key; definition = output_pin number initial_state active_high }))

  -- `InputPin(...)`, and adding it.
  unfoldable pub add_input_pin : String → Value → Exec (List Pin) (Unit {0})
  unfolding subscript add_pin
  add_input_pin key definition = do
    number ← lift (subscript definition "number")
    pull_up ← lift (subscript definition "pull_up")
    active_state ← lift (subscript definition "active_state")
    bounce_time ← lift (subscript definition "bounce_time")
    lift (input_device number pull_up active_state bounce_time)
    modify (
        add_pin
          (record { name = key; definition = input_pin number pull_up active_state bounce_time }))

  -- The body of the loop over the pin definitions.
  unfoldable pub add_definition : Value → String → Exec (List Pin) (Unit {0})
  unfolding subscript add_output_pin add_input_pin
  add_definition pins key = do
    definition ← lift (subscript pins key)
    mode ← lift (subscript definition "mode")
    if is_string "output" mode
        then add_output_pin key definition
        else if is_string "input" mode
        then add_input_pin key definition
        else pure tt

  unfoldable pub add_definitions : Value → List String → Exec (List Pin) (Unit {0})
  unfolding add_definition
  add_definitions pins [] = pure tt
  add_definitions pins (key ∷ rest) = do add_definition pins key; add_definitions pins rest

  -- The second `try`.
  unfoldable pub read_pins : Value → Exec (List Pin) (Unit {0})
  unfolding subscript iterate add_definitions
  read_pins config = do
    dsp ← lift (subscript config "dsp")
    pins ← lift (subscript dsp "pins")
    names ← lift (iterate pins)
    add_definitions pins names

  -- `except (KeyError, TypeError)`: the pins that were added are kept.
  unfoldable pub keep_pins : Result (Unit {0}) × List Pin → Result (List Pin)
  keep_pins (ok _, pins) = ok pins
  keep_pins (err e, pins) = elim e [
    | key_error ↦ ok pins
    | type_error ↦ ok pins
    | other ↦ err other
  ]

  -- The first `try`: a missing key makes the configuration invalid.
  abbrev pub required : {A : Type 0} → Result A → Result A
  required (ok a) = ok a
  required (err e) = elim e [ key_error ↦ err configuration_error | other ↦ err other ]

  -- What the first `try` reads.
  pub record Basics : Type 0 where
    pub dsp_protocol_name : Text
    pub dsp_type_name : Text
    pub bus : ℤ
    pub device : ℤ

  unfoldable pub read_basics : Value → Result Basics
  unfolding subscript lower int
  read_basics config =
      bind_result
        (bind_result (subscript config "dsp") λ dsp. bind_result (subscript dsp "protocol") lower)
        λ dsp_protocol_name.
          bind_result
            (bind_result (subscript config "dsp") λ dsp. bind_result (subscript dsp "type") lower)
            λ dsp_type_name.
              bind_result
                (bind_result (subscript config "dsp")
                  λ dsp. bind_result (subscript dsp "bus_number") (int int_of))
                λ bus.
                  bind_result
                    (bind_result (subscript config "dsp")
                      λ dsp. bind_result (subscript dsp "device_address") (int int_of))
                    λ device. ok (record {
                      dsp_protocol_name = dsp_protocol_name;
                      dsp_type_name = dsp_type_name;
                      bus = bus;
                      device = device;
                    })

  -- The `else` of the first `try`: the protocol is opened, and the class of the DSP is looked up then.
  unfoldable pub new_protocol : Basics → Result Hardware
  unfolding same_text
  new_protocol b =
      if same_text b.dsp_protocol_name (codes "spi")
      then spi_protocol b.bus b.device
      else if same_text b.dsp_protocol_name (codes "i2c")
      then i2c_protocol b.bus b.device
      else err type_error

  unfoldable pub dsp_from_config : Value → Result DspObject
  unfolding read_basics new_protocol dsp_factory read_pins keep_pins
  dsp_from_config config = bind_result (required (read_basics config)) λ basics.
      bind_result (new_protocol basics) λ dsp_protocol.
        bind_result (dsp_factory basics.dsp_type_name) λ dsp_type.
          bind_result (keep_pins (read_pins config [])) λ pins. ok (record {
            hardware = dsp_protocol;
            dsp = new_dsp dsp_type true dsp_protocol;
            pins = pins;
          })
