-- ===== src/Dsp/Factory/Created.antt =====
-- sigmadsp/dsp/factory.py: the object that `dsp_from_config` creates, and where it refuses.
use Prim.Native.String.{String}
use sigmadsp.Prelude.{◌≡◌, refl, ◌⊎◌, inl, inr, true, List, [], All}
use sigmadsp.Prelude.Int.{ℤ}
use sigmadsp.Prelude.Result.{ok, err, configuration_error, key_error}
use sigmadsp.Conversion.Fixpoint.{FloatOps}
use sigmadsp.Protocol.{Hardware}
use sigmadsp.Parser.Texts.{codes, same_text}
use sigmadsp.Dsp.Config.{Value, Entries, string, mapping, subscript, lower, lowered, int}
use sigmadsp.Dsp.Pins.{Pin, HasDistinctNames}
use sigmadsp.Dsp.Factory.{
  Interfaces, Basics, read_pins, keep_pins, DspType, adau14xx_type, adau1x0x_type, new_dsp,
  new_protocol, read_basics, dsp_factory, dsp_from_config,
}
use sigmadsp.Dsp.Factory.Described.{
  Describes, describe_all, Stops, IsConfigurable, read_pins_described,
}

module _ (ops : FloatOps) (interfaces : Interfaces) where
  -- A configuration with these settings in its section `dsp`, in any order, among any other settings
  -- and sections. The numbers are integers, or what else `int` reads, such as texts.
  pub record HasSettings (config : Value) (protocol type : String) (bus device : ℤ) (pins : Entries)
      : Type 0 where
    pub dsp : Value
    pub bus_number : Value
    pub device_address : Value
    pub at_dsp : subscript config "dsp" ≡ ok dsp
    pub at_protocol : subscript dsp "protocol" ≡ ok (string protocol)
    pub at_type : subscript dsp "type" ≡ ok (string type)
    pub at_bus : subscript dsp "bus_number" ≡ ok bus_number
    pub bus_reads : int (interfaces.int_of) bus_number ≡ ok bus
    pub at_device : subscript dsp "device_address" ≡ ok device_address
    pub device_reads : int (interfaces.int_of) device_address ≡ ok device
    pub at_pins : subscript dsp "pins" ≡ ok (mapping pins)

  -- The protocol that the name stands for, in whatever case, opens the device.
  abbrev pub Opens : String → ℤ → ℤ → Hardware → Type 1
  Opens protocol bus device hw =
      ((lowered protocol ≡ codes "spi") × (interfaces.spi_protocol bus device ≡ ok hw))
      ⊎ ((lowered protocol ≡ codes "i2c") × (interfaces.i2c_protocol bus device ≡ ok hw))

  abbrev pub Names : String → DspType → Type 0
  Names type t =
      ((lowered type ≡ codes "adau14xx") × (t ≡ adau14xx_type))
      ⊎ ((lowered type ≡ codes "adau1x0x") × (t ≡ adau1x0x_type))

  opened :
      (protocol type : String) (bus device : ℤ) (hw : Hardware)
      → Opens protocol bus device hw
      → new_protocol ops interfaces (record {
        dsp_protocol_name = lowered protocol;
        dsp_type_name = lowered type;
        bus = bus;
        device = device;
      })
        ≡ ok hw
  unfolding new_protocol same_text
  opened protocol type bus device hw (inl (spi, runs)) = rw (spi, runs) refl
  opened protocol type bus device hw (inr (i2c, runs)) = rw (i2c, runs) refl

  named : (type : String) (t : DspType) → Names type t → dsp_factory (lowered type) ≡ ok t
  unfolding dsp_factory same_text
  named type t (inl (name, is)) = rw (name, is) refl
  named type t (inr (name, is)) = rw (name, is) refl

  abbrev basics_of : String → String → ℤ → ℤ → Basics ops interfaces
  basics_of protocol type bus device = record {
    dsp_protocol_name = lowered protocol;
    dsp_type_name = lowered type;
    bus = bus;
    device = device;
  }

  read_basics-settings :
      (config : Value) (protocol type : String) (bus device : ℤ) (pins : Entries)
      → HasSettings config protocol type bus device pins
      → read_basics ops interfaces config ≡ ok (basics_of protocol type bus device)
  unfolding read_basics lower
  read_basics-settings config protocol type bus device pins has = rw has.at_dsp (
      rw (has.at_protocol, has.at_type, has.at_bus, has.at_device)
        (rw (has.bus_reads, has.device_reads) refl))

  created :
      (config : Value) (basics : Basics ops interfaces) (hw : Hardware) (t : DspType)
      (ps : List Pin)
      → read_basics ops interfaces config ≡ ok basics
      → new_protocol ops interfaces basics ≡ ok hw
      → dsp_factory basics.dsp_type_name ≡ ok t
      → keep_pins ops interfaces (read_pins ops interfaces config []) ≡ ok ps
      → dsp_from_config ops interfaces config
        ≡ ok (record { hardware = hw; dsp = new_dsp ops interfaces t true hw; pins = ps })
  unfolding dsp_from_config
  created config basics hw t ps read opens names pins = rw read (rw opens (rw names (rw pins refl)))

  -- A configuration whose section `dsp` names a known protocol and a known type, in whatever case, with
  -- numbers that `int` reads, and describes pins of distinct names that gpiozero accepts, makes an
  -- object of that class, on the protocol that was opened, with safeload, and with exactly these pins
  -- in this order; where a definition that is no mapping or has no mode follows them, it and all
  -- definitions after it are left out, and no error is raised.
  pub dsp_from_config-pins :
      (config : Value) (protocol type : String) (bus device : ℤ) (hw : Hardware) (t : DspType)
      (value_of : Pin → Value) (ps : List Pin) (rest : Entries)
      → HasSettings config protocol type bus device (describe_all value_of ps rest)
      → Opens protocol bus device hw
      → Names type t
      → HasDistinctNames ps
      → All (λ (p : Pin). Describes (value_of p) p.definition) ps
      → All (λ (p : Pin). IsConfigurable interfaces p.definition) ps
      → Stops ps rest
      → dsp_from_config ops interfaces config
        ≡ ok (record { hardware = hw; dsp = new_dsp ops interfaces t true hw; pins = ps })
  dsp_from_config-pins config protocol type bus device hw t value_of ps rest has opens names d
        described valid stops =
      created config (basics_of protocol type bus device) hw t ps
        (read_basics-settings config protocol type bus device _ has)
        (opened protocol type bus device hw opens) (named type t names)
        (read_pins_described ops interfaces value_of config has.dsp ps rest has.at_dsp has.at_pins d
          described valid stops)

  -- A setting is missing, or is as the factory expects it.
  abbrev pub IsMissing : String → Value → Type 0
  IsMissing key dsp = subscript dsp key ≡ err key_error

  abbrev pub IsName : String → Value → Type 0
  IsName key dsp = IsMissing key dsp ⊎ ((s : String) × (subscript dsp key ≡ ok (string s)))

  abbrev pub IsNumber : String → Value → Type 0
  IsNumber key dsp =
      IsMissing key dsp
      ⊎ ((v : Value) × (n : ℤ) × (subscript dsp key ≡ ok v) × (int (interfaces.int_of) v ≡ ok n))

  abbrev pub LacksOne : Value → Type 0
  LacksOne dsp =
      IsMissing "protocol" dsp
      ⊎ (IsMissing "type" dsp ⊎ (IsMissing "bus_number" dsp ⊎ IsMissing "device_address" dsp))

  -- There is no section `dsp`, or it lacks one of the four settings and has the other ones as expected.
  pub data IsIncomplete (config : Value) : Type 0 where
    no_dsp : subscript config "dsp" ≡ err key_error → IsIncomplete config
    lacks_setting :
        (dsp : Value)
        → subscript config "dsp" ≡ ok dsp
        → IsName "protocol" dsp
        → IsName "type" dsp
        → IsNumber "bus_number" dsp
        → IsNumber "device_address" dsp
        → LacksOne dsp
        → IsIncomplete config

  read_basics-missing :
      (config : Value) → IsIncomplete config → read_basics ops interfaces config ≡ err key_error
  unfolding read_basics lower
  read_basics-missing config (no_dsp absent) = rw absent refl
  read_basics-missing config (lacks_setting dsp there (inl p) t b a lacks) = rw there (rw p refl)
  read_basics-missing config (lacks_setting dsp there (inr (_, p)) (inl t) b a lacks) =
      rw there (rw (p, t) refl)
  read_basics-missing config (lacks_setting dsp there (inr (_, p)) (inr (_, t)) (inl b) a lacks) =
      rw there (rw (p, t, b) refl)
  read_basics-missing config
        (lacks_setting dsp there (inr (_, p)) (inr (_, t)) (inr (_, _, b, n)) (inl a) lacks) =
      rw there (rw (p, t, b, a) (rw n refl))
  read_basics-missing config
        (lacks_setting dsp there
          (inr (_, p))
          (inr (_, t))
          (inr (_, _, b, _))
          (inr (_, _, a, _))
          lacks) =
      absurd (elim lacks [
        | inl e ↦ cc
        | inr l ↦ elim l [ inl e ↦ cc | inr m ↦ elim m [ inl e ↦ cc | inr e ↦ cc ] ]
      ])

  -- An incomplete configuration is refused before any device is opened.
  pub dsp_from_config-missing :
      (config : Value)
      → IsIncomplete config
      → dsp_from_config ops interfaces config ≡ err configuration_error
  unfolding dsp_from_config
  dsp_from_config-missing config lacks = rw (read_basics-missing config lacks) refl
