-- ===== src/Tests/OnFactory.antt =====
-- The theorems on sigmadsp/dsp/factory.py, and on its use in sigmadsp/backend.py, at concrete configurations.
use text.Mathlib.Text.{◌==◌}
use sigmadsp.Prelude.{if◌then◌else◌, ◌≡◌, refl, inl, inr, true, false, List, [], ◌∷◌}
use sigmadsp.Prelude.Int.{pos}
use sigmadsp.Prelude.Result.{ok, err, system_exit, value_error}
use sigmadsp.Conversion.Fixpoint.Dyadic.{dyadic_ops}
use sigmadsp.Dsp.Config.{
  Value, null, string, number, boolean, mapping, nil, entry, lookup, subscript, int,
}
use sigmadsp.Dsp.Pins.{Pin, general_pin, input_pin, output_pin, get_pin_by_name}
use sigmadsp.Dsp.Factory.{Interfaces, adau14xx_type, new_dsp, dsp_from_config}
use sigmadsp.Dsp.Factory.Described.{Describes, describe_all, faulty, IsConfigurable}
use sigmadsp.Dsp.Factory.Created.{HasSettings, lacks_setting, dsp_from_config-pins}
use sigmadsp.Backend.Startup.{create_dsp, create_dsp-missing}
use sigmadsp.Tests.OnDsp.{recorder}

abbrev interfaces : Interfaces
interfaces = record {
  spi_protocol = λ bus device. ok recorder;
  i2c_protocol = λ bus device. ok recorder;
  int_of = λ s. if s == "0" then ok (pos 0) else err value_error;
  output_device = λ number active_high initial_value. ok tt;
  input_device = λ number pull_up active_state bounce_time. ok tt;
}

abbrev pins : List Pin
pins =
    record {
      name = "reset";
      definition = output_pin (number (pos 17)) (boolean true) (boolean false);
    }
    ∷ record { name = "mute"; definition = input_pin (number (pos 4)) (boolean true) null null }
    ∷ []

-- The settings of a pin.
abbrev value_of : Pin → Value
value_of p = elim p.definition [
  | output_pin n initial active ↦ mapping (
      entry "number" n (
        entry "mode" (string "output")
          (entry "initial_state" initial (entry "active_high" active nil))))
  | input_pin n up active bounce ↦ mapping (
      entry "number" n (
        entry "mode" (string "input") (
          entry "pull_up" up
            (entry "active_state" active (entry "bounce_time" bounce (entry "note" null nil))))))
  | general_pin n ↦ null
]

-- A definition without content follows; the section of the DSP is the last one.
abbrev config : Value
config = mapping (
    entry "host" (mapping nil) (
      entry "dsp"
        (mapping (
          entry "type" (string "Adau14xx") (
            entry "pins" (mapping (describe_all value_of pins (entry "lamp" null nil))) (
              entry "protocol" (string "SPI")
                (entry "bus_number" (string "0") (entry "device_address" (number (pos 1)) nil))))))
        nil))

config-HasSettings :
    HasSettings dyadic_ops interfaces config "SPI" "Adau14xx"
      (pos 0)
      (pos 1)
      (describe_all value_of pins (entry "lamp" null nil))
unfolding subscript lookup int
config-HasSettings = record {
  dsp = _;
  bus_number = string "0";
  device_address = number (pos 1);
  at_dsp = refl;
  at_protocol = refl;
  at_type = refl;
  at_bus = refl;
  bus_reads = refl;
  at_device = refl;
  device_reads = refl;
  at_pins = refl;
}

dsp_from_config-pins_example :
    dsp_from_config dyadic_ops interfaces config
    ≡ ok (record {
      hardware = recorder;
      dsp = new_dsp dyadic_ops interfaces adau14xx_type true recorder;
      pins = pins;
    })
unfolding get_pin_by_name IsConfigurable Describes subscript lookup
dsp_from_config-pins_example =
    dsp_from_config-pins dyadic_ops interfaces config "SPI" "Adau14xx" (pos 0) (pos 1) recorder
      adau14xx_type value_of pins (entry "lamp" null nil) config-HasSettings (inl (refl, refl))
      (inl (refl, refl)) (refl, (refl, tt))
      ((refl, refl, refl, refl), ((refl, refl, refl, refl, refl), tt)) (refl, (refl, tt))
      (faulty "lamp" null nil (inr refl) refl)

-- The bus number is missing.
abbrev incomplete : Value
incomplete = mapping (
    entry "backend" null (
      entry "dsp"
        (mapping (
          entry "protocol" (string "spi")
            (entry "type" (string "adau14xx") (entry "device_address" (string "0") nil))))
        nil))

create_dsp-missing_example :
    create_dsp (dsp_from_config dyadic_ops interfaces) incomplete ≡ err system_exit
unfolding subscript lookup int
create_dsp-missing_example = create_dsp-missing dyadic_ops interfaces incomplete (
    lacks_setting _ refl (inr ("spi", refl)) (inr ("adau14xx", refl)) (inl refl)
      (inr (string "0", pos 0, refl, refl)) (inr (inr (inl refl))))
