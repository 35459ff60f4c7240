-- ===== src/Tests/OnVolumes.antt =====
-- The theorem on volumes of sigmadsp/backend.py at one volume cell.
use sigmadsp.Prelude.{◌≡◌, ◌++◌, true, false, none, some, List, [], ◌∷◌}
use sigmadsp.Prelude.Int.{pos}
use sigmadsp.Prelude.Result.{ok}
use sigmadsp.Conversion.Fixpoint.Dyadic.{dyadic_ops, dyadic_of}
use sigmadsp.Parser.{Cell, target_parameter}
use sigmadsp.Parser.Texts.{Text, codes}
use sigmadsp.Backend.{Service, change_volume, control_parameter}
use sigmadsp.Backend.Volumes.{Adjusts, control_parameter-Adjusts}
use sigmadsp.Tests.OnDsp.{dyadic_volume, recorder, dsp14}
use sigmadsp.Tests.OnBackend.{integers, hash_cell}

abbrev volume_cell : Cell integers
volume_cell = record {
  full_name = codes "adjustable_volume_main";
  parameter_address = pos 12;
  parameter_name = target_parameter ++ codes "1";
  parameter_value = some (pos 0);
}

abbrev service : Service dyadic_ops dyadic_volume recorder dsp14 integers
service = record {
  configuration_unlocked = true;
  settings = record {
    path = ok true;
    file = none;
    parameter_parser = some (hash_cell ∷ volume_cell ∷ []);
  };
  started_checks = 0;
  dsp_device = [];
}

abbrev main : List Text
main = codes "main" ∷ []

control_parameter-Adjusts_example :
    (e : recorder.Device) × Adjusts dyadic_ops dyadic_volume recorder dsp14 integers service main []
      e
    × ((control_parameter dyadic_ops dyadic_volume recorder dsp14 integers
          (change_volume main (dyadic_of (pos 3) 0) false)
          service).1
        ≡ record service { dsp_device = e })
control_parameter-Adjusts_example =
    control_parameter-Adjusts dyadic_ops dyadic_volume recorder dsp14 integers service main
      (dyadic_of (pos 3) 0) false
