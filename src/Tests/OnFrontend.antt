-- ===== src/Tests/OnFrontend.antt =====
-- The theorem on sigmadsp/frontend.py at a concrete file.
use sigmadsp.Prelude.{◌≡◌, refl, ◌↔◌, false, some, [], ◌∷◌, concat}
use sigmadsp.Conversion.{from_bytes}
use sigmadsp.Conversion.Fixpoint.Dyadic.{dyadic_ops}
use sigmadsp.Dsp.{get_parameter_value}
use sigmadsp.Parser.{run, safety_hash_cell, elem_cell, is_safety_hash}
use sigmadsp.Parser.Texts.{Text, same_text, split_words, join}
use sigmadsp.Settings.{store_parameters, translate, readlines}
use sigmadsp.Backend.{ReplyMessage, control, control_unlocked}
use sigmadsp.Backend.Lock.{HashMatches}
use sigmadsp.Frontend.{sigmadsp_command}
use sigmadsp.Frontend.Loading.{load_parameters-HashMatches}
use sigmadsp.Tests.OnDsp.{recorder, dyadic_volume, dsp14}
use sigmadsp.Tests.OnBackend.{integers, hash_cell, service, no_pins, content, after_loading}

abbrev file : Text
file = concat content

load_parameters-HashMatches_example :
    (after_loading.settings ≡ record (service false).settings {
      file = some (translate file);
      parameter_parser = some (hash_cell ∷ []);
    })
    × ((◌≡◌ {A = ReplyMessage dyadic_ops dyadic_volume recorder dsp14 integers} control_unlocked
          control_unlocked)
        ↔ HashMatches dyadic_ops dyadic_volume recorder dsp14 integers (record (service false) {
          settings = record (service false).settings {
            file = some (translate file);
            parameter_parser = some (hash_cell ∷ []);
          };
        }))
unfolding control store_parameters run same_text split_words safety_hash_cell elem_cell
    is_safety_hash join get_parameter_value from_bytes translate readlines sigmadsp_command
load_parameters-HashMatches_example =
    load_parameters-HashMatches dyadic_ops dyadic_volume recorder dsp14 integers no_pins file
      (hash_cell ∷ []) (service false) after_loading control_unlocked refl refl refl
