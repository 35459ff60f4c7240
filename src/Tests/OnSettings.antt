-- ===== src/Tests/OnSettings.antt =====
-- The theorem on sigmadsp/helper/settings.py at a concrete file.
use sigmadsp.Prelude.{◌≡◌, refl, true, none, some, [], ◌∷◌}
use sigmadsp.Prelude.Result.{ok}
use sigmadsp.Parser.{run}
use sigmadsp.Parser.Texts.{same_text, split_words}
use sigmadsp.Settings.{Settings, new_settings, store_parameters, store_parameters-run}
use sigmadsp.Tests.OnBackend.{integers}

abbrev no_file : Settings integers
no_file = record { path = ok true; file = none; parameter_parser = none }

store_parameters-run_example :
    (store_parameters integers ((b'A' ∷ 10 ∷ []) ∷ []) no_file
      ≡ (ok tt, record no_file { file = some (b'A' ∷ 10 ∷ []); parameter_parser = some [] }))
    × (new_settings integers (ok (ok true)) (some (b'A' ∷ 10 ∷ []))
        ≡ ok (record no_file { file = some (b'A' ∷ 10 ∷ []); parameter_parser = some [] }))
unfolding run same_text split_words
store_parameters-run_example =
    store_parameters-run integers ((b'A' ∷ 10 ∷ []) ∷ []) [] no_file
      (record { content = b'A' ∷ []; ended = refl; no_end = ((refl, refl), tt) }, tt) refl refl
