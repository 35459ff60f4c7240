-- ===== src/Tests/OnChecks.antt =====
-- The theorems on the safety checks of sigmadsp/backend.py at concrete services.
use sigmadsp.Prelude.{refl, true, false, some, List, [], ◌∷◌, ◌++◌}
use sigmadsp.Prelude.Int.{pos}
use sigmadsp.Conversion.{from_bytes}
use sigmadsp.Conversion.Fixpoint.Dyadic.{dyadic_ops}
use sigmadsp.Dsp.{Parameter, int_parameter, get_parameter_value}
use sigmadsp.Parser.{Cell, run, safety_hash_cell, elem_cell, is_safety_hash}
use sigmadsp.Parser.Texts.{Text, codes, same_text, split_words, join}
use sigmadsp.Settings.{store_parameters}
use sigmadsp.Backend.{compare_hash}
use sigmadsp.Backend.Lock.{after_store}
use sigmadsp.Backend.Checks.Matched.{HasMatched, unlocked-HasMatched}
use sigmadsp.Backend.Checks.{System, IsSafetyCell, Reach, here, next, begin, read_hash, finish}
use sigmadsp.Backend.Races.{quiet, Race, stale_check-unlocks}
use sigmadsp.Tests.OnDsp.{recorder, dyadic_volume, dsp14}
use sigmadsp.Tests.OnBackend.{integers, hash_cell, service}

abbrev zero : Parameter dyadic_ops
zero = int_parameter (pos 0)

hash_cell-IsSafetyCell :
    IsSafetyCell dyadic_ops dyadic_volume recorder dsp14 integers (service false) hash_cell
unfolding safety_hash_cell is_safety_hash same_text
hash_cell-IsSafetyCell = record { cells = hash_cell ∷ []; loaded = refl; only_one = refl }

unlocked : System dyadic_ops dyadic_volume recorder dsp14 integers
unlocked = quiet dyadic_ops dyadic_volume recorder dsp14 integers (service true)

one_check :
    Reach dyadic_ops dyadic_volume recorder dsp14 integers
      (quiet dyadic_ops dyadic_volume recorder dsp14 integers (service false))
      unlocked
unfolding unlocked get_parameter_value from_bytes compare_hash
one_check =
    next
      (next (next here (begin hash_cell hash_cell-IsSafetyCell refl))
        (read_hash [] [] hash_cell zero [] refl refl refl))
      (finish [] [] hash_cell zero refl refl)

unlocked-HasMatched_example :
    HasMatched dyadic_ops dyadic_volume recorder dsp14 integers
      (quiet dyadic_ops dyadic_volume recorder dsp14 integers (service false))
      unlocked
unfolding unlocked
unlocked-HasMatched_example =
    unlocked-HasMatched dyadic_ops dyadic_volume recorder dsp14 integers
      (quiet dyadic_ops dyadic_volume recorder dsp14 integers (service false)) unlocked refl refl
      one_check refl

-- A file whose hash is 5, where the DSP answers 0.
abbrev other_content : List Text
other_content =
    (codes "Cell Name = safety_hash" ++ 10 ∷ [])
    ∷ (codes "Parameter Name = hash" ++ 10 ∷ [])
    ∷ (codes "Parameter Address = 7" ++ 10 ∷ [])
    ∷ (codes "Parameter Value = 5" ++ 10 ∷ [])
    ∷ []

abbrev other_cell : Cell integers
other_cell = record hash_cell { parameter_value = some (pos 5) }

other_cell-IsSafetyCell :
    IsSafetyCell dyadic_ops dyadic_volume recorder dsp14 integers
      (after_store dyadic_ops dyadic_volume recorder dsp14 integers other_content (service false))
      other_cell
unfolding store_parameters run same_text split_words safety_hash_cell elem_cell is_safety_hash join
other_cell-IsSafetyCell = record { cells = other_cell ∷ []; loaded = refl; only_one = refl }

stale_check-unlocks_example :
    Race dyadic_ops dyadic_volume recorder dsp14 integers
      (service false)
      other_content
      hash_cell
      other_cell
      zero
      zero
unfolding get_parameter_value from_bytes
stale_check-unlocks_example =
    stale_check-unlocks dyadic_ops dyadic_volume recorder dsp14 integers (service false)
      other_content hash_cell other_cell zero zero [] [] hash_cell-IsSafetyCell refl refl
      other_cell-IsSafetyCell refl refl refl
