-- ===== src/Tests/OnStartup.antt =====
-- The theorem on the start of the service of sigmadsp/backend.py at a concrete service.
use sigmadsp.Prelude.{
  ℕ, zero, suc, ◌≡◌, ◌≢◌, refl, ap, ◌↔◌, inl, inr, Bool, Bool-cases, true, false, [], ◌∷◌,
}
use sigmadsp.Prelude.Result.{Error, Result, ok, err, safety_check_error}
use sigmadsp.Prelude.Exec.{Exec}
use sigmadsp.Conversion.{from_bytes, to_bytes, int16_to_bytes}
use sigmadsp.Conversion.Fixpoint.Dyadic.{dyadic_ops}
use sigmadsp.Dsp.{get_parameter_value, hard_reset, write}
use sigmadsp.Dsp.Adau14xx
use sigmadsp.Dsp.Adau14xx.{reset_register}
use sigmadsp.Parser.{safety_hash_cell, is_safety_hash}
use sigmadsp.Parser.Texts.{same_text}
use sigmadsp.Backend.{Service, safety_check}
use sigmadsp.Backend.Lock.{HashMatches}
use sigmadsp.Backend.Startup.{
  RetryCall, is_check_error, check_error_lem, IsLast, after_calls, after_reset, startup_worker,
  startup_worker-HashMatches,
}
use sigmadsp.Tests.OnDsp.{recorder, dyadic_volume, dsp14}
use sigmadsp.Tests.OnBackend.{integers, service, no_pins}

-- Calls until one does not raise the error of a failed check.
abbrev is_check : Result (Unit {0}) → Bool
is_check (ok _) = false
is_check (err e) = is_check_error e

unfoldable again : {S : Type 0} → Result (Unit {0}) → S → Exec S (Unit {0}) → Result (Unit {0}) × S
unfolding is_check_error
again r t rest = elim (is_check r) [ true ↦ rest t | false ↦ (r, t) ]

unfoldable retry_loop : {S : Type 0} → Exec S (Unit {0}) → ℕ → Exec S (Unit {0})
unfolding again
retry_loop f zero s = f s
retry_loop f (suc n) s = elim n [ zero ↦ f s | suc m ↦ again (f s).0 (f s).1 (retry_loop f n) ]

module _ {S : Type 0} where
  loop-raised :
      (f : Exec S (Unit {0})) (n : ℕ) (s t : S)
      → f s ≡ (err safety_check_error, t)
      → retry_loop f (suc (suc n)) s ≡ retry_loop f (suc n) t
  unfolding retry_loop again is_check_error
  loop-raised f n s t e = rw e refl

  again-over :
      (r : Result (Unit {0})) (t : S) (rest : Exec S (Unit {0}))
      → r ≢ err safety_check_error
      → again r t rest ≡ (r, t)
  unfolding again
  again-over (ok u) t rest other = refl
  again-over (err x) t rest other = elim (Bool-cases (is_check_error x)) [
    | inl is ↦ absurd (other (ap (λ (y : Error). err y) (check_error_lem x is)))
    | inr apart ↦ rw (again, apart) refl
  ]

  loop-over :
      (f : Exec S (Unit {0})) (n : ℕ) (s : S)
      → (f s).0 ≢ err safety_check_error
      → retry_loop f (suc (suc n)) s ≡ f s
  unfolding retry_loop
  loop-over f n s other = again-over (f s).0 (f s).1 (retry_loop f (suc n)) other

  abbrev retry : RetryCall S safety_check_error
  retry = record {
    retry_call = retry_loop;
    last_try = λ f s. unfold retry_loop in refl;
    raised = loop-raised;
    over = loop-over;
  }

-- The reset was written, and the check matched.
abbrev started : Service dyadic_ops dyadic_volume recorder dsp14 integers
started = record (service true) {
  dsp_device = (reset_register, 0 ∷ 0 ∷ []) ∷ (reset_register, 0 ∷ 1 ∷ []) ∷ [];
}

startup_worker-HashMatches_example :
    (k : ℕ) × IsLast
      (safety_check dyadic_ops dyadic_volume recorder dsp14 integers)
      safety_check_error
      4
      k
      (after_reset dyadic_ops dyadic_volume recorder dsp14 integers retry no_pins (service false))
    × ((started.configuration_unlocked ≡ true)
        ↔ HashMatches dyadic_ops dyadic_volume recorder dsp14 integers (
            after_calls
              (safety_check dyadic_ops dyadic_volume recorder dsp14 integers)
              safety_check_error
              k
              (after_reset dyadic_ops dyadic_volume recorder dsp14 integers retry no_pins
                (service false))))
unfolding startup_worker retry_loop again safety_check safety_hash_cell is_safety_hash same_text
    get_parameter_value from_bytes hard_reset Adau14xx.soft_reset int16_to_bytes write to_bytes
startup_worker-HashMatches_example =
    startup_worker-HashMatches dyadic_ops dyadic_volume recorder dsp14 integers retry no_pins
      (service false) started refl
