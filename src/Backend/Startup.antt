-- ===== src/Backend/Startup.antt =====
-- The start of the service in sigmadsp/backend.py: the DSP object from the configuration, the hard reset,
-- and the safety check with retries.
use sigmadsp.Prelude.{
  ℕ, zero, suc, ◌≤◌, ◌≡◌, ◌≢◌, refl, sym, ◌∙◌, ◌↔◌, ◌⊎◌, inl, inr, Bool, true, false, ap,
  Bool-cases, arith,
}
use sigmadsp.Prelude.Result.{
  Error, Result, ok, err, configuration_error, safety_check_error, system_exit,
}
use sigmadsp.Prelude.Exec.{Exec, continue, ◌>>◌}
use sigmadsp.Conversion.Fixpoint.{FloatOps}
use sigmadsp.Protocol.{Hardware}
use sigmadsp.Dsp.{Dsp, VolumeOps, Gpio, hard_reset}
use sigmadsp.Dsp.Config.{Value}
use sigmadsp.Dsp.Factory.{Interfaces, dsp_from_config}
use sigmadsp.Dsp.Factory.Created.{IsIncomplete, dsp_from_config-missing}
use sigmadsp.Parser.{Numbers}
use sigmadsp.Backend.{Service, on_dsp, safety_check, suppress}
use sigmadsp.Backend.Lock.{HashMatches, safety_check-HashMatches}

-- `retry_call(f, exceptions=e, tries=tries)` of the package `retry`, without the delay, as it is
-- documented: with one try it is the call; with more, a call that raises the error is followed by the
-- tries that are left, and any other outcome is that of the whole.
pub record RetryCall (S : Type 0) (e : Error) : Type 0 where
  pub retry_call : Exec S (Unit {0}) → ℕ → Exec S (Unit {0})
  pub last_try : (f : Exec S (Unit {0})) (s : S) → retry_call f 1 s ≡ f s
  pub raised :
      (f : Exec S (Unit {0})) (n : ℕ) (s t : S)
      → f s ≡ (err e, t)
      → retry_call f (suc (suc n)) s ≡ retry_call f (suc n) t
  pub over :
      (f : Exec S (Unit {0})) (n : ℕ) (s : S) → (f s).0 ≢ err e → retry_call f (suc (suc n)) s ≡ f s

module _ {S : Type 0} (f : Exec S (Unit {0})) (e : Error) where
  -- The state after some calls.
  unfoldable pub after_calls : ℕ → S → S
  after_calls zero s = s
  after_calls (suc n) s = after_calls n (f s).1

  -- Each of the calls raises the error.
  abbrev pub AllRaise : ℕ → S → Type 0
  AllRaise zero s = Unit
  AllRaise (suc n) s = ((f s).0 ≡ err e) × AllRaise n (f s).1

  -- The calls that were made: all but the last raised the error, and the last did not, or was the last
  -- try.
  pub record IsLast (tries k : ℕ) (s : S) : Type 0 where
    pub few : k ≤ tries
    pub raised : AllRaise k s
    pub over : (k ≡ tries) ⊎ ((f (after_calls k s)).0 ≢ err e)

unfoldable pub is_check_error : Error → Bool
is_check_error safety_check_error = true
is_check_error _ = false

pub check_error_lem : (e : Error) → is_check_error e ≡ true → e ≡ safety_check_error
unfolding is_check_error
check_error_lem safety_check_error h = refl
check_error_lem _ h = cc

raise_cases : (r : Result (Unit {0})) → (r ≡ err safety_check_error) ⊎ (r ≢ err safety_check_error)
raise_cases (ok u) = inr λ e. absurd (let never : ok u ≡ err safety_check_error = e in cc)
raise_cases (err x) = elim (Bool-cases (is_check_error x)) [
  | inl is ↦ inl (ap (λ (y : Error). err y) (check_error_lem x is))
  | inr other ↦ inr λ e.
      let both : err x ≡ err safety_check_error = e in
      let same : x ≡ safety_check_error = ground arith in
      let never : is_check_error safety_check_error ≡ false = rw same at other in
      unfold is_check_error in absurd (cc never)
]

module _ {S : Type 0} (retry : RetryCall S safety_check_error) (f : Exec S (Unit {0})) where
  open retry use {retry_call, last_try, raised, over}

  -- The outcome of a retried call is that of the last call that was made.
  retry_call_lem :
      (tries : ℕ) (s : S)
      → (k : ℕ) × IsLast f safety_check_error tries k s
        × (retry_call f (suc tries) s ≡ f (after_calls f safety_check_error k s))
  unfolding after_calls
  retry_call_lem zero s =
      (0, record { few = omega arith; raised = tt; over = inl refl }, last_try f s)
  retry_call_lem (suc n) s = elim (raise_cases (f s).0) [
    | inl raises ↦
        let (k, last, same) = retry_call_lem n (f s).1 in
        (
          suc k,
          record {
            few = omega (arith, last.few);
            raised = (raises, last.raised);
            over = elim last.over [ inl e ↦ inl (ap suc e) | inr other ↦ inr other ];
          },
          raised f n s (f s).1 (ap (λ (r : Result (Unit {0})). (r, (f s).1)) raises) ∙ same,
        )
    | inr other ↦ (0, record { few = omega arith; raised = tt; over = inr other }, over f n s other)
  ]

-- `except ConfigurationError` in `__init__`: the program exits.
unfoldable pub create_dsp {ℓ} : {D : Type ℓ} → (Value → Result D) → Value → Result D
create_dsp dsp_from_config_fn config = elim (dsp_from_config_fn config) [
  | ok dsp ↦ ok dsp
  | err e ↦ elim e [ configuration_error ↦ err system_exit | other ↦ err other ]
]

-- A configuration without a section `dsp`, or whose section lacks one of the four settings that the
-- factory requires and has the other ones as expected, texts and what `int` reads, ends the program,
-- before any device is opened.
pub create_dsp-missing :
    (ops : FloatOps) (interfaces : Interfaces) (config : Value)
    → IsIncomplete ops interfaces config
    → create_dsp (dsp_from_config ops interfaces) config ≡ err system_exit
unfolding create_dsp
create_dsp-missing ops interfaces config lacks =
    rw (create_dsp, dsp_from_config-missing ops interfaces config lacks) refl

module _ (ops : FloatOps) (volume : VolumeOps ops) (hw : Hardware) (dsp : Dsp ops hw)
    (num : Numbers) (retry : RetryCall (Service ops volume hw dsp num) safety_check_error) where
  open retry use {retry_call}

  abbrev check : Exec (Service ops volume hw dsp num) (Unit {0})
  check = safety_check ops volume hw dsp num

  unfoldable pub retry_safety_check : Exec (Service ops volume hw dsp num) (Unit {0})
  retry_safety_check = retry_call check 5

  -- `startup_worker`. It returns where the TCP server and the worker are started.
  unfoldable pub startup_worker : Gpio hw → Exec (Service ops volume hw dsp num) (Unit {0})
  unfolding retry_safety_check
  startup_worker gpio = do
    on_dsp ops volume hw dsp num (hard_reset ops hw gpio dsp)
    suppress ops volume hw dsp num retry_safety_check

  -- The service after the hard reset.
  abbrev pub after_reset : Gpio hw → Service ops volume hw dsp num → Service ops volume hw dsp num
  after_reset gpio s = (on_dsp ops volume hw dsp num (hard_reset ops hw gpio dsp) s).1

  ran_on :
      (r : Result (Unit {0})) (s t : Service ops volume hw dsp num)
      → continue r (λ (u : Unit {0}). suppress ops volume hw dsp num retry_safety_check) s
        ≡ (ok tt, t)
      → (retry_safety_check s).1 ≡ t
  ran_on (ok u) s t e = ap (λ (p : Result (Unit {0}) × Service ops volume hw dsp num). p.1) e
  ran_on (err x) s t e =
      let never : ◌≡◌ {A = Result (Unit {0})} (err x) (ok tt) =
        ap (λ (p : Result (Unit {0}) × Service ops volume hw dsp num). p.0) e in
      cc

  -- Where the start comes to the servers, the hard reset is followed by at most five safety checks, each
  -- but the last of which failed, and of which the last did not fail or was the fifth; and the
  -- configuration is unlocked exactly when, at the last check, the one safety hash cell of a loaded
  -- file had the value that the DSP answered.
  pub startup_worker-HashMatches :
      (gpio : Gpio hw) (s t : Service ops volume hw dsp num)
      → startup_worker gpio s ≡ (ok tt, t)
      → (k : ℕ) × IsLast check safety_check_error 4 k (after_reset gpio s)
        × ((t.configuration_unlocked ≡ true)
            ↔ HashMatches ops volume hw dsp num
                (after_calls check safety_check_error k (after_reset gpio s)))
  unfolding startup_worker
  startup_worker-HashMatches gpio s t e =
      let s1 = after_reset gpio s in
      let ended : (retry_safety_check s1).1 ≡ t = ran_on _ s1 t e in
      let (k, last, same) = retry_call_lem retry check 4 s1 in
      let u = after_calls check safety_check_error k s1 in
      let is : t ≡ (check u).1 =
        sym ended
        ∙ unfold retry_safety_check in
          ap (λ (p : Result (Unit {0}) × Service ops volume hw dsp num). p.1) same in
      (k, last, rw is (safety_check-HashMatches ops volume hw dsp num u))
