-- ===== src/Backend/Checks/Matched.antt =====
-- Runs of several safety checks of sigmadsp/backend.py: what was done in a run before the configuration
-- is unlocked.
use sigmadsp.Prelude.{
  ◌≡◌, refl, sym, ap, ◌∙◌, arith, Option, true, false, List, [], ◌∷◌, ◌++◌, All, All-append,
  All-split,
}
use sigmadsp.Prelude.Result.{ok}
use sigmadsp.Conversion.Fixpoint.{FloatOps}
use sigmadsp.Protocol.{Hardware}
use sigmadsp.Dsp.{Dsp, VolumeOps, Parameter}
use sigmadsp.Parser.{Numbers, Cell}
use sigmadsp.Backend.{Service, matches, compare_hash}
use sigmadsp.Backend.Lock.{hash_read}
use sigmadsp.Backend.Checks.{
  Check, reading, comparing, System, locked, IsSafetyCell, Step, store, begin, begin_none,
  read_hash, read_fails, finish, others_use_dsp, Reach, here, next,
}

module _ (ops : FloatOps) (volume : VolumeOps ops) (hw : Hardware) (dsp : Dsp ops hw)
    (num : Numbers) where
  open hw use {Device}

  -- A check was begun, for the safety hash cell of the file that was loaded then.
  pub record WasBegun (start x : System ops volume hw dsp num) (cell : Cell num) : Type 0 where
    pub looked_up : System ops volume hw dsp num
    pub begun : System ops volume hw dsp num
    pub run_before : Reach ops volume hw dsp num start looked_up
    pub is_cell : IsSafetyCell ops volume hw dsp num looked_up.service cell
    pub begins : begun ≡ record {
      service = locked ops volume hw dsp num looked_up.service;
      checks = looked_up.checks ++ reading cell ∷ [];
    }
    pub run_since : Reach ops volume hw dsp num begun x

  -- A check that was begun has asked the DSP, and got this answer.
  pub record WasAnswered (start x : System ops volume hw dsp num) (cell : Cell num)
      (answer : Parameter ops) : Type 0 where
    pub asked : System ops volume hw dsp num
    pub read : System ops volume hw dsp num
    pub was_begun : WasBegun start asked cell
    pub before : List (Check ops volume hw dsp num)
    pub after : List (Check ops volume hw dsp num)
    pub its_turn : asked.checks ≡ before ++ reading cell ∷ after
    pub device : Device
    pub answered :
        hash_read ops volume hw dsp num cell asked.service.dsp_device ≡ (ok answer, device)
    pub reads : read ≡ record {
      service = record asked.service { dsp_device = device };
      checks = before ++ comparing cell answer ∷ after;
    }
    pub run_since : Reach ops volume hw dsp num read x

  -- A check that was begun and answered has matched, and its last step has unlocked.
  pub record HasMatched (start x : System ops volume hw dsp num) : Type 0 where
    pub compared : System ops volume hw dsp num
    pub finished : System ops volume hw dsp num
    pub cell : Cell num
    pub answer : Parameter ops
    pub was_answered : WasAnswered start compared cell answer
    pub before : List (Check ops volume hw dsp num)
    pub after : List (Check ops volume hw dsp num)
    pub its_turn : compared.checks ≡ before ++ comparing cell answer ∷ after
    pub same : matches ops volume hw dsp num cell.parameter_value answer ≡ true
    pub finishes : finished ≡ record {
      service = record compared.service { configuration_unlocked = true };
      checks = before ++ after;
    }
    pub run_since : Reach ops volume hw dsp num finished x

  abbrev IsHonest :
      System ops volume hw dsp num
      → System ops volume hw dsp num
      → Check ops volume hw dsp num
      → Type 0
  IsHonest start x (reading cell) = WasBegun start x cell
  IsHonest start x (comparing cell answer) = WasAnswered start x cell answer

  record Inv (start x : System ops volume hw dsp num) : Type 0 where
    honest : All (IsHonest start x) x.checks
    matched : x.service.configuration_unlocked ≡ true → HasMatched start x

  -- What was done in a run, was done in the run with a further step.
  IsHonest-later :
      (start x y : System ops volume hw dsp num) (c : Check ops volume hw dsp num)
      → Step ops volume hw dsp num x y
      → IsHonest start x c
      → IsHonest start y c
  IsHonest-later start x y (reading cell) step h = record {
    looked_up = h.looked_up;
    begun = h.begun;
    run_before = h.run_before;
    is_cell = h.is_cell;
    begins = h.begins;
    run_since = next h.run_since step;
  }
  IsHonest-later start x y (comparing cell answer) step h = record {
    asked = h.asked;
    read = h.read;
    was_begun = h.was_begun;
    before = h.before;
    after = h.after;
    its_turn = h.its_turn;
    device = h.device;
    answered = h.answered;
    reads = h.reads;
    run_since = next h.run_since step;
  }

  All-later :
      (start x y : System ops volume hw dsp num) (cs : List (Check ops volume hw dsp num))
      → Step ops volume hw dsp num x y
      → All (IsHonest start x) cs
      → All (IsHonest start y) cs
  All-later start x y [] step h = tt
  All-later start x y (c ∷ cs) step h =
      (IsHonest-later start x y c step h.0, All-later start x y cs step h.1)

  matched_later :
      (start x y : System ops volume hw dsp num)
      → Step ops volume hw dsp num x y
      → HasMatched start x
      → HasMatched start y
  matched_later start x y step h = record {
    compared = h.compared;
    finished = h.finished;
    cell = h.cell;
    answer = h.answer;
    was_answered = h.was_answered;
    before = h.before;
    after = h.after;
    its_turn = h.its_turn;
    same = h.same;
    finishes = h.finishes;
    run_since = next h.run_since step;
  }

  pub compare_result :
      (value : Option (num.Number)) (answer : Parameter ops) (s : Service ops volume hw dsp num)
      → (compare_hash ops volume hw dsp num value answer s).1
        ≡ record s { configuration_unlocked = matches ops volume hw dsp num value answer }
  unfolding compare_hash
  compare_result value answer s = ground arith

  -- The step in which a check compares.
  finish_matched :
      (start x y : System ops volume hw dsp num) (before after : List (Check ops volume hw dsp num))
      (cell : Cell num) (answer : Parameter ops)
      → x.checks ≡ before ++ comparing cell answer ∷ after
      → y ≡ record {
        service = (compare_hash ops volume hw dsp num cell.parameter_value answer x.service).1;
        checks = before ++ after;
      }
      → WasAnswered start x cell answer
      → y.service.configuration_unlocked ≡ true
      → HasMatched start y
  finish_matched start x y before after cell answer c e answered unlocked =
      let result = compare_result cell.parameter_value answer x.service in
      let same : matches ops volume hw dsp num cell.parameter_value answer ≡ true =
        rw (e, result) at unlocked in
      record {
        compared = x;
        finished = y;
        cell = cell;
        answer = answer;
        was_answered = answered;
        before = before;
        after = after;
        its_turn = c;
        same = same;
        finishes = e ∙ rw (result, same) refl;
        run_since = here;
      }

  All-same :
      (P : Check ops volume hw dsp num → Type 0) (xs ys : List (Check ops volume hw dsp num))
      → xs ≡ ys
      → All P ys
      → All P xs
  All-same P xs ys same h = rw same h

  -- A step that lets the checks `cs` go on, and does not unlock.
  keeps_on :
      (start x y : System ops volume hw dsp num) (cs : List (Check ops volume hw dsp num))
      → Step ops volume hw dsp num x y
      → y.checks ≡ cs
      → All (IsHonest start x) cs
      → (y.service.configuration_unlocked ≡ true → x.service.configuration_unlocked ≡ true)
      → Inv start x
      → Inv start y
  keeps_on start x y cs step q honest flag h = record {
    honest = All-same (IsHonest start y) y.checks cs q (All-later start x y cs step honest);
    matched = λ unlocked. matched_later start x y step (h.matched (flag unlocked));
  }

  abbrev checks_of : {x y : System ops volume hw dsp num} → x ≡ y → x.checks ≡ y.checks
  checks_of e = ap (λ (z : System ops volume hw dsp num). z.checks) e

  Step-Inv :
      (start x y : System ops volume hw dsp num)
      → Reach ops volume hw dsp num start x
      → Step ops volume hw dsp num x y
      → Inv start x
      → Inv start y
  Step-Inv start x y r (store content e) h =
      keeps_on start x y x.checks (store content e) (checks_of e) h.honest (λ u. rw e at u) h
  Step-Inv start x y r (begin cell is_cell e) h = record {
    honest = All-same (IsHonest start y) y.checks _ (checks_of e) (
        All-append (IsHonest start y) x.checks (reading cell ∷ [])
          (All-later start x y x.checks (begin cell is_cell e) h.honest)
          (
            record {
              looked_up = x;
              begun = y;
              run_before = r;
              is_cell = is_cell;
              begins = e;
              run_since = here;
            },
            tt,
          ));
    matched = λ u. let never : false ≡ true = rw e at u in absurd (cc never);
  }
  Step-Inv start x y r (begin_none no_cell_there e) h =
      keeps_on start x y x.checks (begin_none no_cell_there e) (checks_of e) h.honest
        (λ u. let never : false ≡ true = rw e at u in absurd (cc never)) h
  Step-Inv start x y r (read_hash before after cell answer d c read e) h =
      let step : Step ops volume hw dsp num x y = read_hash before after cell answer d c read e in
      let (b, (begun, a)) =
        All-split (IsHonest start x) before (reading cell) after
          (All-same (IsHonest start x) _ x.checks (sym c) h.honest) in
      let answered : WasAnswered start y cell answer = record {
        asked = x;
        read = y;
        was_begun = begun;
        before = before;
        after = after;
        its_turn = c;
        device = d;
        answered = read;
        reads = e;
        run_since = here;
      } in
      record {
        honest = All-same (IsHonest start y) y.checks _ (checks_of e) (
            All-append (IsHonest start y) before (comparing cell answer ∷ after)
              (All-later start x y before step b) (answered, All-later start x y after step a));
        matched = λ u. matched_later start x y step (h.matched (rw e at u));
      }
  Step-Inv start x y r (read_fails before after cell error d c read e) h =
      let (b, (_, a)) =
        All-split (IsHonest start x) before (reading cell) after
          (All-same (IsHonest start x) _ x.checks (sym c) h.honest) in
      keeps_on start x y (before ++ after) (read_fails before after cell error d c read e)
        (checks_of e) (All-append (IsHonest start x) before after b a) (λ u. rw e at u) h
  Step-Inv start x y r (finish before after cell answer c e) h =
      let step : Step ops volume hw dsp num x y = finish before after cell answer c e in
      let (b, (answered, a)) =
        All-split (IsHonest start x) before (comparing cell answer) after
          (All-same (IsHonest start x) _ x.checks (sym c) h.honest) in
      record {
        honest = All-same (IsHonest start y) y.checks _ (checks_of e) (
            All-later start x y (before ++ after) step
              (All-append (IsHonest start x) before after b a));
        matched = finish_matched start x y before after cell answer c e answered;
      }
  Step-Inv start x y r (others_use_dsp d e) h =
      keeps_on start x y x.checks (others_use_dsp d e) (checks_of e) h.honest (λ u. rw e at u) h

  Reach-Inv :
      (start x : System ops volume hw dsp num)
      → Inv start start
      → Reach ops volume hw dsp num start x
      → Inv start x
  Reach-Inv start x h here = h
  Reach-Inv start x h (next {x = w} r step) = Step-Inv start w x r step (Reach-Inv start w h r)

  -- However many checks run, and whatever is loaded and written to the DSP in between, a service that
  -- began locked with no check running is unlocked only after a check has matched in the run: the
  -- check was begun, for the one safety hash cell of the file that was loaded at that moment; later it
  -- asked the DSP and got an answer; later it compared, the answer was equal to the cell's value, and
  -- that step unlocked the configuration.
  pub unlocked-HasMatched :
      (start x : System ops volume hw dsp num)
      → start.service.configuration_unlocked ≡ false
      → start.checks ≡ []
      → Reach ops volume hw dsp num start x
      → x.service.configuration_unlocked ≡ true
      → HasMatched start x
  unlocked-HasMatched start x shut none_running r unlocked =
      let inv : Inv start start = record {
        honest = rw none_running tt;
        matched = λ never. absurd (cc (never, shut));
      } in
      (Reach-Inv start x inv r).matched unlocked
