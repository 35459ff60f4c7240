-- ===== src/Backend/Races.antt =====
-- A safety check of sigmadsp/backend.py in a thread of its own, against a request to load
-- parameters.
use sigmadsp.Prelude.{
  ◌≡◌, refl, sym, ap, ◌∙◌, arith, Bool, true, false, Option, some, List, [], ◌∷◌,
}
use sigmadsp.Prelude.Result.{ok}
use sigmadsp.Conversion.Fixpoint.{FloatOps}
use sigmadsp.Protocol.{Hardware}
use sigmadsp.Dsp.{Dsp, VolumeOps, Parameter}
use sigmadsp.Parser.{Numbers, Cell}
use sigmadsp.Parser.Texts.{Text}
use sigmadsp.Backend.{Service, matches, compare_hash}
use sigmadsp.Backend.Lock.{hash_read, after_store, HashMatches}
use sigmadsp.Backend.Checks.Matched.{compare_result}
use sigmadsp.Backend.Checks.{
  reading, comparing, System, IsSafetyCell, begin, read_hash, finish, Step, Reach, here, next,
}

module _ (ops : FloatOps) (volume : VolumeOps ops) (hw : Hardware) (dsp : Dsp ops hw)
    (num : Numbers) where
  open hw use {Device}

  abbrev pub quiet : Service ops volume hw dsp num → System ops volume hw dsp num
  quiet s = record { service = s; checks = [] }

  -- A race between the check of the old file, with the cell `a` and the answer `p`, and the storing of a
  -- new file, whose check has the cell `b` and the answer `q`.
  pub record Race (s : Service ops volume hw dsp num) (content : List Text) (a b : Cell num)
      (p q : Parameter ops) : Type 0 where
    -- The old check has its answer, and the old file is loaded.
    pub stale : System ops volume hw dsp num
    pub old_run : Reach ops volume hw dsp num (quiet s) stale
    pub old_file : stale.service.settings ≡ s.settings
    pub old_waits : stale.checks ≡ comparing a p ∷ []
    -- The new file is stored, and its check begins and has its answer too.
    pub both : System ops volume hw dsp num
    pub new_run :
        Reach ops volume hw dsp num
          (record stale { service = after_store ops volume hw dsp num content stale.service })
          both
    pub both_wait : both.checks ≡ comparing a p ∷ comparing b q ∷ []
    -- The new check compares, and the configuration is locked.
    pub locked : System ops volume hw dsp num
    pub new_ends : Step ops volume hw dsp num both locked
    pub old_left : locked.checks ≡ comparing a p ∷ []
    pub shut : locked.service.configuration_unlocked ≡ false
    pub new_file : locked.service.settings ≡ (after_store ops volume hw dsp num content s).settings
    pub locked_differs : ¬ HashMatches ops volume hw dsp num locked.service
    -- The old check compares, and the configuration is unlocked.
    pub final : System ops volume hw dsp num
    pub old_ends : Step ops volume hw dsp num locked final
    pub none_left : final.checks ≡ []
    pub unlocked : final.service.configuration_unlocked ≡ true
    pub same_file : final.service.settings ≡ (after_store ops volume hw dsp num content s).settings
    pub differs : ¬ HashMatches ops volume hw dsp num final.service

  -- The service with the new file, after the checks.
  abbrev with_file :
      Service ops volume hw dsp num → List Text → Device → Bool → Service ops volume hw dsp num
  with_file s content e open_now = record (after_store ops volume hw dsp num content s) {
    configuration_unlocked = open_now;
    dsp_device = e;
  }

  no_match :
      (s : Service ops volume hw dsp num) (content : List Text) (b : Cell num) (q : Parameter ops)
      (e : Device) (open_now : Bool)
      → IsSafetyCell ops volume hw dsp num (after_store ops volume hw dsp num content s) b
      → matches ops volume hw dsp num b.parameter_value q ≡ false
      → (hash_read ops volume hw dsp num b e).0 ≡ ok q
      → ¬ HashMatches ops volume hw dsp num (with_file s content e open_now)
  no_match s content b q e open_now is_b differs again = λ h.
      let cells : some h.cells ≡ some is_b.cells = sym h.loaded ∙ is_b.loaded in
      let one : h.cells ≡ is_b.cells = ground arith in
      let found : some h.cell ≡ some b = sym h.only_one ∙ (rw one is_b.only_one) in
      let cell : h.cell ≡ b = ground arith in
      let answer : ok h.answer ≡ ok q = sym h.answered ∙ rw cell again in
      let given : h.answer ≡ q = ground arith in
      let never : false ≡ true = sym differs ∙ (rw (cell, given) at h.same) in absurd (cc never)

  compared_to :
      (value : Option (num.Number)) (answer : Parameter ops) (s : Service ops volume hw dsp num)
      (r : Bool)
      → matches ops volume hw dsp num value answer ≡ r
      → record s { configuration_unlocked = r }
        ≡ (compare_hash ops volume hw dsp num value answer s).1
  compared_to value answer s r e =
      sym (compare_result ops volume hw dsp num value answer s ∙ rw e refl)

  -- The check of the old file has read the hash when a new file is stored. The new file's own check
  -- runs, does not match, and leaves the configuration locked. Then the old check compares, and that
  -- step unlocks it: the new file is loaded, no check is running, the hash of the new file does not
  -- match, and parameters may be changed.
  pub stale_check-unlocks :
      (s : Service ops volume hw dsp num) (content : List Text) (a b : Cell num)
      (p q : Parameter ops) (d e : Device)
      → IsSafetyCell ops volume hw dsp num s a
      → hash_read ops volume hw dsp num a s.dsp_device ≡ (ok p, d)
      → matches ops volume hw dsp num a.parameter_value p ≡ true
      → IsSafetyCell ops volume hw dsp num (after_store ops volume hw dsp num content s) b
      → hash_read ops volume hw dsp num b d ≡ (ok q, e)
      → matches ops volume hw dsp num b.parameter_value q ≡ false
      → (hash_read ops volume hw dsp num b e).0 ≡ ok q
      → Race s content a b p q
  stale_check-unlocks s content a b p q d e is_a read_a same is_b read_b differs again =
      let checking = quiet (record s { configuration_unlocked = false; dsp_device = d }) in
      let stale = record checking { checks = comparing a p ∷ [] } in
      let stored = record stale {
        service = after_store ops volume hw dsp num content stale.service;
      } in
      let both : System ops volume hw dsp num = record {
        service = with_file s content e false;
        checks = comparing a p ∷ comparing b q ∷ [];
      } in
      let begins : Reach ops volume hw dsp num stored (record {
        service = with_file s content d false;
        checks = comparing a p ∷ reading b ∷ [];
      }) =
        next here (
          begin b (record { cells = is_b.cells; loaded = is_b.loaded; only_one = is_b.only_one })
            refl) in
      record {
        stale = stale;
        old_run = next (next here (begin a is_a refl)) (read_hash [] [] a p d refl read_a refl);
        old_file = refl;
        old_waits = refl;
        both = both;
        new_run = next begins (read_hash (comparing a p ∷ []) [] b q e refl read_b refl);
        both_wait = refl;
        locked = record { service = with_file s content e false; checks = comparing a p ∷ [] };
        new_ends = finish (comparing a p ∷ []) [] b q refl (
            ap
              (λ (t : Service ops volume hw dsp num). record {
                service = t;
                checks = comparing a p ∷ [];
              })
              (compared_to b.parameter_value q (with_file s content e false) false differs));
        old_left = refl;
        shut = refl;
        new_file = refl;
        locked_differs = no_match s content b q e false is_b differs again;
        final = quiet (with_file s content e true);
        old_ends =
            finish [] [] a p refl
              (ap quiet (compared_to a.parameter_value p (with_file s content e false) true same));
        none_left = refl;
        unlocked = refl;
        same_file = refl;
        differs = no_match s content b q e true is_b differs again;
      }
