-- ===== src/Backend/Lock.antt =====
-- The lock of the configuration in sigmadsp/backend.py: what opens it, and what it keeps closed.
use sigmadsp.Prelude.{
  ◌≡◌, refl, ◌↔◌, inl, inr, Bool, true, false, Bool-cases, Option, none, some, List,
}
use sigmadsp.Prelude.Result.{Result, ok, err}
use sigmadsp.Prelude.Exec.{continue, gets, ◌>>=◌}
use sigmadsp.Conversion.Fixpoint.{FloatOps}
use sigmadsp.Protocol.{Hardware}
use sigmadsp.Dsp.{Dsp, VolumeOps, Parameter, int_format, get_parameter_value, Gpio}
use sigmadsp.Parser.{Numbers, Cell, safety_hash_cell}
use sigmadsp.Settings.{store_parameters}
use sigmadsp.Parser.Texts.{Text}
use sigmadsp.Backend.{
  Service, ControlResponse, matches, compare_hash, check_cell, safety_check, control,
  load_parameters, check_parser, loaded, suppress,
}

module _ (ops : FloatOps) (volume : VolumeOps ops) (hw : Hardware) (dsp : Dsp ops hw)
    (num : Numbers) where
  open hw use {Device}

  -- The hash of a cell, read from the DSP.
  abbrev pub hash_read : Cell num → Device → Result (Parameter ops) × Device
  hash_read cell d = get_parameter_value ops hw dsp cell.parameter_address int_format d

  -- The one safety hash cell of the loaded file has the value that the DSP answers.
  pub record HashMatches (s : Service ops volume hw dsp num) : Type 0 where
    pub cells : List (Cell num)
    pub cell : Cell num
    pub answer : Parameter ops
    pub loaded : s.settings.parameter_parser ≡ some cells
    pub only_one : safety_hash_cell num cells ≡ some cell
    pub answered : (hash_read cell s.dsp_device).0 ≡ ok answer
    pub same : matches ops volume hw dsp num cell.parameter_value answer ≡ true

  compare_unlocked :
      (value : Option (num.Number)) (r : Result (Parameter ops)) (s : Service ops volume hw dsp num)
      → s.configuration_unlocked ≡ false
      → (continue r (compare_hash ops volume hw dsp num value) s).1.configuration_unlocked ≡ true
      → (answer : Parameter ops) × (r ≡ ok answer)
        × (matches ops volume hw dsp num value answer ≡ true)
  unfolding compare_hash
  compare_unlocked value (err e) s shut open_after = cc
  compare_unlocked value (ok answer) s shut open_after =
      elim (Bool-cases (matches ops volume hw dsp num value answer)) [
        | inl same ↦ (answer, refl, same)
        | inr other ↦ let no : false ≡ true = rw other at open_after in cc
      ]

  cell_unlocked :
      (cells : List (Cell num)) (found : Option (Cell num)) (s : Service ops volume hw dsp num)
      → s.settings.parameter_parser ≡ some cells
      → safety_hash_cell num cells ≡ found
      → (check_cell ops volume hw dsp num found
          (record s { configuration_unlocked = false })).1.configuration_unlocked
        ≡ true
      → HashMatches s
  unfolding check_cell
  cell_unlocked cells none s loaded only_one open_after = cc
  cell_unlocked cells (some cell) s loaded only_one open_after =
      let (r, d) = hash_read cell s.dsp_device in
      let (answer, answered, same) =
        compare_unlocked cell.parameter_value r
          (record s { configuration_unlocked = false; dsp_device = d }) refl open_after in
      record {
        cells = cells;
        cell = cell;
        answer = answer;
        loaded = loaded;
        only_one = only_one;
        answered = answered;
        same = same;
      }

  parser_unlocked :
      (parser : Option (List (Cell num))) (s : Service ops volume hw dsp num)
      → s.settings.parameter_parser ≡ parser
      → (check_parser ops volume hw dsp num parser
          (record s { configuration_unlocked = false })).1.configuration_unlocked
        ≡ true
      → HashMatches s
  parser_unlocked none s none_loaded open_after = cc
  parser_unlocked (some cells) s loaded open_after =
      cell_unlocked cells (safety_hash_cell num cells) s loaded refl open_after

  -- The safety check leaves the configuration unlocked exactly when a file is loaded whose one safety
  -- hash cell has the value that the DSP answers for its address; whatever the lock was before, and also
  -- where the check raises.
  pub safety_check-HashMatches :
      (s : Service ops volume hw dsp num)
      → ((safety_check ops volume hw dsp num s).1.configuration_unlocked ≡ true) ↔ HashMatches s
  unfolding safety_check check_cell compare_hash
  safety_check-HashMatches s = (
    parser_unlocked s.settings.parameter_parser s refl,
    λ (h : HashMatches s). rw h.loaded (rw h.only_one (rw h.answered (rw h.same refl))),
  )

  pub gets_loaded :
      (r : Result (Unit {0})) (s s' : Service ops volume hw dsp num)
      (response : ControlResponse ops volume hw dsp num)
      → continue r
          (λ (u : Unit {0}). gets (λ t. loaded ops volume hw dsp num t.configuration_unlocked))
          s
        ≡ (ok response, s')
      → (loaded ops volume hw dsp num s.configuration_unlocked ≡ response) × (s ≡ s')
  gets_loaded (ok _) s s' response e = (cc, cc)
  gets_loaded (err x) s s' response e = let no : err x ≡ ok response = cc in cc

  loaded_success : (b : Bool) → (loaded ops volume hw dsp num b).success ≡ b
  loaded_success true = refl
  loaded_success false = refl

  -- The service after the file was stored and parsed.
  abbrev pub after_store : List Text → Service ops volume hw dsp num → Service ops volume hw dsp num
  after_store content s = record s { settings = (store_parameters num content s.settings).1 }

  after_check :
      (r : Result (Unit {0})) (s s' : Service ops volume hw dsp num)
      (response : ControlResponse ops volume hw dsp num)
      → continue r
          (λ (u : Unit {0}).
            suppress ops volume hw dsp num (safety_check ops volume hw dsp num)
            >>= λ (v : Unit {0}). gets (λ t. loaded ops volume hw dsp num t.configuration_unlocked))
          s
        ≡ (ok response, s')
      → response.success ≡ (safety_check ops volume hw dsp num s).1.configuration_unlocked
  after_check (err x) s s' response e = cc
  after_check (ok _) s s' response e =
      let (is_loaded, same) =
        gets_loaded _ (safety_check ops volume hw dsp num s).1 s' response e in
      rw (← is_loaded) (loaded_success _)

  -- Where a request to load parameters is answered, it is answered with a success exactly when the
  -- file that it stored has one safety hash cell with the value that the DSP answers.
  pub control-load_parameters :
      (gpio : Gpio hw) (content : List Text) (s s' : Service ops volume hw dsp num)
      (response : ControlResponse ops volume hw dsp num)
      → control ops volume hw dsp num gpio (load_parameters content) s ≡ (ok response, s')
      → (response.success ≡ true) ↔ HashMatches (after_store content s)
  unfolding control
  control-load_parameters gpio content s s' response e =
      let success_is =
        after_check (store_parameters num content s.settings).0 (after_store content s) s' response
          e in
      rw success_is (safety_check-HashMatches (after_store content s))
