-- ===== src/Frontend/Loading.antt =====
-- sigmadsp/frontend.py on the backend of sigmadsp/backend.py: loading a parameter file.
use sigmadsp.Prelude.{
  ◌≡◌, refl, ap, ap₂, ◌∙◌, ◌↔◌, Bool, true, false, Option, none, some, List, [], ◌∷◌, ◌==◌, arith,
  concat, All,
}
use sigmadsp.Prelude.Result.{Result, ok, err, rpc_error}
use sigmadsp.Prelude.Exec.{Exec, continue, gets}
use sigmadsp.Conversion.Fixpoint.{FloatOps}
use sigmadsp.Protocol.{Hardware}
use sigmadsp.Dsp.{Dsp, VolumeOps, Parameter, Gpio}
use sigmadsp.Parser.{Numbers, Cell, run, safety_hash_cell}
use sigmadsp.Parser.Texts.{Text}
use sigmadsp.Settings.{translate, readlines, store_parameters, load_parameters}
use sigmadsp.Backend
use sigmadsp.Backend.{
  Service, ReplyMessage, ControlResponse, control, control_parameter, compare_hash, check_cell,
  check_parser, safety_check, suppress, loaded, control_unlocked,
}
use sigmadsp.Backend.Lock.{HashMatches, after_store, control-load_parameters, gets_loaded}
use sigmadsp.Frontend.{
  BackendStub, load_parameters_command, send_load_parameters, sigmadsp_command, emit,
}

concat-readlines : (t : Text) → concat (readlines t) ≡ t
unfolding readlines
concat-readlines [] = refl
concat-readlines (c ∷ t) = ground (arith, concat-readlines t)

-- A text without carriage returns is read as it is.
translate_same : (t : Text) → All (λ c. c == 13 ≡ false) t → translate t ≡ t
unfolding translate
translate_same [] h = refl
translate_same (c ∷ []) h = rw h.0 refl
translate_same (c ∷ d ∷ t) h = rw h.0 (ap (λ (l : Text). c ∷ l) (translate_same (d ∷ t) h.1))

translate-All : (t : Text) → All (λ c. c == 13 ≡ false) (translate t)
unfolding translate
translate-All [] = tt
translate-All (c ∷ []) = ground arith
translate-All (c ∷ d ∷ t) = ground (arith, translate-All (d ∷ t), translate-All t)

module _ (ops : FloatOps) (volume : VolumeOps ops) (hw : Hardware) (dsp : Dsp ops hw)
    (num : Numbers) where
  open hw use {Device}

  -- An exception in the service is an `RpcError` for the caller.
  abbrev remote :
      {A : Type 0} → Exec (Service ops volume hw dsp num) A → Exec (Service ops volume hw dsp num) A
  remote m s = let (r, s') = m s in (elim r [ ok a ↦ ok a | err e ↦ err rpc_error ], s')

  -- The channel to the backend.
  abbrev pub backend_stub :
      Gpio hw → BackendStub ops volume hw dsp num (Service ops volume hw dsp num)
  backend_stub gpio = record {
    control = λ command. remote (control ops volume hw dsp num gpio command);
    control_parameter = λ command. remote (control_parameter ops volume hw dsp num command);
  }

  compare_settings :
      (value : Option (num.Number)) (r : Result (Parameter ops)) (s : Service ops volume hw dsp num)
      → (continue r (compare_hash ops volume hw dsp num value) s).1.settings ≡ s.settings
  unfolding compare_hash
  compare_settings value (err e) s = refl
  compare_settings value (ok answer) s = ground arith

  cell_settings :
      (found : Option (Cell num)) (s : Service ops volume hw dsp num)
      → (check_cell ops volume hw dsp num found s).1.settings ≡ s.settings
  unfolding check_cell
  cell_settings none s = refl
  cell_settings (some cell) s = compare_settings cell.parameter_value _ _

  parser_settings :
      (parser : Option (List (Cell num))) (s : Service ops volume hw dsp num)
      → (check_parser ops volume hw dsp num parser s).1.settings ≡ s.settings
  parser_settings none s = refl
  parser_settings (some cells) s = cell_settings (safety_hash_cell num cells) s

  -- The safety check leaves the parameters as they are.
  safety_check-settings :
      (s : Service ops volume hw dsp num)
      → (safety_check ops volume hw dsp num s).1.settings ≡ s.settings
  unfolding safety_check
  safety_check-settings s = parser_settings s.settings.parameter_parser _

  stored :
      (file : Text) (cells : List (Cell num)) (s : Service ops volume hw dsp num)
      → s.settings.path ≡ ok true
      → run num true (some (readlines (translate file))) [] ≡ (ok tt, cells)
      → store_parameters num (readlines (translate file)) s.settings
        ≡ (ok tt, record s.settings { file = some (translate file); parameter_parser = some cells })
  unfolding store_parameters load_parameters
  stored file cells s path parsed =
      let plain : translate (translate file) ≡ translate file =
        translate_same (translate file) (translate-All file) in
      rw path (rw (concat-readlines (translate file), plain, parsed) refl)

  remote_result :
      (r : Result (ControlResponse ops volume hw dsp num)) (t s' : Service ops volume hw dsp num)
      (message : ReplyMessage ops volume hw dsp num)
      → continue
          (elim r [ ok a ↦ ok a | err e ↦ err rpc_error ])
          (λ (response : ControlResponse ops volume hw dsp num).
            λ (u : Service ops volume hw dsp num). (ok response.message, u))
          t
        ≡ (ok message, s')
      → (response : ControlResponse ops volume hw dsp num) × (r ≡ ok response)
        × (response.message ≡ message)
        × (t ≡ s')
  remote_result (ok response) t s' message e = (response, refl, cc, cc)
  remote_result (err x) t s' message e = let never : err rpc_error ≡ ok message = cc in cc

  -- The answer, and what was loaded.
  control_loaded :
      (gpio : Gpio hw) (content : List Text) (s s' : Service ops volume hw dsp num)
      (response : ControlResponse ops volume hw dsp num)
      → (store_parameters num content s.settings).0 ≡ ok tt
      → control ops volume hw dsp num gpio (Backend.load_parameters content) s ≡ (ok response, s')
      → (s'.settings ≡ (store_parameters num content s.settings).1)
        × ((b : Bool) × (loaded ops volume hw dsp num b ≡ response))
  unfolding control
  control_loaded gpio content s s' response returns e =
      let u = after_store ops volume hw dsp num content s in
      let after : continue (suppress ops volume hw dsp num (safety_check ops volume hw dsp num) u).0
            (λ (v : Unit {0}). gets (λ t. loaded ops volume hw dsp num t.configuration_unlocked))
            (safety_check ops volume hw dsp num u).1
          ≡ (ok response, s') =
        rw returns at e in
      let (is_loaded, same) = gets_loaded ops volume hw dsp num _ _ s' response after in
      (rw (← same) (safety_check-settings u), (_, is_loaded))

  loaded_message :
      (b : Bool)
      → ((loaded ops volume hw dsp num b).message ≡ control_unlocked)
        ↔ ((loaded ops volume hw dsp num b).success ≡ true)
  loaded_message true = (λ _. refl, λ _. refl)
  loaded_message false = (λ e. cc, λ e. cc)

  -- The command `load_parameters` with a file that parses, on a backend whose configuration names a
  -- parameter file. Where the tool is answered, the backend has the text of the file, its line ends
  -- translated, as its parameter file, and the cells that the file parses to; and the tool logs that
  -- control is unlocked exactly when the one safety hash cell of these has the value that the DSP
  -- answers.
  pub load_parameters-HashMatches :
      (gpio : Gpio hw) (file : Text) (cells : List (Cell num))
      (s s' : Service ops volume hw dsp num) (message : ReplyMessage ops volume hw dsp num)
      → s.settings.path ≡ ok true
      → run num true (some (readlines (translate file))) [] ≡ (ok tt, cells)
      → sigmadsp_command ops volume hw dsp num (backend_stub gpio) (load_parameters_command file) s
        ≡ (ok message, s')
      → (s'.settings
          ≡ record s.settings { file = some (translate file); parameter_parser = some cells })
        × ((message ≡ control_unlocked)
            ↔ HashMatches ops volume hw dsp num (record s {
              settings = record s.settings {
                file = some (translate file);
                parameter_parser = some cells;
              };
            }))
  unfolding sigmadsp_command send_load_parameters emit
  load_parameters-HashMatches gpio file cells s s' message path parsed e =
      let content = readlines (translate file) in
      let keeps = stored file cells s path parsed in
      let (response, answered, says, same) =
        remote_result (control ops volume hw dsp num gpio (Backend.load_parameters content) s).0 _
          s' message e in
      let run_is : control ops volume hw dsp num gpio (Backend.load_parameters content) s
          ≡ (ok response, s') =
        ap₂
          (λ (r : Result (ControlResponse ops volume hw dsp num))
              (t : Service ops volume hw dsp num).
            (r, t))
          answered same in
      let (settings, (b, is_loaded)) =
        control_loaded gpio content s s' response (rw keeps refl) run_is in
      let matched =
        control-load_parameters ops volume hw dsp num gpio content s s' response run_is in
      let logged : (message ≡ control_unlocked) ↔ (response.success ≡ true) =
        rw says at (rw is_loaded at (loaded_message b)) in
      let found = rw keeps at matched in
      (
        settings ∙ rw keeps refl,
        (
          λ m. found.0 (logged.0 m),
          λ (h : HashMatches ops volume hw dsp num _). logged.1 (found.1 h),
        ),
      )
