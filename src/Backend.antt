-- ===== src/Backend.antt =====
-- sigmadsp/backend.py: `BackendService`. The DSP object, the retries of the package `retry` and the
-- file system are parameters; the proofs are in the modules below.
mod Requests
pub mod Worker
pub mod Wire
pub mod Link
pub mod Lock
pub mod Volumes
pub mod Startup
pub mod Checks
pub mod Races
unfoldable pub use Requests.*
use sigmadsp.Prelude.{
  map, ℕ, suc, Bool, true, false, Option, none, some, List, [], ◌∷◌, ◌++◌, length, if◌then◌else◌,
}
use sigmadsp.Prelude.Int.{ℤ}
use sigmadsp.Prelude.Result.{ok, err, safety_check_error}
use sigmadsp.Prelude.Exec.{Exec, pure, raise, modify, gets, ◌>>=◌, ◌>>◌}
use sigmadsp.Conversion.Fixpoint.{FloatOps}
use sigmadsp.Protocol.{Hardware}
use sigmadsp.Dsp.{
  Dsp, VolumeOps, Parameter, int_parameter, int_format, get_parameter_value, read, Gpio, hard_reset,
}
use sigmadsp.Dsp.Volume.{set_volume, adjust_volume}
use sigmadsp.Parser.{
  Numbers, Cell, safety_hash_cell, name_tokens, volume_cells, get_matching_cells_by_name_tokens,
}
use sigmadsp.Parser.Texts.{Text}
use sigmadsp.Settings.{Settings, store_parameters}

module _ (ops : FloatOps) (volume : VolumeOps ops) (hw : Hardware) (dsp : Dsp ops hw) where
  open ops use {Float}
  open hw use {Device}

  module _ (num : Numbers) where
    open num use {same_number, number}

    -- `started_checks` counts the threads of `trigger_retry_safety_check` that were started.
    pub record Service : Type 0 where
      pub configuration_unlocked : Bool
      pub settings : Settings num
      pub started_checks : ℕ
      pub dsp_device : Device

    abbrev pub on_dsp : {A : Type 0} → Exec Device A → Exec Service A
    on_dsp m s = let (r, d) = m s.dsp_device in (r, record s { dsp_device = d })

    abbrev set_unlocked : Bool → Exec Service (Unit {0})
    set_unlocked b = modify λ s. record s { configuration_unlocked = b }

    -- `safety_hash_cell.parameter_value == dsp_hash`
    abbrev pub matches : Option (num.Number) → Parameter ops → Bool
    matches (some value) (int_parameter n) = same_number value (number n)
    matches _ _ = false

    -- The comparison of the hash that was read.
    unfoldable pub compare_hash : Option (num.Number) → Parameter ops → Exec Service (Unit {0})
    compare_hash value dsp_hash =
        if matches value dsp_hash
        then set_unlocked true
        else (set_unlocked false >> raise safety_check_error)

    unfoldable pub check_cell : Option (Cell num) → Exec Service (Unit {0})
    unfolding compare_hash
    check_cell none = set_unlocked false
    check_cell (some cell) = do
      dsp_hash ← on_dsp (get_parameter_value ops hw dsp cell.parameter_address int_format)
      compare_hash cell.parameter_value dsp_hash

    abbrev pub check_parser : Option (List (Cell num)) → Exec Service (Unit {0})
    check_parser none = pure tt
    check_parser (some cells) = check_cell (safety_hash_cell num cells)

    unfoldable pub safety_check : Exec Service (Unit {0})
    unfolding check_cell
    safety_check s =
        check_parser s.settings.parameter_parser (record s { configuration_unlocked = false })

    -- The messages of a `ControlResponse`; where the source prints names of cells, a
    -- volume or bytes, they are kept.
    pub data ReplyMessage : Type 0 where
      empty_reply no_parameters is_locked soft_reset_done hard_reset_done : ReplyMessage
      control_unlocked safety_check_failed unknown_command : ReplyMessage
      no_volume_cell : List Text → List (List Text) → ReplyMessage
      volume_set : Text → Float → ReplyMessage
      register_content : List ℕ → ReplyMessage

    pub record ControlResponse : Type 0 where
      pub message : ReplyMessage
      pub success : Bool

    -- `ControlParameterRequest`
    pub data ParameterCommand : Type 0 where
      change_volume : List Text → Float → Bool → ParameterCommand
      nothing_asked : ParameterCommand

    -- The loop over the cells; the message is that of the last one.
    unfoldable pub change_volumes :
        List (Cell num) → Float → Bool → ReplyMessage → Exec Service ReplyMessage
    change_volumes [] value relative message = pure message
    change_volumes (cell ∷ cells) value relative message = do
      new_volume_db ← on_dsp (
          if relative
          then adjust_volume ops volume hw dsp value cell.parameter_address
          else set_volume ops volume hw dsp value cell.parameter_address false)
      change_volumes cells value relative (volume_set cell.full_name new_volume_db)

    -- The message before the loop: it names the volume cells that there are, where none was found.
    abbrev volume_message : List (Cell num) → List Text → List (Cell num) → ReplyMessage
    volume_message cells tokens [] =
        no_volume_cell tokens (map (name_tokens num) (volume_cells num cells))
    volume_message cells tokens (_ ∷ _) = empty_reply

    unfoldable pub run_command : List (Cell num) → ParameterCommand → Exec Service ControlResponse
    unfolding change_volumes
    run_command cells nothing_asked = pure (record { message = empty_reply; success = true })
    run_command cells (change_volume tokens value relative) = do
      let found = get_matching_cells_by_name_tokens num (volume_cells num cells) tokens
      message ← change_volumes found value relative (volume_message cells tokens found)
      pure (record { message = message; success = true })

    -- With the parser of the settings, where a file was loaded.
    abbrev pub if_loaded :
        ParameterCommand → Option (List (Cell num)) → Exec Service ControlResponse
    if_loaded command none s = (ok (record { message = no_parameters; success = false }), s)
    if_loaded command (some cells) s =
        (if s.configuration_unlocked
            then run_command cells command
            else pure (record { message = is_locked; success = false }))
          s

    unfoldable pub control_parameter : ParameterCommand → Exec Service ControlResponse
    unfolding run_command
    control_parameter command s = if_loaded command s.settings.parameter_parser s

    -- `ControlRequest`
    pub data Command : Type 0 where
      reset_dsp hard_reset_dsp : Command
      load_parameters : List Text → Command
      read_register : ℤ → ℤ → Command
      other_command : Command

    abbrev on_settings : Exec (Settings num) (Unit {0}) → Exec Service (Unit {0})
    on_settings m s = let (r, t) = m s.settings in (r, record s { settings = t })

    -- `contextlib.suppress(SafetyCheckError)`
    abbrev pub suppress : Exec Service (Unit {0}) → Exec Service (Unit {0})
    suppress m s =
        let (r, s') = m s in
        (
          elim r [
            | ok u ↦ ok u
            | err e ↦ elim e [ safety_check_error ↦ ok tt | other ↦ err other ]
          ],
          s',
        )

    abbrev trigger_retry_safety_check : Exec Service (Unit {0})
    trigger_retry_safety_check = modify λ s. record s { started_checks = suc s.started_checks }

    abbrev pub loaded : Bool → ControlResponse
    loaded true = record { message = control_unlocked; success = true }
    loaded false = record { message = safety_check_failed; success = false }

    unfoldable pub control : Gpio hw → Command → Exec Service ControlResponse
    unfolding safety_check
    control gpio reset_dsp = do
      on_dsp dsp.soft_reset
      trigger_retry_safety_check
      pure (record { message = soft_reset_done; success = true })
    control gpio hard_reset_dsp = do
      on_dsp (hard_reset ops hw gpio dsp)
      trigger_retry_safety_check
      pure (record { message = hard_reset_done; success = true })
    control gpio (load_parameters content) = do
      on_settings (store_parameters num content)
      suppress safety_check
      gets λ s. loaded s.configuration_unlocked
    control gpio (read_register address length) = do
      value ← on_dsp (read hw address length)
      pure (record { message = register_content value; success = true })
    control gpio other_command = pure (record { message = unknown_command; success = false })
