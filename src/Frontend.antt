-- ===== src/Frontend.antt =====
-- sigmadsp/frontend.py: the command line tool, which sends requests to the backend. The channel to the
-- backend is a parameter; `Loading` puts the backend's own entry points there.
pub mod Loading
use sigmadsp.Prelude.{ℕ, ◌^◌, Bool, true, false, ◌&&◌, List, [], ◌∷◌, if◌then◌else◌}
use sigmadsp.Prelude.Int.{ℤ, pos, leb_ℤ, ltb_ℤ}
use sigmadsp.Prelude.Result.{value_error}
use sigmadsp.Prelude.Exec.{Exec, pure, require, ◌>>=◌, ◌>>◌}
use sigmadsp.Conversion.Fixpoint.{FloatOps}
use sigmadsp.Protocol.{Hardware}
use sigmadsp.Dsp.{Dsp, VolumeOps}
use sigmadsp.Parser.{Numbers}
use sigmadsp.Parser.Texts.{Text, codes}
use sigmadsp.Settings.{translate, readlines}
use sigmadsp.Backend.{
  ReplyMessage, ControlResponse, Command, ParameterCommand, reset_dsp, hard_reset_dsp,
  load_parameters, read_register, change_volume,
}

module _ (ops : FloatOps) (volume : VolumeOps ops) (hw : Hardware) (dsp : Dsp ops hw)
    (num : Numbers) where
  open ops use {Float}

  -- `BackendStub`, on a channel to a service with state `S`.
  pub record BackendStub (S : Type 0) : Type 0 where
    pub control : Command ops volume hw dsp num → Exec S (ControlResponse ops volume hw dsp num)
    pub control_parameter :
        ParameterCommand ops volume hw dsp num → Exec S (ControlResponse ops volume hw dsp num)

  -- `ControlRequest` or `ControlParameterRequest`
  pub data Request : Type 0 where
    control_request : Command ops volume hw dsp num → Request
    parameter_request : ParameterCommand ops volume hw dsp num → Request

  -- The commands of the tool with their arguments.
  pub data Arguments : Type 0 where
    load_parameters_command : Text → Arguments
    set_volume_command change_volume_command : Float → Arguments
    reset_command : Bool → Arguments
    read_register_command : ℤ → ℤ → Arguments

  module _ {S : Type 0} (stub : BackendStub S) where
    -- `_emit`; what it logs is kept.
    unfoldable pub emit : Request → Exec S (ReplyMessage ops volume hw dsp num)
    emit (control_request command) = do response ← stub.control command; pure response.message
    emit (parameter_request command) = do
      response ← stub.control_parameter command
      pure response.message

    -- A number that fits into a `uint32` field of a message.
    abbrev pub fits_uint32 : ℤ → Bool
    fits_uint32 n = leb_ℤ (pos 0) n && ltb_ℤ n (pos (2 ^ 32))

    unfoldable pub send_read_register : ℤ → ℤ → Exec S (ReplyMessage ops volume hw dsp num)
    unfolding emit
    send_read_register address length = do
      require (fits_uint32 address) value_error
      require (fits_uint32 length) value_error
      emit (control_request (read_register address length))

    unfoldable pub send_change_volume : Float → Bool → Exec S (ReplyMessage ops volume hw dsp num)
    unfolding emit
    send_change_volume value relative =
        emit (parameter_request (change_volume (codes "main" ∷ []) value relative))

    unfoldable pub send_reset : Bool → Exec S (ReplyMessage ops volume hw dsp num)
    unfolding emit
    send_reset true = emit (control_request hard_reset_dsp)
    send_reset false = emit (control_request reset_dsp)

    -- The file is opened as text, so the line ends of other systems are translated.
    unfoldable pub send_load_parameters : Text → Exec S (ReplyMessage ops volume hw dsp num)
    unfolding emit translate readlines
    send_load_parameters file =
        emit (control_request (load_parameters (readlines (translate file))))

    -- The functions of the commands.
    unfoldable pub sigmadsp_command : Arguments → Exec S (ReplyMessage ops volume hw dsp num)
    unfolding send_load_parameters send_change_volume send_reset send_read_register
    sigmadsp_command (load_parameters_command file) = send_load_parameters file
    sigmadsp_command (set_volume_command value) = send_change_volume value false
    sigmadsp_command (change_volume_command change) = send_change_volume change true
    sigmadsp_command (reset_command hard) = send_reset hard
    sigmadsp_command (read_register_command address length) = send_read_register address length
