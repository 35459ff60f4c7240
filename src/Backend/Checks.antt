-- ===== src/Backend/Checks.antt =====
-- The safety check of sigmadsp/backend.py in several threads: a reset starts one that retries it, and a
-- request to load parameters runs it in a thread of the gRPC server. A check sets the flag and looks up
-- the cell, waits for the DSP, and then compares and sets the flag again; anything may come between.
pub mod Matched
use sigmadsp.Prelude.{
  ◌≡◌, refl, sym, ap, ◌∙◌, arith, Option, true, false, none, some, List, [], ◌∷◌, ◌++◌, All,
  All-append, All-split,
}
use sigmadsp.Prelude.Result.{Error, ok, err}
use sigmadsp.Conversion.Fixpoint.{FloatOps}
use sigmadsp.Protocol.{Hardware}
use sigmadsp.Dsp.{Dsp, VolumeOps, Parameter}
use sigmadsp.Parser.{Numbers, Cell, safety_hash_cell}
use sigmadsp.Parser.Texts.{Text}
use sigmadsp.Backend.{Service, matches, compare_hash}
use sigmadsp.Backend.Lock.{hash_read, after_store}

module _ (ops : FloatOps) (volume : VolumeOps ops) (hw : Hardware) (dsp : Dsp ops hw)
    (num : Numbers) where
  open hw use {Device}

  -- A check that is about to read the hash, or to compare it.
  pub data Check : Type 0 where
    reading : Cell num → Check
    comparing : Cell num → Parameter ops → Check

  pub record System : Type 0 where
    pub service : Service ops volume hw dsp num
    pub checks : List Check

  -- The first statement of `safety_check`.
  abbrev pub locked : Service ops volume hw dsp num → Service ops volume hw dsp num
  locked s = record s { configuration_unlocked = false }

  -- The one safety hash cell of the file that is loaded.
  pub record IsSafetyCell (s : Service ops volume hw dsp num) (cell : Cell num) : Type 0 where
    pub cells : List (Cell num)
    pub loaded : s.settings.parameter_parser ≡ some cells
    pub only_one : safety_hash_cell num cells ≡ some cell

  -- There is no file, or no safety hash cell in it.
  pub data HasNoCell (s : Service ops volume hw dsp num) : Type 0 where
    no_file : s.settings.parameter_parser ≡ none → HasNoCell s
    no_cell :
        (cells : List (Cell num))
        → s.settings.parameter_parser ≡ some cells
        → safety_hash_cell num cells ≡ none
        → HasNoCell s

  pub data Step (x y : System) : Type 0 where
    store :
        (content : List Text)
        → y ≡ record x { service = after_store ops volume hw dsp num content x.service }
        → Step x y
    begin :
        (cell : Cell num)
        → IsSafetyCell x.service cell
        → y ≡ record { service = locked x.service; checks = x.checks ++ reading cell ∷ [] }
        → Step x y
    begin_none : HasNoCell x.service → y ≡ record x { service = locked x.service } → Step x y
    read_hash :
        (before after : List Check) (cell : Cell num) (answer : Parameter ops) (d : Device)
        → x.checks ≡ before ++ reading cell ∷ after
        → hash_read ops volume hw dsp num cell x.service.dsp_device ≡ (ok answer, d)
        → y ≡ record {
          service = record x.service { dsp_device = d };
          checks = before ++ comparing cell answer ∷ after;
        }
        → Step x y
    read_fails :
        (before after : List Check) (cell : Cell num) (e : Error) (d : Device)
        → x.checks ≡ before ++ reading cell ∷ after
        → hash_read ops volume hw dsp num cell x.service.dsp_device ≡ (err e, d)
        → y ≡ record { service = record x.service { dsp_device = d }; checks = before ++ after }
        → Step x y
    finish :
        (before after : List Check) (cell : Cell num) (answer : Parameter ops)
        → x.checks ≡ before ++ comparing cell answer ∷ after
        → y ≡ record {
          service = (compare_hash ops volume hw dsp num cell.parameter_value answer x.service).1;
          checks = before ++ after;
        }
        → Step x y
    others_use_dsp :
        (d : Device) → y ≡ record x { service = record x.service { dsp_device = d } } → Step x y

  pub data Reach (start : System) : System → Type 0 where
    here : Reach start start
    next : {x y : System} → Reach start x → Step x y → Reach start y
