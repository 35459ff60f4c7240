-- ===== src/Backend/Volumes.antt =====
-- What `BackendService.control_parameter` of sigmadsp/backend.py does to the DSP when a volume is to be
-- changed.
use sigmadsp.Prelude.{
  ◌≡◌, refl, ap, ◌∙◌, ◌⊎◌, inl, inr, Bool, true, false, Bool-cases, Option, none, some, List, [],
  ◌∷◌, All, if◌then◌else◌,
}
use sigmadsp.Prelude.Result.{Result, ok, err}
use sigmadsp.Prelude.Exec.{Exec, pure, continue}
use sigmadsp.Conversion.Fixpoint.{FloatOps}
use sigmadsp.Protocol.{Hardware}
use sigmadsp.Dsp.{Dsp, VolumeOps}
use sigmadsp.Dsp.Volume.{set_volume, adjust_volume, IsSafe, read_out, stored, set_volume-IsSafe}
use sigmadsp.Parser.{
  Numbers, Cell, volume_cells, is_volume_cell, name_tokens, same_texts,
  get_matching_cells_by_name_tokens, filter,
}
use sigmadsp.Parser.Texts.{Text}
use sigmadsp.Backend.{
  Service, ReplyMessage, change_volume, volume_set, change_volumes, run_command, if_loaded,
  is_locked, ControlResponse, control_parameter,
}

-- An entry of a list.
abbrev pub Among : {A : Type 0} → A → List A → Type 0
Among a [] = ⊥
Among a (x ∷ xs) = (a ≡ x) ⊎ Among a xs

All-Among : {A : Type 0} (P : A → Type 0) (xs : List A) → ((a : A) → Among a xs → P a) → All P xs
All-Among P [] h = tt
All-Among P (x ∷ xs) h = (h x (inl refl), All-Among P xs λ a m. h a (inr m))

-- What passes a filter.
Among-filter :
    {A : Type 0} (p : A → Bool) (xs : List A) (a : A)
    → Among a (filter p xs)
    → Among a xs × (p a ≡ true)
Among-filter p [] a m = absurd m
Among-filter p (x ∷ xs) a m = elim (Bool-cases (p x)) [
  | inl kept ↦
      let found : (a ≡ x) ⊎ Among a (filter p xs) = rw kept at m in
      elim found [
        | inl same ↦ (inl same, ap p same ∙ kept)
        | inr later ↦ let (there, passes) = Among-filter p xs a later in (inr there, passes)
      ]
  | inr dropped ↦
      let later : Among a (filter p xs) = rw dropped at m in
      let (there, passes) = Among-filter p xs a later in (inr there, passes)
]

module _ (ops : FloatOps) (volume : VolumeOps ops) (hw : Hardware) (dsp : Dsp ops hw)
    (num : Numbers) where
  open hw use {Device}

  abbrev Backend : Type 0
  Backend = Service ops volume hw dsp num

  -- A cell of the loaded file that a request with these name tokens may change: an adjustable volume cell
  -- of that name.
  pub record IsTarget (s : Backend) (tokens : List Text) (cell : Cell num) : Type 0 where
    pub cells : List (Cell num)
    pub loaded : s.settings.parameter_parser ≡ some cells
    pub among : Among cell cells
    pub is_volume : is_volume_cell num cell ≡ true
    pub named : same_texts num tokens (name_tokens num cell) ≡ true

  -- Some readouts of registers of such cells, and some stores of volumes between 0 and 1 in them.
  pub data Adjusts (s : Backend) (tokens : List Text) (d : Device) : Device → Type 0 where
    untouched : Adjusts s tokens d d
    reads :
        {d' : Device} (cell : Cell num)
        → IsTarget s tokens cell
        → Adjusts s tokens d d'
        → Adjusts s tokens d (read_out ops volume hw dsp cell.parameter_address d')
    stores :
        {d' : Device} (cell : Cell num) (v : ops.Float)
        → IsTarget s tokens cell
        → IsSafe ops volume hw dsp v
        → Adjusts s tokens d d'
        → Adjusts s tokens d (stored ops volume hw dsp v cell.parameter_address d')

  module _ (s : Backend) (tokens : List Text) (d : Device) where
    -- One cell.
    set_volume-Adjusts :
        (cell : Cell num) (value : ops.Float) (relative : Bool) (d' : Device)
        → IsTarget s tokens cell
        → Adjusts s tokens d d'
        → Adjusts s tokens d
            (set_volume ops volume hw dsp value cell.parameter_address relative d').1
    set_volume-Adjusts cell value relative d' target before =
        let read_first = reads cell target before in
        elim (set_volume-IsSafe ops volume hw dsp value cell.parameter_address relative d') [
          | inl only_read ↦ rw only_read read_first
          | inr (v, safe, inl once) ↦ rw once (stores cell v target safe read_first)
          | inr (v, safe, inr twice) ↦
              rw twice (reads cell target (stores cell v target safe read_first))
        ]

    -- The state with another device.
    abbrev with_device : Device → Backend
    with_device e = record s { dsp_device = e }

    -- The loop ends with such a state.
    abbrev EndsAdjusted : {A : Type 0} → Result A × Backend → Type 0
    EndsAdjusted (r, t) = (e : Device) × Adjusts s tokens d e × (t ≡ with_device e)

    abbrev call : Cell num → ops.Float → Bool → Exec Device (ops.Float)
    call cell value relative =
        if relative
        then adjust_volume ops volume hw dsp value cell.parameter_address
        else set_volume ops volume hw dsp value cell.parameter_address false

    call-Adjusts :
        (cell : Cell num) (value : ops.Float) (relative : Bool) (d' : Device)
        → IsTarget s tokens cell
        → Adjusts s tokens d d'
        → Adjusts s tokens d (call cell value relative d').1
    unfolding adjust_volume
    call-Adjusts cell value true d' = set_volume-Adjusts cell value true d'
    call-Adjusts cell value false d' = set_volume-Adjusts cell value false d'

    after_call :
        {A B : Type 0} (r : Result A) (k : A → Exec Backend B) (e : Device)
        → Adjusts s tokens d e
        → ((a : A) → EndsAdjusted (k a (with_device e)))
        → EndsAdjusted (continue r k (with_device e))
    after_call (ok a) k e adjusts later = later a
    after_call (err x) k e adjusts later = (e, adjusts, refl)

    change_volumes-Adjusts :
        (found : List (Cell num)) (value : ops.Float) (relative : Bool)
        (message : ReplyMessage ops volume hw dsp num) (d' : Device)
        → All (IsTarget s tokens) found
        → Adjusts s tokens d d'
        → EndsAdjusted
            (change_volumes ops volume hw dsp num found value relative message (with_device d'))
    unfolding change_volumes
    change_volumes-Adjusts [] value relative message d' targets before = (d', before, refl)
    change_volumes-Adjusts (cell ∷ found) value relative message d' targets before =
        let (r, e) = call cell value relative d' in
        let after : Adjusts s tokens d e = call-Adjusts cell value relative d' targets.0 before in
        after_call r _ e after λ db.
          change_volumes-Adjusts found value relative (volume_set cell.full_name db) e targets.1
            after

  matched-AreTargets :
      (s : Backend) (tokens : List Text) (cells : List (Cell num))
      → s.settings.parameter_parser ≡ some cells
      → All
          (IsTarget s tokens)
          (get_matching_cells_by_name_tokens num (volume_cells num cells) tokens)
  unfolding volume_cells get_matching_cells_by_name_tokens
  matched-AreTargets s tokens cells loaded = All-Among (IsTarget s tokens) _ λ cell m.
      let (kept, named) =
        Among-filter (λ c. same_texts num tokens (name_tokens num c))
          (filter (is_volume_cell num) cells) cell m in
      let (among, is_volume) = Among-filter (is_volume_cell num) cells cell kept in
      record { cells = cells; loaded = loaded; among = among; is_volume = is_volume; named = named }

  module _ (s : Backend) (tokens : List Text) (value : ops.Float) (relative : Bool) where
    then_reply :
        {A : Type 0} (x : Result A × Backend) (reply : A → ControlResponse ops volume hw dsp num)
        → EndsAdjusted s tokens s.dsp_device x
        → EndsAdjusted s tokens s.dsp_device
            (let (r, t) = x in continue r (λ (a : A). pure (reply a)) t)
    then_reply (ok a, t) reply h = h
    then_reply (err e, t) reply h = h

    if_unlocked :
        (b : Bool) (cells : List (Cell num))
        → s.settings.parameter_parser ≡ some cells
        → EndsAdjusted s tokens s.dsp_device (
            (if b
                then run_command ops volume hw dsp num cells (change_volume tokens value relative)
                else pure (record { message = is_locked; success = false }))
              s)
    unfolding run_command
    if_unlocked true cells loaded =
        let found = get_matching_cells_by_name_tokens num (volume_cells num cells) tokens in
        then_reply (change_volumes ops volume hw dsp num found value relative _ s) _ (
          change_volumes-Adjusts s tokens s.dsp_device found value relative _ s.dsp_device
            (matched-AreTargets s tokens cells loaded) untouched)
    if_unlocked false cells loaded = (s.dsp_device, untouched, refl)

    if_loaded-Adjusts :
        (parser : Option (List (Cell num)))
        → s.settings.parameter_parser ≡ parser
        → EndsAdjusted s tokens s.dsp_device
            (if_loaded ops volume hw dsp num (change_volume tokens value relative) parser s)
    if_loaded-Adjusts none loaded = (s.dsp_device, untouched, refl)
    if_loaded-Adjusts (some cells) loaded = if_unlocked s.configuration_unlocked cells loaded

    -- A request to change a volume, whatever it asks for and whether or not a call raises, changes
    -- nothing of the service but the device. The device is only used by readouts of the registers of
    -- adjustable volume cells of the loaded file, whose name tokens are those of the request, and by
    -- stores in these registers of volumes that are not above 1 and not below 0.
    pub control_parameter-Adjusts :
        EndsAdjusted s tokens s.dsp_device
          (control_parameter ops volume hw dsp num (change_volume tokens value relative) s)
    unfolding control_parameter
    control_parameter-Adjusts = if_loaded-Adjusts s.settings.parameter_parser refl
