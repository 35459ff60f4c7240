-- ===== src/Dsp/Factory/Described.antt =====
-- sigmadsp/dsp/factory.py on configurations that describe a DSP: the pins that it gets, also where a
-- definition is faulty.
use Prim.Native.String.{String}
use text.Mathlib.Text.{◌==◌}
use text.Mathlib.TextEquality.{eq_iff}
use text.Mathlib.TextPositions.{eq_refl}
use sigmadsp.Prelude.{
  ◌≡◌, refl, sym, ◌∙◌, ◌⊎◌, inl, inr, false, none, List, [], ◌∷◌, ◌++◌, map, append_assoc,
  append-nil, arith, All, if◌then◌else◌,
}
use sigmadsp.Prelude.Result.{ok, err, key_error, type_error}
use sigmadsp.Conversion.Fixpoint.{FloatOps}
use sigmadsp.Dsp.Config.{
  Value, Entries, string, mapping, nil, entry, lookup, subscript, keys, iterate,
}
use sigmadsp.Dsp.Pins.{
  Pin, Definition, general_pin, input_pin, output_pin, get_pin_by_name, has_pin, add_pin, is_some,
  HasDistinctNames,
}
use sigmadsp.Dsp.Factory.{
  Interfaces, read_pins, keep_pins, add_output_pin, add_input_pin, add_definition, add_definitions,
}

-- A value that describes a pin: a mapping with these settings, in any order, and possibly others.
unfoldable pub Describes : Value → Definition → Type 0
Describes v (general_pin n) = ⊥
Describes v (input_pin n up active bounce) =
    (subscript v "mode" ≡ ok (string "input"))
    × (subscript v "number" ≡ ok n)
    × (subscript v "pull_up" ≡ ok up)
    × (subscript v "active_state" ≡ ok active)
    × (subscript v "bounce_time" ≡ ok bounce)
Describes v (output_pin n initial active) =
    (subscript v "mode" ≡ ok (string "output"))
    × (subscript v "number" ≡ ok n)
    × (subscript v "initial_state" ≡ ok initial)
    × (subscript v "active_high" ≡ ok active)

-- The values for some pins, and what follows them.
unfoldable pub describe_all : (Pin → Value) → List Pin → Entries → Entries
describe_all value_of [] rest = rest
describe_all value_of (p ∷ ps) rest = entry p.name (value_of p) (describe_all value_of ps rest)

names : List Pin → List String
names ps = map (λ (p : Pin). p.name) ps

-- The definitions end, or there is one that is no mapping or has no mode, of a name that no pin before
-- it has.
pub data Stops (ps : List Pin) : Entries → Type 0 where
  ends : Stops ps nil
  faulty :
      (key : String) (v : Value) (rest : Entries)
      → (subscript v "mode" ≡ err key_error) ⊎ (subscript v "mode" ≡ err type_error)
      → get_pin_by_name key ps ≡ none
      → Stops ps (entry key v rest)

module _ (interfaces : Interfaces) where
  open interfaces use {output_device, input_device}

  -- What a configuration can describe, and gpiozero accepts.
  unfoldable pub IsConfigurable : Definition → Type 0
  IsConfigurable (general_pin n) = ⊥
  IsConfigurable (input_pin n up active bounce) = input_device n up active bounce ≡ ok tt
  IsConfigurable (output_pin n initial active) = output_device n active initial ≡ ok tt

  add_described :
      (ops : FloatOps) (all v : Value) (key : String) (d : Definition) (pins : List Pin)
      → subscript all key ≡ ok v
      → Describes v d
      → IsConfigurable d
      → add_definition ops interfaces all key pins
        ≡ (ok tt, add_pin (record { name = key; definition = d }) pins)
  unfolding add_definition add_output_pin add_input_pin Describes IsConfigurable
  add_described ops all v key (general_pin n) pins found described valid = absurd valid
  add_described ops all v key (input_pin n up active bounce) pins found
        (mode, number, pull_up, active_state, bounce_time) valid =
      rw found (rw (mode, number, pull_up, active_state, bounce_time) (rw valid refl))
  add_described ops all v key (output_pin n initial active) pins found
        (mode, number, initial_state, active_high) valid =
      rw found (rw (mode, number, initial_state, active_high) (rw valid refl))

get-append :
    (name : String) (xs ys : List Pin)
    → get_pin_by_name name (xs ++ ys) ≡ (
        if is_some (get_pin_by_name name xs)
        then get_pin_by_name name xs
        else get_pin_by_name name ys)
unfolding get_pin_by_name
get-append name [] ys = refl
get-append name (x ∷ xs) ys = ground (arith, get-append name xs ys)

-- In a list of distinct names, no pin has the name of a later one.
fresh :
    (pins : List Pin) (p : Pin) (ps : List Pin)
    → HasDistinctNames (pins ++ p ∷ ps)
    → get_pin_by_name p.name pins ≡ none
unfolding get_pin_by_name
fresh [] p ps d = refl
fresh (q ∷ pins) p ps d = ground (
  arith,
  fresh pins p ps d.1,
  get-append q.name pins (p ∷ ps),
  eq_iff q.name p.name,
  eq_iff p.name q.name,
  d.0,
)

fresh_added :
    (pins : List Pin) (p : Pin) (ps : List Pin)
    → HasDistinctNames (pins ++ p ∷ ps)
    → add_pin p pins ≡ pins ++ p ∷ []
unfolding add_pin has_pin
fresh_added pins p ps d = rw (fresh pins p ps d) refl

module _ (ops : FloatOps) (interfaces : Interfaces) (value_of : Pin → Value) where
  abbrev IsDescribed : Pin → Type 0
  IsDescribed p = Describes (value_of p) p.definition

  abbrev IsFound : Entries → Pin → Type 0
  IsFound all p = lookup p.name all ≡ ok (value_of p)

  describe_more :
      (p : Pin) (ps : List Pin) (all : Entries)
      → get_pin_by_name p.name ps ≡ none
      → All (IsFound all) ps
      → All (IsFound (entry p.name (value_of p) all)) ps
  unfolding get_pin_by_name lookup
  describe_more p [] all absent found = tt
  describe_more p (q ∷ ps) all absent found =
      let other : p.name == q.name ≡ false =
        ground (arith, absent, eq_iff q.name p.name, eq_iff p.name q.name) in
      (rw other found.0, describe_more p ps all (ground (arith, absent)) found.1)

  describe_all-IsFound :
      (ps : List Pin) (rest : Entries)
      → HasDistinctNames ps
      → All (IsFound (describe_all value_of ps rest)) ps
  unfolding describe_all lookup
  describe_all-IsFound [] rest d = tt
  describe_all-IsFound (p ∷ ps) rest d = (
    rw (eq_refl p.name) refl,
    describe_more p ps (describe_all value_of ps rest) d.0 (describe_all-IsFound ps rest d.1),
  )

  -- The described pins are added in order.
  add_more_described :
      (all : Entries) (pins ps : List Pin) (later : List String)
      → HasDistinctNames (pins ++ ps)
      → All (IsFound all) ps
      → All IsDescribed ps
      → All (λ (p : Pin). IsConfigurable interfaces p.definition) ps
      → add_definitions ops interfaces (mapping all) (names ps ++ later) pins
        ≡ add_definitions ops interfaces (mapping all) later (pins ++ ps)
  unfolding add_definitions names
  add_more_described all pins [] later d found described valid = rw append-nil refl
  add_more_described all pins (p ∷ ps) later d found described valid =
      let one =
        add_described interfaces ops (mapping all) (value_of p) p.name p.definition pins
          (unfold subscript in found.0) described.0 valid.0 in
      let more : pins ++ p ∷ ps ≡ (pins ++ p ∷ []) ++ ps = sym (append_assoc pins (p ∷ []) ps) in
      rw one (
        rw (fresh_added pins p ps d) (
          add_more_described all (pins ++ p ∷ []) ps later (rw more at d) found.1 described.1
            valid.1
          ∙ rw more refl))

  keys-describe_all :
      (ps : List Pin) (rest : Entries)
      → keys (describe_all value_of ps rest) ≡ names ps ++ keys rest
  unfolding describe_all names
  keys-describe_all [] rest = refl
  keys-describe_all (p ∷ ps) rest = rw (keys-describe_all ps rest) refl

  lookup-describe_all :
      (key : String) (ps : List Pin) (rest : Entries)
      → get_pin_by_name key ps ≡ none
      → lookup key (describe_all value_of ps rest) ≡ lookup key rest
  unfolding describe_all get_pin_by_name lookup
  lookup-describe_all key [] rest absent = refl
  lookup-describe_all key (p ∷ ps) rest absent =
      ground (arith, absent, lookup-describe_all key ps rest)

  -- The names of what follows the described pins add none, and the error is one that is caught.
  stops_lem :
      (ps : List Pin) (rest : Entries)
      → Stops ps rest
      → keep_pins ops interfaces
          (add_definitions ops interfaces (mapping (describe_all value_of ps rest)) (keys rest) ps)
        ≡ ok ps
  unfolding keep_pins add_definitions
  stops_lem ps rest ends = refl
  stops_lem ps rest (faulty key v more bad absent) =
      let found : subscript (mapping (describe_all value_of ps (entry key v more))) key ≡ ok v =
        unfold subscript in
        lookup-describe_all key ps (entry key v more) absent
        ∙ unfold lookup in rw (eq_refl key) refl in
      unfold add_definition in rw found (elim bad [ inl e ↦ rw e refl | inr e ↦ rw e refl ])

  pub read_pins_described :
      (config dsp : Value) (ps : List Pin) (rest : Entries)
      → subscript config "dsp" ≡ ok dsp
      → subscript dsp "pins" ≡ ok (mapping (describe_all value_of ps rest))
      → HasDistinctNames ps
      → All IsDescribed ps
      → All (λ (p : Pin). IsConfigurable interfaces p.definition) ps
      → Stops ps rest
      → keep_pins ops interfaces (read_pins ops interfaces config []) ≡ ok ps
  unfolding read_pins iterate
  read_pins_described config dsp ps rest at_dsp at_pins d described valid stops = rw at_dsp (
      rw at_pins (
        rw (keys-describe_all ps rest) (
          rw
            (add_more_described (describe_all value_of ps rest) [] ps (keys rest) d
              (describe_all-IsFound ps rest d) described valid)
            (stops_lem ps rest stops))))
