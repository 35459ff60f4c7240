-- ===== src/Dsp/Pins.antt =====
-- The list of pins in sigmadsp/dsp/common.py.
use Prim.Native.String.{String}
use text.Mathlib.Text.{◌==◌}
use text.Mathlib.TextEquality.{eq_iff}
use text.Mathlib.TextPositions.{eq_refl}
use sigmadsp.Dsp.Config.{Value}
use sigmadsp.Prelude.{
  ◌≡◌, refl, Bool, true, false, Option, none, some, List, [], ◌∷◌, ◌++◌, arith, if◌then◌else◌,
}

-- The fields of `Pin`, `InputPin` and `OutputPin` other than the name; the classes do not check their
-- types, so they are what the configuration holds.
pub data Definition : Type 0 where
  general_pin : Value → Definition
  input_pin : Value → Value → Value → Value → Definition
  output_pin : Value → Value → Value → Definition

-- A `Pin`, without the object that controls it.
pub record Pin : Type 0 where
  pub name : String
  pub definition : Definition

unfoldable pub get_pin_by_name : String → List Pin → Option Pin
get_pin_by_name name [] = none
get_pin_by_name name (pin ∷ pins) = if pin.name == name then some pin else get_pin_by_name name pins

abbrev pub is_some : Option Pin → Bool
is_some none = false
is_some (some _) = true

unfoldable pub has_pin : Pin → List Pin → Bool
unfolding get_pin_by_name
has_pin pin pins = is_some (get_pin_by_name pin.name pins)

unfoldable pub add_pin : Pin → List Pin → List Pin
unfolding has_pin
add_pin pin pins = if has_pin pin pins then pins else pins ++ pin ∷ []

-- `self.pins.remove(pin)` removes the first pin that equals the one that was found; that is the first
-- of its name.
unfoldable pub remove_pin_by_name : String → List Pin → List Pin
remove_pin_by_name name [] = []
remove_pin_by_name name (pin ∷ pins) =
    if pin.name == name then pins else pin ∷ remove_pin_by_name name pins

-- No two pins have the same name.
abbrev pub HasDistinctNames : List Pin → Type 0
HasDistinctNames [] = Unit
HasDistinctNames (pin ∷ pins) = (get_pin_by_name pin.name pins ≡ none) × HasDistinctNames pins

get-append :
    (name : String) (pin : Pin) (pins : List Pin)
    → get_pin_by_name name (pins ++ pin ∷ []) ≡ (
        if is_some (get_pin_by_name name pins)
        then get_pin_by_name name pins
        else if pin.name == name
        then some pin
        else none)
unfolding get_pin_by_name
get-append name pin [] = refl
get-append name pin (p ∷ pins) = ground (arith, get-append name pin pins)

append-HasDistinctNames :
    (pin : Pin) (pins : List Pin)
    → get_pin_by_name pin.name pins ≡ none
    → HasDistinctNames pins
    → HasDistinctNames (pins ++ pin ∷ [])
unfolding get_pin_by_name
append-HasDistinctNames pin [] absent h = (refl, tt)
append-HasDistinctNames pin (p ∷ pins) absent h = ground (
  arith,
  get-append p.name pin pins,
  append-HasDistinctNames pin pins,
  eq_iff p.name pin.name,
  eq_iff pin.name p.name,
)

-- `add_pin` on pins with distinct names leaves distinct names; a pin of the name is there afterwards, the
-- old one where there was one; and every other name is found as before.
pub add_pin_lem :
    (pin : Pin) (pins : List Pin)
    → HasDistinctNames pins
    → HasDistinctNames (add_pin pin pins)
      × (get_pin_by_name pin.name (add_pin pin pins)
          ≡ (if has_pin pin pins then get_pin_by_name pin.name pins else some pin))
      × ((name : String)
          → pin.name == name ≡ false
          → get_pin_by_name name (add_pin pin pins) ≡ get_pin_by_name name pins)
unfolding add_pin has_pin
add_pin_lem pin pins h = (
  ground (arith, append-HasDistinctNames pin pins),
  ground (arith, get-append pin.name pin pins, eq_refl pin.name),
  λ name other. ground (arith, get-append name pin pins),
)

-- After `remove_pin_by_name` on pins with distinct names, no pin has the name, and every other name is
-- found as before.
pub remove_pin_by_name_lem :
    (name : String) (pins : List Pin)
    → HasDistinctNames pins
    → (get_pin_by_name name (remove_pin_by_name name pins) ≡ none)
      × ((other : String)
          → name == other ≡ false
          → get_pin_by_name other (remove_pin_by_name name pins) ≡ get_pin_by_name other pins)
unfolding remove_pin_by_name get_pin_by_name
remove_pin_by_name_lem name [] h = (refl, λ other d. refl)
remove_pin_by_name_lem name (pin ∷ pins) h =
    let ih = remove_pin_by_name_lem name pins h.1 in
    (
      ground (arith, ih.0, eq_iff pin.name name),
      λ other d.
          ground
            (arith, ih.1 other, eq_iff pin.name name, eq_iff pin.name other, eq_iff name other),
    )
