-- ===== src/Parser/Cells.antt =====
-- The cells of a parameter file in sigmadsp/helper/parser.py, and `Parser.extract_cell`. Python's numbers,
-- with `int` and `float` of a text, are a parameter.
use sigmadsp.Prelude.{
  ℕ, Bool, true, false, ◌&&◌, ◌||◌, Option, none, some, List, [], ◌∷◌, ◌++◌, length, drop,
  get_elem?, if◌then◌else◌,
}
use sigmadsp.Prelude.Int.{ℤ, eqb_ℤ}
use sigmadsp.Prelude.Result.{Result, ok, err, index_error, value_error, ◌>>=◌ as bind_result}
use sigmadsp.Parser.Texts.{
  Text, codes, same_text, elem_text, is_substring, split_on, contains_char, split_words, join,
}

abbrev pub adjustable_prefix : Text
adjustable_prefix = codes "adjustable"

abbrev pub target_parameter : Text
target_parameter = codes "target"

abbrev pub volume_prefix : Text
volume_prefix = codes "volume"

abbrev pub safety_hash : Text
safety_hash = codes "safety_hash"

abbrev pub prefix_separator : ℕ
prefix_separator = b'_'

abbrev pub newline : Text
newline = 10 ∷ []

abbrev pub valid_prefix_tokens : List Text
valid_prefix_tokens = adjustable_prefix ∷ volume_prefix ∷ []

abbrev pub filter {ℓ} : {A : Type ℓ} → (A → Bool) → List A → List A
filter p [] = []
filter p (x ∷ xs) = let rest = filter p xs in if p x then x ∷ rest else rest

-- Python's numbers: `int(text)` and `float(text)`, which raise a ValueError at other texts, and `==`.
pub record Numbers : Type 1 where
  pub Number : Type 0
  pub int_of : Text → Result ℤ
  pub float_of : Text → Result Number
  pub number : ℤ → Number
  pub same_number : Number → Number → Bool

module _ (num : Numbers) where
  open num use {Number, int_of, float_of, number, same_number}

  pub record Cell : Type 0 where
    pub full_name : Text
    pub parameter_address : ℤ
    pub parameter_name : Text
    pub parameter_value : Option Number

  unfoldable pub full_name_tokens : Cell → List Text
  full_name_tokens cell = split_on prefix_separator cell.full_name

  unfoldable pub prefix_tokens : Cell → List Text
  unfolding full_name_tokens
  prefix_tokens cell =
      if contains_char prefix_separator cell.full_name
      then filter (λ prefix. elem_text prefix valid_prefix_tokens) (full_name_tokens cell)
      else []

  unfoldable pub name_tokens : Cell → List Text
  unfolding full_name_tokens prefix_tokens
  name_tokens cell = drop (length (prefix_tokens cell)) (full_name_tokens cell)

  unfoldable pub is_adjustable : Cell → Bool
  unfolding prefix_tokens
  is_adjustable cell = elem_text adjustable_prefix (prefix_tokens cell)

  unfoldable pub is_safety_hash : Cell → Bool
  is_safety_hash cell = same_text cell.full_name safety_hash

  unfoldable pub is_volume_cell : Cell → Bool
  unfolding is_adjustable
  is_volume_cell cell =
      is_adjustable cell
      && (elem_text volume_prefix (prefix_tokens cell)
          && is_substring target_parameter cell.parameter_name)

  -- The local variables of `extract_cell`; `none` where nothing was assigned.
  pub record Locals : Type 0 where
    pub name : Option Text
    pub parameter_name : Option Text
    pub parameter_address : Option ℤ
    pub parameter_value : Option Number

  abbrev pub no_locals : Locals
  no_locals = record {
    name = none;
    parameter_name = none;
    parameter_address = none;
    parameter_value = none;
  }

  -- `split_line[index]`
  abbrev item : List Text → ℕ → Result Text
  item words index = elim (get_elem? words index) [ none ↦ err index_error | some w ↦ ok w ]

  -- `except ValueError` around `int(data)`
  abbrev or_float : Text → Result ℤ → Result Number
  or_float text (err value_error) = float_of text
  or_float text (err e) = err e
  or_float text (ok v) = ok (number v)

  unfoldable pub number_of : Text → Result Number
  number_of text = or_float text (int_of text)

  -- The three tests on the second word of a line that begins with `Parameter`.
  unfoldable pub parameter_line : List Text → Text → Locals → Result Locals
  unfolding number_of
  parameter_line words kind s =
      if same_text kind (codes "Name")
      then ok (record s { parameter_name = some (join (drop 3 words)) })
      else if same_text kind (codes "Address")
      then (bind_result (item words 3)
          λ w. bind_result (int_of w) λ v. ok (record s { parameter_address = some v }))
      else if same_text kind (codes "Value")
      then (bind_result (item words 3)
          λ w. bind_result (number_of w) λ v. ok (record s { parameter_value = some v }))
      else ok s

  unfoldable pub cell_line : List Text → Locals → Result Locals
  unfolding parameter_line
  cell_line [] s = ok s
  cell_line (first ∷ rest) s =
      if same_text first (codes "Cell")
      then (bind_result (item (first ∷ rest) 1) λ kind. ok (
          if same_text kind (codes "Name")
          then record s { name = some (join (drop 3 (first ∷ rest))) }
          else s))
      else if same_text first (codes "Parameter")
      then (bind_result (item (first ∷ rest) 1) λ kind. parameter_line (first ∷ rest) kind s)
      else ok s

  unfoldable pub cell_lines : List Text → Locals → Result Locals
  unfolding cell_line
  cell_lines [] s = ok s
  cell_lines (line ∷ lines) s = bind_result (cell_line (split_words line) s) (cell_lines lines)

  -- `except NameError` around the constructor.
  unfoldable pub new_cell : Locals → Option Cell
  new_cell s = elim s.name [
    | none ↦ none
    | some n ↦ elim s.parameter_address [
      | none ↦ none
      | some a ↦ elim s.parameter_name [
        | none ↦ none
        | some p ↦ some (record {
          full_name = n;
          parameter_address = a;
          parameter_name = p;
          parameter_value = s.parameter_value;
        })
      ]
    ]
  ]

  unfoldable pub extract_cell : List Text → Result (Option Cell)
  unfolding cell_lines new_cell
  extract_cell lines = bind_result (cell_lines lines no_locals) λ s. ok (new_cell s)

  abbrev same_value : Option Number → Option Number → Bool
  same_value none none = true
  same_value none (some _) = false
  same_value (some _) none = false
  same_value (some a) (some b) = same_number a b

  -- `==` of two cells.
  unfoldable pub same_cell : Cell → Cell → Bool
  same_cell a b =
      same_text a.full_name b.full_name
      && (eqb_ℤ a.parameter_address b.parameter_address
          && (same_text a.parameter_name b.parameter_name
              && same_value a.parameter_value b.parameter_value))

  -- `cell in cells`
  unfoldable pub elem_cell : Cell → List Cell → Bool
  elem_cell cell [] = false
  elem_cell cell (c ∷ cells) = same_cell cell c || elem_cell cell cells

  -- The end of a round of `run`.
  unfoldable pub add_cell : Option Cell → List Cell → List Cell
  add_cell none cells = cells
  add_cell (some cell) cells = if elem_cell cell cells then cells else cells ++ cell ∷ []
