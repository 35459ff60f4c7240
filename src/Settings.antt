-- ===== src/Settings.antt =====
-- sigmadsp/helper/settings.py: the parameter file and the cells that were parsed from it.
use sigmadsp.Prelude.{
  ℕ, All, ◌++◌, ◌≡◌, refl, true, false, Bool, Option, none, some, List, [], ◌∷◌, concat,
  append_assoc, ◌∙◌, ◌==◌, if◌then◌else◌,
}
use sigmadsp.Prelude.Result.{Result, ok, err, index_error, type_error, ◌>>=◌}
use sigmadsp.Prelude.Exec.{Exec}
use sigmadsp.Parser.{Numbers, Cell, run}
use sigmadsp.Parser.Texts.{Text}

-- A text file that is opened for reading translates the line ends of other systems.
unfoldable pub translate : Text → Text
translate [] = []
translate (c ∷ []) = (if c == 13 then 10 else c) ∷ []
translate (c ∷ d ∷ text) =
    let rest = translate (d ∷ text) in
    let after = translate text in
    if c == 13 then (if d == 10 then 10 ∷ after else 10 ∷ rest) else c ∷ rest

abbrev onto_line : ℕ → List Text → List Text
onto_line c [] = (c ∷ []) ∷ []
onto_line c (line ∷ lines) = (c ∷ line) ∷ lines

-- `readlines()`: every line keeps its line end.
unfoldable pub readlines : Text → List Text
readlines [] = []
readlines (c ∷ text) = if c == 10 then (c ∷ []) ∷ readlines text else onto_line c (readlines text)

module _ (num : Numbers) where
  -- What `Path(config["parameters"]["path"])` comes to: whether its suffix is `.params`, or the
  -- exception of a configuration without such a text; the content of the file there; and the parser
  -- with its cells.
  pub record Settings : Type 0 where
    pub path : Result Bool
    pub file : Option Text
    pub parameter_parser : Option (List (Cell num))

  abbrev lines_of : Option Text → Option (List Text)
  lines_of none = none
  lines_of (some text) = some (readlines (translate text))

  -- `except (IndexError, TypeError)`
  abbrev parsed : Result (Unit {0}) × List (Cell num) → Exec Settings (Unit {0})
  parsed (ok _, cells) s = (ok tt, record s { parameter_parser = some cells })
  parsed (err index_error, _) s = (ok tt, s)
  parsed (err type_error, _) s = (ok tt, s)
  parsed (err e, _) s = (err e, s)

  unfoldable pub load_parameters : Exec Settings (Unit {0})
  unfolding translate readlines
  load_parameters s = elim s.path [
    | err e ↦ parsed (err e, []) s
    | ok is_params ↦ parsed (run num is_params (lines_of s.file) []) s
  ]

  unfoldable pub store_parameters : List Text → Exec Settings (Unit {0})
  unfolding load_parameters
  store_parameters lines s = elim s.path [
    | err e ↦ (err e, s)
    | ok _ ↦ load_parameters (record s { file = some (concat lines) })
  ]

  -- `__init__`, with the outcome of opening the configuration and of `yaml.safe_load`, and the
  -- content of the parameter file; an exception leaves no object.
  unfoldable pub new_settings : Result (Result Bool) → Option Text → Result Settings
  unfolding load_parameters
  new_settings (err e) file = err e
  new_settings (ok path) file =
      let (r, settings) =
        load_parameters (record { path = path; file = file; parameter_parser = none }) in
      r >>= λ _. ok settings

-- A line with its end, and no other end of a line in it.
pub record IsLine (line : Text) : Type 0 where
  pub content : Text
  pub ended : line ≡ content ++ 10 ∷ []
  pub no_end : All (λ c. (c == 10 ≡ false) × (c == 13 ≡ false)) content

translate_char : (c : ℕ) (text : Text) → c == 13 ≡ false → translate (c ∷ text) ≡ c ∷ translate text
unfolding translate
translate_char c [] h = rw h refl
translate_char c (d ∷ text) h = rw h refl

translate-line :
    (content rest : Text)
    → All (λ c. (c == 10 ≡ false) × (c == 13 ≡ false)) content
    → translate (content ++ (10 ∷ rest)) ≡ content ++ (10 ∷ translate rest)
translate-line [] rest h = translate_char 10 rest refl
translate-line (c ∷ content) rest h =
    translate_char c (content ++ (10 ∷ rest)) h.0.1 ∙ rw (translate-line content rest h.1) refl

readlines-line :
    (content rest : Text)
    → All (λ c. (c == 10 ≡ false) × (c == 13 ≡ false)) content
    → readlines (content ++ (10 ∷ rest)) ≡ (content ++ 10 ∷ []) ∷ readlines rest
unfolding readlines
readlines-line [] rest h = refl
readlines-line (c ∷ content) rest h = rw (h.0.0, readlines-line content rest h.1) refl

-- The lines of a file that was written from some lines are these lines.
pub readlines-concat :
    (lines : List Text) → All IsLine lines → readlines (translate (concat lines)) ≡ lines
unfolding readlines translate
readlines-concat [] h = refl
readlines-concat (line ∷ lines) h =
    let content = h.0.content in
    let rest = concat lines in
    let cut : line ++ rest ≡ content ++ (10 ∷ rest) =
      rw h.0.ended (append_assoc content (10 ∷ []) rest) in
    rw
      (
        cut,
        translate-line content rest h.0.no_end,
        readlines-line content (translate rest) h.0.no_end,
      )
      (rw (readlines-concat lines h.1) (rw (← h.0.ended) refl))

module _ (num : Numbers) where
  -- Lines that are stored are parsed, now and after a restart. Each has one end of a line, the line
  -- feed that it ends with. With a path to a parameter file, if `run` makes some cells of the very
  -- lines that were stored, and returns, then the call returns and keeps these cells, and a new
  -- settings object with that path and the stored file is the same.
  pub store_parameters-run :
      (lines : List Text) (cells : List (Cell num)) (s : Settings num)
      → All IsLine lines
      → s.path ≡ ok true
      → run num true (some lines) [] ≡ (ok tt, cells)
      → (store_parameters num lines s
          ≡ (ok tt, record s { file = some (concat lines); parameter_parser = some cells }))
        × (new_settings num (ok s.path) (some (concat lines))
            ≡ ok (record s { file = some (concat lines); parameter_parser = some cells }))
  unfolding store_parameters load_parameters new_settings
  store_parameters-run lines cells s h path parsed = (
    rw path (rw (readlines-concat lines h) (rw parsed refl)),
    rw path (rw (readlines-concat lines h) (rw parsed refl)),
  )
