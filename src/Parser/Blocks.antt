-- ===== src/Parser/Blocks.antt =====
-- The blocks of lines of `Parser.run` in sigmadsp/helper/parser.py: which lines end one, and which say
-- nothing on the cell.
use sigmadsp.Prelude.{
  ℕ, zero, suc, ◌≡◌, refl, true, false, Bool-cases, inl, inr, List, [], ◌∷◌, ◌++◌, All, arith,
  replicate,
}
use sigmadsp.Parser.Texts.{Text, codes, same_text, split_words}
use sigmadsp.Parser.{newline, skip_newlines, take_block}

newline_text : (line : Text) → same_text line newline ≡ true → line ≡ newline
unfolding same_text
newline_text [] h = cc
newline_text (c ∷ []) h = ground arith
newline_text (c ∷ d ∷ line) h = ground arith

-- A line with a word is no empty line.
pub has_word :
    (line first : Text) (rest : List Text)
    → split_words line ≡ first ∷ rest
    → same_text line newline ≡ false
has_word line first rest h = elim (Bool-cases (same_text line newline)) [
  | inl is ↦
      let blank : split_words newline ≡ first ∷ rest = rw (newline_text line is) at h in
      let never : ◌≡◌ {A = List Text} [] (first ∷ rest) = unfold split_words in blank in
      absurd (cc never)
  | inr other ↦ other
]

pub skip_newlines-replicate :
    (n : ℕ) (rest : List Text) → skip_newlines (replicate n newline ++ rest) ≡ skip_newlines rest
unfolding skip_newlines same_text
skip_newlines-replicate zero rest = refl
skip_newlines-replicate (suc n) rest = skip_newlines-replicate n rest

abbrev pub IsFull : Text → Type 0
IsFull line = same_text line newline ≡ false

-- A block ends at the first empty line, or with the file.
pub take_block-newline :
    (block rest : List Text)
    → All IsFull block
    → take_block (block ++ newline ∷ rest) ≡ (block, rest)
unfolding take_block same_text
take_block-newline [] rest h = refl
take_block-newline (line ∷ block) rest h = rw h.0 (rw (take_block-newline block rest h.1) refl)

pub take_block-end : (block : List Text) → All IsFull block → take_block block ≡ (block, [])
unfolding take_block
take_block-end [] h = refl
take_block-end (line ∷ block) h = rw h.0 (rw (take_block-end block h.1) refl)

-- A line that says nothing on the cell: the title of the data, or a row of it.
pub data IsData (line : Text) : Type 0 where
  title :
      (rest : List Text) → split_words line ≡ codes "Parameter" ∷ codes "Data" ∷ rest → IsData line
  row :
      (first : Text) (rest : List Text)
      → split_words line ≡ first ∷ rest
      → same_text first (codes "Cell") ≡ false
      → same_text first (codes "Parameter") ≡ false
      → IsData line

pub data-IsFull : (line : Text) → IsData line → IsFull line
data-IsFull line (title rest h) = has_word line _ _ h
data-IsFull line (row first rest h _ _) = has_word line _ _ h
