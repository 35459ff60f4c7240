-- ===== src/Parser/Texts.antt =====
-- What sigmadsp/helper/parser.py uses of Python's `str`. A text is the list of its code points.
use Prim.Native.Char.{code}
use Prim.Native.String.{String}
use sigmadsp.Prelude.{
  ℕ, Bool, true, false, ◌&&◌, ◌||◌, List, [], ◌∷◌, ◌++◌, leb, ◌==◌, if◌then◌else◌,
}

abbrev pub Text : Type 0
Text = List ℕ

-- The code points of a literal.
abbrev pub codes : String → Text
codes String.[] = []
codes (String.◌∷◌ c s) = code c ∷ codes s

-- `==` of two texts.
unfoldable pub same_text : Text → Text → Bool
same_text [] [] = true
same_text (x ∷ xs) (y ∷ ys) = x == y && same_text xs ys
same_text _ _ = false

-- `text in texts`
unfoldable pub elem_text : Text → List Text → Bool
unfolding same_text
elem_text t [] = false
elem_text t (u ∷ us) = same_text t u || elem_text t us

unfoldable pub starts_with : Text → Text → Bool
starts_with [] text = true
starts_with (x ∷ xs) [] = false
starts_with (x ∷ xs) (y ∷ ys) = x == y && starts_with xs ys

-- `part in text`
unfoldable pub is_substring : Text → Text → Bool
unfolding starts_with
is_substring part [] = starts_with part []
is_substring part (c ∷ text) = starts_with part (c ∷ text) || is_substring part text

-- A character in front of the first piece.
abbrev pub onto_first : ℕ → List Text → List Text
onto_first c [] = (c ∷ []) ∷ []
onto_first c (piece ∷ pieces) = (c ∷ piece) ∷ pieces

-- `text.split(separator)` for a separator of one character.
unfoldable pub split_on : ℕ → Text → List Text
split_on separator [] = [] ∷ []
split_on separator (c ∷ text) =
    if c == separator then [] ∷ split_on separator text else onto_first c (split_on separator text)

unfoldable pub contains_char : ℕ → Text → Bool
contains_char c [] = false
contains_char c (d ∷ text) = c == d || contains_char c text

-- `str.isspace` of a character.
unfoldable pub is_space : ℕ → Bool
is_space c =
    leb 9 c && leb c 13
    || leb 28 c && leb c 32
    || c == 133
    || c == 160
    || c == 5760
    || leb 8192 c && leb c 8202
    || c == 8232
    || c == 8233
    || c == 8239
    || c == 8287
    || c == 12288

-- The word that was begun, if any, in front of the others.
abbrev pub end_word : Text → List Text → List Text
end_word [] words = words
end_word (c ∷ word) words = (c ∷ word) ∷ words

-- `text.split()`, after a word was begun.
unfoldable pub split_words_from : Text → Text → List Text
unfolding is_space
split_words_from word [] = end_word word []
split_words_from word (c ∷ text) =
    if is_space c
    then end_word word (split_words_from [] text)
    else split_words_from (word ++ c ∷ []) text

unfoldable pub split_words : Text → List Text
unfolding split_words_from
split_words text = split_words_from [] text

-- `" ".join(words)`
unfoldable pub join : List Text → Text
join [] = []
join (w ∷ []) = w
join (w ∷ v ∷ ws) = w ++ (b' ' ∷ join (v ∷ ws))
