-- ===== src/Parser/Words.antt =====
-- `str.split()` and `" ".join(...)` of Python, as sigmadsp/helper/parser.py uses them, on words
-- without white space.
use sigmadsp.Prelude.{
  ℕ, ◌<◌, ◌≡◌, refl, ◌∙◌, true, false, List, [], ◌∷◌, ◌++◌, append_assoc, append-nil, All, length,
  arith,
}
use sigmadsp.Parser.Texts.{Text, is_space, end_word, split_words_from, split_words, join}

-- A word: not empty, and no white space.
abbrev pub IsWord : Text → Type 0
IsWord w = (0 < length w) × All (λ c. is_space c ≡ false) w

split_words_from-word :
    (w word rest : Text)
    → All (λ c. is_space c ≡ false) w
    → split_words_from word (w ++ rest) ≡ split_words_from (word ++ w) rest
unfolding split_words_from
split_words_from-word [] word rest h = rw append-nil refl
split_words_from-word (c ∷ w) word rest h =
    rw h.0 (split_words_from-word w (word ++ c ∷ []) rest h.1 ∙ rw append_assoc refl)

end_word-word : (w : Text) (words : List Text) → 0 < length w → end_word w words ≡ w ∷ words
end_word-word [] words h = absurd (omega arith)
end_word-word (c ∷ w) words h = refl

-- A word, then white space.
pub split_words-word :
    (w rest : Text) (c : ℕ)
    → IsWord w
    → is_space c ≡ true
    → split_words (w ++ (c ∷ rest)) ≡ w ∷ split_words rest
unfolding split_words split_words_from
split_words-word w rest c h space =
    split_words_from-word w [] (c ∷ rest) h.1
    ∙ rw space (end_word-word w (split_words_from [] rest) h.0)

-- Words joined by blanks, and a line end, are split into these words.
pub split_words-join : (ws : List Text) → All IsWord ws → split_words (join ws ++ 10 ∷ []) ≡ ws
unfolding join is_space
split_words-join [] h = unfold split_words in refl
split_words-join (w ∷ []) h = split_words-word w [] 10 h.0 refl ∙ unfold split_words in refl
split_words-join (w ∷ v ∷ ws) h = rw (append_assoc w (b' ' ∷ join (v ∷ ws)) (10 ∷ [])) (
    split_words-word w (join (v ∷ ws) ++ 10 ∷ []) b' ' h.0 refl
    ∙ rw (split_words-join (v ∷ ws) h.1))
