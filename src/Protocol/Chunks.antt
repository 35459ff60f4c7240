-- ===== src/Protocol/Chunks.antt =====
-- `DspProtocol.writable_data` of sigmadsp/protocols/common.py: the chunks against the data.
use sigmadsp.Prelude.{
  ℕ, zero, suc, ◌+◌, ◌-◌, ◌*◌, ◌≤◌, ◌<◌, ◌≡◌, refl, sym, ◌∙◌, Bool-cases, ◌⊎◌, inl, inr, some, List,
  [], ◌∷◌, ◌++◌, append-nil, arith, length, take, drop, concat, map, length-take, length-drop,
  take-append-drop, leb, leb→le, not_leb→lt,
}
use sigmadsp.Protocol.{Chunk, prepend, chunk_loop, writable_data}

-- The chunks, in order, are the data cut into pieces that are not empty and of at most `words` words;
-- only the last may be shorter, and the address goes up by `words` from each to the next.
abbrev pub Tiles : ℕ → ℕ → List ℕ → List Chunk → Type 0
Tiles words address bytes [] = bytes ≡ []
Tiles words address bytes ((a, piece) ∷ cs) =
    (a ≡ address)
    × (0 < length piece)
    × (length piece ≤ words * 4)
    × ((cs ≡ []) ⊎ (length piece ≡ words * 4))
    × ((rest : List ℕ) × (bytes ≡ piece ++ rest) × Tiles words (address + words) rest cs)

module _ (words : ℕ) (fuel remaining address : ℕ) (bytes : List ℕ) where
  round_end : remaining ≡ 0 → chunk_loop (suc fuel) remaining address bytes words ≡ some []
  unfolding chunk_loop
  round_end h = ground arith

  round_large :
      0 < remaining
      → words * 4 ≤ remaining
      → chunk_loop (suc fuel) remaining address bytes words
        ≡ prepend
            (address, take (words * 4) bytes)
            (chunk_loop fuel
              (remaining - words * 4)
              (address + words)
              (drop (words * 4) bytes)
              words)
  unfolding chunk_loop
  round_large h large = ground arith

  round_small :
      0 < remaining
      → remaining < words * 4
      → chunk_loop (suc fuel) remaining address bytes words
        ≡ prepend (address, bytes) (chunk_loop fuel 0 address bytes words)
  unfolding chunk_loop
  round_small h small = ground arith

module _ (words : ℕ) (positive : 0 < words) where
  -- One full chunk in front of chunks that tile the rest.
  prepend-Tiles :
      (address : ℕ) (bytes : List ℕ) (cs : List Chunk)
      → words * 4 ≤ length bytes
      → Tiles words (address + words) (drop (words * 4) bytes) cs
      → Tiles words address bytes ((address, take (words * 4) bytes) ∷ cs)
  prepend-Tiles address bytes cs large tiles =
      let full : length (take (words * 4) bytes) ≡ words * 4 =
        omega (arith, length-take (words * 4) bytes) in
      (
        refl,
        omega (arith, full),
        omega (arith, full),
        inr full,
        (drop (words * 4) bytes, sym (take-append-drop (words * 4) bytes), tiles),
      )

  loop_Tiles :
      (fuel remaining address : ℕ) (bytes : List ℕ)
      → remaining ≡ length bytes
      → length bytes + 1 < fuel
      → (chunks : List Chunk) × (chunk_loop fuel remaining address bytes words ≡ some chunks)
        × Tiles words address bytes chunks
  loop_Tiles zero remaining address bytes e h = absurd (omega arith)
  loop_Tiles (suc fuel) remaining address [] e h =
      ([], round_end words fuel remaining address [] e, refl)
  loop_Tiles (suc zero) remaining address (b ∷ bytes) e h = absurd (omega arith)
  loop_Tiles (suc (suc fuel)) remaining address (b ∷ bytes) e h =
      elim (Bool-cases (leb (words * 4) remaining)) [
        | inl large ↦
            let rest = drop (words * 4) (b ∷ bytes) in
            let fits : words * 4 ≤ remaining = leb→le _ _ large in
            let (cs, run, tiles) =
              loop_Tiles (suc fuel) (remaining - words * 4) (address + words) rest
                (omega (arith, length-drop (words * 4) (b ∷ bytes)))
                (omega (arith, length-drop (words * 4) (b ∷ bytes))) in
            (
              (address, take (words * 4) (b ∷ bytes)) ∷ cs,
              round_large words (suc fuel) remaining address (b ∷ bytes) (omega arith) fits
                  ∙ rw run,
              prepend-Tiles address (b ∷ bytes) cs (omega arith) tiles,
            )
        | inr small ↦
            let short : remaining < words * 4 = not_leb→lt _ _ small in
            (
              (address, b ∷ bytes) ∷ [],
              round_small words (suc fuel) remaining address (b ∷ bytes) (omega arith) short
                  ∙ rw (round_end words fuel 0 address (b ∷ bytes) refl),
              (refl, omega arith, omega arith, inl refl, ([], sym (append-nil (b ∷ bytes)), refl)),
            )
      ]

  -- For an interface that can transfer a word or more, `writable_data` ends, and its chunks tile the
  -- data from the given address on.
  pub writable_data-Tiles :
      (address : ℕ) (bytes : List ℕ)
      → (chunks : List Chunk) × (writable_data address bytes words ≡ some chunks)
        × Tiles words address bytes chunks
  unfolding writable_data
  writable_data-Tiles address bytes =
      loop_Tiles (length bytes + 2) (length bytes) address bytes refl (omega arith)

-- The pieces of a tiling, put together, are the data.
pub concat-Tiles :
    (words address : ℕ) (bytes : List ℕ) (cs : List Chunk)
    → Tiles words address bytes cs
    → concat (map (λ (c : Chunk). c.1) cs) ≡ bytes
concat-Tiles words address bytes [] tiles = sym tiles
concat-Tiles words address bytes ((a, piece) ∷ cs) tiles =
    let (rest, split, more) = tiles.4 in
    rw (concat-Tiles words (address + words) rest cs more) (sym split)
