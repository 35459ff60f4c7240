-- ===== src/Dsp/Words.antt =====
-- The words of a safeload in sigmadsp/dsp: slices of four bytes, the last one may be shorter.
use sigmadsp.Prelude.{
  ℕ, zero, suc, ◌+◌, ◌*◌, ◌/◌, ◌≤◌, ◌<◌, ◌≡◌, refl, sym, ◌∙◌, List, [], ◌∷◌, ◌++◌, arith, length,
  take, drop, concat, length-take, length-drop, take-append-drop, length_zero,
}
use sigmadsp.Prelude.Int.{ℤ}
use sigmadsp.Prelude.Exec.{Exec, pure, continue, ◌>>◌}
use sigmadsp.Prelude.Result.{Result, ok, err}
use sigmadsp.Protocol.{Hardware}
use sigmadsp.Dsp.{write}

-- `math.ceil(len(data) / FIXPOINT_REGISTER_LENGTH)`
unfoldable pub word_count : List ℕ → ℕ
word_count bytes = (length bytes + 3) / 4

-- `data[index * 4 : (index + 1) * 4]`
unfoldable pub slice : ℕ → List ℕ → List ℕ
slice index bytes = take 4 (drop (index * 4) bytes)

-- The first `n` slices.
unfoldable pub words : ℕ → List ℕ → List (List ℕ)
words zero bytes = []
words (suc n) bytes = take 4 bytes ∷ words n (drop 4 bytes)

pub length-words : (n : ℕ) (bytes : List ℕ) → length (words n bytes) ≡ n
unfolding words
length-words zero bytes = refl
length-words (suc n) bytes = omega (arith, length-words n (drop 4 bytes))

-- Enough slices make up the data.
pub concat-words : (n : ℕ) (bytes : List ℕ) → length bytes ≤ n * 4 → concat (words n bytes) ≡ bytes
unfolding words
concat-words zero bytes h = sym (length_zero bytes (omega arith))
concat-words (suc n) bytes h =
    rw (concat-words n (drop 4 bytes) (omega (arith, length-drop 4 bytes)))
      (take-append-drop 4 bytes)

-- Each word has four bytes; the last one may have fewer, but has one.
abbrev pub AreSlices : List (List ℕ) → Type 0
AreSlices [] = Unit
AreSlices (w ∷ []) = (0 < length w) × (length w ≤ 4)
AreSlices (w ∷ v ∷ ws) = (length w ≡ 4) × AreSlices (v ∷ ws)

-- The slices that are counted.
words-AreSlices : (n : ℕ) (bytes : List ℕ) → n * 4 < length bytes + 4 → AreSlices (words n bytes)
unfolding words
words-AreSlices zero bytes h = tt
words-AreSlices (suc zero) bytes h =
    (omega (arith, length-take 4 bytes), omega (arith, length-take 4 bytes))
words-AreSlices (suc (suc n)) bytes h = (
  omega (arith, length-take 4 bytes),
  words-AreSlices (suc n) (drop 4 bytes) (omega (arith, length-drop 4 bytes)),
)

-- The words of `bytes`: they make it up, each has four bytes, but for the last one, which may have
-- fewer, and there are `word_count` of them.
pub record AreWords (bytes : List ℕ) (ws : List (List ℕ)) : Type 0 where
  pub whole : concat ws ≡ bytes
  pub sizes : AreSlices ws
  pub count : length ws ≡ word_count bytes

pub words-AreWords : (bytes : List ℕ) → AreWords bytes (words (word_count bytes) bytes)
unfolding word_count
words-AreWords bytes =
    let n = (length bytes + 3) / 4 in
    record {
      whole = concat-words n bytes (omega arith);
      sizes = words-AreSlices n bytes (omega arith);
      count = length-words n bytes;
    }

module _ (hw : Hardware) where
  -- Some writes, one after the other.
  unfoldable pub run_writes : List (ℤ × List ℕ) → Exec (hw.Device) (Unit {0})
  run_writes [] = pure tt
  run_writes ((address, bytes) ∷ ws) = do write hw address bytes; run_writes ws

  pub run_writes-step :
      (r : Result (Unit {0})) (k k' : Exec (hw.Device) (Unit {0})) (d : hw.Device)
      → k d ≡ k' d
      → continue r (λ (u : Unit {0}). k) d ≡ continue r (λ (u : Unit {0}). k') d
  run_writes-step (ok tt) k k' d e = e
  run_writes-step (err x) k k' d e = refl

  continue-then :
      (r : Result (Unit {0})) (m n : Exec (hw.Device) (Unit {0})) (d : hw.Device)
      → continue r (λ (u : Unit {0}). m >> n) d ≡ (
          let (r', d') = continue r (λ (u : Unit {0}). m) d in continue r' (λ (u : Unit {0}). n) d')
  continue-then (ok tt) m n d = refl
  continue-then (err x) m n d = refl

  pub then_assoc :
      (l m n : Exec (hw.Device) (Unit {0})) (d : hw.Device) → (l >> (m >> n)) d ≡ ((l >> m) >> n) d
  then_assoc l m n d = continue-then (l d).0 m n (l d).1

  continue-pure :
      (r : Result (Unit {0})) (d : hw.Device) → continue r (λ (u : Unit {0}). pure tt) d ≡ (r, d)
  continue-pure (ok tt) d = refl
  continue-pure (err x) d = refl

  pub then_pure : (m : Exec (hw.Device) (Unit {0})) (d : hw.Device) → (m >> pure tt) d ≡ m d
  then_pure m d = continue-pure (m d).0 (m d).1

  -- The writes of two lists, one after the other.
  pub run_writes-append :
      (xs ys : List (ℤ × List ℕ)) (d : hw.Device)
      → run_writes (xs ++ ys) d ≡ (run_writes xs >> run_writes ys) d
  unfolding run_writes
  run_writes-append [] ys d = refl
  run_writes-append ((address, bytes) ∷ xs) ys d =
      let (r, d') = write hw address bytes d in
      run_writes-step r (run_writes (xs ++ ys)) (run_writes xs >> run_writes ys) d'
        (run_writes-append xs ys d')
      ∙ continue-then r (run_writes xs) (run_writes ys) d'

  pub run_writes-one :
      (address : ℤ) (bytes : List ℕ) (d : hw.Device)
      → run_writes ((address, bytes) ∷ []) d ≡ write hw address bytes d
  unfolding run_writes
  run_writes-one address bytes d = let (r, d') = write hw address bytes d in continue-pure r d'

  -- Two writes before the rest.
  pub write_both :
      (a b : ℤ) (xs ys : List ℕ) (ws : List (ℤ × List ℕ)) (m n : Exec (hw.Device) (Unit {0}))
      → ((d : hw.Device) → m d ≡ (run_writes ws >> n) d)
      → (d : hw.Device)
      → (write hw a xs >> (write hw b ys >> m)) d ≡ (run_writes ((a, xs) ∷ (b, ys) ∷ ws) >> n) d
  unfolding run_writes
  write_both a b xs ys ws m n h d =
      let same : m ≡ (run_writes ws >> n) = λ i d. h d i in
      let regroup : (write hw b ys >> (run_writes ws >> n))
          ≡ ((write hw b ys >> run_writes ws) >> n) =
        λ i d. then_assoc (write hw b ys) (run_writes ws) n d i in
      rw (same, regroup) (then_assoc (write hw a xs) (write hw b ys >> run_writes ws) n d)
