-- ===== src/Dsp/Adau1x0x.antt =====
-- sigmadsp/dsp/adau1x0x.py: hardware safeload.
use Prim.Native.Nat.{bit_or}
use sigmadsp.Prelude.{
  ℕ, zero, suc, ◌*◌, ◌≤◌, ◌<◌, ◌^◌, ◌≡◌, refl, sym, ◌∙◌, Bool, true, none, List, [], ◌∷◌, arith,
  length, drop, drop-drop,
}
use sigmadsp.Prelude.Int.{ℤ, pos, leb_ℤ}
use sigmadsp.Prelude.Result.{assertion_error, index_error}
use sigmadsp.Prelude.Exec.{Exec, pure, raise, lift, require, ◌>>=◌, ◌>>◌}
use sigmadsp.Conversion.{bytes_to_int16, int16_to_bytes, to_bytes}
use sigmadsp.Conversion.Buffer.{int16_to_bytes-new}
use sigmadsp.Conversion.Fixpoint.{FloatOps, float_to_frac_5_23, frac_5_23_to_float}
use sigmadsp.Protocol.{Hardware}
use sigmadsp.Dsp.{Dsp, write, read}
use sigmadsp.Dsp.Words.{
  word_count, slice, words, AreWords, words-AreWords, run_writes, write_both, then_pure, then_assoc,
}

abbrev pub dsp_core_control_register : ℕ
dsp_core_control_register = 0x081C

abbrev pub dsp_core_control_register_length : ℕ
dsp_core_control_register_length = 2

abbrev pub ist_mask : ℕ
ist_mask = 2 ^ 5

-- The pairs of an address register and a data register; the third address register is that of the
-- first pair.
abbrev pub safeload_registers : List (ℕ × ℕ)
safeload_registers =
    (0x0815, 0x810) ∷ (0x0816, 0x811) ∷ (0x0815, 0x812) ∷ (0x0818, 0x813) ∷ (0x0819, 0x814) ∷ []

module _ (hw : Hardware) where
  open hw use {Device}

  -- It only logs that there is none.
  unfoldable pub soft_reset : Exec Device (Unit {0})
  soft_reset = pure tt

  -- `for sd in range(0, word_count)`, from some index on.
  unfoldable pub write_words : ℕ → ℕ → List (ℕ × ℕ) → ℤ → List ℕ → Exec Device (Unit {0})
  unfolding slice
  write_words index zero registers address bytes = pure tt
  write_words index (suc n) [] address bytes = raise index_error
  write_words index (suc n) ((address_register, data_register) ∷ registers) address bytes = do
    address_bytes ← lift (int16_to_bytes address none 0)
    write hw (pos address_register) address_bytes
    write hw (pos data_register) (0 ∷ slice index bytes)
    write_words (suc index) n registers address bytes

  -- The end of `safeload`: set the IST bit of the control register.
  unfoldable pub start_transfer : Exec Device (Unit {0})
  start_transfer = do
    control_bytes ← read hw (pos dsp_core_control_register) (pos dsp_core_control_register_length)
    let control = bit_or (bytes_to_int16 control_bytes 0) ist_mask
    new_bytes ← lift (int16_to_bytes (pos control) none 0)
    write hw (pos dsp_core_control_register) new_bytes

  unfoldable pub safeload : ℤ → List ℕ → Exec Device (Unit {0})
  unfolding write_words start_transfer
  safeload address bytes = do
    require (leb_ℤ (pos 0) address) assertion_error
    write_words 0 (word_count bytes) safeload_registers address bytes
    start_transfer

  abbrev pub adau1x0x : (ops : FloatOps) → Bool → Dsp ops hw
  adau1x0x ops use_safeload = record {
    use_safeload = use_safeload;
    float_to_frac = float_to_frac_5_23 ops;
    frac_to_float = frac_5_23_to_float ops;
    soft_reset = soft_reset;
    safeload = safeload;
  }

-- The writes for some words: the same address for each, and the word after a byte 0.
abbrev pub in_registers : List (ℕ × ℕ) → ℕ → List (List ℕ) → List (ℤ × List ℕ)
in_registers registers address [] = []
in_registers [] address (w ∷ ws) = []
in_registers ((address_register, data_register) ∷ registers) address (w ∷ ws) =
    (pos address_register, to_bytes 2 address)
    ∷ (pos data_register, 0 ∷ w)
    ∷ in_registers registers address ws

-- What follows the writes of `n` words, where there are `m` registers left.
abbrev ending : (hw : Hardware) → ℕ → ℕ → Exec (hw.Device) (Unit {0})
ending hw zero m = pure tt
ending hw (suc n) zero = raise index_error
ending hw (suc n) (suc m) = ending hw n m

ending-pure : (hw : Hardware) (n m : ℕ) → n ≤ m → ending hw n m ≡ pure tt
ending-pure hw zero m h = refl
ending-pure hw (suc n) zero h = absurd (omega arith)
ending-pure hw (suc n) (suc m) h = ending-pure hw n m (omega arith)

ending-raise : (hw : Hardware) (n m : ℕ) → m < n → ending hw n m ≡ raise index_error
ending-raise hw zero m h = absurd (omega arith)
ending-raise hw (suc n) zero h = refl
ending-raise hw (suc n) (suc m) h = ending-raise hw n m (omega arith)

few_words : (bytes : List ℕ) → length bytes ≤ 20 → word_count bytes ≤ 5
unfolding word_count
few_words bytes h = omega arith

many_words : (bytes : List ℕ) → 20 < length bytes → 5 < word_count bytes
unfolding word_count
many_words bytes h = omega arith

module _ (hw : Hardware) where
  open hw use {Device}

  write_words-run_writes :
      (index n : ℕ) (registers : List (ℕ × ℕ)) (address : ℕ) (bytes : List ℕ) (d : Device)
      → address < 256 ^ 2
      → write_words hw index n registers (pos address) bytes d
        ≡ (run_writes hw (in_registers registers address (words n (drop (index * 4) bytes)))
              >> ending hw n (length registers))
            d
  unfolding write_words words slice run_writes
  write_words-run_writes index zero registers address bytes d h = refl
  write_words-run_writes index (suc n) [] address bytes d h = refl
  write_words-run_writes index (suc n) ((a, b) ∷ registers) address bytes d h =
      let step : drop 4 (drop (index * 4) bytes) ≡ drop (suc index * 4) bytes =
        drop-drop 4 (index * 4) (suc index * 4) bytes (omega arith) in
      rw (int16_to_bytes-new address h, step)
        (write_both hw (pos a) (pos b) (to_bytes 2 address) (0 ∷ slice index bytes) _ _
          (ending hw n (length registers))
          (λ d'. write_words-run_writes (suc index) n registers address bytes d' h) d)

  -- For an address of 16 bits, up to 20 bytes are written to the data registers as their words of four
  -- bytes, of which the last one may be shorter, each after the one address, which goes to the address
  -- register beside it; then the transfer is started. So all the words go with the same address.
  pub safeload-start_transfer :
      (address : ℕ) (bytes : List ℕ) (d : Device)
      → address < 256 ^ 2
      → length bytes ≤ 20
      → (ws : List (List ℕ)) × AreWords bytes ws
        × (safeload hw (pos address) bytes d
            ≡ (run_writes hw (in_registers safeload_registers address ws) >> start_transfer hw) d)
  unfolding safeload
  safeload-start_transfer address bytes d h short =
      let n = word_count bytes in
      let nonneg : leb_ℤ (pos 0) (pos address) ≡ true = ground arith in
      let all_at : (d' : Device)
          → write_words hw 0 n safeload_registers (pos address) bytes d'
            ≡ run_writes hw (in_registers safeload_registers address (words n bytes)) d' =
        λ d'.
          write_words-run_writes 0 n safeload_registers address bytes d' h
          ∙ rw (ending-pure hw n 5 (few_words bytes short)) (
              then_pure hw (run_writes hw (in_registers safeload_registers address (words n bytes)))
                d') in
      let all_written : write_words hw 0 n safeload_registers (pos address) bytes
          ≡ run_writes hw (in_registers safeload_registers address (words n bytes)) =
        λ i d'. all_at d' i in
      (words n bytes, words-AreWords bytes, rw (nonneg, all_written) refl)

  -- For an address of 16 bits, more than 20 bytes raise an index error, unless a write raises first, but
  -- only after the first five of their words of four bytes, which are the first 20 bytes, were written
  -- to the data registers, each after the address; the transfer is not started.
  pub safeload-too_long :
      (address : ℕ) (bytes : List ℕ) (d : Device)
      → address < 256 ^ 2
      → 20 < length bytes
      → (ws : List (List ℕ)) × AreWords bytes ws
        × (safeload hw (pos address) bytes d
            ≡ (run_writes hw (in_registers safeload_registers address ws) >> raise index_error) d)
  unfolding safeload
  safeload-too_long address bytes d h long =
      let n = word_count bytes in
      let nonneg : leb_ℤ (pos 0) (pos address) ≡ true = ground arith in
      let ws = words n bytes in
      let writes = run_writes hw (in_registers safeload_registers address ws) in
      let some_at : (d' : Device)
          → write_words hw 0 n safeload_registers (pos address) bytes d'
            ≡ (writes >> raise index_error) d' =
        λ d'.
          write_words-run_writes 0 n safeload_registers address bytes d' h
          ∙ rw (ending-raise hw n 5 (many_words bytes long)) refl in
      let some_written : write_words hw 0 n safeload_registers (pos address) bytes
          ≡ (writes >> raise index_error) =
        λ i d'. some_at d' i in
      (
        ws,
        words-AreWords bytes,
        rw (nonneg, some_written)
            (sym (then_assoc hw writes (raise index_error) (start_transfer hw) d)),
      )
