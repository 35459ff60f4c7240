-- ===== src/Dsp/Adau14xx.antt =====
-- sigmadsp/dsp/adau14xx.py: software safeload.
use sigmadsp.Prelude.{
  Bool, true, false, ◌⊎◌, ◌^◌, ℕ, zero, suc, ◌*◌, ◌≤◌, ◌<◌, ◌≡◌, refl, sym, ◌∙◌, none, List, [],
  ◌∷◌, ◌++◌, arith, length, drop, ltb, if◌then◌else◌, drop-drop,
}
use sigmadsp.Prelude.Int.{ℤ, pos, leb_ℤ}
use sigmadsp.Prelude.Result.{err, assertion_error, index_error}
use sigmadsp.Prelude.Exec.{Exec, pure, raise, lift, require, ◌>>=◌, ◌>>◌}
use sigmadsp.Conversion.{int16_to_bytes, int32_to_bytes, to_bytes}
use sigmadsp.Conversion.Buffer.{int32_to_bytes-new}
use sigmadsp.Conversion.Fixpoint.{FloatOps, float_to_frac_8_24, frac_8_24_to_float}
use sigmadsp.Protocol.{Hardware}
use sigmadsp.Dsp.{Dsp, write}
use sigmadsp.Dsp.Words.{
  word_count, slice, words, AreWords, words-AreWords, run_writes, run_writes-append, run_writes-one,
  length-words,
}

abbrev pub reset_register : ℕ
reset_register = 0xF890

abbrev pub safeload_data_registers : List ℕ
safeload_data_registers = 0x6000 ∷ 0x6001 ∷ 0x6002 ∷ 0x6003 ∷ 0x6004 ∷ []

abbrev pub safeload_address_register : ℕ
safeload_address_register = 0x6005

abbrev pub safeload_count_register : ℕ
safeload_count_register = 0x6006

module _ (hw : Hardware) where
  open hw use {Device}

  unfoldable pub soft_reset : Exec Device (Unit {0})
  soft_reset = do
    zero_bytes ← lift (int16_to_bytes (pos 0) none 0)
    write hw (pos reset_register) zero_bytes
    one_bytes ← lift (int16_to_bytes (pos 1) none 0)
    write hw (pos reset_register) one_bytes

  -- `for register_index, register_address in zip(range(word_count), SAFELOAD_DATA_REGISTERS)`, from
  -- some index on.
  unfoldable pub write_words : ℕ → ℕ → List ℕ → List ℕ → Exec Device (Unit {0})
  unfolding slice
  write_words index zero registers bytes = pure tt
  write_words index (suc n) [] bytes = pure tt
  write_words index (suc n) (register ∷ registers) bytes = do
    write hw (pos register) (slice index bytes)
    write_words (suc index) n registers bytes

  unfoldable pub safeload : ℤ → List ℕ → Exec Device (Unit {0})
  unfolding write_words
  safeload address bytes = do
    require (leb_ℤ (pos 0) address) assertion_error
    if ltb (length safeload_data_registers) (word_count bytes) then raise index_error else do
      write_words 0 (word_count bytes) safeload_data_registers bytes
      address_bytes ← lift (int32_to_bytes address none 0)
      write hw (pos safeload_address_register) address_bytes
      count_bytes ← lift (int32_to_bytes (pos (word_count bytes)) none 0)
      write hw (pos safeload_count_register) count_bytes

  abbrev pub adau14xx : (ops : FloatOps) → Bool → Dsp ops hw
  adau14xx ops use_safeload = record {
    use_safeload = use_safeload;
    float_to_frac = float_to_frac_8_24 ops;
    frac_to_float = frac_8_24_to_float ops;
    soft_reset = soft_reset;
    safeload = safeload;
  }

-- Values for some registers, as long as there are any.
abbrev pub in_registers : List ℕ → List (List ℕ) → List (ℤ × List ℕ)
in_registers registers [] = []
in_registers [] (w ∷ ws) = []
in_registers (register ∷ registers) (w ∷ ws) = (pos register, w) ∷ in_registers registers ws

module _ (hw : Hardware) where
  open hw use {Device}

  -- The words of the data in the data registers, the target address in the address register, and
  -- the number of words in the count register, which starts the transfer.
  abbrev pub safeload_writes : ℕ → List (List ℕ) → List (ℤ × List ℕ)
  safeload_writes address ws =
      in_registers safeload_data_registers ws
      ++ (pos safeload_address_register, to_bytes 4 address)
        ∷ (pos safeload_count_register, to_bytes 4 (length ws))
        ∷ []

  -- The loop writes the words to the registers, one after the other.
  write_words-run_writes :
      (index n : ℕ) (registers bytes : List ℕ)
      → write_words hw index n registers bytes
        ≡ run_writes hw (in_registers registers (words n (drop (index * 4) bytes)))
  unfolding write_words run_writes words slice
  write_words-run_writes index zero registers bytes = refl
  write_words-run_writes index (suc n) [] bytes = refl
  write_words-run_writes index (suc n) (register ∷ registers) bytes =
      let step : drop 4 (drop (index * 4) bytes) ≡ drop (suc index * 4) bytes =
        drop-drop 4 (index * 4) (suc index * 4) bytes (omega arith) in
      rw (write_words-run_writes (suc index) n registers bytes, step)

  not_refused :
      (bytes : List ℕ)
      → length bytes ≤ 20
      → ltb (length safeload_data_registers) (word_count bytes) ≡ false
  unfolding word_count
  not_refused bytes short = ground arith

  word_count_small : (bytes : List ℕ) → length bytes ≤ 20 → word_count bytes < 256 ^ 4
  unfolding word_count
  word_count_small bytes short = omega arith

  safeload_steps :
      (address : ℕ) (bytes : List ℕ) (d : Device)
      → address < 2 ^ 32
      → length bytes ≤ 20
      → safeload hw (pos address) bytes d
        ≡ (write_words hw 0 (word_count bytes) safeload_data_registers bytes
              >> run_writes hw (
                  (pos safeload_address_register, to_bytes 4 address)
                  ∷ (pos safeload_count_register, to_bytes 4 (word_count bytes))
                  ∷ []))
            d
  unfolding safeload run_writes
  safeload_steps address bytes d h short =
      let nonneg : leb_ℤ (pos 0) (pos address) ≡ true = ground arith in
      let last : run_writes hw ((pos safeload_count_register, to_bytes 4 (word_count bytes)) ∷ [])
          ≡ write hw (pos safeload_count_register) (to_bytes 4 (word_count bytes)) =
        λ i d.
          run_writes-one hw (pos safeload_count_register) (to_bytes 4 (word_count bytes)) d i in
      rw
        (
          nonneg,
          not_refused bytes short,
          int32_to_bytes-new address h,
          int32_to_bytes-new (word_count bytes) (word_count_small bytes short),
        )
        (rw last refl)

  -- Up to 20 bytes for an address of up to 32 bits are written as their words of four bytes, of which
  -- the last one may be shorter, to the data registers, in order, then the address, then the number of words, and nothing else.
  pub safeload-run_writes :
      (address : ℕ) (bytes : List ℕ) (d : Device)
      → address < 2 ^ 32
      → length bytes ≤ 20
      → (ws : List (List ℕ)) × AreWords bytes ws
        × (safeload hw (pos address) bytes d ≡ run_writes hw (safeload_writes address ws) d)
  unfolding safeload
  safeload-run_writes address bytes d h short =
      let ws = words (word_count bytes) bytes in
      let valid = words-AreWords bytes in
      (
        ws,
        valid,
        safeload_steps address bytes d h short
            ∙ rw
                (
                  write_words-run_writes 0 (word_count bytes) safeload_data_registers bytes,
                  length-words (word_count bytes) bytes,
                )
                (sym (run_writes-append hw (in_registers safeload_data_registers ws) _ d)),
      )

  -- A negative address, and more than 20 bytes, are refused before anything is written.
  pub safeload_refused :
      (address : ℤ) (bytes : List ℕ) (d : Device)
      → (leb_ℤ (pos 0) address ≡ false) ⊎ (20 < length bytes)
      → safeload hw address bytes d
        ≡ (err (if leb_ℤ (pos 0) address then index_error else assertion_error), d)
  unfolding safeload word_count
  safeload_refused address bytes d h = ground arith
