-- ===== src/Protocol.antt =====
-- sigmadsp/protocols/common.py: `class DspProtocol`. The abstract methods `_read` and `_write` are
-- the fields of a record; sigmadsp/protocols/spi.py and sigmadsp/protocols/i2c.py fill it in `Spi`
-- and `I2c`. The proofs are in the modules below.
pub mod Chunks
pub mod Addressing
pub mod Spi
pub mod Framing
pub mod SpiFrames
pub mod I2cMessages
pub mod I2c
pub mod Queues
use sigmadsp.Prelude.{
  ℕ, zero, suc, ◌+◌, ◌-◌, ◌*◌, true, false, Option, none, some, List, [], ◌∷◌, ltb, leb, length,
  take, drop,
}
use sigmadsp.Prelude.Exec.{Exec}

-- A register address and the bytes to write there.
abbrev pub Chunk : Type 0
Chunk = ℕ × List ℕ

abbrev pub prepend : Chunk → Option (List Chunk) → Option (List Chunk)
prepend c none = none
prepend c (some cs) = some (c ∷ cs)

-- The loop of `writable_data` over its variables `remaining_data_size`, `current_address` and
-- `current_data`; `none` if it is not over when the fuel is used up.
unfoldable pub chunk_loop : ℕ → ℕ → ℕ → List ℕ → ℕ → Option (List Chunk)
chunk_loop zero remaining address bytes words = none
chunk_loop (suc fuel) remaining address bytes words = elim (ltb 0 remaining) [
  | false ↦ some []
  | true ↦ elim (leb (words * 4) remaining) [
    | true ↦
        prepend (address, take (words * 4) bytes)
          (chunk_loop fuel (remaining - words * 4) (address + words) (drop (words * 4) bytes) words)
    | false ↦ prepend (address, bytes) (chunk_loop fuel 0 address bytes words)
  ]
]

-- The chunks that `writable_data` yields. Each round but the last takes a byte at least, if the
-- interface can transfer anything.
unfoldable pub writable_data : ℕ → List ℕ → ℕ → Option (List Chunk)
unfolding chunk_loop
writable_data address bytes max_payload_size_word =
    chunk_loop (length bytes + 2) (length bytes) address bytes max_payload_size_word

-- The hardware interface as the serving thread uses it.
pub record Hardware : Type 1 where
  pub Device : Type 0
  pub write_hw : ℕ → List ℕ → Exec Device (Unit {0})
  pub read_hw : ℕ → ℕ → Exec Device (List ℕ)
