-- ===== src/Protocol/Spi.antt =====
-- sigmadsp/protocols/spi.py: SPI frames, and the hardware interface over `spidev`, which is a
-- parameter.
use sigmadsp.Prelude.{
  ℕ, ◌+◌, ◌-◌, ◌/◌, Option, none, some, List, [], ◌∷◌, ◌++◌, length, replicate, drop,
}
use sigmadsp.Prelude.Int.{pos}
use sigmadsp.Prelude.Result.{Result, ok, err, os_error, blocked, ◌>>=◌ as bind_result}
use sigmadsp.Prelude.Exec.{Exec, lift, raise, pure, ◌>>=◌, ◌>>◌}
use sigmadsp.Conversion.{int16_to_bytes, int_bytes, splice}
use sigmadsp.Protocol.{Chunk, Hardware, writable_data}

abbrev pub header_length : ℕ
header_length = 3

abbrev pub max_spi_bytes : ℕ
max_spi_bytes = 1024

abbrev pub max_payload_words : ℕ
max_payload_words = (max_spi_bytes - header_length) / 4

abbrev pub write_command : ℕ
write_command = 0

abbrev pub read_command : ℕ
read_command = 1

unfoldable pub build_spi_frame : ℕ → List ℕ → Result (List ℕ)
unfolding int16_to_bytes splice
build_spi_frame address bytes =
    let frame = splice (replicate header_length 0) 0 1 (write_command ∷ []) in
    bind_result (int16_to_bytes (pos address) none 0)
      λ address_bytes. ok (splice frame 1 2 address_bytes ++ bytes)

-- What the code uses of `spidev.SpiDev`: both calls may raise an OSError.
pub record SpiDev : Type 1 where
  pub Device : Type 0
  pub writebytes : List ℕ → Exec Device (Unit {0})
  pub xfer : List ℕ → Exec Device (List ℕ)

-- `except OSError` in `_write_spi`
abbrev pub ignore_os_error : Result (Unit {0}) → Result (Unit {0})
ignore_os_error (err os_error) = ok tt
ignore_os_error r = r

module _ (spi : SpiDev) where
  open spi use {Device, writebytes, xfer}

  unfoldable pub write_spi : List ℕ → Exec Device (Unit {0})
  write_spi frame d = let (r, d') = writebytes frame d in (ignore_os_error r, d')

  -- The loop over the chunks in `_write`.
  unfoldable pub write_chunks : List Chunk → Exec Device (Unit {0})
  unfolding build_spi_frame
  write_chunks [] = pure tt
  write_chunks ((address, piece) ∷ cs) = do
    frame ← lift (build_spi_frame address piece)
    write_spi frame
    write_chunks cs

  -- The generator ends (see `Chunks`), so the branch of `none` is not taken.
  abbrev write_all : Option (List Chunk) → Exec Device (Unit {0})
  write_all none = raise blocked
  write_all (some cs) = write_chunks cs

  unfoldable pub write : ℕ → List ℕ → Exec Device (Unit {0})
  write address bytes = write_all (writable_data address bytes max_payload_words)

  unfoldable pub read : ℕ → ℕ → Exec Device (List ℕ)
  unfolding int_bytes splice
  read address length = do
    let request = splice (replicate (length + header_length) 0) 0 1 (read_command ∷ [])
    address_bytes ← lift (int_bytes (pos address) 2)
    response ← xfer (splice request 1 2 address_bytes)
    pure (drop header_length response)

  abbrev pub spi_hardware : Hardware
  spi_hardware = record { Device = Device; write_hw = write; read_hw = read }
