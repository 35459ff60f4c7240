-- ===== src/Protocol/I2c.antt =====
-- sigmadsp/protocols/i2c.py: the hardware interface over `smbus2`, which is a parameter.
use sigmadsp.Prelude.{ℕ, ◌-◌, ◌/◌, Option, none, some, List, [], ◌∷◌, ◌++◌, length, replicate}
use sigmadsp.Prelude.Int.{pos}
use sigmadsp.Prelude.Result.{Result, ok, err, os_error, blocked}
use sigmadsp.Prelude.Exec.{Exec, lift, raise, pure, ◌>>=◌, ◌>>◌}
use sigmadsp.Conversion.{int16_to_bytes}
use sigmadsp.Protocol.{Chunk, Hardware, writable_data}

abbrev pub header_length : ℕ
header_length = 2

abbrev pub max_i2c_bytes : ℕ
max_i2c_bytes = 1024

-- `int((MAX_I2C_BYTES - HEADER_LENGTH) / 4)` rounds down.
abbrev pub max_payload_words : ℕ
max_payload_words = (max_i2c_bytes - header_length) / 4

-- What the code uses of an open `SMBus`: `i2c_rdwr` with a message to write to the device, and
-- `i2c_rdwr` with a message to write and a number of bytes to read. Both may raise an OSError.
pub record SmBus : Type 1 where
  pub Device : Type 0
  pub rdwr_write : List ℕ → Exec Device (Unit {0})
  pub rdwr_read : List ℕ → ℕ → Exec Device (List ℕ)

-- `except OSError` in `_read_write_i2c`: a message to read keeps its zeroed buffer.
abbrev pub on_os_error {ℓ} : {A : Type ℓ} → A → Result A → Result A
on_os_error a (err os_error) = ok a
on_os_error a r = r

module _ (bus : SmBus) where
  open bus use {Device, rdwr_write, rdwr_read}

  unfoldable pub write_i2c : List ℕ → Exec Device (Unit {0})
  write_i2c message d = let (r, d') = rdwr_write message d in (on_os_error tt r, d')

  unfoldable pub read_write_i2c : List ℕ → ℕ → Exec Device (List ℕ)
  read_write_i2c message length d =
      let (r, d') = rdwr_read message length d in (on_os_error (replicate length 0) r, d')

  unfoldable pub read : ℕ → ℕ → Exec Device (List ℕ)
  unfolding read_write_i2c
  read address length = do
    address_message ← lift (int16_to_bytes (pos address) none 0)
    read_write_i2c address_message length

  -- The loop over the chunks in `_write`.
  unfoldable pub write_chunks : List Chunk → Exec Device (Unit {0})
  write_chunks [] = pure tt
  write_chunks ((address, piece) ∷ cs) = do
    payload ← lift (int16_to_bytes (pos address) none 0)
    write_i2c (payload ++ piece)
    write_chunks cs

  -- The generator ends, so the branch of `none` is not taken.
  abbrev write_all : Option (List Chunk) → Exec Device (Unit {0})
  write_all none = raise blocked
  write_all (some cs) = write_chunks cs

  unfoldable pub write : ℕ → List ℕ → Exec Device (Unit {0})
  write address bytes = write_all (writable_data address bytes max_payload_words)

  abbrev pub i2c_hardware : Hardware
  i2c_hardware = record { Device = Device; write_hw = write; read_hw = read }
