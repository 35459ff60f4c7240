-- ===== src/Protocol/SpiFrames.antt =====
-- `SpiProtocol._write` and `_read` of sigmadsp/protocols/spi.py: the frames on the wire.
use sigmadsp.Prelude.{
  ℕ, ◌+◌, ◌*◌, ◌≤◌, ◌<◌, ◌≡◌, refl, List, [], ◌∷◌, ◌++◌, map, arith, length, All,
}
use sigmadsp.Prelude.Result.{ok, err, overflow_error}
use sigmadsp.Protocol.{Chunk}
use sigmadsp.Protocol.Chunks.{Tiles, writable_data-Tiles}
use sigmadsp.Protocol.Addressing.{
  address_bytes, int16_to_bytes-address, int16_to_bytes-too_large, Tiles-addresses,
}
use sigmadsp.Protocol.Framing.{Framing, send_all}
use sigmadsp.Protocol.Spi.{
  spi_hardware, SpiDev, build_spi_frame, write_command, max_payload_words, max_spi_bytes, write_spi,
  write_chunks, write,
}

-- The frame of a chunk: the write command, the address in two bytes, and the bytes.
abbrev pub frame_of : Chunk → List ℕ
frame_of (address, bytes) = write_command ∷ (address_bytes address ++ bytes)

pub build_spi_frame-address :
    (address : ℕ) (bytes : List ℕ)
    → address < 65536
    → build_spi_frame address bytes ≡ ok (frame_of (address, bytes))
unfolding build_spi_frame
build_spi_frame-address address bytes h = rw (int16_to_bytes-address address h)

-- An address of more than 16 bits raises an overflow error.
pub build_spi_frame-too_large :
    (address : ℕ) (bytes : List ℕ)
    → 65536 ≤ address
    → build_spi_frame address bytes ≡ err overflow_error
unfolding build_spi_frame
build_spi_frame-too_large address bytes h = rw (int16_to_bytes-too_large address h)

-- The frames of a tiling are within the length of a transfer.
frames_short :
    (address : ℕ) (bytes : List ℕ) (cs : List Chunk)
    → Tiles max_payload_words address bytes cs
    → All (λ (f : List ℕ). length f ≤ max_spi_bytes) (map frame_of cs)
frames_short address bytes [] tiles = tt
frames_short address bytes ((a, piece) ∷ cs) (_, _, short, _, (rest, _, more)) =
    (omega arith, frames_short (address + max_payload_words) rest cs more)

module _ (spi : SpiDev) where
  write_chunks-frames :
      (cs : List Chunk)
      → All (λ (c : Chunk). c.0 < 65536) cs
      → write_chunks spi cs ≡ send_all (write_spi spi) (map frame_of cs)
  unfolding write_chunks send_all
  write_chunks-frames [] h = refl
  write_chunks-frames ((a, piece) ∷ cs) h =
      rw (build_spi_frame-address a piece h.0, write_chunks-frames cs h.1)

  -- Data that end within the address space are written as frames of at most 1024 bytes: the write
  -- command, the address of a chunk, and the chunk, for chunks of at most 255 words that tile the
  -- data.
  pub write-frames :
      (address : ℕ) (bytes : List ℕ) (d : spi.Device)
      → address * 4 + length bytes ≤ 65536 * 4
      → (cs : List Chunk) × Tiles max_payload_words address bytes cs
        × (write spi address bytes d ≡ send_all (write_spi spi) (map frame_of cs) d)
        × All (λ (f : List ℕ). length f ≤ max_spi_bytes) (map frame_of cs)
  unfolding write
  write-frames address bytes d fits =
      let (cs, run, tiles) = writable_data-Tiles max_payload_words (omega arith) address bytes in
      (
        cs,
        tiles,
        rw run (
            rw (
              write_chunks-frames cs
                (Tiles-addresses max_payload_words address bytes cs tiles fits))),
        frames_short address bytes cs tiles,
      )

  abbrev pub spi_framing : Framing (spi_hardware spi)
  spi_framing = record {
    frame_of = frame_of;
    send = write_spi spi;
    words = max_payload_words;
    limit = max_spi_bytes;
    writes = write-frames;
  }
