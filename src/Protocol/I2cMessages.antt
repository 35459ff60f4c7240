-- ===== src/Protocol/I2cMessages.antt =====
-- `I2cProtocol._write` of sigmadsp/protocols/i2c.py: the messages on the bus.
use sigmadsp.Prelude.{
  ℕ, ◌+◌, ◌*◌, ◌≤◌, ◌<◌, ◌≡◌, refl, List, [], ◌∷◌, ◌++◌, map, arith, length, All,
}
use sigmadsp.Protocol.{Chunk}
use sigmadsp.Protocol.Chunks.{Tiles, writable_data-Tiles}
use sigmadsp.Protocol.Addressing.{address_bytes, int16_to_bytes-address, Tiles-addresses}
use sigmadsp.Protocol.Framing.{Framing, send_all}
use sigmadsp.Protocol.I2c.{
  SmBus, write_i2c, write_chunks, write, max_payload_words, max_i2c_bytes, i2c_hardware,
}

-- The message of a chunk: the address in two bytes, and the bytes.
abbrev pub message_of : Chunk → List ℕ
message_of (address, bytes) = address_bytes address ++ bytes

messages_short :
    (address : ℕ) (bytes : List ℕ) (cs : List Chunk)
    → Tiles max_payload_words address bytes cs
    → All (λ (m : List ℕ). length m ≤ max_i2c_bytes) (map message_of cs)
messages_short address bytes [] tiles = tt
messages_short address bytes ((a, piece) ∷ cs) (_, _, short, _, (rest, _, more)) =
    (omega arith, messages_short (address + max_payload_words) rest cs more)

module _ (bus : SmBus) where
  write_chunks-messages :
      (cs : List Chunk)
      → All (λ (c : Chunk). c.0 < 65536) cs
      → write_chunks bus cs ≡ send_all (write_i2c bus) (map message_of cs)
  unfolding write_chunks send_all
  write_chunks-messages [] h = refl
  write_chunks-messages ((a, piece) ∷ cs) h =
      rw (int16_to_bytes-address a h.0, write_chunks-messages cs h.1)

  -- Data that end within the address space are written as messages of at most 1024 bytes: the
  -- address of a chunk and the chunk, for chunks of at most 255 words that tile the data.
  pub write-messages :
      (address : ℕ) (bytes : List ℕ) (d : bus.Device)
      → address * 4 + length bytes ≤ 65536 * 4
      → (cs : List Chunk) × Tiles max_payload_words address bytes cs
        × (write bus address bytes d ≡ send_all (write_i2c bus) (map message_of cs) d)
        × All (λ (m : List ℕ). length m ≤ max_i2c_bytes) (map message_of cs)
  unfolding write
  write-messages address bytes d fits =
      let (cs, run, tiles) = writable_data-Tiles max_payload_words (omega arith) address bytes in
      (
        cs,
        tiles,
        rw run (
            rw (
              write_chunks-messages cs
                (Tiles-addresses max_payload_words address bytes cs tiles fits))),
        messages_short address bytes cs tiles,
      )

  abbrev pub i2c_framing : Framing (i2c_hardware bus)
  i2c_framing = record {
    frame_of = message_of;
    send = write_i2c bus;
    words = max_payload_words;
    limit = max_i2c_bytes;
    writes = write-messages;
  }
