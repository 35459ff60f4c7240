-- ===== src/Protocol/Addressing.antt =====
-- Register addresses in the transfers of sigmadsp/protocols: two bytes, and which chunks have an
-- address that fits into them.
use sigmadsp.Prelude.{
  ℕ, ◌+◌, ◌*◌, ◌/◌, ◌%◌, ◌≤◌, ◌<◌, ◌≡◌, ap, ◌∙◌, inl, inr, none, List, [], ◌∷◌, arith, length, All,
  lt→ltb, length-append,
}
use sigmadsp.Prelude.Int.{pos}
use sigmadsp.Prelude.Result.{ok, err, overflow_error}
use sigmadsp.Conversion.{int16_to_bytes, to_bytes}
use sigmadsp.Protocol.{Chunk}
use sigmadsp.Protocol.Chunks.{Tiles}

-- The two bytes of an address.
abbrev pub address_bytes : ℕ → List ℕ
address_bytes address = address / 256 ∷ address % 256 ∷ []

pub int16_to_bytes-address :
    (address : ℕ)
    → address < 65536
    → int16_to_bytes (pos address) none 0 ≡ ok (address_bytes address)
unfolding int16_to_bytes to_bytes
int16_to_bytes-address address h =
    let high : address / 256 % 256 ≡ address / 256 = omega arith in
    rw (lt→ltb address 65536 h) (rw high)

pub int16_to_bytes-too_large :
    (address : ℕ) → 65536 ≤ address → int16_to_bytes (pos address) none 0 ≡ err overflow_error
unfolding int16_to_bytes
int16_to_bytes-too_large address h = ground arith

-- Where the data end within the address space, every chunk has an address of 16 bits.
pub Tiles-addresses :
    (words address : ℕ) (bytes : List ℕ) (cs : List Chunk)
    → Tiles words address bytes cs
    → address * 4 + length bytes ≤ 65536 * 4
    → All (λ (c : Chunk). c.0 < 65536) cs
Tiles-addresses words address bytes [] tiles fits = tt
Tiles-addresses words address bytes ((a, piece) ∷ cs) (at, some_bytes, _, full, (rest, split, more))
      fits =
    let sizes : length bytes ≡ length piece + length rest =
      ap (length {A = ℕ}) split ∙ length-append piece rest in
    let here : a < 65536 = omega arith in
    let below : All (λ (c : Chunk). c.0 < 65536) cs = elim full [
      | inl last ↦ rw last tt
      | inr whole ↦ Tiles-addresses words (address + words) rest cs more (omega arith)
    ] in
    (here, below)
