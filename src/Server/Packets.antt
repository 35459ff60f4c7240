-- ===== src/Server/Packets.antt =====
-- `class Packet` of sigmadsp/sigmastudio/server.py. The attribute `_payload` may be missing.
use sigmadsp.Prelude.{ℕ, Option, none, some, List, [], ◌++◌, length, if◌then◌else◌}
use sigmadsp.Prelude.Int.{pos, eqb_ℤ}
use sigmadsp.Prelude.Result.{Result, ok, assertion_error, guard, ◌>>=◌, ◌>>◌}
use sigmadsp.Header
use sigmadsp.Header.{PacketHeader, data_length, int, get_item, set_item}

pub record Packet : Type 0 where
  pub header : PacketHeader
  pub stored : Option (List ℕ)

-- The property `payload`.
unfoldable pub payload : Packet → List ℕ
payload p = elim p.stored [ none ↦ [] | some bytes ↦ bytes ]

-- The setter of `payload`.
unfoldable pub set_payload : List ℕ → Packet → Result Packet
unfolding get_item set_item
set_payload new_payload p = do
  f ← get_item data_length p.header
  if eqb_ℤ f.value (pos 0)
      then (do
        header ← set_item data_length (int (pos (length new_payload))) p.header
        ok (record { header = header; stored = some new_payload }))
      else (do
        guard (eqb_ℤ (pos (length new_payload)) f.value) assertion_error
        ok (record p { stored = some new_payload }))

-- `Packet(header, payload)`
unfoldable pub new_packet : PacketHeader → Option (List ℕ) → Result Packet
unfolding set_payload
new_packet header none = ok (record { header = header; stored = none })
new_packet header (some bytes) = set_payload bytes (record { header = header; stored = none })

unfoldable pub as_bytes : Packet → Result (List ℕ)
unfolding payload
as_bytes p = do header_bytes ← Header.as_bytes p.header; ok (header_bytes ++ payload p)
