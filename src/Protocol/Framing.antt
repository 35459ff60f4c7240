-- ===== src/Protocol/Framing.antt =====
-- What sigmadsp/protocols/spi.py and i2c.py have in common on the wire: the frames of some data.
use sigmadsp.Prelude.{ℕ, ◌+◌, ◌*◌, ◌≤◌, ◌≡◌, List, [], ◌∷◌, map, length, All}
use sigmadsp.Prelude.Exec.{Exec, pure, ◌>>◌}
use sigmadsp.Protocol.{Chunk, Hardware}
use sigmadsp.Protocol.Chunks.{Tiles}

-- The frames one after the other.
unfoldable pub send_all :
    {D : Type 0} → (List ℕ → Exec D (Unit {0})) → List (List ℕ) → Exec D (Unit {0})
send_all send [] = pure tt
send_all send (f ∷ fs) = do send f; send_all send fs

-- A write of data that end within the address space sends the frames of some chunks of at most `words`
-- registers, which tile the data; no frame is longer than `limit`.
pub record Framing (hw : Hardware) : Type 0 where
  pub frame_of : Chunk → List ℕ
  pub send : List ℕ → Exec (hw.Device) (Unit {0})
  pub words : ℕ
  pub limit : ℕ
  pub writes :
      (address : ℕ) (bytes : List ℕ) (d : hw.Device)
      → address * 4 + length bytes ≤ 65536 * 4
      → (cs : List Chunk) × Tiles words address bytes cs
        × (hw.write_hw address bytes d ≡ send_all send (map frame_of cs) d)
        × All (λ (f : List ℕ). length f ≤ limit) (map frame_of cs)
