-- ===== src/Protocol/Queues.antt =====
-- The two queues of `DspProtocol` in sigmadsp/protocols/common.py: `write` and `read` put requests
-- into one, the thread in `serve_forever` takes them off, performs them, and puts what it read into
-- the other, from which `read` takes it. Any step of a caller or of the thread may come next.
pub mod Alone
pub mod Progress
pub mod Shared
use sigmadsp.Prelude.{ℕ, ◌≡◌, Bool, true, false, List, [], ◌∷◌, ◌++◌}
use sigmadsp.Prelude.Result.{ok}
use sigmadsp.Protocol.{Hardware}

-- `WriteRequest` and `ReadRequest` as the protocol's own queue carries them.
pub data Request : Type 0 where
  write : ℕ → List ℕ → Request
  read : ℕ → ℕ → Request

module _ (hw : Hardware) where
  open hw use {Device, write_hw, read_hw}

  -- The queues and the hardware.
  pub record Bus : Type 0 where
    pub transmit_queue : List Request
    pub receive_queue : List (List ℕ)
    pub device : Device

  -- One round of `serve_forever`.
  pub data Serve (b : Bus) (b' : Bus) : Type 0 where
    served_write :
        (address : ℕ) (bytes : List ℕ) (rest : List Request) (d : Device)
        → b.transmit_queue ≡ write address bytes ∷ rest
        → write_hw address bytes b.device ≡ (ok tt, d)
        → b' ≡ record b { transmit_queue = rest; device = d }
        → Serve b b'
    served_read :
        (address length : ℕ) (bytes : List ℕ) (rest : List Request) (d : Device)
        → b.transmit_queue ≡ read address length ∷ rest
        → read_hw address length b.device ≡ (ok bytes, d)
        → b' ≡ record {
          transmit_queue = rest;
          receive_queue = b.receive_queue ++ bytes ∷ [];
          device = d;
        }
        → Serve b b'

  -- `self.transmit_queue.put(request)`
  unfoldable pub put : Request → Bus → Bus
  put r b = record b { transmit_queue = b.transmit_queue ++ r ∷ [] }
