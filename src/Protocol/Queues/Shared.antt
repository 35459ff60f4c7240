-- ===== src/Protocol/Queues/Shared.antt =====
-- Several callers of the protocol of sigmadsp/protocols/common.py.
use sigmadsp.Prelude.{ℕ, ◌≡◌, refl, Option, none, some, List, [], ◌∷◌, ◌++◌, ◌==◌, if◌then◌else◌}
use sigmadsp.Prelude.Result.{ok}
use sigmadsp.Protocol.{Hardware}
use sigmadsp.Protocol.Queues.{Request, read, Bus, Serve, served_read, put}

-- Which read each caller, by its number, waits for.
abbrev pub Waiting : Type 0
Waiting = ℕ → Option Request

abbrev pub set_waiting : ℕ → Option Request → Waiting → Waiting
set_waiting k r w j = if j == k then r else w j

module _ (hw : Hardware) where
  open hw use {Device, read_hw}

  -- `returned` tells which caller asked for what and got what.
  pub record Callers : Type 0 where
    pub bus : Bus hw
    pub waiting : Waiting
    pub returned : List (ℕ × Request × List ℕ)

  pub data Step (c : Callers) (c' : Callers) : Type 0 where
    call_read :
        (k address length : ℕ)
        → c.waiting k ≡ none
        → c' ≡ record c {
          bus = put hw (read address length) c.bus;
          waiting = set_waiting k (some (read address length)) c.waiting;
        }
        → Step c c'
    serve : (b : Bus hw) → Serve hw c.bus b → c' ≡ record c { bus = b } → Step c c'
    return_read :
        (k : ℕ) (r : Request) (bytes : List ℕ) (rest : List (List ℕ))
        → c.waiting k ≡ some r
        → c.bus.receive_queue ≡ bytes ∷ rest
        → c' ≡ record {
          bus = record c.bus { receive_queue = rest };
          waiting = set_waiting k none c.waiting;
          returned = c.returned ++ (k, r, bytes) ∷ [];
        }
        → Step c c'

  pub data Reach (start : Callers) : Callers → Type 0 where
    here : Reach start start
    next : {c c' : Callers} → Reach start c → Step c c' → Reach start c'

  abbrev pub quiet : Device → Callers
  quiet d = record {
    bus = record { transmit_queue = []; receive_queue = []; device = d };
    waiting = λ _. none;
    returned = [];
  }

  abbrev nobody : Waiting
  nobody _ = none

  abbrev state :
      List Request → List (List ℕ) → Device → Waiting → List (ℕ × Request × List ℕ) → Callers
  state transmit receive d w done = record {
    bus = record { transmit_queue = transmit; receive_queue = receive; device = d };
    waiting = w;
    returned = done;
  }

  -- Two callers read different registers at the same time, and the hardware answers both. Then there
  -- is an order of steps in which each gets the answer to the other's request.
  pub swapped_answers :
      (d d' d'' : Device) (address length address' length' : ℕ) (bytes bytes' : List ℕ)
      → read_hw address length d ≡ (ok bytes, d')
      → read_hw address' length' d' ≡ (ok bytes', d'')
      → (c : Callers) × Reach (quiet d) c
        × (c.returned ≡ (1, read address' length', bytes) ∷ (0, read address length, bytes') ∷ [])
  unfolding put
  swapped_answers d d' d'' address length address' length' bytes bytes' e e' =
      let r = read address length in
      let r' = read address' length' in
      let w1 = set_waiting 0 (some r) nobody in
      let w2 = set_waiting 1 (some r') w1 in
      let w3 = set_waiting 1 none w2 in
      let w4 = set_waiting 0 none w3 in
      let s1 = state (r ∷ []) [] d w1 [] in
      let s2 = state (r ∷ r' ∷ []) [] d w2 [] in
      let s3 = state (r' ∷ []) (bytes ∷ []) d' w2 [] in
      let s4 = state [] (bytes ∷ bytes' ∷ []) d'' w2 [] in
      let s5 = state [] (bytes' ∷ []) d'' w3 ((1, r', bytes) ∷ []) in
      let s6 = state [] [] d'' w4 ((1, r', bytes) ∷ (0, r, bytes') ∷ []) in
      let first : Reach (quiet d) s1 = next here (call_read 0 address length refl refl) in
      let second : Reach (quiet d) s2 = next first (call_read 1 address' length' refl refl) in
      let third : Reach (quiet d) s3 =
        next second
          (serve s3.bus (served_read address length bytes (r' ∷ []) d' refl e refl) refl) in
      let fourth : Reach (quiet d) s4 =
        next third (serve s4.bus (served_read address' length' bytes' [] d'' refl e' refl) refl) in
      let fifth : Reach (quiet d) s5 =
        next fourth (return_read 1 r' bytes (bytes' ∷ []) refl refl refl) in
      let sixth : Reach (quiet d) s6 = next fifth (return_read 0 r bytes' [] refl refl refl) in
      (s6, sixth, refl)
