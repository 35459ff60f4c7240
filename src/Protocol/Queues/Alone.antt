-- ===== src/Protocol/Queues/Alone.antt =====
-- One caller of the protocol of sigmadsp/protocols/common.py, and the same calls made on the
-- hardware directly.
use sigmadsp.Prelude.{
  ℕ, suc, ◌+◌, ◌≡◌, refl, sym, ◌∙◌, Bool, true, false, List, [], ◌∷◌, ◌++◌, append-nil,
  append_assoc, arith, length, length-append, length_zero, if◌then◌else◌,
}
use sigmadsp.Prelude.Result.{Result, ok, err}
use sigmadsp.Prelude.Exec.{Exec, pure, continue, ◌>>=◌, ◌>>◌}
use sigmadsp.Protocol.{Hardware}
use sigmadsp.Protocol.Queues.{Request, write, read, Bus, Serve, served_write, served_read, put}

abbrev pub reads : List Request → ℕ
reads [] = 0
reads (write _ _ ∷ rs) = reads rs
reads (read _ _ ∷ rs) = suc (reads rs)

pub reads-append : (xs ys : List Request) → reads (xs ++ ys) ≡ reads xs + reads ys
reads-append [] ys = omega arith
reads-append (write _ _ ∷ xs) ys = reads-append xs ys
reads-append (read _ _ ∷ xs) ys = omega (arith, reads-append xs ys)

module _ (hw : Hardware) where
  open hw use {Device, write_hw, read_hw}

  -- The calls made directly, one after the other: what the reads return.
  unfoldable pub run_directly : List Request → Exec Device (List (List ℕ))
  run_directly [] = pure []
  run_directly (write address bytes ∷ rs) = do write_hw address bytes; run_directly rs
  run_directly (read address length ∷ rs) = do
    bytes ← read_hw address length
    rest ← run_directly rs
    pure (bytes ∷ rest)

  -- The calls that are left, whether `read` waits for its answer, and what the reads returned.
  pub record Caller : Type 0 where
    pub bus : Bus hw
    pub program : List Request
    pub waiting : Bool
    pub results : List (List ℕ)

  pub data Step (c : Caller) (c' : Caller) : Type 0 where
    call_write :
        (address : ℕ) (bytes : List ℕ) (rest : List Request)
        → c.waiting ≡ false
        → c.program ≡ write address bytes ∷ rest
        → c' ≡ record c { bus = put hw (write address bytes) c.bus; program = rest }
        → Step c c'
    call_read :
        (address length : ℕ) (rest : List Request)
        → c.waiting ≡ false
        → c.program ≡ read address length ∷ rest
        → c' ≡ record c { bus = put hw (read address length) c.bus; program = rest; waiting = true }
        → Step c c'
    serve : (b : Bus hw) → Serve hw c.bus b → c' ≡ record c { bus = b } → Step c c'
    return_read :
        (bytes : List ℕ) (rest : List (List ℕ))
        → c.waiting ≡ true
        → c.bus.receive_queue ≡ bytes ∷ rest
        → c' ≡ record c {
          bus = record c.bus { receive_queue = rest };
          waiting = false;
          results = c.results ++ bytes ∷ [];
        }
        → Step c c'

  pub data Reach (start : Caller) : Caller → Type 0 where
    here : Reach start start
    next : {c c' : Caller} → Reach start c → Step c c' → Reach start c'

  abbrev after_results :
      List (List ℕ) → Result (List (List ℕ)) × Device → Result (List (List ℕ)) × Device
  after_results xs (ok ys, d) = (ok (xs ++ ys), d)
  after_results xs (err e, d) = (err e, d)

  -- What the calls will have come to, if what is left runs directly.
  outcome : Caller → Result (List (List ℕ)) × Device
  outcome c =
      after_results (c.results ++ c.bus.receive_queue)
        (run_directly (c.bus.transmit_queue ++ c.program) c.bus.device)

  after_results-cons :
      (xs ys : List (List ℕ)) (r : Result (List (List ℕ)) × Device)
      → after_results xs (after_results ys r) ≡ after_results (xs ++ ys) r
  after_results-cons xs ys (ok zs, d) = rw (append_assoc xs ys zs)
  after_results-cons xs ys (err e, d) = refl

  after_results-one :
      (bytes : List ℕ) (r : Result (List (List ℕ)) × Device)
      → (let (x, d) = r in continue x (λ rest. pure (bytes ∷ rest)) d)
        ≡ after_results (bytes ∷ []) r
  after_results-one bytes (ok zs, d) = refl
  after_results-one bytes (err e, d) = refl

  run_directly-read :
      (address n : ℕ) (bytes : List ℕ) (rs : List Request) (d d' : Device)
      → read_hw address n d ≡ (ok bytes, d')
      → run_directly (read address n ∷ rs) d ≡ after_results (bytes ∷ []) (run_directly rs d')
  unfolding run_directly
  run_directly-read address n bytes rs d d' e = rw e (after_results-one bytes (run_directly rs d'))

  run_directly-write :
      (address : ℕ) (bytes : List ℕ) (rs : List Request) (d d' : Device)
      → write_hw address bytes d ≡ (ok tt, d')
      → run_directly (write address bytes ∷ rs) d ≡ run_directly rs d'
  unfolding run_directly
  run_directly-write address bytes rs d d' e = rw e

  -- No step changes the outcome.
  Step-outcome : (c c' : Caller) → Step c c' → outcome c' ≡ outcome c
  unfolding outcome put
  Step-outcome c c' (call_write address bytes rest idle p e) =
      rw (e, p, append_assoc c.bus.transmit_queue (write address bytes ∷ []) rest)
  Step-outcome c c' (call_read address n rest idle p e) =
      rw (e, p, append_assoc c.bus.transmit_queue (read address n ∷ []) rest)
  Step-outcome c c' (serve b (served_write address bytes rest d q w eb) e) =
      rw (e, eb, q, run_directly-write address bytes (rest ++ c.program) c.bus.device d w)
  Step-outcome c c' (serve b (served_read address n bytes rest d q w eb) e) =
      rw (e, eb, q, run_directly-read address n bytes (rest ++ c.program) c.bus.device d w)
        (rw (← append_assoc c.results c.bus.receive_queue (bytes ∷ [])) (
          sym (
            after_results-cons (c.results ++ c.bus.receive_queue) (bytes ∷ [])
              (run_directly (rest ++ c.program) d))))
  Step-outcome c c' (return_read bytes rest wait q e) =
      rw (e, q, append_assoc c.results (bytes ∷ []) rest)

  -- A read waits exactly while its request, or its answer, is in a queue; there is one at most.
  abbrev pub IsBalanced : Caller → Type 0
  IsBalanced c =
      reads c.bus.transmit_queue + length c.bus.receive_queue ≡ (if c.waiting then 1 else 0)

  Step-IsBalanced : (c c' : Caller) → Step c c' → IsBalanced c → IsBalanced c'
  unfolding put
  Step-IsBalanced c c' (call_write address bytes rest idle p e) h =
      rw e (omega (arith, h, reads-append c.bus.transmit_queue (write address bytes ∷ [])))
  Step-IsBalanced c c' (call_read address n rest idle p e) h =
      rw e (omega (arith, rw idle at h, reads-append c.bus.transmit_queue (read address n ∷ [])))
  Step-IsBalanced c c' (serve b (served_write address bytes rest d q w eb) e) h =
      rw (e, eb) (rw q at h)
  Step-IsBalanced c c' (serve b (served_read address n bytes rest d q w eb) e) h =
      rw (e, eb) (omega (arith, rw q at h, length-append c.bus.receive_queue (bytes ∷ [])))
  Step-IsBalanced c c' (return_read bytes rest wait q e) h = rw e (omega (arith, rw (wait, q) at h))

  abbrev pub start : List Request → Device → Caller
  start program d = record {
    bus = record { transmit_queue = []; receive_queue = []; device = d };
    program = program;
    waiting = false;
    results = [];
  }

  Reach-outcome : (s c : Caller) → Reach s c → outcome c ≡ outcome s
  Reach-outcome s c here = refl
  Reach-outcome s c (next {c = b} r step) = Step-outcome b c step ∙ Reach-outcome s b r

  pub Reach-IsBalanced : (s c : Caller) → IsBalanced s → Reach s c → IsBalanced c
  Reach-IsBalanced s c h here = h
  Reach-IsBalanced s c h (next {c = b} r step) = Step-IsBalanced b c step (Reach-IsBalanced s b h r)

  after_results-nil : (r : Result (List (List ℕ)) × Device) → after_results [] r ≡ r
  after_results-nil (ok ys, d) = refl
  after_results-nil (err e, d) = refl

  -- A caller that is alone on the protocol makes some calls, and the thread serves them, in any order
  -- of their steps. When the calls are made, answered and performed, the reads have returned, in
  -- order, what direct calls of the hardware would have returned, and the hardware is in the state that
  -- these would have left.
  pub alone-run_directly :
      (program : List Request) (d : Device) (c : Caller)
      → Reach (start program d) c
      → c.program ≡ []
      → c.waiting ≡ false
      → c.bus.transmit_queue ≡ []
      → run_directly program d ≡ (ok c.results, c.bus.device)
  unfolding outcome run_directly
  alone-run_directly program d c reach done idle served =
      let balance : IsBalanced c = Reach-IsBalanced (start program d) c refl reach in
      let empty : c.bus.receive_queue ≡ [] =
        length_zero c.bus.receive_queue (omega (arith, rw (idle, served) at balance)) in
      let same = Reach-outcome (start program d) c reach in
      sym (after_results-nil (run_directly program d))
      ∙ sym same
      ∙ rw (served, done, empty, append-nil) (rw append-nil)
