-- ===== src/Protocol/Queues/Progress.antt =====
-- The end of the runs of one caller and the serving thread of sigmadsp/protocols/common.py, on
-- hardware whose calls succeed.
use sigmadsp.Prelude.{
  ℕ, suc, ◌+◌, ◌≡◌, refl, Bool-cases, true, false, ◌⊎◌, inl, inr, List, [], ◌∷◌, ◌++◌, arith,
  length, length-append,
}
use sigmadsp.Prelude.Result.{ok}
use sigmadsp.Protocol.{Hardware}
use sigmadsp.Protocol.Queues.{Request, write, read, served_write, served_read, put}
use sigmadsp.Protocol.Queues.Alone.{
  Caller, Step, call_write, call_read, serve, return_read, Reach, here, next, start, IsBalanced,
  Reach-IsBalanced, run_directly, alone-run_directly,
}

-- The steps that the calls take: one to call, one to serve, and one to return from a read.
unfoldable pub cost : List Request → ℕ
cost [] = 0
cost (write _ _ ∷ rs) = 2 + cost rs
cost (read _ _ ∷ rs) = 3 + cost rs

-- The steps that requests in the queue take.
unfoldable pub queue_cost : List Request → ℕ
queue_cost [] = 0
queue_cost (write _ _ ∷ rs) = 1 + queue_cost rs
queue_cost (read _ _ ∷ rs) = 2 + queue_cost rs

queue_cost-append : (xs ys : List Request) → queue_cost (xs ++ ys) ≡ queue_cost xs + queue_cost ys
unfolding queue_cost
queue_cost-append [] ys = omega arith
queue_cost-append (write _ _ ∷ xs) ys = omega (arith, queue_cost-append xs ys)
queue_cost-append (read _ _ ∷ xs) ys = omega (arith, queue_cost-append xs ys)

module _ (hw : Hardware) where
  open hw use {Device, write_hw, read_hw}

  -- Every call of the hardware succeeds.
  pub record Succeeds : Type 0 where
    pub writes :
        (address : ℕ) (bytes : List ℕ) (d : Device)
        → (d' : Device) × (write_hw address bytes d ≡ (ok tt, d'))
    pub reads :
        (address n : ℕ) (d : Device)
        → (bytes : List ℕ) × (d' : Device) × (read_hw address n d ≡ (ok bytes, d'))

  -- The steps that are left.
  abbrev pub work : Caller hw → ℕ
  work c = cost c.program + queue_cost c.bus.transmit_queue + length c.bus.receive_queue

  Step-work : (c c' : Caller hw) → Step hw c c' → work c ≡ suc (work c')
  unfolding cost queue_cost put
  Step-work c c' (call_write address bytes rest idle p e) =
      rw (e, p) (omega (arith, queue_cost-append c.bus.transmit_queue (write address bytes ∷ [])))
  Step-work c c' (call_read address n rest idle p e) =
      rw (e, p) (omega (arith, queue_cost-append c.bus.transmit_queue (read address n ∷ [])))
  Step-work c c' (serve b (served_write address bytes rest d q w eb) e) =
      rw (e, eb, q) (omega arith)
  Step-work c c' (serve b (served_read address n bytes rest d q w eb) e) =
      rw (e, eb, q) (omega (arith, length-append c.bus.receive_queue (bytes ∷ [])))
  Step-work c c' (return_read bytes rest wait q e) = rw (e, q) (omega arith)

  -- The number of steps of a run.
  unfoldable pub steps : {s c : Caller hw} → Reach hw s c → ℕ
  steps here = 0
  steps (next r _) = suc (steps r)

  steps-work : (s c : Caller hw) (r : Reach hw s c) → steps r + work c ≡ work s
  unfolding steps
  steps-work s c here = omega arith
  steps-work s c (next {c = b} r step) = omega (arith, steps-work s b r, Step-work b c step)

  -- All calls are made, performed and answered.
  pub record IsFinished (c : Caller hw) : Type 0 where
    pub called : c.program ≡ []
    pub idle : c.waiting ≡ false
    pub performed : c.bus.transmit_queue ≡ []

  abbrev pub CanStep : Caller hw → Type 0
  CanStep c = (c' : Caller hw) × Step hw c c'

  serve_next :
      Succeeds
      → (c : Caller hw) (r : Request) (rest : List Request) → c.bus.transmit_queue ≡ r ∷ rest
      → CanStep c
  serve_next succeeds c (write address bytes) rest q =
      let (d, w) = succeeds.writes address bytes c.bus.device in
      (_, serve _ (served_write address bytes rest d q w refl) refl)
  serve_next succeeds c (read address n) rest q =
      let (bytes, d, w) = succeeds.reads address n c.bus.device in
      (_, serve _ (served_read address n bytes rest d q w refl) refl)

  call_next :
      (c : Caller hw) (program : List Request)
      → c.program ≡ program
      → c.waiting ≡ false
      → c.bus.transmit_queue ≡ []
      → IsFinished c ⊎ CanStep c
  call_next c [] p idle q = inl (record { called = p; idle = idle; performed = q })
  call_next c (write address bytes ∷ rest) p idle q =
      inr (_, call_write address bytes rest idle p refl)
  call_next c (read address n ∷ rest) p idle q = inr (_, call_read address n rest idle p refl)

  return_next :
      (c : Caller hw) (answers : List (List ℕ))
      → c.bus.receive_queue ≡ answers
      → IsBalanced hw c
      → c.waiting ≡ true
      → c.bus.transmit_queue ≡ []
      → CanStep c
  return_next c [] a balance wait q = absurd (omega (arith, rw (wait, q, a) at balance))
  return_next c (bytes ∷ rest) a balance wait q = (_, return_read bytes rest wait a refl)

  progress :
      Succeeds
      → (c : Caller hw) (queue : List Request) → c.bus.transmit_queue ≡ queue
      → IsBalanced hw c
      → IsFinished c ⊎ CanStep c
  progress succeeds c (r ∷ rest) q balance = inr (serve_next succeeds c r rest q)
  progress succeeds c [] q balance = elim (Bool-cases c.waiting) [
    | inl wait ↦ inr (return_next c c.bus.receive_queue refl balance wait q)
    | inr idle ↦ call_next c c.program refl idle q
  ]

  -- A caller that is alone on the protocol makes some calls, on hardware whose calls succeed. A run
  -- that stands anywhere has taken the steps of the program but those that are left, so no run is
  -- longer than two steps for each write and three for each read; and either everything is done, and
  -- then the reads have returned and the hardware is as after direct calls, or the run can go on.
  pub alone-IsFinished :
      (succeeds : Succeeds) (program : List Request) (d : Device) (c : Caller hw)
      (r : Reach hw (start hw program d) c)
      → (steps r + work c ≡ cost program)
        × ((IsFinished c × (run_directly hw program d ≡ (ok c.results, c.bus.device))) ⊎ CanStep c)
  unfolding queue_cost
  alone-IsFinished succeeds program d c r =
      let balance : IsBalanced hw c = Reach-IsBalanced hw (start hw program d) c refl r in
      (
        omega (arith, steps-work (start hw program d) c r),
        elim (progress succeeds c c.bus.transmit_queue refl balance) [
          | inl done ↦
              inl (done, alone-run_directly hw program d c r done.called done.idle done.performed)
          | inr more ↦ inr more
        ],
      )
