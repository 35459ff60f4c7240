-- ===== src/Backend/Link/Outcome.antt =====
-- The end of the runs of the server and the worker, of sigmadsp/sigmastudio/server.py and
-- sigmadsp/backend.py.
use sigmadsp.Prelude.{
  ℕ, suc, ◌≡◌, refl, Option, none, some, inl, inr, List, [], ◌∷◌, ◌++◌, map, concat, arith,
}
use sigmadsp.Prelude.Result.{ok}
use sigmadsp.Conversion.Fixpoint.{FloatOps}
use sigmadsp.Header.Generator.{PacketHeaderGenerator}
use sigmadsp.Header.Generator.Laws.{IsGenerator}
use sigmadsp.Protocol.{Hardware}
use sigmadsp.Dsp.{Dsp, VolumeOps}
use sigmadsp.Server.Turns.{reading}
use sigmadsp.Server.Session.{Exchange, written, answered, reply_bytes}
use sigmadsp.Backend.Link.{stands, ended, Link, handler_step, worker_step}
use sigmadsp.Backend.Link.Invariant.{
  cost, Serves, IsLeft, Inv, between, request_put, response_put, end_noted, end_taken,
}
use sigmadsp.Backend.Link.{Step, handler, worker}
use sigmadsp.Prelude.{◌⊎◌, ◌≤◌, ◌<◌}
use sigmadsp.Backend.Link.{Reach, here, next}
use sigmadsp.Backend.Link.Steps.{waits, is_over}
use sigmadsp.Backend.Link.Handler.{Moves, handler_between, handler_response}
use sigmadsp.Backend.Link.Worker.{worker_Inv, worker_request, worker_end}

-- The value of an option is determined.
some-injective : {A : Type 0} (x : Option A) (a b : A) → x ≡ some a → x ≡ some b → a ≡ b
some-injective x a b e f = cc (e, f)

none-some : {A : Type 0} (x : Option A) (a : A) → x ≡ none → x ≡ some a → ⊥
none-some x a e f = cc (e, f)

cost_pos : (es : List Exchange) → 0 < cost es
unfolding cost
cost_pos [] = omega arith
cost_pos (written p ∷ es) = omega arith
cost_pos (answered p response ∷ es) = omega arith

module _ (g : PacketHeaderGenerator) (laws : IsGenerator g) where
  module _ (ops : FloatOps) (volume : VolumeOps ops) (hw : Hardware) (dsp : Dsp ops hw) where
    -- Both threads have nothing left to do: the answers were sent, the device has made the calls, and the
    -- queues are empty.
    pub record IsDone (sent : List ℕ) (last : hw.Device) (c : Link g ops volume hw dsp)
        : Type 0 where
      pub handler_over : c.position ≡ ended (ok tt)
      pub worker_waits : c.worker_ended ≡ none
      pub taken : c.connection.receive_queue ≡ []
      pub given : c.connection.send_queue ≡ []
      pub answers : c.connection.sent ≡ sent
      pub device_is : c.device ≡ last

    -- A new connection on which SigmaStudio sends the packets, and an idle worker.
    pub record IsStart (es : List Exchange) (c : Link g ops volume hw dsp) : Type 0 where
      pub left : IsLeft g laws ops volume hw dsp es c
      pub at : c.position ≡ stands reading
      pub none_taken : c.connection.receive_queue ≡ []
      pub none_given : c.connection.send_queue ≡ []

    module _ (sent : List ℕ) (last : hw.Device) (total : ℕ) where
      abbrev Kept : ℕ → Link g ops volume hw dsp → Type 0
      Kept = Inv g laws ops volume hw dsp sent last total

      handler_Inv :
          (n : ℕ) (c : Link g ops volume hw dsp)
          → Kept n c
          → (handler_step g ops volume hw dsp c ≡ none)
            ⊎ Moves g laws ops volume hw dsp sent last total n c
                (handler_step g ops volume hw dsp c)
      handler_Inv n c (between ps es at queue empty serves_all sends count left) = inr (
          handler_between g laws ops volume hw dsp sent last total n c ps es at queue empty
            serves_all sends count left)
      handler_Inv n c
            (request_put ps p response es at queue empty serves_all sends count valid left) =
          inl (waits g ops volume hw dsp c p at empty)
      handler_Inv n c
            (response_put p response es at queue queued serves_all sends count valid left) =
          inr (
            handler_response g laws ops volume hw dsp sent last total n c p response es at queue
              queued serves_all sends count valid left)
      handler_Inv n c (end_noted ps at queue empty serves_all sends count alive) =
          inl (is_over g ops volume hw dsp c (ok tt) at)
      handler_Inv n c (end_taken at queue empty same sends count alive) =
          inl (is_over g ops volume hw dsp c (ok tt) at)

      moved :
          (n : ℕ) (c c' : Link g ops volume hw dsp) (step : Option (Link g ops volume hw dsp))
          → (step ≡ none) ⊎ Moves g laws ops volume hw dsp sent last total n c step
          → step ≡ some c'
          → Kept (suc n) c'
      moved n c c' step (inl stuck) e = absurd (none-some step c' stuck e)
      moved n c c' step (inr (b, f, inv)) e = rw (some-injective step b c' f e) at inv

      Step-Inv :
          (n : ℕ) (c c' : Link g ops volume hw dsp)
          → Kept n c
          → Step g ops volume hw dsp c c'
          → Kept (suc n) c'
      Step-Inv n c c' inv (handler e) =
          moved n c c' (handler_step g ops volume hw dsp c) (handler_Inv n c inv) e
      Step-Inv n c c' inv (worker e) =
          moved n c c' (worker_step g ops volume hw dsp c)
            (worker_Inv g laws ops volume hw dsp sent last total n c inv) e

      Reach-Inv :
          (start : Link g ops volume hw dsp) {n : ℕ} {c : Link g ops volume hw dsp}
          → Kept 0 start
          → Reach g ops volume hw dsp start n c
          → Kept n c
      Reach-Inv start inv here = inv
      Reach-Inv start inv (next r st) = Step-Inv _ _ _ (Reach-Inv start inv r) st

      -- Before the last step some thread can go on; after it, all is done.
      goes_on :
          (n : ℕ) (c : Link g ops volume hw dsp)
          → Kept n c
          → ((n ≡ total) × IsDone sent last c)
            ⊎ ((n < total) × ((c' : Link g ops volume hw dsp) × Step g ops volume hw dsp c c'))
      goes_on n c (between ps es at queue empty serves_all sends count left) =
          let (c', run, _) =
            handler_between g laws ops volume hw dsp sent last total n c ps es at queue empty
              serves_all sends count left in
          inr (omega (arith, count, cost_pos es), (c', handler run))
      goes_on n c (request_put ps p response es at queue empty serves_all sends count valid left) =
          let (c', run, _) =
            worker_request g laws ops volume hw dsp sent last total n c ps p response es at queue
              empty serves_all sends count valid left in
          inr (omega (arith, count), (c', worker run))
      goes_on n c (response_put p response es at queue queued serves_all sends count valid left) =
          let (c', run, _) =
            handler_response g laws ops volume hw dsp sent last total n c p response es at queue
              queued serves_all sends count valid left in
          inr (omega (arith, count), (c', handler run))
      goes_on n c (end_noted ps at queue empty serves_all sends count alive) =
          let (c', run, _) =
            worker_end g laws ops volume hw dsp sent last total n c ps at queue empty serves_all
              sends count alive in
          inr (omega (arith, count), (c', worker run))
      goes_on n c (end_taken at queue empty same sends count alive) = inl (
        count,
        record {
          handler_over = at;
          worker_waits = alive;
          taken = queue;
          given = empty;
          answers = sends;
          device_is = same;
        },
      )

      start-Inv :
          (es : List Exchange) (c : Link g ops volume hw dsp)
          → IsStart es c
          → Serves hw es c.device last
          → c.connection.sent ++ concat (map (reply_bytes g laws) es) ≡ sent
          → cost es ≡ total
          → Kept 0 c
      start-Inv es c start ran sends count =
          between [] es start.at start.none_taken start.none_given ran sends (omega (arith, count))
            start.left

    module _ (es : List Exchange) (start : Link g ops volume hw dsp) (last : hw.Device) where
      Reach-goes_on :
          (n : ℕ) (c : Link g ops volume hw dsp)
          → IsStart es start
          → Serves hw es start.device last
          → Reach g ops volume hw dsp start n c
          → ((n ≡ cost es)
              × IsDone (start.connection.sent ++ concat (map (reply_bytes g laws) es)) last c)
            ⊎ ((n < cost es) × ((c' : Link g ops volume hw dsp) × Step g ops volume hw dsp c c'))
      Reach-goes_on n c begin ran r =
          let answers = start.connection.sent ++ concat (map (reply_bytes g laws) es) in
          goes_on answers last (cost es) n c (
            Reach-Inv answers last (cost es) start
              (start-Inv answers last (cost es) es start begin ran refl refl) r)

      -- SigmaStudio sends write packets and read requests on a new connection, and closes it; the calls
      -- of the DSP that they ask for, made directly and in order, return, and each read gives as many
      -- bytes as were asked for. The handler and the worker take their steps in any order. Where neither
      -- can take a step any more, the handler has ended in order and the worker waits for requests; the
      -- queues are empty; the device is in the state after those calls; and SigmaStudio has got, in the
      -- order of its requests, a read response for each, with what those calls read.
      pub link-IsDone :
          (n : ℕ) (c : Link g ops volume hw dsp)
          → IsStart es start
          → Serves hw es start.device last
          → Reach g ops volume hw dsp start n c
          → ((c' : Link g ops volume hw dsp) → ¬ Step g ops volume hw dsp c c')
          → IsDone (start.connection.sent ++ concat (map (reply_bytes g laws) es)) last c
      link-IsDone n c begin ran r stuck = elim (Reach-goes_on n c begin ran r) [
        | inl done ↦ done.1
        | inr more ↦ absurd (stuck more.1.0 more.1.1)
      ]

      -- Under the same conditions no order of the steps takes more than two for each write packet, three
      -- for each read request and two for the end of the connection; and before that number of steps, one
      -- of the threads can take one, so that they never wait for each other.
      pub link_terminates :
          (n : ℕ) (c : Link g ops volume hw dsp)
          → IsStart es start
          → Serves hw es start.device last
          → Reach g ops volume hw dsp start n c
          → (n ≤ cost es)
            × (n < cost es → (c' : Link g ops volume hw dsp) × Step g ops volume hw dsp c c')
      link_terminates n c begin ran r = elim (Reach-goes_on n c begin ran r) [
        | inl done ↦ (omega (arith, done.0), λ h. absurd (omega (arith, h, done.0)))
        | inr more ↦ (omega (arith, more.0), λ h. more.1)
      ]
