-- ===== src/Backend/Link/Worker.antt =====
-- The rounds of `sigma_studio_worker` of sigmadsp/backend.py, and the invariant of the server and
-- the worker.
use sigmadsp.Prelude.{
  ℕ, ◌+◌, ◌≡◌, refl, ap, none, some, inl, inr, List, [], ◌∷◌, ◌++◌, map, concat, length, arith,
}
use sigmadsp.Prelude.Result.{ok}
use sigmadsp.Conversion.Fixpoint.{FloatOps}
use sigmadsp.Header.Generator.{PacketHeaderGenerator}
use sigmadsp.Header.Generator.Laws.{IsGenerator}
use sigmadsp.Protocol.{Hardware}
use sigmadsp.Dsp.{Dsp, VolumeOps}
use sigmadsp.Server.Messages.{Message, connection_closed}
use sigmadsp.Server.Packets.{Packet}
use sigmadsp.Server.Handle.{message_of}
use sigmadsp.Server.Turns.{waiting}
use sigmadsp.Server.Waits.{asked}
use sigmadsp.Server.Session.{Exchange, written, answered, IsExchange, reply_bytes}
use sigmadsp.Backend.Requests.{serve_request}
use sigmadsp.Backend.Link.{stands, ended, Link, worker_step}
use sigmadsp.Backend.Link.Invariant.{
  cost, Serves, then_left, IsLeft, Inv, between, request_put, response_put, end_noted, end_taken,
}
use sigmadsp.Backend.Link.Steps.{
  serves, serve_request-write, serve_request-read, after_round, idles,
}
use sigmadsp.Prelude.{◌⊎◌}
use sigmadsp.Backend.Link.Handler.{Moves}

module _ (g : PacketHeaderGenerator) (laws : IsGenerator g) where
  module _ (ops : FloatOps) (volume : VolumeOps ops) (hw : Hardware) (dsp : Dsp ops hw)
      (sent : List ℕ) (last : hw.Device) (total : ℕ) where
    -- The worker takes the oldest of the writes that are left.
    write_round :
        (c : Link g ops volume hw dsp) (p : Packet) (more : List Message) (es : List Exchange)
        → c.worker_ended ≡ none
        → c.connection.receive_queue ≡ message_of p ∷ more
        → Serves hw (written p ∷ es) c.device last
        → (d : hw.Device) × (worker_step g ops volume hw dsp c
            ≡ some (after_round g ops volume hw dsp c more c.connection.send_queue d))
          × Serves hw es d last
    unfolding Serves
    write_round c p more es alive queue (d, ran, rest) = (
      d,
      serves g ops volume hw dsp c (message_of p) more c.connection.send_queue d alive queue
          (serve_request-write g ops volume hw dsp p _ d ran),
      rest,
    )

    -- The facts on the stream do not speak of the queues and of the device.
    IsLeft-after :
        (c : Link g ops volume hw dsp) (es : List Exchange) (more : List Message)
        (responses : List (List ℕ)) (d : hw.Device)
        → IsLeft g laws ops volume hw dsp es c
        → IsLeft g laws ops volume hw dsp es (after_round g ops volume hw dsp c more responses d)
    IsLeft-after c es more responses d left = record {
      valid = left.valid;
      arrive = left.arrive;
      stream = left.stream;
      writable = left.writable;
      alive = refl;
    }

    -- The worker makes the writes that are left, and then reads for the request behind them.
    pub worker_request :
        (n : ℕ) (c : Link g ops volume hw dsp) (ps : List Packet) (p : Packet) (response : List ℕ)
        (es : List Exchange)
        → c.position ≡ stands (waiting p)
        → c.connection.receive_queue ≡ map message_of ps ++ asked p ∷ []
        → c.connection.send_queue ≡ []
        → Serves hw (then_left ps (answered p response ∷ es)) c.device last
        → c.connection.sent ++ concat (map (reply_bytes g laws) (answered p response ∷ es)) ≡ sent
        → n + length ps + 2 + cost es ≡ total
        → IsExchange g laws (answered p response)
        → IsLeft g laws ops volume hw dsp es c
        → Moves g laws ops volume hw dsp sent last total n c (worker_step g ops volume hw dsp c)
    unfolding Serves
    worker_request n c [] p response es at queue empty (d, ran, rest) sends count valid left = (
      _,
      serves g ops volume hw dsp c (asked p) [] (c.connection.send_queue ++ response ∷ []) d
          left.alive queue (serve_request-read g ops volume hw dsp p response _ d ran),
      response_put p response es at refl (ap (λ (q : List (List ℕ)). q ++ response ∷ []) empty) rest
          sends (omega (arith, count)) valid (IsLeft-after c es [] _ d left),
    )
    worker_request n c (q ∷ ps) p response es at queue empty serves_all sends count valid left =
        let more = map message_of ps ++ asked p ∷ [] in
        let (d, ran, rest) =
          write_round c q more (then_left ps (answered p response ∷ es)) left.alive queue
            serves_all in
        (
          _,
          ran,
          request_put ps p response es at refl empty rest sends (omega (arith, count)) valid
              (IsLeft-after c es more _ d left),
        )

    -- So it does before the note of the end.
    pub worker_end :
        (n : ℕ) (c : Link g ops volume hw dsp) (ps : List Packet)
        → c.position ≡ ended (ok tt)
        → c.connection.receive_queue ≡ map message_of ps ++ connection_closed ∷ []
        → c.connection.send_queue ≡ []
        → Serves hw (then_left ps []) c.device last
        → c.connection.sent ≡ sent
        → n + length ps + 1 ≡ total
        → c.worker_ended ≡ none
        → Moves g laws ops volume hw dsp sent last total n c (worker_step g ops volume hw dsp c)
    unfolding Serves
    worker_end n c [] at queue empty serves_all sends count alive = (
      _,
      serves g ops volume hw dsp c connection_closed [] c.connection.send_queue c.device alive queue
          (unfold serve_request in refl),
      end_taken at refl empty serves_all sends (omega (arith, count)) refl,
    )
    worker_end n c (p ∷ ps) at queue empty serves_all sends count alive =
        let more = map message_of ps ++ connection_closed ∷ [] in
        let (d, ran, rest) = write_round c p more (then_left ps []) alive queue serves_all in
        (_, ran, end_noted ps at refl empty rest sends (omega (arith, count)) refl)

    -- A round of the worker, where there is a request.
    pub worker_Inv :
        (n : ℕ) (c : Link g ops volume hw dsp)
        → Inv g laws ops volume hw dsp sent last total n c
        → (worker_step g ops volume hw dsp c ≡ none)
          ⊎ Moves g laws ops volume hw dsp sent last total n c (worker_step g ops volume hw dsp c)
    worker_Inv n c (between [] es at queue empty serves_all sends count left) =
        inl (idles g ops volume hw dsp c left.alive queue)
    worker_Inv n c (between (p ∷ ps) es at queue empty serves_all sends count left) =
        let more = map message_of ps in
        let (d, ran, rest) = write_round c p more (then_left ps es) left.alive queue serves_all in
        inr (
          _,
          ran,
          between ps es at refl empty rest sends (omega (arith, count))
              (IsLeft-after c es more _ d left),
        )
    worker_Inv n c (request_put ps p response es at queue empty serves_all sends count valid left) =
        inr (worker_request n c ps p response es at queue empty serves_all sends count valid left)
    worker_Inv n c (response_put p response es at queue queued serves_all sends count valid left) =
        inl (idles g ops volume hw dsp c left.alive queue)
    worker_Inv n c (end_noted ps at queue empty serves_all sends count alive) =
        inr (worker_end n c ps at queue empty serves_all sends count alive)
    worker_Inv n c (end_taken at queue empty same sends count alive) =
        inl (idles g ops volume hw dsp c alive queue)
