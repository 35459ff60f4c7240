-- ===== src/Backend/Link.antt =====
-- The TCP server of sigmadsp/sigmastudio/server.py and `sigma_studio_worker` of sigmadsp/backend.py, two
-- threads over the two queues between them. The handler takes a turn up to its next wait, the worker a
-- request; either may go first.
pub mod Invariant
pub mod Steps
pub mod Handler
pub mod Worker
pub mod Outcome
pub mod Hang
use sigmadsp.Prelude.{ℕ, zero, suc, ◌≡◌, Option, none, some, List, [], ◌∷◌}
use sigmadsp.Prelude.Result.{Error, Result, ok, err, blocked}
use sigmadsp.Prelude.Exec.{Exec, pure, ◌>>=◌, ◌>>◌}
use sigmadsp.Conversion.Fixpoint.{FloatOps}
use sigmadsp.Header.Generator.{PacketHeaderGenerator}
use sigmadsp.Protocol.{Hardware}
use sigmadsp.Dsp.{Dsp, VolumeOps}
use sigmadsp.Server.Messages.{Message}
use sigmadsp.Server.Socket.{Connection}
use sigmadsp.Server.Turns.{Turn, reading, waiting, begin_packet, finish_packet}
use sigmadsp.Server.{on_result}
use sigmadsp.Backend.Requests.{WorkerState, serve_request}

-- Where the handler stands, or how `handle` ended.
pub data Position : Type 0 where
  stands : Turn → Position
  ended : Result (Unit {0}) → Position

-- After a turn; a handler that waits has made none.
unfoldable pub after_turn : Result Turn × Connection → Option (Position × Connection)
unfolding on_result
after_turn (ok turn, s) = some (stands turn, s)
after_turn (err blocked, s) = none
after_turn (err e, s) = let (r, s') = on_result (err e) (pure tt) s in some (ended r, s')

module _ (g : PacketHeaderGenerator) where
  -- A turn of `handle`.
  unfoldable pub take_turn : Position → Connection → Option (Position × Connection)
  unfolding begin_packet finish_packet after_turn
  take_turn (stands reading) s = after_turn (begin_packet g s)
  take_turn (stands (waiting packet)) s =
      after_turn ((do finish_packet g (waiting packet); pure reading) s)
  take_turn (ended r) s = none

  module _ (ops : FloatOps) (volume : VolumeOps ops) (hw : Hardware) (dsp : Dsp ops hw) where
    -- The connection holds the queues of the server, which the worker shares. An exception ends the
    -- worker.
    pub record Link : Type 0 where
      pub connection : Connection
      pub position : Position
      pub device : hw.Device
      pub worker_ended : Option Error

    abbrev turned : Link → Option (Position × Connection) → Option Link
    turned c none = none
    turned c (some (position, s)) = some (record c { position = position; connection = s })

    unfoldable pub handler_step : Link → Option Link
    unfolding take_turn
    handler_step c = turned c (take_turn c.position c.connection)

    abbrev error_of : Result (Unit {0}) → Option Error
    error_of (ok _) = none
    error_of (err e) = some e

    abbrev served : Link → Result (Unit {0}) × WorkerState ops volume hw dsp → Option Link
    served c (r, w) = some (record c {
      connection = record c.connection {
        receive_queue = w.receive_queue;
        send_queue = w.send_queue;
      };
      device = w.device;
      worker_ended = error_of r;
    })

    abbrev next_request : Link → List Message → Option Link
    next_request c [] = none
    next_request c (request ∷ requests) = served c (
        serve_request ops volume hw dsp request (record {
          receive_queue = requests;
          send_queue = c.connection.send_queue;
          device = c.device;
        }))

    -- A round of the loop of `sigma_studio_worker`.
    unfoldable pub worker_step : Link → Option Link
    unfolding serve_request
    worker_step c = elim c.worker_ended [
      | none ↦ next_request c c.connection.receive_queue
      | some _ ↦ none
    ]

    pub data Step (c c' : Link) : Type 0 where
      handler : handler_step c ≡ some c' → Step c c'
      worker : worker_step c ≡ some c' → Step c c'

    -- What some number of steps leads to, in any order of the two threads.
    pub data Reach (start : Link) : ℕ → Link → Type 0 where
      here : Reach start zero start
      next : {n : ℕ} {c c' : Link} → Reach start n c → Step c c' → Reach start (suc n) c'
