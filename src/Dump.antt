-- ===== src/Dump.antt =====
-- app/dump_sigma_studio_data.py: the program that records what SigmaStudio sends. The server fills
-- the queues; the loop of `dump_sigma_studio` empties them. The proofs are in the module below.
pub mod Recording
use sigmadsp.Prelude.{ℕ, zero, suc, Option, none, some, List, [], ◌∷◌, ◌++◌}
use sigmadsp.Prelude.Int.{ℤ, pos, negsuc}
use sigmadsp.Prelude.Result.{Error, Result, ok, err, assertion_error, value_error, blocked}
use sigmadsp.Prelude.Exec.{Exec, pure, raise, lift, modify, ◌>>=◌, ◌>>◌}
use sigmadsp.Server.Messages.{
  Message, write_request, safeload_request, read_request, connection_closed,
}

-- The three queues, the oldest element first, and the two lists that are stored in the end.
pub record Dump : Type 0 where
  pub receive_queue : List Message
  pub raw_receive_queue : Option (List (List ℕ))
  pub send_queue : List (List ℕ)
  pub requests : List Message
  pub raw_requests : List (List ℕ)

abbrev pub zeros : ℕ → List ℕ
zeros zero = []
zeros (suc n) = 0 ∷ zeros n

-- `bytes(length)`
unfoldable pub zero_bytes : ℤ → Result (List ℕ)
zero_bytes (pos n) = ok (zeros n)
zero_bytes (negsuc _) = err value_error

-- `server.receive_queue.get()` waits while the queue is empty.
unfoldable pub get_request : Exec Dump Message
get_request s = elim s.receive_queue [
  | [] ↦ (err blocked, s)
  | request ∷ rest ↦ (ok request, record s { receive_queue = rest })
]

-- `server.raw_receive_queue.get()`, after the assertion that there is such a queue.
unfoldable pub get_raw : Exec Dump (List ℕ)
get_raw s = elim s.raw_receive_queue [
  | none ↦ (err assertion_error, s)
  | some queue ↦ elim queue [
    | [] ↦ (err blocked, s)
    | raw ∷ rest ↦ (ok raw, record s { raw_receive_queue = some rest })
  ]
]

-- A read request is answered with zeros.
unfoldable pub respond : Message → Exec Dump (Unit {0})
unfolding zero_bytes
respond (read_request _ length) = do
  response ← lift (zero_bytes length)
  modify λ s. record s { send_queue = s.send_queue ++ response ∷ [] }
respond _ = pure tt

-- The rest of the body of the loop.
unfoldable pub record_request : Message → Exec Dump (Unit {0})
unfolding respond get_raw
record_request request = do
  respond request
  raw ← get_raw
  modify λ s. record s {
    raw_requests = s.raw_requests ++ raw ∷ [];
    requests = s.requests ++ request ∷ [];
  }

unfoldable pub on_request : Message → Exec Dump (Unit {0}) → Exec Dump (Unit {0})
unfolding record_request
on_request connection_closed next_round = pure tt
on_request request next_round = record_request request >> next_round

-- The `while True` of `dump_sigma_studio`. After `rounds` rounds, the user interrupts the program.
unfoldable pub collect : ℕ → Exec Dump (Unit {0})
unfolding get_request on_request
collect zero = raise blocked
collect (suc rounds) = do request ← get_request; on_request request (collect rounds)

-- `except KeyboardInterrupt: pass`: a loop that waits forever is interrupted by the user.
unfoldable pub interrupted : Result (Unit {0}) → Result (Unit {0})
interrupted (ok u) = ok u
interrupted (err e) = elim e [ blocked ↦ ok tt | other ↦ err other ]

abbrev pub recorded : Result (Unit {0}) → Dump → Result (List (List ℕ) × List Message)
recorded (ok _) s = ok (s.raw_requests, s.requests)
recorded (err e) s = err e

-- `dump_sigma_studio`: what is stored in the file, and the queues that are left.
unfoldable pub dump_sigma_studio : ℕ → Exec Dump (List (List ℕ) × List Message)
unfolding collect interrupted
dump_sigma_studio rounds s =
    let (r, s') = collect rounds (record s { requests = []; raw_requests = [] }) in
    (recorded (interrupted r) s', s')
