-- ===== src/Server/Socket.antt =====
-- The socket and the queues of sigmadsp/sigmastudio/server.py, and `SigmaStudioRequestHandler.read`.
-- The network delivers the bytes of the peer in segments, which need not be those that it sent; with
-- no segment left, the peer has closed its side.
use sigmadsp.Prelude.{
  ℕ, zero, suc, ◌-◌, Bool, false, Option, none, some, List, [], ◌∷◌, ◌++◌, ltb, leb, ◌==◌,
  if◌then◌else◌, length, take, drop,
}
use sigmadsp.Prelude.Result.{ok, err, connection_error, blocked}
use sigmadsp.Prelude.Exec.{Exec, pure, raise, ◌>>=◌, ◌>>◌}
use sigmadsp.Server.Messages.{Message}

-- `is_writable` says whether the peer still takes data. `send_queue` holds the data of the read
-- responses that are there for `get`, the oldest first; `receive_queue` and `raw_receive_queue` hold
-- what was put, the oldest first.
pub record Connection : Type 0 where
  pub segments : List (List ℕ)
  pub is_open : Bool
  pub is_writable : Bool
  pub sent : List ℕ
  pub receive_queue : List Message
  pub send_queue : List (List ℕ)
  pub raw_receive_queue : Option (List (List ℕ))

-- `recv(amount)` returns at most `amount` bytes of the first segment, and nothing at the end.
unfoldable pub recv_segments : ℕ → List (List ℕ) → List ℕ × List (List ℕ)
recv_segments amount [] = ([], [])
recv_segments amount (segment ∷ segments) =
    if leb (length segment) amount
    then (segment, segments)
    else (take amount segment, drop amount segment ∷ segments)

unfoldable pub recv : ℕ → Exec Connection (List ℕ)
unfolding recv_segments
recv amount s =
    let (received, rest) = recv_segments amount s.segments in
    (ok received, record s { segments = rest })

-- `shutdown(SHUT_RDWR)` and `close()`
unfoldable pub close : Exec Connection (Unit {0})
close s = (ok tt, record s { is_open = false; is_writable = false })

-- The loop of `read`; every round receives a byte at least, so `amount` rounds are enough.
unfoldable pub read_loop : ℕ → ℕ → List ℕ → Exec Connection (List ℕ)
unfolding recv close
read_loop zero amount bytes = raise blocked
read_loop (suc fuel) amount bytes =
    if ltb (length bytes) amount
    then (do
      received ← recv (amount - length bytes)
      if length received == 0
          then close >> raise connection_error
          else read_loop fuel amount (bytes ++ received))
    else pure bytes

unfoldable pub read : ℕ → Exec Connection (List ℕ)
unfolding read_loop
read amount = read_loop (suc amount) amount []

-- `sendall`: it fails with a connection error once the peer takes no more data.
unfoldable pub sendall : List ℕ → Exec Connection (Unit {0})
sendall bytes s =
    if s.is_writable
    then (ok tt, record s { sent = s.sent ++ bytes })
    else (err connection_error, s)

-- `self.server.receive_queue.put(message)`
unfoldable pub put : Message → Exec Connection (Unit {0})
put message s = (ok tt, record s { receive_queue = s.receive_queue ++ message ∷ [] })

abbrev pub take_response : List (List ℕ) → Exec Connection (List ℕ)
take_response [] s = (err blocked, s)
take_response (response ∷ rest) s = (ok response, record s { send_queue = rest })

-- `self.server.send_queue.get()` waits while the queue is empty.
unfoldable pub get_response : Exec Connection (List ℕ)
get_response s = take_response s.send_queue s

abbrev pub add_raw : List ℕ → Option (List (List ℕ)) → Exec Connection (Unit {0})
add_raw bytes none s = (ok tt, s)
add_raw bytes (some queue) s = (ok tt, record s { raw_receive_queue = some (queue ++ bytes ∷ []) })

-- The raw bytes are kept only where the server was given a queue for them.
unfoldable pub put_raw : List ℕ → Exec Connection (Unit {0})
put_raw bytes s = add_raw bytes s.raw_receive_queue s
