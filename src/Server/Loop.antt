-- ===== src/Server/Loop.antt =====
-- `SigmaStudioRequestHandler.handle` of sigmadsp/sigmastudio/server.py as a loop: a whole
-- connection on which SigmaStudio sends write packets.
use sigmadsp.Prelude.{
  ℕ, zero, suc, ◌<◌, ◌≡◌, refl, ap, ◌∙◌, false, Option, none, some, List, [], ◌∷◌, ◌++◌, map,
  append_assoc, append-nil, arith, length, concat, All,
}
use sigmadsp.Prelude.Result.{Result, ok, err, connection_error}
use sigmadsp.Header.{write_key}
use sigmadsp.Header.Generator.{PacketHeaderGenerator}
use sigmadsp.Header.Generator.Laws.{IsGenerator}
use sigmadsp.Server.Messages.{connection_closed}
use sigmadsp.Server.Packets.{Packet}
use sigmadsp.Server.Socket.{Connection}
use sigmadsp.Server.Segments.{AllArrive}
use sigmadsp.Server.Stream.{read_short}
use sigmadsp.Server.Frames.{IsFrame, frame_bytes}
use sigmadsp.Server.Handle.{message_of, logged, after_write}
use sigmadsp.Server.Exchange.{handle_packet-write}
use sigmadsp.Server.{receive_packet, handle_packet, on_result, handle}

module _ (g : PacketHeaderGenerator) (laws : IsGenerator g) where
  pub handle_step :
      (fuel : ℕ) (s s' : Connection) (r : Result (Unit {0}))
      → handle_packet g s ≡ (r, s')
      → handle g (suc fuel) s ≡ on_result r (handle g fuel) s'
  unfolding handle
  handle_step fuel s s' r e = rw e

  closed : Connection → Connection
  closed s = record s { segments = []; is_open = false; is_writable = false }

  handle_packet-end :
      (s : Connection)
      → concat s.segments ≡ []
      → AllArrive s.segments
      → handle_packet g s ≡ (err connection_error, closed s)
  unfolding handle_packet receive_packet closed
  handle_packet-end s done arrive =
      rw (read_short s 1 arrive (omega (arith, ap (length {A = ℕ}) done)))

  -- With the stream at its end, the loop notes the end of the connection and stops.
  pub handle-end :
      (fuel : ℕ) (s : Connection)
      → concat s.segments ≡ []
      → AllArrive s.segments
      → handle g (suc fuel) s ≡ (
        ok tt,
        record s {
          segments = [];
          is_open = false;
          is_writable = false;
          receive_queue = s.receive_queue ++ connection_closed ∷ [];
        },
      )
  unfolding closed on_result
  handle-end fuel s done arrive =
      handle_step fuel s (closed s) (err connection_error) (handle_packet-end s done arrive)

pub logged-logged :
    (r : Option (List (List ℕ))) (x : List ℕ) (xs : List (List ℕ))
    → logged (logged r (x ∷ [])) xs ≡ logged r (x ∷ xs)
logged-logged none x xs = refl
logged-logged (some q) x xs = ap (λ (l : List (List ℕ)). some l) (append_assoc q (x ∷ []) xs)

pub logged-nil : (r : Option (List (List ℕ))) → logged r [] ≡ r
logged-nil none = refl
logged-nil (some q) = rw append-nil

-- The connection after some write packets and the end of the stream.
abbrev pub after_writes : List Packet → Connection → Connection
after_writes ps s = record s {
  segments = [];
  is_open = false;
  is_writable = false;
  receive_queue = s.receive_queue ++ (map message_of ps ++ connection_closed ∷ []);
  raw_receive_queue = logged s.raw_receive_queue (map frame_bytes ps);
}

after_writes-cons :
    (p : Packet) (ps : List Packet) (s : Connection) (segments : List (List ℕ))
    → ◌≡◌ {A = Result (Unit {0}) × Connection}
        (
          ok tt,
          after_writes ps (record s {
            segments = segments;
            receive_queue = s.receive_queue ++ message_of p ∷ [];
            raw_receive_queue = logged s.raw_receive_queue (frame_bytes p ∷ []);
          }),
        )
        (ok tt, after_writes (p ∷ ps) s)
after_writes-cons p ps s segments = rw (
  append_assoc s.receive_queue (message_of p ∷ []) (map message_of ps ++ connection_closed ∷ []),
  logged-logged s.raw_receive_queue (frame_bytes p) (map frame_bytes ps),
)

module _ (g : PacketHeaderGenerator) (laws : IsGenerator g) where
  -- SigmaStudio sends write packets and closes the connection. However the network cuts the bytes
  -- into segments, `handle` ends in order; the queue to the backend has got exactly one request for
  -- each packet, in the order sent, a safeload request where the packet's flag is 1, and then the
  -- note that the connection was closed; the debugging queue, where there is one, has got the raw
  -- packets; nothing was sent back. One round of the loop for each packet and one more are enough.
  pub handle-writes :
      (ps : List Packet) (fuel : ℕ) (s : Connection)
      → All (IsFrame g write_key) ps
      → AllArrive s.segments
      → concat s.segments ≡ concat (map frame_bytes ps)
      → length ps < fuel
      → handle g fuel s ≡ (ok tt, after_writes ps s)
  unfolding on_result
  handle-writes [] zero s frames arrive stream h = absurd (omega arith)
  handle-writes [] (suc fuel) s frames arrive stream h =
      handle-end g laws fuel s stream arrive ∙ rw (logged-nil s.raw_receive_queue)
  handle-writes (p ∷ ps) zero s frames arrive stream h = absurd (omega arith)
  handle-writes (p ∷ ps) (suc fuel) s frames arrive stream h =
      let (segments, run, left, arrive') =
        handle_packet-write g laws p (concat (map frame_bytes ps)) s frames.0 arrive stream in
      let s' = after_write g laws p s segments in
      let more : handle g fuel s' ≡ (ok tt, after_writes ps s') =
        handle-writes ps fuel s' frames.1 arrive' left (omega arith) in
      handle_step g laws fuel s s' (ok tt) run ∙ more ∙ after_writes-cons p ps s segments
