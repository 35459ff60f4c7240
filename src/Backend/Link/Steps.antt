-- ===== src/Backend/Link/Steps.antt =====
-- One step of the server or of the worker from a state of the invariant, of
-- sigmadsp/sigmastudio/server.py and sigmadsp/backend.py.
use sigmadsp.Prelude.{
  ℕ, ◌≡◌, refl, ap, none, some, Bool-cases, inl, inr, List, [], ◌∷◌, ◌++◌, map, ◌==◌,
}
use sigmadsp.Prelude.Int.{pos}
use sigmadsp.Prelude.Result.{Result, ok, err, connection_error}
use sigmadsp.Conversion.Fixpoint.{FloatOps}
use sigmadsp.Header.{address, data_length, safeload}
use sigmadsp.Header.Items.{value_of}
use sigmadsp.Header.Generator.{PacketHeaderGenerator}
use sigmadsp.Protocol.{Hardware}
use sigmadsp.Dsp.{Dsp, VolumeOps, write, read}
use sigmadsp.Server.Messages.{Message, connection_closed}
use sigmadsp.Server.Packets.{Packet, payload}
use sigmadsp.Server.Socket.{Connection, get_response}
use sigmadsp.Server.Handle.{message_of}
use sigmadsp.Server.Turns.{Turn, reading, waiting, begin_packet, finish_packet, send_response}
use sigmadsp.Server.Waits.{asked}
use sigmadsp.Server.Session.{Exchange, written}
use sigmadsp.Backend.Requests.{WorkerState, serve_request}
use sigmadsp.Backend.Link.{stands, ended, Link, handler_step, worker_step, after_turn, take_turn}
use sigmadsp.Backend.Link.Invariant.{then_left}

pub map-snoc :
    {A B : Type 0} (f : A → B) (xs : List A) (x : A) → map f (xs ++ x ∷ []) ≡ map f xs ++ f x ∷ []
map-snoc f [] x = refl
map-snoc f (y ∷ ys) x = ap (λ (l : List _). f y ∷ l) (map-snoc f ys x)

-- A packet that was received is the last of those that are left to be written.
pub then_left-snoc :
    (ps : List Packet) (p : Packet) (es : List Exchange)
    → then_left ps (written p ∷ es) ≡ then_left (ps ++ p ∷ []) es
then_left-snoc [] p es = refl
then_left-snoc (q ∷ ps) p es = ap (λ (l : List Exchange). written q ∷ l) (then_left-snoc ps p es)

module _ (g : PacketHeaderGenerator) (ops : FloatOps) (volume : VolumeOps ops) (hw : Hardware)
    (dsp : Dsp ops hw) where
  pub begins :
      (c : Link g ops volume hw dsp) (t : Turn) (s : Connection)
      → c.position ≡ stands reading
      → begin_packet g c.connection ≡ (ok t, s)
      → handler_step g ops volume hw dsp c ≡ some (record c { position = stands t; connection = s })
  unfolding handler_step take_turn after_turn
  begins c t s at e = rw (at, e) refl

  pub ends :
      (c : Link g ops volume hw dsp) (s : Connection)
      → c.position ≡ stands reading
      → begin_packet g c.connection ≡ (err connection_error, s)
      → handler_step g ops volume hw dsp c
        ≡ some (record c {
          position = ended (ok tt);
          connection = record s { receive_queue = s.receive_queue ++ connection_closed ∷ [] };
        })
  unfolding handler_step take_turn after_turn
  ends c s at e = rw (at, e) refl

  pub finishes :
      (c : Link g ops volume hw dsp) (p : Packet) (s : Connection)
      → c.position ≡ stands (waiting p)
      → finish_packet g (waiting p) c.connection ≡ (ok tt, s)
      → handler_step g ops volume hw dsp c
        ≡ some (record c { position = stands reading; connection = s })
  unfolding handler_step take_turn after_turn
  finishes c p s at e = rw (at, e) refl

  -- Without a response the handler waits.
  pub waits :
      (c : Link g ops volume hw dsp) (p : Packet)
      → c.position ≡ stands (waiting p)
      → c.connection.send_queue ≡ []
      → handler_step g ops volume hw dsp c ≡ none
  unfolding handler_step take_turn after_turn finish_packet send_response get_response
  waits c p at empty = rw (at, empty) refl

  pub is_over :
      (c : Link g ops volume hw dsp) (r : Result (Unit {0}))
      → c.position ≡ ended r
      → handler_step g ops volume hw dsp c ≡ none
  unfolding handler_step take_turn
  is_over c r at = rw at refl

  -- What the worker makes of the next request.
  abbrev pub after_round :
      Link g ops volume hw dsp → List Message → List (List ℕ) → hw.Device → Link g ops volume hw dsp
  after_round c requests responses d = record c {
    connection = record c.connection { receive_queue = requests; send_queue = responses };
    device = d;
    worker_ended = none;
  }

  pub serves :
      (c : Link g ops volume hw dsp) (m : Message) (ms : List Message) (responses : List (List ℕ))
      (d : hw.Device)
      → c.worker_ended ≡ none
      → c.connection.receive_queue ≡ m ∷ ms
      → serve_request ops volume hw dsp m
          (record { receive_queue = ms; send_queue = c.connection.send_queue; device = c.device })
        ≡ (ok tt, record { receive_queue = ms; send_queue = responses; device = d })
      → worker_step g ops volume hw dsp c ≡ some (after_round c ms responses d)
  unfolding worker_step
  serves c m ms responses d alive queue e = rw (alive, queue, e) refl

  pub idles :
      (c : Link g ops volume hw dsp)
      → c.worker_ended ≡ none
      → c.connection.receive_queue ≡ []
      → worker_step g ops volume hw dsp c ≡ none
  unfolding worker_step
  idles c alive queue = rw (alive, queue) refl

  pub serve_request-write :
      (p : Packet) (w : WorkerState ops volume hw dsp) (d : hw.Device)
      → write hw (pos (value_of address p.header)) (payload p) w.device ≡ (ok tt, d)
      → serve_request ops volume hw dsp (message_of p) w ≡ (ok tt, record w { device = d })
  unfolding serve_request message_of
  serve_request-write p w d e = elim (Bool-cases (value_of safeload p.header == 1)) [
    | inl soft ↦ rw (soft, e) refl
    | inr hard ↦ rw (hard, e) refl
  ]

  pub serve_request-read :
      (p : Packet) (response : List ℕ) (w : WorkerState ops volume hw dsp) (d : hw.Device)
      → read hw (pos (value_of address p.header)) (pos (value_of data_length p.header)) w.device
        ≡ (ok response, d)
      → serve_request ops volume hw dsp (asked p) w
        ≡ (ok tt, record w { device = d; send_queue = w.send_queue ++ response ∷ [] })
  unfolding serve_request
  serve_request-read p response w d e = rw e refl
