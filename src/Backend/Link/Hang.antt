-- ===== src/Backend/Link/Hang.antt =====
-- A read of the DSP that raises in `sigma_studio_worker` of sigmadsp/backend.py, and the handler of
-- sigmadsp/sigmastudio/server.py that waits for its data.
use sigmadsp.Prelude.{ℕ, ◌≡◌, refl, ap, none, some, List, [], ◌∷◌, ◌++◌, concat}
use sigmadsp.Prelude.Int.{pos}
use sigmadsp.Prelude.Result.{Error, err}
use sigmadsp.Conversion.Fixpoint.{FloatOps}
use sigmadsp.Header.{read_request_key, address, data_length}
use sigmadsp.Header.Items.{value_of}
use sigmadsp.Header.Generator.{PacketHeaderGenerator}
use sigmadsp.Header.Generator.Laws.{IsGenerator}
use sigmadsp.Protocol.{Hardware}
use sigmadsp.Dsp.{Dsp, VolumeOps, read}
use sigmadsp.Server.Messages.{Message}
use sigmadsp.Server.Packets.{Packet}
use sigmadsp.Server.Segments.{AllArrive}
use sigmadsp.Server.Frames.{IsFrame, frame_bytes}
use sigmadsp.Server.Turns.{reading, waiting}
use sigmadsp.Server.Waits.{asked, begin_packet-read}
use sigmadsp.Backend.Requests.{serve_request}
use sigmadsp.Backend.Link.{
  stands, Link, handler_step, worker_step, Step, handler, worker, Reach, here, next,
}
use sigmadsp.Backend.Link.Steps.{begins, waits}

module _ (g : PacketHeaderGenerator) (ops : FloatOps) (volume : VolumeOps ops) (hw : Hardware)
    (dsp : Dsp ops hw) where
  -- An exception ends the worker.
  fails :
      (c : Link g ops volume hw dsp) (p : Packet) (e : Error) (d : hw.Device)
      → c.worker_ended ≡ none
      → c.connection.receive_queue ≡ asked p ∷ []
      → read hw (pos (value_of address p.header)) (pos (value_of data_length p.header)) c.device
        ≡ (err e, d)
      → worker_step g ops volume hw dsp c
        ≡ some (record c {
          connection = record c.connection { receive_queue = [] };
          device = d;
          worker_ended = some e;
        })
  unfolding worker_step serve_request
  fails c p e d alive queue raises = rw (alive, queue, raises) refl

  is_dead :
      (c : Link g ops volume hw dsp) (e : Error)
      → c.worker_ended ≡ some e
      → worker_step g ops volume hw dsp c ≡ none
  unfolding worker_step
  is_dead c e dead = rw dead refl

  no-Step :
      (c : Link g ops volume hw dsp)
      → handler_step g ops volume hw dsp c ≡ none
      → worker_step g ops volume hw dsp c ≡ none
      → (c' : Link g ops volume hw dsp) → ¬ Step g ops volume hw dsp c c'
  no-Step c h w c' (handler e) = cc (h, e)
  no-Step c h w c' (worker e) = cc (w, e)

  module _ (laws : IsGenerator g) where
    -- SigmaStudio sends a read request on a new connection, and the read of the DSP raises, for example
    -- as no bytes are asked for. Then a state is reached in which the worker has ended with the
    -- exception, the handler waits for the data, and no thread can ever take a step again, whatever
    -- SigmaStudio has sent after the request.
    pub failed_read-hangs :
        (p : Packet) (rest : List ℕ) (e : Error) (d : hw.Device) (start : Link g ops volume hw dsp)
        → IsFrame g read_request_key p
        → AllArrive start.connection.segments
        → concat start.connection.segments ≡ frame_bytes p ++ rest
        → start.position ≡ stands reading
        → start.worker_ended ≡ none
        → start.connection.receive_queue ≡ []
        → start.connection.send_queue ≡ []
        → read hw
            (pos (value_of address p.header))
            (pos (value_of data_length p.header))
            start.device
          ≡ (err e, d)
        → (c : Link g ops volume hw dsp) × Reach g ops volume hw dsp start 2 c
          × (c.position ≡ stands (waiting p))
          × (c.worker_ended ≡ some e)
          × ((c' : Link g ops volume hw dsp) → ¬ Step g ops volume hw dsp c c')
    failed_read-hangs p rest e d start frame arrive stream at alive queue empty raises =
        let (segments, run, _, _) =
          begin_packet-read g laws p rest start.connection frame arrive stream in
        let first = begins g ops volume hw dsp start (waiting p) _ at run in
        let second =
          fails _ p e d alive (ap (λ (q : List Message). q ++ asked p ∷ []) queue) raises in
        let hangs = waits g ops volume hw dsp _ p refl empty in
        (
          _,
          next (next here (handler first)) (worker second),
          refl,
          refl,
          no-Step _ hangs (is_dead _ e refl),
        )
