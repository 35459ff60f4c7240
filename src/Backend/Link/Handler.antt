-- ===== src/Backend/Link/Handler.antt =====
-- The turns of the handler of sigmadsp/sigmastudio/server.py, and the invariant of the server and
-- the worker.
use sigmadsp.Prelude.{
  ℕ, suc, ◌+◌, ◌≡◌, refl, ap, sym, ◌∙◌, false, Option, some, List, [], ◌∷◌, ◌++◌, append_assoc,
  append-nil, map, concat, length, length-append, arith,
}
use sigmadsp.Conversion.Fixpoint.{FloatOps}
use sigmadsp.Header.Generator.{PacketHeaderGenerator}
use sigmadsp.Header.Generator.Laws.{IsGenerator}
use sigmadsp.Protocol.{Hardware}
use sigmadsp.Dsp.{Dsp, VolumeOps}
use sigmadsp.Server.Messages.{Message, connection_closed}
use sigmadsp.Server.Packets.{Packet}
use sigmadsp.Server.Handle.{message_of}
use sigmadsp.Server.Turns.{reading, waiting, finish_packet}
use sigmadsp.Server.Waits.{
  asked, begin_packet-write, begin_packet-read, begin_packet-end, send_response-reply,
}
use sigmadsp.Server.Session.{Exchange, written, answered, bytes_of, IsExchange, reply_bytes}
use sigmadsp.Backend.Link.{stands, Link, handler_step}
use sigmadsp.Backend.Link.Invariant.{
  cost, Serves, then_left, IsLeft, Inv, between, request_put, end_noted,
}
use sigmadsp.Backend.Link.Steps.{map-snoc, then_left-snoc, begins, ends, finishes}

module _ (g : PacketHeaderGenerator) (laws : IsGenerator g) where
  module _ (ops : FloatOps) (volume : VolumeOps ops) (hw : Hardware) (dsp : Dsp ops hw)
      (sent : List ℕ) (last : hw.Device) (total : ℕ) where
    abbrev Kept : ℕ → Link g ops volume hw dsp → Type 0
    Kept = Inv g laws ops volume hw dsp sent last total

    -- A step that keeps the invariant.
    abbrev pub Moves : ℕ → Link g ops volume hw dsp → Option (Link g ops volume hw dsp) → Type 0
    Moves n c step = (c' : Link g ops volume hw dsp) × (step ≡ some c') × Kept (suc n) c'

    -- The handler takes the next packet, or the end of the stream.
    pub handler_between :
        (n : ℕ) (c : Link g ops volume hw dsp) (ps : List Packet) (es : List Exchange)
        → c.position ≡ stands reading
        → c.connection.receive_queue ≡ map message_of ps
        → c.connection.send_queue ≡ []
        → Serves hw (then_left ps es) c.device last
        → c.connection.sent ++ concat (map (reply_bytes g laws) es) ≡ sent
        → n + length ps + cost es ≡ total
        → IsLeft g laws ops volume hw dsp es c
        → Moves n c (handler_step g ops volume hw dsp c)
    unfolding cost
    handler_between n c ps [] at queue empty serves_all sends count left =
        let s = record c.connection { segments = []; is_open = false; is_writable = false } in
        (
          _,
          ends g ops volume hw dsp c s at
              (begin_packet-end g laws c.connection left.stream left.arrive),
          end_noted ps refl (ap (λ (q : List Message). q ++ connection_closed ∷ []) queue) empty
              serves_all (sym (append-nil c.connection.sent) ∙ sends) (omega (arith, count))
              left.alive,
        )
    handler_between n c ps (written p ∷ es) at queue empty serves_all sends count left =
        let (segments, run, stream, arrive) =
          begin_packet-write g laws p (concat (map bytes_of es)) c.connection left.valid.0
            left.arrive left.stream in
        (
          _,
          begins g ops volume hw dsp c reading _ at run,
          between (ps ++ p ∷ []) es refl
              (ap (λ (q : List Message). q ++ message_of p ∷ []) queue
                ∙ sym (map-snoc message_of ps p))
              empty (rw (← then_left-snoc ps p es) serves_all) sends
              (omega (arith, count, length-append ps (p ∷ [])))
              (record {
                valid = left.valid.1;
                arrive = arrive;
                stream = stream;
                writable = left.writable;
                alive = left.alive;
              }),
        )
    handler_between n c ps (answered p response ∷ es) at queue empty serves_all sends count left =
        let (segments, run, stream, arrive) =
          begin_packet-read g laws p (concat (map bytes_of es)) c.connection left.valid.0.frame
            left.arrive left.stream in
        (
          _,
          begins g ops volume hw dsp c (waiting p) _ at run,
          request_put ps p response es refl (ap (λ (q : List Message). q ++ asked p ∷ []) queue)
              empty serves_all sends (omega (arith, count)) left.valid.0
              (record {
                valid = left.valid.1;
                arrive = arrive;
                stream = stream;
                writable = left.writable;
                alive = left.alive;
              }),
        )

    -- The handler takes the response and sends the answer.
    pub handler_response :
        (n : ℕ) (c : Link g ops volume hw dsp) (p : Packet) (response : List ℕ) (es : List Exchange)
        → c.position ≡ stands (waiting p)
        → c.connection.receive_queue ≡ []
        → c.connection.send_queue ≡ response ∷ []
        → Serves hw es c.device last
        → c.connection.sent ++ concat (map (reply_bytes g laws) (answered p response ∷ es)) ≡ sent
        → n + 1 + cost es ≡ total
        → IsExchange g laws (answered p response)
        → IsLeft g laws ops volume hw dsp es c
        → Moves n c (handler_step g ops volume hw dsp c)
    unfolding finish_packet
    handler_response n c p response es at queue queued serves_all sends count valid left =
        let run =
          send_response-reply g laws p response [] c.connection valid queued left.writable in
        (
          _,
          finishes g ops volume hw dsp c p _ at run,
          between [] es refl queue refl serves_all
              (append_assoc c.connection.sent (reply_bytes g laws (answered p response))
                  (concat (map (reply_bytes g laws) es))
                ∙ sends)
              (omega (arith, count))
              (record {
                valid = left.valid;
                arrive = left.arrive;
                stream = left.stream;
                writable = left.writable;
                alive = left.alive;
              }),
        )
