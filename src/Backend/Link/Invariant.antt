-- ===== src/Backend/Link/Invariant.antt =====
-- What holds in every state that the server and the worker reach, of sigmadsp/sigmastudio/server.py and
-- sigmadsp/backend.py, while SigmaStudio sends packets that the DSP can serve.
use sigmadsp.Prelude.{ℕ, ◌+◌, ◌≡◌, true, none, List, [], ◌∷◌, ◌++◌, map, concat, length, All}
use sigmadsp.Prelude.Int.{pos}
use sigmadsp.Prelude.Result.{ok}
use sigmadsp.Conversion.Fixpoint.{FloatOps}
use sigmadsp.Header.{address, data_length}
use sigmadsp.Header.Items.{value_of}
use sigmadsp.Header.Generator.{PacketHeaderGenerator}
use sigmadsp.Header.Generator.Laws.{IsGenerator}
use sigmadsp.Protocol.{Hardware}
use sigmadsp.Dsp.{Dsp, VolumeOps, write, read}
use sigmadsp.Server.Messages.{connection_closed}
use sigmadsp.Server.Packets.{Packet, payload}
use sigmadsp.Server.Segments.{AllArrive}
use sigmadsp.Server.Handle.{message_of}
use sigmadsp.Server.Turns.{reading, waiting}
use sigmadsp.Server.Waits.{asked}
use sigmadsp.Server.Session.{Exchange, written, answered, bytes_of, IsExchange, reply_bytes}
use sigmadsp.Backend.Link.{stands, ended, Link}

-- The steps of the two threads that are left: a packet takes a turn and a round, and a turn more for its
-- answer; so does the end of the stream.
unfoldable pub cost : List Exchange → ℕ
cost [] = 2
cost (written _ ∷ es) = 2 + cost es
cost (answered _ _ ∷ es) = 3 + cost es

module _ (hw : Hardware) where
  open hw use {Device}

  -- The calls of the DSP that the packets ask for, made directly and in order, return, from the first
  -- state of the device to the second; and the reads return the data of the answers.
  unfoldable pub Serves : List Exchange → Device → Device → Type 0
  Serves [] d d' = d ≡ d'
  Serves (written p ∷ es) d d' =
      (e : Device) × (write hw (pos (value_of address p.header)) (payload p) d ≡ (ok tt, e))
      × Serves es e d'
  Serves (answered p response ∷ es) d d' =
      (e : Device) × (read hw (pos (value_of address p.header))
          (pos (value_of data_length p.header)) d
        ≡ (ok response, e))
      × Serves es e d'

-- The writes that the worker has not made yet come first.
abbrev pub then_left : List Packet → List Exchange → List Exchange
then_left ps es = map written ps ++ es

module _ (g : PacketHeaderGenerator) (laws : IsGenerator g) where
  module _ (ops : FloatOps) (volume : VolumeOps ops) (hw : Hardware) (dsp : Dsp ops hw) where
    -- The part of the stream that was not received yet, and the threads.
    pub record IsLeft (es : List Exchange) (c : Link g ops volume hw dsp) : Type 0 where
      pub valid : All (IsExchange g laws) es
      pub arrive : AllArrive c.connection.segments
      pub stream : concat c.connection.segments ≡ concat (map bytes_of es)
      pub writable : c.connection.is_writable ≡ true
      pub alive : c.worker_ended ≡ none

    module _ (sent : List ℕ) (last : hw.Device) (total : ℕ) where
      abbrev WillSend : List Exchange → List ℕ → Type 0
      WillSend es now = now ++ concat (map (reply_bytes g laws) es) ≡ sent

      -- Between packets; at the wait, before and after the worker put the response; after the end of the
      -- stream, before and after the worker took the note of it.
      pub data Inv (n : ℕ) (c : Link g ops volume hw dsp) : Type 0 where
        between :
            (ps : List Packet) (es : List Exchange)
            → c.position ≡ stands reading
            → c.connection.receive_queue ≡ map message_of ps
            → c.connection.send_queue ≡ []
            → Serves hw (then_left ps es) c.device last
            → WillSend es c.connection.sent
            → n + length ps + cost es ≡ total
            → IsLeft es c
            → Inv n c
        request_put :
            (ps : List Packet) (p : Packet) (response : List ℕ) (es : List Exchange)
            → c.position ≡ stands (waiting p)
            → c.connection.receive_queue ≡ map message_of ps ++ asked p ∷ []
            → c.connection.send_queue ≡ []
            → Serves hw (then_left ps (answered p response ∷ es)) c.device last
            → WillSend (answered p response ∷ es) c.connection.sent
            → n + length ps + 2 + cost es ≡ total
            → IsExchange g laws (answered p response)
            → IsLeft es c
            → Inv n c
        response_put :
            (p : Packet) (response : List ℕ) (es : List Exchange)
            → c.position ≡ stands (waiting p)
            → c.connection.receive_queue ≡ []
            → c.connection.send_queue ≡ response ∷ []
            → Serves hw es c.device last
            → WillSend (answered p response ∷ es) c.connection.sent
            → n + 1 + cost es ≡ total
            → IsExchange g laws (answered p response)
            → IsLeft es c
            → Inv n c
        end_noted :
            (ps : List Packet)
            → c.position ≡ ended (ok tt)
            → c.connection.receive_queue ≡ map message_of ps ++ connection_closed ∷ []
            → c.connection.send_queue ≡ []
            → Serves hw (then_left ps []) c.device last
            → c.connection.sent ≡ sent
            → n + length ps + 1 ≡ total
            → c.worker_ended ≡ none
            → Inv n c
        end_taken :
            c.position ≡ ended (ok tt)
            → c.connection.receive_queue ≡ []
            → c.connection.send_queue ≡ []
            → c.device ≡ last
            → c.connection.sent ≡ sent
            → n ≡ total
            → c.worker_ended ≡ none
            → Inv n c
