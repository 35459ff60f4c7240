-- ===== src/Server/Exchange.antt =====
-- One packet at a time: `handle_packet`, the body of `SigmaStudioRequestHandler.handle` of
-- sigmadsp/sigmastudio/server.py, on a write packet and on a read request.
use sigmadsp.Prelude.{ℕ, ◌≡◌, refl, ◌∙◌, true, List, [], ◌∷◌, ◌++◌, concat}
use sigmadsp.Prelude.Result.{ok}
use sigmadsp.Header.{write_key}
use sigmadsp.Header.Generator.{PacketHeaderGenerator}
use sigmadsp.Header.Generator.Laws.{IsGenerator}
use sigmadsp.Server.Packets.{Packet}
use sigmadsp.Server.Socket.{Connection}
use sigmadsp.Server.Segments.{AllArrive}
use sigmadsp.Server.Frames.{IsFrame, frame_bytes}
use sigmadsp.Server.Handle.{logged}
use sigmadsp.Server.{handle_packet}
use sigmadsp.Server.Turns.{handle_packet-begin, finish_packet, begin_packet, Turn, reading, waiting}
use sigmadsp.Server.Waits.{
  IsAnswered, after_read, after_asked, begin_packet-write, begin_packet-read, send_response-reply,
}
use sigmadsp.Server.Handle.{after_write}

module _ (g : PacketHeaderGenerator) (laws : IsGenerator g) where
  -- The part up to the wait, and the rest.
  both_parts :
      (s t : Connection) (turn : Turn)
      → begin_packet g s ≡ (ok turn, t)
      → handle_packet g s ≡ finish_packet g turn t
  both_parts s t turn e = handle_packet-begin g s ∙ rw e refl

  pub handle_packet-write :
      (p : Packet) (rest : List ℕ) (s : Connection)
      → IsFrame g write_key p
      → AllArrive s.segments
      → concat s.segments ≡ frame_bytes p ++ rest
      → (segments : List (List ℕ)) × (handle_packet g s ≡ (ok tt, after_write g laws p s segments))
        × (concat segments ≡ rest)
        × AllArrive segments
  unfolding finish_packet
  handle_packet-write p rest s frame arrive stream =
      let (segments, run, left, arrive') = begin_packet-write g laws p rest s frame arrive stream in
      (segments, both_parts s (after_write g laws p s segments) reading run, left, arrive')

  pub handle_packet-read :
      (p : Packet) (response : List ℕ) (more : List (List ℕ)) (rest : List ℕ) (s : Connection)
      → IsAnswered g laws p response
      → s.send_queue ≡ response ∷ more
      → s.is_writable ≡ true
      → AllArrive s.segments
      → concat s.segments ≡ frame_bytes p ++ rest
      → (segments : List (List ℕ)) × (handle_packet g s ≡ (
        ok tt,
        after_read g laws p response more (record s {
          segments = segments;
          raw_receive_queue = logged s.raw_receive_queue (frame_bytes p ∷ []);
        }),
      ))
        × (concat segments ≡ rest)
        × AllArrive segments
  unfolding finish_packet
  handle_packet-read p response more rest s answered queue writable arrive stream =
      let (segments, run, left, arrive') =
        begin_packet-read g laws p rest s answered.frame arrive stream in
      (
        segments,
        both_parts s (after_asked g laws p segments s) (waiting p) run
            ∙ send_response-reply g laws p response more (after_asked g laws p segments s) answered
                queue writable,
        left,
        arrive',
      )
