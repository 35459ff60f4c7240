-- ===== src/Backend/Worker.antt =====
-- `sigma_studio_worker` of sigmadsp/backend.py on requests to write, and the way of a packet from the
-- TCP server to the registers.
use sigmadsp.Prelude.{
  ℕ, ◌≡◌, refl, Bool-cases, inl, inr, List, [], ◌∷◌, ◌++◌, map, concat, length, ◌<◌, All, ◌==◌,
}
use sigmadsp.Prelude.Int.{ℤ, pos}
use sigmadsp.Prelude.Result.{Result, ok, err}
use sigmadsp.Prelude.Exec.{Exec, continue}
use sigmadsp.Conversion.Fixpoint.{FloatOps}
use sigmadsp.Header.{address, safeload, write_key}
use sigmadsp.Header.Items.{value_of}
use sigmadsp.Protocol.{Hardware}
use sigmadsp.Dsp.{Dsp, VolumeOps, write}
use sigmadsp.Dsp.Words.{run_writes}
use sigmadsp.Server.Messages.{
  Message, write_request, safeload_request, read_request, connection_closed,
}
use sigmadsp.Server.Packets.{Packet, payload}
use sigmadsp.Server.Handle.{message_of}
use sigmadsp.Server.Socket.{Connection}
use sigmadsp.Server.Segments.{AllArrive}
use sigmadsp.Server.Frames.{IsFrame, frame_bytes}
use sigmadsp.Server.Loop.{handle-writes, after_writes}
use sigmadsp.Server.{handle}
use sigmadsp.Header.Generator.{PacketHeaderGenerator}
use sigmadsp.Header.Generator.Laws.{IsGenerator}
use sigmadsp.Backend.{WorkerState, serve_request, work_on, sigma_studio_worker}

-- The writes that a queue without read requests asks for, safeload requests included.
abbrev pub writes_of : List Message → List (ℤ × List ℕ)
writes_of [] = []
writes_of (write_request a bytes ∷ ms) = (a, bytes) ∷ writes_of ms
writes_of (safeload_request a bytes ∷ ms) = (a, bytes) ∷ writes_of ms
writes_of (read_request _ _ ∷ ms) = writes_of ms
writes_of (connection_closed ∷ ms) = writes_of ms

abbrev pub IsNoRead : Message → Type 0
IsNoRead (read_request _ _) = ⊥
IsNoRead _ = Unit

module _ (ops : FloatOps) (volume : VolumeOps ops) (hw : Hardware) (dsp : Dsp ops hw) where
  open hw use {Device}

  -- The worker ended as these calls of the DSP did.
  pub record EndsAs (x : Result (Unit {0}) × WorkerState ops volume hw dsp)
      (y : Result (Unit {0}) × Device) : Type 0 where
    pub result : x.0 ≡ y.0
    pub device_is : x.1.device ≡ y.1

  EndsAs-continue :
      (r : Result (Unit {0})) (m : Exec (WorkerState ops volume hw dsp) (Unit {0}))
      (n : Exec Device (Unit {0})) (s : WorkerState ops volume hw dsp)
      → EndsAs (m s) (n s.device)
      → EndsAs (continue r (λ (u : Unit {0}). m) s) (continue r (λ (u : Unit {0}). n) s.device)
  EndsAs-continue (ok tt) m n s h = h
  EndsAs-continue (err e) m n s h = record { result = refl; device_is = refl }

  work_on-run_writes :
      (ms : List Message) (s : WorkerState ops volume hw dsp)
      → All IsNoRead ms
      → EndsAs (work_on ops volume hw dsp ms s) (run_writes hw (writes_of ms) s.device)
  unfolding work_on serve_request run_writes
  work_on-run_writes [] s h = record { result = refl; device_is = refl }
  work_on-run_writes (write_request a bytes ∷ ms) s h =
      let (r, d) = write hw a bytes s.device in
      let s' = record s { receive_queue = ms; device = d } in
      EndsAs-continue r (work_on ops volume hw dsp ms) (run_writes hw (writes_of ms)) s'
        (work_on-run_writes ms s' h.1)
  work_on-run_writes (safeload_request a bytes ∷ ms) s h =
      let (r, d) = write hw a bytes s.device in
      let s' = record s { receive_queue = ms; device = d } in
      EndsAs-continue r (work_on ops volume hw dsp ms) (run_writes hw (writes_of ms)) s'
        (work_on-run_writes ms s' h.1)
  work_on-run_writes (read_request _ _ ∷ ms) s h = absurd h.0
  work_on-run_writes (connection_closed ∷ ms) s h =
      work_on-run_writes ms (record s { receive_queue = ms }) h.1

  -- On a queue without read requests the worker makes one plain write for each request, in order, until
  -- one raises; also for a safeload request, so `safeload` of the DSP is never called.
  pub sigma_studio_worker-run_writes :
      (s : WorkerState ops volume hw dsp)
      → All IsNoRead (s.receive_queue)
      → EndsAs
          (sigma_studio_worker ops volume hw dsp s)
          (run_writes hw (writes_of s.receive_queue) s.device)
  unfolding sigma_studio_worker
  sigma_studio_worker-run_writes s h = work_on-run_writes s.receive_queue s h

-- The write that a packet asks for.
abbrev pub write_of : Packet → ℤ × List ℕ
write_of p = (pos (value_of address p.header), payload p)

writes_of-packets :
    (ps : List Packet) → writes_of (map message_of ps ++ connection_closed ∷ []) ≡ map write_of ps
unfolding message_of
writes_of-packets [] = refl
writes_of-packets (p ∷ ps) = elim (Bool-cases (value_of safeload p.header == 1)) [
  | inl soft ↦ rw soft (rw (writes_of-packets ps))
  | inr hard ↦ rw hard (rw (writes_of-packets ps))
]

packets-IsNoRead : (ps : List Packet) → All IsNoRead (map message_of ps ++ connection_closed ∷ [])
unfolding message_of
packets-IsNoRead [] = (tt, tt)
packets-IsNoRead (p ∷ ps) = elim (Bool-cases (value_of safeload p.header == 1)) [
  | inl soft ↦ rw soft (tt, packets-IsNoRead ps)
  | inr hard ↦ rw hard (tt, packets-IsNoRead ps)
]

module _ (g : PacketHeaderGenerator) (laws : IsGenerator g) where
  module _ (ops : FloatOps) (volume : VolumeOps ops) (hw : Hardware) (dsp : Dsp ops hw) where
    -- SigmaStudio sends write packets on a new connection and closes it, and the worker gets the queue
    -- that the server filled: the payload of each packet is written to the packet's address, in the
    -- order sent, by a plain write, whatever the safeload flag says, until one of the writes raises.
    pub stream-run_writes :
        (ps : List Packet) (fuel : ℕ) (s : Connection) (w : WorkerState ops volume hw dsp)
        → All (IsFrame g write_key) ps
        → AllArrive s.segments
        → concat s.segments ≡ concat (map frame_bytes ps)
        → length ps < fuel
        → s.receive_queue ≡ []
        → w.receive_queue ≡ (handle g fuel s).1.receive_queue
        → EndsAs ops volume hw dsp
            (sigma_studio_worker ops volume hw dsp w)
            (run_writes hw (map write_of ps) w.device)
    stream-run_writes ps fuel s w frames arrive stream h empty handed =
        let ran : handle g fuel s ≡ (ok tt, after_writes ps s) =
          handle-writes g laws ps fuel s frames arrive stream h in
        let queue : w.receive_queue ≡ map message_of ps ++ connection_closed ∷ [] =
          rw (ran, empty) at handed in
        rw (← writes_of-packets ps) (
          rw (← queue)
            (sigma_studio_worker-run_writes ops volume hw dsp w (rw queue (packets-IsNoRead ps))))
