-- ===== src/Backend/Wire.antt =====
-- From SigmaStudio to the wires: the server and the worker of sigmadsp/backend.py, with a DSP on one of
-- the protocols of sigmadsp/protocols/spi.py and i2c.py.
use sigmadsp.Prelude.{
  ℕ, ◌+◌, ◌*◌, ◌≤◌, ◌<◌, ◌≡◌, refl, sym, true, ◌∙◌, List, [], ◌∷◌, ◌++◌, map, concat, length, All,
  All-append, arith,
}
use sigmadsp.Prelude.Int.{pos, leb_ℤ}
use sigmadsp.Prelude.Exec.{◌>>◌}
use sigmadsp.Conversion.Fixpoint.{FloatOps}
use sigmadsp.Header.{address, write_key}
use sigmadsp.Header.Items.{value_of}
use sigmadsp.Header.Generator.{PacketHeaderGenerator}
use sigmadsp.Header.Generator.Laws.{IsGenerator}
use sigmadsp.Protocol.{Chunk}
use sigmadsp.Protocol.Chunks.{Tiles}
use sigmadsp.Protocol.Spi.{SpiDev, spi_hardware, write_spi, max_spi_bytes}
use sigmadsp.Protocol.{Hardware}
use sigmadsp.Protocol.Framing.{Framing, send_all}
use sigmadsp.Protocol.SpiFrames.{spi_framing}
use sigmadsp.Protocol.I2c.{SmBus, i2c_hardware, write_i2c, max_i2c_bytes}
use sigmadsp.Protocol.I2cMessages.{i2c_framing}
use sigmadsp.Dsp.{Dsp, VolumeOps, write}
use sigmadsp.Dsp.Words.{run_writes, run_writes-step, then_assoc}
use sigmadsp.Server.Packets.{Packet, payload}
use sigmadsp.Server.Socket.{Connection}
use sigmadsp.Server.Segments.{AllArrive}
use sigmadsp.Server.Frames.{IsFrame, frame_bytes}
use sigmadsp.Server.{handle}
use sigmadsp.Backend.{WorkerState, sigma_studio_worker}
use sigmadsp.Backend.Worker.{EndsAs, write_of, stream-run_writes}

-- The payload ends within the registers that an address of two bytes reaches.
abbrev pub IsInReach : Packet → Type 0
IsInReach p = value_of address p.header * 4 + length (payload p) ≤ 65536 * 4

module _ (hw : Hardware) (framing : Framing hw) where
  open framing use {frame_of, send, words, limit, writes}

  -- The frames are those of the packets, in order: those of a packet are chunks of at most `words`
  -- registers that tile its payload from its address on.
  abbrev pub AreFramesOf : List Packet → List (List ℕ) → Type 0
  AreFramesOf [] frames = frames ≡ []
  AreFramesOf (p ∷ ps) frames =
      (cs : List Chunk) × (rest : List (List ℕ)) × (frames ≡ map frame_of cs ++ rest)
      × Tiles words (value_of address p.header) (payload p) cs
      × AreFramesOf ps rest

  send_all-append :
      (xs ys : List (List ℕ)) (d : hw.Device)
      → send_all send (xs ++ ys) d ≡ (send_all send xs >> send_all send ys) d
  unfolding send_all
  send_all-append [] ys d = refl
  send_all-append (x ∷ xs) ys d =
      let (r, d') = send x d in
      run_writes-step hw r (send_all send (xs ++ ys)) (send_all send xs >> send_all send ys) d'
        (send_all-append xs ys d')
      ∙ then_assoc hw (send x) (send_all send xs) (send_all send ys) d

  -- An address that is not negative passes the assertion of `Dsp.write`.
  write-hw :
      (register : ℕ) (bytes : List ℕ) (d : hw.Device)
      → write hw (pos register) bytes d ≡ hw.write_hw register bytes d
  unfolding write
  write-hw register bytes d =
      let not_negative : leb_ℤ (pos 0) (pos register) ≡ true = ground arith in rw not_negative refl

  -- The writes of some packets are frames on the wire.
  run_writes-frames :
      (ps : List Packet) (d : hw.Device)
      → All IsInReach ps
      → (frames : List (List ℕ)) × AreFramesOf ps frames
        × All (λ (f : List ℕ). length f ≤ limit) frames
        × (run_writes hw (map write_of ps) d ≡ send_all send frames d)
  unfolding run_writes
  run_writes-frames [] d h = ([], refl, tt, unfold send_all in refl)
  run_writes-frames (p ∷ ps) d h =
      let register = value_of address p.header in
      let (cs, tiles, run, short) = writes register (payload p) d h.0 in
      let first = map frame_of cs in
      let sent : write hw (pos register) (payload p) d ≡ send_all send first d =
        write-hw register (payload p) d ∙ run in
      let (rest, are, shorts, more) = run_writes-frames ps (send_all send first d).1 h.1 in
      (
        first ++ rest,
        (cs, rest, refl, tiles, are),
        All-append (λ (f : List ℕ). length f ≤ limit) first rest short shorts,
        rw sent (
            run_writes-step hw (send_all send first d).0 (run_writes hw (map write_of ps))
              (send_all send rest) _ more
            ∙ sym (send_all-append first rest d)),
      )

  module _ (g : PacketHeaderGenerator) (laws : IsGenerator g) (ops : FloatOps)
      (volume : VolumeOps ops) (dsp : Dsp ops hw) where
    -- SigmaStudio sends write packets, whose payloads are within the registers, on a new connection and
    -- closes it; the worker gets the queue that the server filled.
    pub stream-framed :
        (ps : List Packet) (fuel : ℕ) (s : Connection) (w : WorkerState ops volume hw dsp)
        → All (IsFrame g write_key) ps
        → All IsInReach ps
        → AllArrive s.segments
        → concat s.segments ≡ concat (map frame_bytes ps)
        → length ps < fuel
        → s.receive_queue ≡ []
        → w.receive_queue ≡ (handle g fuel s).1.receive_queue
        → (frames : List (List ℕ)) × AreFramesOf ps frames
          × All (λ (f : List ℕ). length f ≤ limit) frames
          × EndsAs ops volume hw dsp
              (sigma_studio_worker ops volume hw dsp w)
              (send_all send frames w.device)
    stream-framed ps fuel s w valid reach arrive stream h empty handed =
        let ends =
          stream-run_writes g laws ops volume hw dsp ps fuel s w valid arrive stream h empty
            handed in
        let (frames, are, short, run) = run_writes-frames ps w.device reach in
        (frames, are, short, rw run at ends)

module _ (g : PacketHeaderGenerator) (laws : IsGenerator g) where
  module _ (ops : FloatOps) (spi : SpiDev) (volume : VolumeOps ops)
      (dsp : Dsp ops (spi_hardware spi)) where
    -- SigmaStudio sends write packets, whose payloads are within the registers, on a new connection and
    -- closes it; the worker, with a DSP on SPI, gets the queue that the server filled. However the
    -- network cuts the bytes, it ends as the sending of some SPI frames ends, where a failed transfer is
    -- passed over: the frames have at most 1024 bytes each, and are, packet by packet in the order
    -- sent, a write command, an address of two bytes and at most 255 words, which tile the packet's
    -- payload from the packet's address on.
    pub stream-frames :
        (ps : List Packet) (fuel : ℕ) (s : Connection)
        (w : WorkerState ops volume (spi_hardware spi) dsp)
        → All (IsFrame g write_key) ps
        → All IsInReach ps
        → AllArrive s.segments
        → concat s.segments ≡ concat (map frame_bytes ps)
        → length ps < fuel
        → s.receive_queue ≡ []
        → w.receive_queue ≡ (handle g fuel s).1.receive_queue
        → (frames : List (List ℕ)) × AreFramesOf (spi_hardware spi) (spi_framing spi) ps frames
          × All (λ (f : List ℕ). length f ≤ max_spi_bytes) frames
          × EndsAs ops volume
              (spi_hardware spi)
              dsp
              (sigma_studio_worker ops volume (spi_hardware spi) dsp w)
              (send_all (write_spi spi) frames w.device)
    stream-frames = stream-framed (spi_hardware spi) (spi_framing spi) g laws ops volume dsp

  module _ (ops : FloatOps) (bus : SmBus) (volume : VolumeOps ops)
      (dsp : Dsp ops (i2c_hardware bus)) where
    -- SigmaStudio sends write packets, whose payloads are within the registers, on a new connection and
    -- closes it; the worker, with a DSP on I2C, gets the queue that the server filled. However the
    -- network cuts the bytes, it ends as the sending of some I2C messages ends, where a failed transfer
    -- is passed over: the messages have at most 1024 bytes each, and are, packet by packet in the order
    -- sent, an address of two bytes and at most 255 words, which tile the packet's payload from the
    -- packet's address on.
    pub stream-messages :
        (ps : List Packet) (fuel : ℕ) (s : Connection)
        (w : WorkerState ops volume (i2c_hardware bus) dsp)
        → All (IsFrame g write_key) ps
        → All IsInReach ps
        → AllArrive s.segments
        → concat s.segments ≡ concat (map frame_bytes ps)
        → length ps < fuel
        → s.receive_queue ≡ []
        → w.receive_queue ≡ (handle g fuel s).1.receive_queue
        → (frames : List (List ℕ)) × AreFramesOf (i2c_hardware bus) (i2c_framing bus) ps frames
          × All (λ (f : List ℕ). length f ≤ max_i2c_bytes) frames
          × EndsAs ops volume
              (i2c_hardware bus)
              dsp
              (sigma_studio_worker ops volume (i2c_hardware bus) dsp w)
              (send_all (write_i2c bus) frames w.device)
    stream-messages = stream-framed (i2c_hardware bus) (i2c_framing bus) g laws ops volume dsp
