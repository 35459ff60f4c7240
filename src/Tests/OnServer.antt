-- ===== src/Tests/OnServer.antt =====
-- The theorems on sigmadsp/sigmastudio/server.py at concrete packets of the ADAU1x01 parts.
use sigmadsp.Prelude.{ℕ, ◌≡◌, refl, true, some, List, [], ◌∷◌, arith, ◌<◌, All}
use sigmadsp.Prelude.Int.{pos}
use sigmadsp.Header.{
  PacketHeader, operation, safeload, channel, total_length, chip_address, data_length, address,
  write_key, same_name, get_item, contains, lookup,
}
use sigmadsp.Header.Generator.{header_for}
use sigmadsp.Header.Generator.Adau1x01.{
  generator, new_write_header, write_layout, adau1x01-IsGenerator,
}
use sigmadsp.Header.Generator.Layout.{placed}
use sigmadsp.Header.Codec.{encode, Fits}
use sigmadsp.Header.Items.{value_of}
use sigmadsp.Conversion.{to_bytes}
use sigmadsp.Server.Messages.{write_request, safeload_request, connection_closed}
use sigmadsp.Server.Packets.{Packet, payload}
use sigmadsp.Server.Socket.{Connection}
use sigmadsp.Server.Stream.{Takes}
use sigmadsp.Server.Frames.{IsFrame, frame_bytes}
use sigmadsp.Server.Receive.{receive_packet-Takes}
use sigmadsp.Server.Handle.{message_of}
use sigmadsp.Server.Loop.{after_writes}
use sigmadsp.Server.{receive_packet}

-- A write of four bytes to the address 5, with the given safeload flag.
abbrev pub write_header : ℕ → PacketHeader
write_header flag =
    record { name = operation; offset = 0; size = 1; value = pos 9 }
    ∷ record { name = safeload; offset = 1; size = 1; value = pos flag }
    ∷ record { name = channel; offset = 2; size = 1; value = pos 1 }
    ∷ record { name = total_length; offset = 3; size = 2; value = pos 14 }
    ∷ record { name = chip_address; offset = 5; size = 1; value = pos 1 }
    ∷ record { name = data_length; offset = 6; size = 2; value = pos 4 }
    ∷ record { name = address; offset = 8; size = 2; value = pos 5 }
    ∷ []

abbrev pub write_packet : ℕ → Packet
write_packet flag = record { header = write_header flag; stored = some (1 ∷ 2 ∷ 3 ∷ 4 ∷ []) }

module _ (flag : ℕ) (byte : flag < 256) where
  write_header-Fits : All Fits (write_header flag)
  write_header-Fits = (
    record { nonneg = refl; bound = omega arith },
    (
      record { nonneg = refl; bound = omega (arith, byte) },
      (
        record { nonneg = refl; bound = omega arith },
        (
          record { nonneg = refl; bound = omega arith },
          (
            record { nonneg = refl; bound = omega arith },
            (
              record { nonneg = refl; bound = omega arith },
              (record { nonneg = refl; bound = omega arith }, tt),
            ),
          ),
        ),
      ),
    ),
  )

  pub write_packet-IsFrame : IsFrame generator write_key (write_packet flag)
  unfolding header_for new_write_header get_item contains lookup same_name
  write_packet-IsFrame = record {
    header_is = record {
      template = placed write_layout;
      made = refl;
      layout = (
        refl,
        refl,
        refl,
        (
          refl,
          refl,
          refl,
          (
            refl,
            refl,
            refl,
            (refl, refl, refl, (refl, refl, refl, (refl, refl, refl, (refl, refl, refl, tt)))),
          ),
        ),
      );
      fits = write_header-Fits;
      begins = refl;
    };
    payload_follows = (
      1 ∷ 2 ∷ 3 ∷ 4 ∷ [],
      refl,
      record {
        item = record { name = data_length; offset = 6; size = 2; value = pos 4 };
        found = refl;
        value_is = refl;
      },
    );
  }

-- Two packets, cut inside the first one's header and inside the second one's payload.
abbrev pub segments : List (List ℕ)
segments =
    (9 ∷ 0 ∷ 1 ∷ [])
    ∷ (0 ∷ 14 ∷ 1 ∷ 0 ∷ 4 ∷ 0 ∷ 5 ∷ 1 ∷ 2 ∷ 3 ∷ 4 ∷ 9 ∷ 1 ∷ 1 ∷ 0 ∷ 14 ∷ 1 ∷ 0 ∷ 4 ∷ 0 ∷ 5 ∷ 1 ∷ [])
    ∷ (2 ∷ 3 ∷ 4 ∷ [])
    ∷ []

abbrev pub connected : Connection
connected = record {
  segments = segments;
  is_open = true;
  is_writable = true;
  sent = [];
  receive_queue = [];
  send_queue = [];
  raw_receive_queue = some [];
}

abbrev pub two_packets : List Packet
two_packets = write_packet 0 ∷ write_packet 1 ∷ []

-- The queue to the backend after that run.
queue_after :
    (after_writes two_packets connected).receive_queue
    ≡ write_request (pos 5) (1 ∷ 2 ∷ 3 ∷ 4 ∷ [])
      ∷ safeload_request (pos 5) (1 ∷ 2 ∷ 3 ∷ 4 ∷ [])
      ∷ connection_closed
      ∷ []
unfolding message_of value_of payload get_item same_name
queue_after = refl

receive_packet-Takes_example :
    Takes (receive_packet generator) connected (write_packet 0) (frame_bytes (write_packet 1))
unfolding encode to_bytes payload
receive_packet-Takes_example =
    receive_packet-Takes generator adau1x01-IsGenerator write_key (write_packet 0)
      (frame_bytes (write_packet 1)) connected (write_packet-IsFrame 0 (omega arith))
      (omega arith, (omega arith, (omega arith, tt))) refl
