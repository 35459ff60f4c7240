-- ===== src/Tests/OnLink.antt =====
-- The theorems on the server and the worker as two threads, at a write packet and a read request.
use sigmadsp.Prelude.{
  ℕ, ◌≤◌, ◌<◌, refl, true, false, none, some, List, [], ◌∷◌, ◌++◌, arith, replicate, concat, map,
}
use sigmadsp.Prelude.Int.{pos}
use sigmadsp.Prelude.Result.{ok}
use sigmadsp.Conversion.{to_bytes, from_bytes, int_to_bytes}
use sigmadsp.Conversion.Fixpoint.Dyadic.{dyadic_ops}
use sigmadsp.Header.{
  get_item, contains, lookup, same_name, set_value, size, parse, carries_payload, as_bytes,
  is_safeload, is_read_request, set_item, copy_from_template,
}
use sigmadsp.Header.Generator.{new_header_from_operation_byte, new_header_from_operation_key}
use sigmadsp.Header.Generator.Adau1x01
use sigmadsp.Header.Codec.{encode}
use sigmadsp.Header.Items.{value_of}
use sigmadsp.Header.Generator.Adau1x01.{generator, adau1x01-IsGenerator}
use sigmadsp.Protocol.{Hardware}
use sigmadsp.Dsp.{Dsp, write, read}
use sigmadsp.Dsp.Adau1x0x.{adau1x0x}
use sigmadsp.Server.Messages.{write_request, read_request, connection_closed}
use sigmadsp.Server.Socket
use sigmadsp.Server.Packets
use sigmadsp.Server.Packets.{Packet, payload, new_packet}
use sigmadsp.Server.Turns.{reading, waiting}
use sigmadsp.Server.Session.{reply_bytes}
use sigmadsp.Backend.Link.{
  Link, stands, ended, handler_step, worker_step, Step, handler, worker, Reach, here, next,
}
use sigmadsp.Backend.Link.Invariant.{cost, Serves}
use sigmadsp.Backend.Link.Outcome.{IsStart, IsDone, link-IsDone, link_terminates}
use sigmadsp.Tests.OnDsp.{dyadic_volume}
use sigmadsp.Tests.OnServer.{write_packet-IsFrame}
use sigmadsp.Tests.OnSession.{exchanges, request_packet, connected, request_packet-IsAnswered}

-- A device that keeps what was written, and reads as zeros.
abbrev pub device : Hardware
device = record {
  Device = List (ℕ × List ℕ);
  write_hw = λ a bytes d. (ok tt, d ++ (a, bytes) ∷ []);
  read_hw = λ a n d. (ok (replicate n 0), d);
}

abbrev pub dsp : Dsp dyadic_ops device
dsp = adau1x0x device dyadic_ops true

abbrev pub TestLink : Type 0
TestLink = Link generator dyadic_ops dyadic_volume device dsp

abbrev pub start : TestLink
start = record {
  connection = record connected { send_queue = [] };
  position = stands reading;
  device = [];
  worker_ended = none;
}

abbrev packet_bytes : List ℕ
packet_bytes = 9 ∷ 0 ∷ 1 ∷ 0 ∷ 14 ∷ 1 ∷ 0 ∷ 4 ∷ 0 ∷ 5 ∷ 1 ∷ 2 ∷ 3 ∷ 4 ∷ []

abbrev request_bytes : List ℕ
request_bytes = 10 ∷ 0 ∷ 8 ∷ 1 ∷ 0 ∷ 2 ∷ 0 ∷ 5 ∷ []

abbrev answer_bytes : List ℕ
answer_bytes = 11 ∷ 0 ∷ 2 ∷ 0 ∷ 0 ∷ 0 ∷ []

-- The states of one schedule: the handler takes both packets before the worker starts.
abbrev packet_taken : TestLink
packet_taken = record start {
  connection = record start.connection {
    segments = request_bytes ∷ [];
    receive_queue = write_request (pos 5) (1 ∷ 2 ∷ 3 ∷ 4 ∷ []) ∷ [];
    raw_receive_queue = some (packet_bytes ∷ []);
  };
}

abbrev request_taken : TestLink
request_taken = record start {
  connection = record start.connection {
    segments = [];
    receive_queue = write_request (pos 5) (1 ∷ 2 ∷ 3 ∷ 4 ∷ []) ∷ read_request (pos 5) (pos 2) ∷ [];
    raw_receive_queue = some (packet_bytes ∷ request_bytes ∷ []);
  };
  position = stands (waiting request_packet);
}

abbrev registers : List (ℕ × List ℕ)
registers = (5, 1 ∷ 2 ∷ 3 ∷ 4 ∷ []) ∷ []

abbrev packet_written : TestLink
packet_written = record request_taken {
  connection = record request_taken.connection {
    receive_queue = read_request (pos 5) (pos 2) ∷ [];
  };
  device = registers;
}

abbrev response_given : TestLink
response_given = record packet_written {
  connection = record packet_written.connection {
    receive_queue = [];
    send_queue = (0 ∷ 0 ∷ []) ∷ [];
  };
}

abbrev answer_sent : TestLink
answer_sent = record response_given {
  connection = record response_given.connection { send_queue = []; sent = answer_bytes };
  position = stands reading;
}

abbrev end_seen : TestLink
end_seen = record answer_sent {
  connection = record answer_sent.connection {
    is_open = false;
    is_writable = false;
    receive_queue = connection_closed ∷ [];
  };
  position = ended (ok tt);
}

abbrev final : TestLink
final = record end_seen { connection = record end_seen.connection { receive_queue = [] } }

abbrev pub Goes : TestLink → TestLink → Type 0
Goes = Step generator dyadic_ops dyadic_volume device dsp

takes_packet : Goes start packet_taken
unfolding handler_step Socket.read new_header_from_operation_byte from_bytes
    Adau1x01.new_write_header same_name set_value size parse carries_payload new_packet
    Packets.as_bytes as_bytes int_to_bytes is_safeload to_bytes
takes_packet = handler refl

takes_request : Goes packet_taken request_taken
unfolding handler_step Socket.read new_header_from_operation_byte from_bytes
    Adau1x01.new_read_request_header same_name set_value size parse carries_payload new_packet
    Packets.as_bytes as_bytes int_to_bytes is_read_request to_bytes
takes_request = handler refl

writes_packet : Goes request_taken packet_written
unfolding worker_step write
writes_packet = worker refl

reads_register : Goes packet_written response_given
unfolding worker_step read
reads_register = worker refl

sends_answer : Goes response_given answer_sent
unfolding handler_step new_header_from_operation_key to_bytes from_bytes
    Adau1x01.new_read_response_header same_name set_value new_packet Packets.as_bytes as_bytes
    int_to_bytes get_item lookup contains copy_from_template set_item
sends_answer = handler refl

sees_end : Goes answer_sent end_seen
unfolding handler_step Socket.read
sees_end = handler refl

takes_end : Goes end_seen final
unfolding worker_step
takes_end = worker refl

start-IsStart :
    IsStart generator adau1x01-IsGenerator dyadic_ops dyadic_volume device dsp exchanges start
unfolding encode to_bytes payload
start-IsStart = record {
  left = record {
    valid = (write_packet-IsFrame 0 (omega arith), (request_packet-IsAnswered, tt));
    arrive = (omega arith, (omega arith, tt));
    stream = refl;
    writable = refl;
    alive = refl;
  };
  at = refl;
  none_taken = refl;
  none_given = refl;
}

exchanges-Serves : Serves device exchanges [] registers
unfolding Serves write read value_of get_item contains lookup same_name payload
exchanges-Serves = (_, refl, (_, refl, refl))

reach_final : Reach generator dyadic_ops dyadic_volume device dsp start 7 final
reach_final =
    next
      (next
        (next
          (next (next (next (next here takes_packet) takes_request) writes_packet) reads_register)
          sends_answer)
        sees_end)
      takes_end

final-no_step : (c : TestLink) → ¬ Goes final c
unfolding handler_step worker_step
final-no_step c (handler e) = ground arith
final-no_step c (worker e) = ground arith

link-IsDone_example :
    IsDone generator adau1x01-IsGenerator dyadic_ops dyadic_volume device dsp
      (concat (map (reply_bytes generator adau1x01-IsGenerator) exchanges))
      registers
      final
link-IsDone_example =
    link-IsDone generator adau1x01-IsGenerator dyadic_ops dyadic_volume device dsp exchanges start
      registers 7 final start-IsStart exchanges-Serves reach_final final-no_step

link_terminates_example :
    (7 ≤ cost exchanges)
    × (7 < cost exchanges
        → (c : TestLink) × Step generator dyadic_ops dyadic_volume device dsp final c)
link_terminates_example =
    link_terminates generator adau1x01-IsGenerator dyadic_ops dyadic_volume device dsp exchanges
      start registers 7 final start-IsStart exchanges-Serves reach_final
