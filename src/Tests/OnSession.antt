-- ===== src/Tests/OnSession.antt =====
-- The theorems on read requests, of sigmadsp/sigmastudio/server.py, at concrete packets.
use sigmadsp.Prelude.{
  Bool, ◌&&◌, ltb, ◌^◌, ℕ, ◌≡◌, refl, true, none, some, List, [], ◌∷◌, arith, All,
}
use sigmadsp.Prelude.Int.{pos, abs, eqb_ℤ, eq_of_eqb_ℤ}
use sigmadsp.Prelude.Result.{ok}
use sigmadsp.Conversion.{to_bytes}
use sigmadsp.Header.{
  PacketHeader, OperationKey, operation, total_length, chip_address, data_length, address, success,
  read_request_key, read_response_key, same_name, get_item, contains, lookup, set_item, int,
}
use sigmadsp.Header.Codec.{encode, Fits}
use sigmadsp.Header.Items.{HasValue}
use sigmadsp.Header.Update.{size_of}
use sigmadsp.Header.Generator.{PacketHeaderGenerator, header_for, new_header_from_operation_key}
use sigmadsp.Header.Generator.Laws.{IsGenerator}
use sigmadsp.Header.Generator.Layout.{placed}
use sigmadsp.Header.Generator.Adau1x01
use sigmadsp.Header.Generator.Adau1x01.{adau1x01-IsGenerator}
use sigmadsp.Server.Packets.{Packet, payload}
use sigmadsp.Server.Socket.{Connection}
use sigmadsp.Server.Frames.{IsFrame}
use sigmadsp.Server.Reply.{reply_lem}
use sigmadsp.Server.Waits.{IsAnswered}
use sigmadsp.Server.Session.{Exchange, written, answered, handle-exchanges, after_exchanges}
use sigmadsp.Server.{handle}
use sigmadsp.Tests.OnServer.{write_packet, write_packet-IsFrame}

unfoldable pub fits_test : PacketHeader → Bool
fits_test [] = true
fits_test (f ∷ h) =
    eqb_ℤ f.value (pos (abs f.value)) && (ltb (abs f.value) (256 ^ f.size) && fits_test h)

pub fits_test-Fits : (h : PacketHeader) → fits_test h ≡ true → All Fits h
unfolding fits_test
fits_test-Fits [] e = tt
fits_test-Fits (f ∷ h) e = (
  record { nonneg = eq_of_eqb_ℤ f.value (pos (abs f.value)) (ground arith); bound = ground arith },
  fits_test-Fits h (ground arith),
)

-- The template that the laws name is the header that the generator makes.
pub template_is :
    (g : PacketHeaderGenerator) (laws : IsGenerator g) (k : OperationKey) (h : PacketHeader)
    → header_for g k ≡ ok h
    → (laws.template k).0 ≡ h
template_is g laws k h made = cc (made, (laws.template k).1)

-- A request for two bytes at the address 5, in the format of the ADAU1x01 parts.
abbrev request_header : PacketHeader
request_header =
    record { name = operation; offset = 0; size = 1; value = pos 10 }
    ∷ record { name = total_length; offset = 1; size = 2; value = pos 8 }
    ∷ record { name = chip_address; offset = 3; size = 1; value = pos 1 }
    ∷ record { name = data_length; offset = 4; size = 2; value = pos 2 }
    ∷ record { name = address; offset = 6; size = 2; value = pos 5 }
    ∷ []

abbrev pub request_packet : Packet
request_packet = record { header = request_header; stored = none }

abbrev pub response : List ℕ
response = 0 ∷ 0 ∷ []

request_packet-IsFrame : IsFrame Adau1x01.generator read_request_key request_packet
unfolding header_for Adau1x01.new_read_request_header same_name fits_test
request_packet-IsFrame = record {
  header_is = record {
    template = placed Adau1x01.read_request_layout;
    made = refl;
    layout = ground arith;
    fits = fits_test-Fits request_header refl;
    begins = refl;
  };
  payload_follows = refl;
}

pub request_packet-IsAnswered :
    IsAnswered Adau1x01.generator adau1x01-IsGenerator request_packet response
unfolding get_item contains lookup same_name size_of header_for Adau1x01.new_read_response_header
request_packet-IsAnswered = record {
  frame = request_packet-IsFrame;
  long = record {
    item = record { name = data_length; offset = 4; size = 2; value = pos 2 };
    found = refl;
    value_is = refl;
  };
  wide =
      rw
        (template_is Adau1x01.generator adau1x01-IsGenerator read_response_key
          (placed Adau1x01.read_response_layout) refl)
        (ground arith);
}

abbrev pub exchanges : List Exchange
exchanges = written (write_packet 0) ∷ answered request_packet response ∷ []

-- The bytes of the two packets, cut inside the first one.
abbrev pub connected : Connection
connected = record {
  segments =
      (9 ∷ 0 ∷ 1 ∷ 0 ∷ [])
      ∷ (14 ∷ 1 ∷ 0 ∷ 4 ∷ 0 ∷ 5 ∷ 1 ∷ 2 ∷ 3 ∷ 4 ∷ 10 ∷ 0 ∷ 8 ∷ 1 ∷ 0 ∷ 2 ∷ 0 ∷ 5 ∷ [])
      ∷ [];
  is_open = true;
  is_writable = true;
  sent = [];
  receive_queue = [];
  send_queue = response ∷ [];
  raw_receive_queue = some [];
}

handle-exchanges_example :
    handle Adau1x01.generator 3 connected
    ≡ (ok tt, after_exchanges Adau1x01.generator adau1x01-IsGenerator exchanges [] connected)
unfolding encode to_bytes payload
handle-exchanges_example =
    handle-exchanges Adau1x01.generator adau1x01-IsGenerator exchanges 3 [] connected
      (write_packet-IsFrame 0 (omega arith), (request_packet-IsAnswered, tt)) refl refl
      (omega arith, (omega arith, tt)) refl (omega arith)

reply_example :
    (made finished : PacketHeader) × (new_header_from_operation_key Adau1x01.generator
        read_response_key
        (some request_header)
      ≡ ok made)
    × (set_item success (int (pos 0)) made ≡ ok finished)
    × IsFrame Adau1x01.generator read_response_key
        (record { header = finished; stored = some response })
    × HasValue data_length 2 finished
    × HasValue success 0 finished
unfolding same_name
reply_example =
    reply_lem Adau1x01.generator adau1x01-IsGenerator request_packet response data_length 2
      request_packet-IsFrame request_packet-IsAnswered.wide request_packet-IsAnswered.long refl refl
      request_packet-IsAnswered.long (adau1x01-IsGenerator.template read_response_key).2.has.0
