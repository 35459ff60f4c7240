-- ===== src/Tests/OnRecorder.antt =====
-- The recorder of app/dump_sigma_studio_data.py at concrete packets.
use sigmadsp.Prelude.{◌≡◌, refl, some, [], ◌∷◌, arith, map}
use sigmadsp.Prelude.Result.{ok}
use sigmadsp.Conversion.{to_bytes}
use sigmadsp.Header.{same_name, get_item, contains, lookup}
use sigmadsp.Header.Codec.{encode}
use sigmadsp.Header.Items.{value_of}
use sigmadsp.Header.Generator.Adau1x01
use sigmadsp.Header.Generator.Adau1x01.{adau1x01-IsGenerator}
use sigmadsp.Server.Packets.{payload}
use sigmadsp.Server.Session.{request_of, bytes_of}
use sigmadsp.Server.{handle}
use sigmadsp.Dump.{Dump, dump_sigma_studio}
use sigmadsp.Dump.Recording.{dump-exchanges}
use sigmadsp.Tests.OnServer.{write_packet-IsFrame}
use sigmadsp.Tests.OnSession.{request_packet-IsAnswered, response, exchanges, connected}

abbrev recorder : Dump
recorder = record {
  receive_queue = (handle Adau1x01.generator 3 connected).1.receive_queue;
  raw_receive_queue = (handle Adau1x01.generator 3 connected).1.raw_receive_queue;
  send_queue = [];
  requests = [];
  raw_requests = [];
}

dump-exchanges_example : dump_sigma_studio 3 recorder ≡ (
  ok (map bytes_of exchanges, map request_of exchanges),
  record {
    receive_queue = [];
    raw_receive_queue = some [];
    send_queue = response ∷ [];
    requests = map request_of exchanges;
    raw_requests = map bytes_of exchanges;
  },
)
unfolding encode to_bytes payload value_of get_item contains lookup same_name
dump-exchanges_example =
    dump-exchanges Adau1x01.generator adau1x01-IsGenerator exchanges 3 3 connected recorder
      (write_packet-IsFrame 0 (omega arith), (request_packet-IsAnswered, tt)) (tt, (refl, tt)) refl
      refl refl refl (omega arith, (omega arith, tt)) refl (omega arith) (omega arith) refl refl
      refl
