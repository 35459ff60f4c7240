-- ===== src/Tests/OnBackend.antt =====
-- The theorems on sigmadsp/backend.py at concrete services.
use sigmadsp.Prelude.{
  ℕ, ◌≡◌, refl, ◌+◌, ◌*◌, ◌-◌, ◌↔◌, Bool, true, false, none, some, List, [], ◌∷◌, ◌++◌, map, arith,
}
use sigmadsp.Prelude.Int.{ℤ, pos, eqb_ℤ}
use sigmadsp.Prelude.Result.{Result, ok, err, value_error}
use sigmadsp.Conversion.Fixpoint.Dyadic.{dyadic_ops}
use sigmadsp.Dsp.{Gpio}
use sigmadsp.Dsp.Words.{run_writes}
use sigmadsp.Parser.{Numbers, Cell, safety_hash}
use sigmadsp.Conversion.{to_bytes}
use sigmadsp.Header.Codec.{encode}
use sigmadsp.Header.Generator.Adau1x01.{generator, adau1x01-IsGenerator}
use sigmadsp.Server.Packets.{payload}
use sigmadsp.Server.{handle}
use sigmadsp.Tests.OnServer.{connected, two_packets, write_packet-IsFrame}
use sigmadsp.Parser.Texts.{Text, codes}
use sigmadsp.Backend.{
  WorkerState, Service, safety_check, ControlResponse, sigma_studio_worker, control_unlocked,
}
use sigmadsp.Backend.Worker.{EndsAs, write_of, stream-run_writes}
use sigmadsp.Backend.Lock.{HashMatches, safety_check-HashMatches}
use sigmadsp.Tests.OnDsp.{recorder, dyadic_volume, dsp14}

abbrev pub digits : ℕ → Text → ℕ
digits n [] = n
digits n (c ∷ text) = digits (n * 10 + (c - b'0')) text

abbrev pub decimal : Text → Result ℤ
decimal text = ok (pos (digits 0 text))

abbrev pub no_float : Text → Result ℤ
no_float text = err value_error

abbrev pub integers : Numbers
integers = record {
  Number = ℤ;
  int_of = decimal;
  float_of = no_float;
  number = λ n. n;
  same_number = eqb_ℤ;
}

abbrev handed : WorkerState dyadic_ops dyadic_volume recorder dsp14
handed = record {
  receive_queue = (handle generator 3 connected).1.receive_queue;
  send_queue = [];
  device = [];
}

stream-run_writes_example :
    EndsAs dyadic_ops dyadic_volume recorder dsp14
      (sigma_studio_worker dyadic_ops dyadic_volume recorder dsp14 handed)
      (run_writes recorder (map write_of two_packets) [])
unfolding encode to_bytes payload
stream-run_writes_example =
    stream-run_writes generator adau1x01-IsGenerator dyadic_ops dyadic_volume recorder dsp14
      two_packets 3 connected handed
      (write_packet-IsFrame 0 (omega arith), (write_packet-IsFrame 1 (omega arith), tt))
      (omega arith, (omega arith, (omega arith, tt))) refl (omega arith) refl refl

abbrev pub hash_cell : Cell integers
hash_cell = record {
  full_name = safety_hash;
  parameter_address = pos 7;
  parameter_name = codes "hash";
  parameter_value = some (pos 0);
}

abbrev pub service : Bool → Service dyadic_ops dyadic_volume recorder dsp14 integers
service unlocked = record {
  configuration_unlocked = unlocked;
  settings = record { path = ok true; file = none; parameter_parser = some (hash_cell ∷ []) };
  started_checks = 0;
  dsp_device = [];
}

safety_check-HashMatches_example :
    ((safety_check dyadic_ops dyadic_volume recorder dsp14 integers
        (service false)).1.configuration_unlocked
      ≡ true)
    ↔ HashMatches dyadic_ops dyadic_volume recorder dsp14 integers (service false)
safety_check-HashMatches_example =
    safety_check-HashMatches dyadic_ops dyadic_volume recorder dsp14 integers (service false)

abbrev pub no_pins : Gpio recorder
no_pins = record { pins = []; switch_on = λ n d. (ok tt, d); switch_off = λ n d. (ok tt, d) }

abbrev pub content : List Text
content =
    (codes "Cell Name = safety_hash" ++ 10 ∷ [])
    ∷ (codes "Parameter Name = hash" ++ 10 ∷ [])
    ∷ (codes "Parameter Address = 7" ++ 10 ∷ [])
    ∷ (codes "Parameter Value = 0" ++ 10 ∷ [])
    ∷ []

abbrev answered : ControlResponse dyadic_ops dyadic_volume recorder dsp14 integers
answered = record { message = control_unlocked; success = true }

abbrev pub after_loading : Service dyadic_ops dyadic_volume recorder dsp14 integers
after_loading = record (service true) {
  settings = record {
    path = ok true;
    file = some (
        codes "Cell Name = safety_hash"
        ++ (10
            ∷ (codes "Parameter Name = hash"
                ++ (10
                    ∷ (codes "Parameter Address = 7"
                        ++ (10 ∷ (codes "Parameter Value = 0" ++ 10 ∷ [])))))));
    parameter_parser = some (hash_cell ∷ []);
  };
}
