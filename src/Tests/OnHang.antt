-- ===== src/Tests/OnHang.antt =====
-- A read request for no bytes, which sigmadsp/backend.py does not survive.
use sigmadsp.Prelude.{◌≡◌, refl, none, some, [], ◌∷◌, arith}
use sigmadsp.Prelude.Int.{pos}
use sigmadsp.Prelude.Result.{assertion_error}
use sigmadsp.Conversion.{to_bytes}
use sigmadsp.Conversion.Fixpoint.Dyadic.{dyadic_ops}
use sigmadsp.Header.{
  operation, total_length, chip_address, data_length, address, read_request_key, get_item, contains,
  lookup, same_name,
}
use sigmadsp.Header.Generator.{header_for}
use sigmadsp.Header.Generator.Adau1x01
use sigmadsp.Header.Codec.{encode}
use sigmadsp.Header.Items.{value_of}
use sigmadsp.Header.Generator.Adau1x01.{generator, adau1x01-IsGenerator}
use sigmadsp.Dsp.{read}
use sigmadsp.Server.Packets.{Packet, payload}
use sigmadsp.Server.Turns.{waiting}
use sigmadsp.Backend.Link.{stands, Reach}
use sigmadsp.Backend.Link.Hang.{failed_read-hangs}
use sigmadsp.Server.Frames.{IsFrame}
use sigmadsp.Header.Generator.Layout.{placed}
use sigmadsp.Tests.OnDsp.{dyadic_volume}
use sigmadsp.Tests.OnSession.{fits_test, fits_test-Fits}
use sigmadsp.Tests.OnLink.{device, dsp, TestLink, start, Goes}

-- The same request for no bytes: `Dsp.read` refuses the length.
abbrev empty_request : Packet
empty_request = record {
  header =
      record { name = operation; offset = 0; size = 1; value = pos 10 }
      ∷ record { name = total_length; offset = 1; size = 2; value = pos 8 }
      ∷ record { name = chip_address; offset = 3; size = 1; value = pos 1 }
      ∷ record { name = data_length; offset = 4; size = 2; value = pos 0 }
      ∷ record { name = address; offset = 6; size = 2; value = pos 5 }
      ∷ [];
  stored = none;
}

empty_request-IsFrame : IsFrame generator read_request_key empty_request
unfolding header_for Adau1x01.new_read_request_header same_name fits_test
empty_request-IsFrame = record {
  header_is = record {
    template = placed Adau1x01.read_request_layout;
    made = refl;
    layout = ground arith;
    fits = fits_test-Fits empty_request.header refl;
    begins = refl;
  };
  payload_follows = refl;
}

abbrev asks_nothing : TestLink
asks_nothing = record start {
  connection = record start.connection { segments = (10 ∷ 0 ∷ 8 ∷ 1 ∷ 0 ∷ 0 ∷ 0 ∷ 5 ∷ []) ∷ [] };
}

failed_read-hangs_example :
    (c : TestLink) × Reach generator dyadic_ops dyadic_volume device dsp asks_nothing 2 c
    × (c.position ≡ stands (waiting empty_request))
    × (c.worker_ended ≡ some assertion_error)
    × ((c' : TestLink) → ¬ Goes c c')
unfolding encode to_bytes payload value_of get_item contains lookup same_name read
failed_read-hangs_example =
    failed_read-hangs generator dyadic_ops dyadic_volume device dsp adau1x01-IsGenerator
      empty_request [] assertion_error [] asks_nothing empty_request-IsFrame (omega arith, tt) refl
      refl refl refl refl refl
