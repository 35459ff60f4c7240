-- ===== src/Tests/OnRefusal.antt =====
-- A read request that sigmadsp/sigmastudio/server.py cannot answer.
use sigmadsp.Prelude.{ℕ, ◌≡◌, refl, none, List, [], ◌∷◌, arith, concat}
use sigmadsp.Prelude.Int.{pos}
use sigmadsp.Prelude.Result.{err, assertion_error}
use sigmadsp.Conversion.{to_bytes}
use sigmadsp.Header.{
  operation, total_length, chip_address, data_length, address, reserved, read_request_key,
  read_response_key, same_name, get_item, contains, lookup,
}
use sigmadsp.Header.Codec.{encode}
use sigmadsp.Header.Update.{size_of}
use sigmadsp.Header.Generator.{header_for}
use sigmadsp.Header.Generator.Layout.{placed}
use sigmadsp.Header.Generator.Adau14xx
use sigmadsp.Header.Generator.Adau14xx.{adau14xx-IsGenerator}
use sigmadsp.Server.Packets.{Packet, payload}
use sigmadsp.Server.Socket.{Connection}
use sigmadsp.Server.Frames.{IsFrame}
use sigmadsp.Server.Refusal.{handle-refused, after_refusal}
use sigmadsp.Server.{handle}
use sigmadsp.Tests.OnSession.{fits_test, fits_test-Fits, template_is, response, connected}

-- A request of the ADAU14xx parts whose two reserved bytes hold 256.
abbrev wide_request : Packet
wide_request = record {
  header =
      record { name = operation; offset = 0; size = 1; value = pos 10 }
      ∷ record { name = total_length; offset = 1; size = 4; value = pos 14 }
      ∷ record { name = chip_address; offset = 5; size = 1; value = pos 1 }
      ∷ record { name = data_length; offset = 6; size = 4; value = pos 2 }
      ∷ record { name = address; offset = 10; size = 2; value = pos 5 }
      ∷ record { name = reserved; offset = 12; size = 2; value = pos 256 }
      ∷ [];
  stored = none;
}

wide_request-IsFrame : IsFrame Adau14xx.generator read_request_key wide_request
unfolding header_for Adau14xx.new_read_request_header same_name fits_test
wide_request-IsFrame = record {
  header_is = record {
    template = placed Adau14xx.read_request_layout;
    made = refl;
    layout = ground arith;
    fits = fits_test-Fits wide_request.header refl;
    begins = refl;
  };
  payload_follows = refl;
}

abbrev wide_connected : Connection
wide_connected = record connected {
  segments = (10 ∷ 0 ∷ 0 ∷ 0 ∷ 14 ∷ 1 ∷ 0 ∷ 0 ∷ 0 ∷ 2 ∷ 0 ∷ 5 ∷ 1 ∷ 0 ∷ 7 ∷ []) ∷ [];
}

handle-refused_example :
    (segments : List (List ℕ)) × (handle Adau14xx.generator 1 wide_connected ≡ (
      err assertion_error,
      after_refusal Adau14xx.generator adau14xx-IsGenerator wide_request segments [] wide_connected,
    ))
    × (concat segments ≡ 7 ∷ [])
unfolding encode to_bytes payload get_item contains lookup same_name header_for
    Adau14xx.new_read_response_header size_of
handle-refused_example =
    handle-refused Adau14xx.generator adau14xx-IsGenerator wide_request reserved 256 0 response
      (7 ∷ []) [] wide_connected wide_request-IsFrame
      (record {
        item = record { name = reserved; offset = 12; size = 2; value = pos 256 };
        found = refl;
        value_is = refl;
      })
      (rw
        (template_is Adau14xx.generator adau14xx-IsGenerator read_response_key
          (placed Adau14xx.read_response_layout) refl)
        refl)
      (rw
        (template_is Adau14xx.generator adau14xx-IsGenerator read_response_key
          (placed Adau14xx.read_response_layout) refl)
        (omega arith))
      refl (omega arith, tt) refl
