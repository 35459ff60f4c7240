-- ===== src/Server.antt =====
-- sigmadsp/sigmastudio/server.py: the TCP server that talks to SigmaStudio. The proofs are in the
-- modules below.
pub mod Messages
pub mod Packets
pub mod Socket
pub mod Segments
pub mod Stream
pub mod Frames
pub mod Receive
pub mod Handle
pub mod Reply
pub mod Exchange
pub mod Session
pub mod Refusal
pub mod Turns
pub mod Waits
pub mod Connections
pub mod Loop
use sigmadsp.Prelude.{
  ℕ, zero, suc, ◌+◌, ◌-◌, Option, List, Bool, true, false, none, some, [], ◌∷◌, ◌++◌, if◌then◌else◌,
}
use sigmadsp.Prelude.Int.{ℤ, pos, pos_part}
use sigmadsp.Prelude.Result.{Result, ok, err, connection_error, blocked, ◌>>=◌ as bind_result}
use sigmadsp.Prelude.Exec.{Exec, pure, raise, lift, ◌>>=◌, ◌>>◌}
use sigmadsp.Header.{
  PacketHeader, read_response_key, data_length, address, success, int, get_item, set_item, size,
  parse, carries_payload, is_safeload, is_write_request, is_read_request,
}
use sigmadsp.Header.Generator.{
  PacketHeaderGenerator, new_header_from_operation_byte, new_header_from_operation_key,
}
use sigmadsp.Server.Messages.{
  Message, write_request, safeload_request, read_request, connection_closed,
}
use sigmadsp.Server.Packets.{Packet, new_packet, payload, as_bytes}
use sigmadsp.Server.Socket.{Connection, read, sendall, put, get_response, put_raw}

-- The request that a write packet stands for.
unfoldable pub write_message : Packet → Result Message
unfolding payload
write_message packet = bind_result (is_safeload packet.header) λ software_safeload.
    bind_result (get_item address packet.header) λ f. ok (
      if software_safeload
      then safeload_request f.value (payload packet)
      else write_request f.value (payload packet))

unfoldable pub handle_write_request : Packet → Exec Connection (Unit {0})
unfolding write_message put
handle_write_request packet = do message ← lift (write_message packet); put message

abbrev pub store_where : Packet → Option (List (List ℕ)) → Exec Connection (Unit {0})
store_where packet none = pure tt
store_where packet (some _) = do bytes ← lift (as_bytes packet); put_raw bytes

-- The raw packet is only built where there is a queue for it.
unfoldable pub store_raw : Packet → Exec Connection (Unit {0})
unfolding put_raw
store_raw packet s = store_where packet s.raw_receive_queue s

-- The `try` in `handle`: only a connection error ends the loop in order, and the backend is told;
-- any other exception leaves the loop.
unfoldable pub on_result :
    Result (Unit {0}) → Exec Connection (Unit {0}) → Exec Connection (Unit {0})
unfolding put
on_result (ok _) next_round = next_round
on_result (err connection_error) next_round = put connection_closed
on_result (err e) next_round = raise e

module _ (generator : PacketHeaderGenerator) where
  -- The payload of the packet whose header was received.
  unfoldable pub receive_payload : PacketHeader → Bool → Exec Connection Packet
  receive_payload header true = do
    f ← lift (get_item data_length header)
    bytes ← read (pos_part f.value)
    lift (new_packet header (some bytes))
  receive_payload header false = lift (new_packet header none)

  -- `SigmaStudioRequestHandler.new_packet`
  unfoldable pub receive_packet : Exec Connection Packet
  unfolding receive_payload
  receive_packet = do
    operation_byte ← read 1
    header ← lift (new_header_from_operation_byte generator operation_byte none)
    remaining_header_bytes ← read (size header - 1)
    header' ← lift (parse (operation_byte ++ remaining_header_bytes) header)
    carries ← lift (carries_payload header')
    receive_payload header' carries

  unfoldable pub handle_read_request : Packet → Exec Connection (Unit {0})
  unfolding put get_response sendall
  handle_read_request packet = do
    address_field ← lift (get_item address packet.header)
    length_field ← lift (get_item data_length packet.header)
    put (read_request address_field.value length_field.value)
    response ← get_response
    response_header ←
        lift (new_header_from_operation_key generator read_response_key (some packet.header))
    response_packet ← lift (new_packet response_header (some response))
    final_header ← lift (set_item success (int (pos 0)) response_packet.header)
    bytes ← lift (as_bytes (record response_packet { header = final_header }))
    sendall bytes

  -- One packet, by its operation.
  unfoldable pub dispatch : Packet → Exec Connection (Unit {0})
  unfolding handle_write_request handle_read_request
  dispatch packet = do
    write ← lift (is_write_request packet.header)
    if write then handle_write_request packet else do
      asks ← lift (is_read_request packet.header)
      if asks then handle_read_request packet else pure tt

  -- The body of the `try` in `handle`.
  unfoldable pub handle_packet : Exec Connection (Unit {0})
  unfolding receive_packet store_raw dispatch
  handle_packet = do packet ← receive_packet; store_raw packet; dispatch packet

  -- `handle`: a round for each packet.
  unfoldable pub handle : ℕ → Exec Connection (Unit {0})
  unfolding handle_packet on_result
  handle zero s = (err blocked, s)
  handle (suc fuel) s = let (r, s') = handle_packet s in on_result r (handle fuel) s'
