-- ===== src/Server/Turns.antt =====
-- `SigmaStudioRequestHandler.handle` of sigmadsp/sigmastudio/server.py, cut where it waits for the
-- backend: in `handle_read_request`, between the request and the response.
use sigmadsp.Prelude.{◌≡◌, refl, sym, ◌∙◌, Bool, true, false, some, if◌then◌else◌}
use sigmadsp.Prelude.Int.{pos}
use sigmadsp.Prelude.Result.{Result, ok, err}
use sigmadsp.Prelude.Exec.{Exec, pure, lift, continue, ◌>>=◌, ◌>>◌}
use sigmadsp.Header.{
  read_response_key, data_length, address, success, int, get_item, set_item, is_write_request,
  is_read_request,
}
use sigmadsp.Header.Generator.{PacketHeaderGenerator, new_header_from_operation_key}
use sigmadsp.Server.Messages.{read_request}
use sigmadsp.Server.Packets.{Packet, new_packet, as_bytes}
use sigmadsp.Server.Socket.{Connection, sendall, put, get_response}
use sigmadsp.Server.{
  receive_packet, store_raw, handle_write_request, handle_read_request, dispatch, handle_packet,
}

-- Where the handler stands: before the next packet, or at `send_queue.get` for a packet.
pub data Turn : Type 0 where
  reading : Turn
  waiting : Packet → Turn

-- `handle_read_request` up to the wait.
unfoldable pub request_data : Packet → Exec Connection (Unit {0})
unfolding put
request_data packet = do
  address_field ← lift (get_item address packet.header)
  length_field ← lift (get_item data_length packet.header)
  put (read_request address_field.value length_field.value)

unfoldable pub begin_dispatch : Packet → Exec Connection Turn
unfolding request_data handle_write_request
begin_dispatch packet = do
  write ← lift (is_write_request packet.header)
  if write then (do handle_write_request packet; pure reading) else do
    asks ← lift (is_read_request packet.header)
    if asks then (do request_data packet; pure (waiting packet)) else pure reading

module _ (generator : PacketHeaderGenerator) where
  -- `handle_read_request` from the wait on.
  unfoldable pub send_response : Packet → Exec Connection (Unit {0})
  unfolding get_response sendall
  send_response packet = do
    response ← get_response
    response_header ←
        lift (new_header_from_operation_key generator read_response_key (some packet.header))
    response_packet ← lift (new_packet response_header (some response))
    final_header ← lift (set_item success (int (pos 0)) response_packet.header)
    bytes ← lift (as_bytes (record response_packet { header = final_header }))
    sendall bytes

  -- The body of the `try` in `handle`, up to the wait.
  unfoldable pub begin_packet : Exec Connection Turn
  unfolding receive_packet store_raw begin_dispatch
  begin_packet = do packet ← receive_packet generator; store_raw packet; begin_dispatch packet

  -- What is left of it.
  unfoldable pub finish_packet : Turn → Exec Connection (Unit {0})
  unfolding send_response
  finish_packet reading = pure tt
  finish_packet (waiting packet) = send_response packet

module _ {S A B : Type 0} where
  two_lifts :
      (x y : Result A) (q : A → A → Exec S B) (k : B → Exec S B) (s : S)
      → (lift x >>= λ a. lift y >>= λ b. q a b >>= k) s
        ≡ ((lift x >>= λ a. lift y >>= λ b. q a b) >>= k) s
  two_lifts (err e) y q k s = refl
  two_lifts (ok a) (err e) q k s = refl
  two_lifts (ok a) (ok b) q k s = refl

  two_tests :
      (x y : Result Bool) (l m n : Exec S A) (k : A → Exec S B) (s : S)
      → ((do a ← lift x; if a then l else do b ← lift y; if b then m else n) >>= k) s
        ≡ (do
          a ← lift x
          if a then (l >>= k) else do b ← lift y; if b then (m >>= k) else (n >>= k))
            s
  two_tests (err e) y l m n k s = refl
  two_tests (ok true) y l m n k s = refl
  two_tests (ok false) (err e) l m n k s = refl
  two_tests (ok false) (ok true) l m n k s = refl
  two_tests (ok false) (ok false) l m n k s = refl

module _ (g : PacketHeaderGenerator) where
  handle_read_request-parts :
      (p : Packet) (s : Connection)
      → handle_read_request g p s ≡ (request_data p >> send_response g p) s
  unfolding handle_read_request request_data send_response
  handle_read_request-parts p s =
      two_lifts (get_item address p.header) (get_item data_length p.header)
        (λ a b. put (read_request a.value b.value)) (λ _. send_response g p) s

  continue_end :
      (r : Result (Unit {0})) (s : Connection)
      → (let (x, t) = continue r (λ (u : Unit {0}). pure reading) s in
          continue x (finish_packet g) t)
        ≡ (r, s)
  unfolding finish_packet
  continue_end (ok tt) s = refl
  continue_end (err e) s = refl

  continue_wait :
      (p : Packet) (r : Result (Unit {0})) (s : Connection)
      → (let (x, t) = continue r (λ (u : Unit {0}). pure (waiting p)) s in
          continue x (finish_packet g) t)
        ≡ continue r (λ (u : Unit {0}). send_response g p) s
  unfolding finish_packet
  continue_wait p (ok tt) s = refl
  continue_wait p (err e) s = refl

  read_end :
      (p : Packet) (s : Connection)
      → ((do request_data p; pure (waiting p)) >>= finish_packet g) s ≡ handle_read_request g p s
  read_end p s =
      continue_wait p (request_data p s).0 (request_data p s).1
      ∙ sym (handle_read_request-parts p s)

  dispatch-begin :
      (p : Packet) (s : Connection) → dispatch g p s ≡ (begin_dispatch p >>= finish_packet g) s
  unfolding dispatch begin_dispatch finish_packet
  dispatch-begin p s =
      let wrote : ((do handle_write_request p; pure reading) >>= finish_packet g)
          ≡ handle_write_request p =
        λ i t. continue_end (handle_write_request p t).0 (handle_write_request p t).1 i in
      let asked : ((do request_data p; pure (waiting p)) >>= finish_packet g)
          ≡ handle_read_request g p =
        λ i t. read_end p t i in
      sym (
        two_tests (is_write_request p.header) (is_read_request p.header)
          (do handle_write_request p; pure reading) (do request_data p; pure (waiting p))
          (pure reading) (finish_packet g) s
        ∙ rw (wrote, asked) refl)

  after_store :
      (p : Packet) (r : Result (Unit {0})) (s : Connection)
      → continue r (λ (u : Unit {0}). dispatch g p) s ≡ (
          let (x, t) = continue r (λ (u : Unit {0}). begin_dispatch p) s in
          continue x (finish_packet g) t)
  after_store p (ok tt) s = dispatch-begin p s
  after_store p (err e) s = refl

  after_receive :
      (r : Result Packet) (s : Connection)
      → continue r (λ (p : Packet). store_raw p >> dispatch g p) s ≡ (
          let (x, t) = continue r (λ (p : Packet). store_raw p >> begin_dispatch p) s in
          continue x (finish_packet g) t)
  after_receive (ok p) s = after_store p (store_raw p s).0 (store_raw p s).1
  after_receive (err e) s = refl

  -- The body of the `try` in `handle` is the part up to the wait and then the part after it.
  pub handle_packet-begin :
      (s : Connection) → handle_packet g s ≡ (begin_packet g >>= finish_packet g) s
  unfolding handle_packet begin_packet
  handle_packet-begin s = let first = receive_packet g s in after_receive first.0 first.1
