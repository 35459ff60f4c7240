-- ===== src/Dump/Recording.antt =====
-- app/dump_sigma_studio_data.py: what `dump_sigma_studio` records of a connection.
use sigmadsp.Prelude.{
  ℕ, zero, suc, ◌<◌, ◌≡◌, refl, ap, sym, ◌∙◌, true, some, List, [], ◌∷◌, ◌++◌, map, append_assoc,
  append-nil, arith, length, concat, All,
}
use sigmadsp.Prelude.Int.{pos, negsuc, pos_part}
use sigmadsp.Prelude.Result.{ok}
use sigmadsp.Header.{data_length}
use sigmadsp.Header.Items.{value_of}
use sigmadsp.Header.Generator.{PacketHeaderGenerator}
use sigmadsp.Header.Generator.Laws.{IsGenerator}
use sigmadsp.Server.Messages.{
  Message, write_request, safeload_request, read_request, connection_closed,
}
use sigmadsp.Server.Packets.{Packet}
use sigmadsp.Server.Socket.{Connection}
use sigmadsp.Server.Segments.{AllArrive}
use sigmadsp.Server.Handle.{message_of}
use sigmadsp.Server.Session.{
  Exchange, written, answered, request_of, response_of, bytes_of, IsExchange, after_exchanges,
  handle-exchanges,
}
use sigmadsp.Server.{handle}
use sigmadsp.Dump.{
  Dump, zeros, zero_bytes, get_request, get_raw, respond, record_request, on_request, collect,
  interrupted, dump_sigma_studio,
}

-- A request that the loop records: a read request asks for no negative number of bytes.
abbrev pub IsRecordable : Message → Type 0
IsRecordable (read_request _ length) = length ≡ pos (pos_part length)
IsRecordable connection_closed = ⊥
IsRecordable _ = Unit

-- What the loop puts for the server.
abbrev pub response_to : Message → List (List ℕ)
response_to (read_request _ length) = zeros (pos_part length) ∷ []
response_to _ = []

abbrev after_one : Message → List ℕ → List Message → List (List ℕ) → Dump → Dump
after_one m raw ms raws s = record s {
  receive_queue = ms;
  raw_receive_queue = some raws;
  send_queue = s.send_queue ++ response_to m;
  requests = s.requests ++ m ∷ [];
  raw_requests = s.raw_requests ++ raw ∷ [];
}

record_one :
    (m : Message) (raw : List ℕ) (ms : List Message) (raws : List (List ℕ)) (rounds : ℕ) (s : Dump)
    → IsRecordable m
    → s.receive_queue ≡ m ∷ ms
    → s.raw_receive_queue ≡ some (raw ∷ raws)
    → collect (suc rounds) s ≡ collect rounds (after_one m raw ms raws s)
unfolding collect get_request on_request record_request respond get_raw zero_bytes
record_one (write_request a d) raw ms raws rounds s valid queue raw_queue =
    rw queue (rw raw_queue (rw append-nil refl))
record_one (safeload_request a d) raw ms raws rounds s valid queue raw_queue =
    rw queue (rw raw_queue (rw append-nil refl))
record_one (read_request a (pos n)) raw ms raws rounds s valid queue raw_queue =
    rw queue (rw raw_queue refl)
record_one (read_request a (negsuc n)) raw ms raws rounds s valid queue raw_queue =
    let never : negsuc n ≡ pos 0 = valid in cc
record_one connection_closed raw ms raws rounds s valid queue raw_queue = absurd valid

-- The recorder after some requests.
abbrev pub after_requests :
    List Message → List (List ℕ) → List Message → List (List ℕ) → Dump → Dump
after_requests ms raws later more s = record s {
  receive_queue = later;
  raw_receive_queue = some more;
  send_queue = s.send_queue ++ concat (map response_to ms);
  requests = s.requests ++ ms;
  raw_requests = s.raw_requests ++ raws;
}

collect-requests :
    (ms : List Message) (raws : List (List ℕ)) (later : List Message) (more : List (List ℕ))
    (rounds : ℕ) (s : Dump)
    → All IsRecordable ms
    → length raws ≡ length ms
    → s.receive_queue ≡ ms ++ connection_closed ∷ later
    → s.raw_receive_queue ≡ some (raws ++ more)
    → length ms < rounds
    → collect rounds s ≡ (ok tt, after_requests ms raws later more s)
collect-requests ms raws later more zero s valid long queue raw_queue h = absurd (omega arith)
collect-requests [] [] later more (suc rounds) s valid long queue raw_queue h =
    unfold collect get_request on_request in
    rw queue (rw (append-nil, append-nil, append-nil, ← raw_queue) refl)
collect-requests [] (raw ∷ raws) later more (suc rounds) s valid long queue raw_queue h =
    absurd (omega arith)
collect-requests (m ∷ ms) [] later more (suc rounds) s valid long queue raw_queue h =
    absurd (omega arith)
collect-requests (m ∷ ms) (raw ∷ raws) later more (suc rounds) s valid long queue raw_queue h =
    let s' = after_one m raw (ms ++ connection_closed ∷ later) (raws ++ more) s in
    record_one m raw (ms ++ connection_closed ∷ later) (raws ++ more) rounds s valid.0 queue
      raw_queue
    ∙ collect-requests ms raws later more rounds s' valid.1 (omega arith) refl refl (omega arith)
    ∙ rw
        (
          append_assoc s.send_queue (response_to m) (concat (map response_to ms)),
          append_assoc s.requests (m ∷ []) ms,
          append_assoc s.raw_requests (raw ∷ []) raws,
        )
        refl

-- A written packet stands for a request that is recorded, and not answered.
message_of_lem : (p : Packet) → IsRecordable (message_of p) × (response_to (message_of p) ≡ [])
unfolding message_of
message_of_lem p = ground arith

-- The server gets zeros for its read requests.
abbrev pub HasZeros : Exchange → Type 0
HasZeros (written _) = Unit
HasZeros (answered p response) = response ≡ zeros (value_of data_length p.header)

request_of_lem :
    (e : Exchange)
    → HasZeros e
    → IsRecordable (request_of e) × (response_to (request_of e) ≡ response_of e)
request_of_lem (written p) z = message_of_lem p
request_of_lem (answered p response) z = (refl, rw z refl)

requests_of_lem :
    (es : List Exchange)
    → All HasZeros es
    → All IsRecordable (map request_of es)
      × (concat (map response_to (map request_of es)) ≡ concat (map response_of es))
      × (length (map bytes_of es) ≡ length (map request_of es))
      × (length (map request_of es) ≡ length es)
requests_of_lem [] z = (tt, refl, refl, refl)
requests_of_lem (e ∷ es) z =
    let (valid, answer) = request_of_lem e z.0 in
    let (all_valid, answers, long, count) = requests_of_lem es z.1 in
    ((valid, all_valid), rw (answer, answers) refl, ap suc long, ap suc count)

module _ (g : PacketHeaderGenerator) (laws : IsGenerator g) where
  -- SigmaStudio sends write packets and read requests, in any order, and closes the connection; the
  -- server reads zeros, as many as asked for, from the queue for its answers. Then, of the queues
  -- that the server fills, `dump_sigma_studio` stores the bytes of all packets and their requests,
  -- both in the order sent, and it has put for the server exactly the zeros that the server read. The
  -- user need not interrupt it: one round for each packet and one more are enough.
  pub dump-exchanges :
      (es : List Exchange) (fuel rounds : ℕ) (s : Connection) (d : Dump)
      → All (IsExchange g laws) es
      → All HasZeros es
      → s.send_queue ≡ concat (map response_of es)
      → s.receive_queue ≡ []
      → s.raw_receive_queue ≡ some []
      → s.is_writable ≡ true
      → AllArrive s.segments
      → concat s.segments ≡ concat (map bytes_of es)
      → length es < fuel
      → length es < rounds
      → d.receive_queue ≡ (handle g fuel s).1.receive_queue
      → d.raw_receive_queue ≡ (handle g fuel s).1.raw_receive_queue
      → d.send_queue ≡ []
      → dump_sigma_studio rounds d ≡ (
        ok (map bytes_of es, map request_of es),
        record {
          receive_queue = [];
          raw_receive_queue = some [];
          send_queue = s.send_queue;
          requests = map request_of es;
          raw_requests = map bytes_of es;
        },
      )
  unfolding dump_sigma_studio interrupted
  dump-exchanges es fuel rounds s d valid z answers no_request no_raw writable arrive stream h h'
        queue raw_queue no_answer =
      let ran : handle g fuel s ≡ (ok tt, after_exchanges g laws es [] s) =
        handle-exchanges g laws es fuel [] s valid
          (answers ∙ sym (append-nil (concat (map response_of es)))) writable arrive stream h in
      let (recordable, same, long, count) = requests_of_lem es z in
      let start = record d { requests = []; raw_requests = [] } in
      let got : d.receive_queue ≡ map request_of es ++ connection_closed ∷ [] =
        rw (ran, no_request) at queue in
      let got_raw : d.raw_receive_queue ≡ some (map bytes_of es ++ []) =
        rw (ran, no_raw) at raw_queue ∙ rw append-nil refl in
      rw
        (collect-requests (map request_of es) (map bytes_of es) [] [] rounds start recordable long
          got got_raw (omega arith))
        (rw (no_answer, same, answers) refl)
