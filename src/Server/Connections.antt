-- ===== src/Server/Connections.antt =====
-- `SigmaStudioTcpServer` of sigmadsp/sigmastudio/server.py over its life: `serve_forever`, which
-- sigmadsp/backend.py runs in a thread, takes one connection after the other, since the class is a plain
-- `socketserver.TCPServer`.
use sigmadsp.Prelude.{
  ℕ, suc, ◌≤◌, ◌<◌, ◌≡◌, refl, ap, ◌∙◌, true, Option, none, some, List, [], ◌∷◌, ◌++◌, map, concat,
  length, length-append, append_assoc, append-nil, arith, All,
}
use sigmadsp.Prelude.Result.{Result, ok}
use sigmadsp.Header.{OperationKey, write_key, read_request_key}
use sigmadsp.Header.Codec.{encode}
use sigmadsp.Server.Packets.{Packet, payload}
use sigmadsp.Header.Generator.{PacketHeaderGenerator}
use sigmadsp.Header.Generator.Laws.{IsGenerator}
use sigmadsp.Server.Messages.{Message, connection_closed}
use sigmadsp.Server.Socket.{Connection}
use sigmadsp.Server.Segments.{AllArrive}
use sigmadsp.Server.Frames.{IsFrame, frame_bytes, encode-header}
use sigmadsp.Server.Handle.{logged}
use sigmadsp.Server.Loop.{logged-nil}
use sigmadsp.Server.Session.{
  Exchange, written, answered, bytes_of, request_of, response_of, reply_bytes, IsExchange,
  handle-exchanges,
}
use sigmadsp.Server.{handle}

-- The queues that the server was given; all its connections share them.
pub record TcpServer : Type 0 where
  pub receive_queue : List Message
  pub send_queue : List (List ℕ)
  pub raw_receive_queue : Option (List (List ℕ))

-- A client: the segments in which the network delivers what it sends.
abbrev pub Client : Type 0
Client = List (List ℕ)

abbrev pub accept : Client → TcpServer → Connection
accept client server = record {
  segments = client;
  is_open = true;
  is_writable = true;
  sent = [];
  receive_queue = server.receive_queue;
  send_queue = server.send_queue;
  raw_receive_queue = server.raw_receive_queue;
}

abbrev pub queues_of : Connection → TcpServer
queues_of s = record {
  receive_queue = s.receive_queue;
  send_queue = s.send_queue;
  raw_receive_queue = s.raw_receive_queue;
}

module _ (g : PacketHeaderGenerator) where
  -- How `handle` ended and what the client got. Every packet has a byte, so a round for each byte and
  -- one more are enough.
  unfoldable pub serve_client : Client → TcpServer → (Result (Unit {0}) × List ℕ) × TcpServer
  serve_client client server =
      let (r, s) = handle g (suc (length (concat client))) (accept client server) in
      ((r, s.sent), queues_of s)

  -- An exception of a handler is printed by `socketserver`, and the next client is served.
  unfoldable pub serve_forever :
      List Client → TcpServer → List (Result (Unit {0}) × List ℕ) × TcpServer
  serve_forever [] server = ([], server)
  serve_forever (client ∷ clients) server =
      let (outcome, server') = serve_client client server in
      let (outcomes, last) = serve_forever clients server' in (outcome ∷ outcomes, last)

logged_both :
    (raw : Option (List (List ℕ))) (xs ys : List (List ℕ))
    → logged (logged raw xs) ys ≡ logged raw (xs ++ ys)
logged_both none xs ys = refl
logged_both (some queue) xs ys = ap (λ (l : List (List ℕ)). some l) (append_assoc queue xs ys)

module _ (g : PacketHeaderGenerator) (laws : IsGenerator g) where
  -- What the backend gets from a client, and from all of them.
  abbrev pub requests_of : List Exchange → List Message
  requests_of es = map request_of es ++ connection_closed ∷ []

  frame_bytes-pos : (k : OperationKey) (p : Packet) → IsFrame g k p → 0 < length (frame_bytes p)
  frame_bytes-pos k p frame =
      let (tail, begins, _) = encode-header g laws k p.header frame.header_is in
      omega (arith, length-append (encode p.header) (payload p), ap (length {A = ℕ}) begins)

  bytes_of-pos : (e : Exchange) → IsExchange g laws e → 0 < length (bytes_of e)
  bytes_of-pos (written p) frame = frame_bytes-pos write_key p frame
  bytes_of-pos (answered p response) valid = frame_bytes-pos read_request_key p valid.frame

  rounds :
      (es : List Exchange)
      → All (IsExchange g laws) es
      → length es ≤ length (concat (map bytes_of es))
  rounds [] valid = omega arith
  rounds (e ∷ es) valid = omega (
    arith,
    rounds es valid.1,
    bytes_of-pos e valid.0,
    length-append (bytes_of e) (concat (map bytes_of es)),
  )

  abbrev pub replies_of : List Exchange → List ℕ
  replies_of es = concat (map (reply_bytes g laws) es)

  abbrev pub raw_of : List Exchange → List (List ℕ)
  raw_of es = map bytes_of es

  abbrev pub responses_of : List Exchange → List (List ℕ)
  responses_of es = concat (map response_of es)

  -- The queues after one client, and after some.
  abbrev after_client : List Exchange → List (List ℕ) → TcpServer → TcpServer
  after_client es more server = record {
    receive_queue = server.receive_queue ++ requests_of es;
    send_queue = more;
    raw_receive_queue = logged server.raw_receive_queue (raw_of es);
  }

  abbrev pub after_clients : List (List Exchange) → List (List ℕ) → TcpServer → TcpServer
  after_clients sessions more server = record {
    receive_queue = server.receive_queue ++ concat (map requests_of sessions);
    send_queue = more;
    raw_receive_queue = logged server.raw_receive_queue (concat (map raw_of sessions));
  }

  -- What a client sends is delivered in some segments.
  abbrev pub Delivers : List Exchange → Client → Type 0
  Delivers es client =
      All (IsExchange g laws) es × AllArrive client × (concat client ≡ concat (map bytes_of es))

  abbrev pub AllDeliver : List (List Exchange) → List Client → Type 0
  AllDeliver [] [] = Unit
  AllDeliver (es ∷ sessions) (client ∷ clients) = Delivers es client × AllDeliver sessions clients
  AllDeliver _ _ = ⊥

  serve_client-exchanges :
      (es : List Exchange) (client : Client) (more : List (List ℕ)) (server : TcpServer)
      → Delivers es client
      → server.send_queue ≡ responses_of es ++ more
      → serve_client g client server ≡ ((ok tt, replies_of es), after_client es more server)
  unfolding serve_client
  serve_client-exchanges es client more server (valid, arrive, stream) queue =
      let enough : length es < suc (length (concat client)) =
        omega (arith, rounds es valid, ap (length {A = ℕ}) stream) in
      rw
        (handle-exchanges g laws es (suc (length (concat client))) more (accept client server) valid
          queue refl arrive stream enough)
        refl

  -- Some clients connect one after the other; each sends write packets and read requests, in any order,
  -- and closes its connection, and the backend answers each read request with as many bytes as it asks
  -- for. However the network cuts what they send, each handler ends in order, each client gets the read
  -- responses to its own requests, in order, and no other; the queue to the backend gets the requests of
  -- the clients, client by client, with the note of the end of the connection after each; and the
  -- debugging queue, where there is one, gets all the raw packets.
  pub serve_forever-exchanges :
      (sessions : List (List Exchange)) (clients : List Client) (more : List (List ℕ))
      (server : TcpServer)
      → AllDeliver sessions clients
      → server.send_queue ≡ concat (map responses_of sessions) ++ more
      → serve_forever g clients server ≡ (
        map (λ (es : List Exchange). (ok tt, replies_of es)) sessions,
        after_clients sessions more server,
      )
  unfolding serve_forever
  serve_forever-exchanges [] [] more server deliver queue =
      rw (append-nil, logged-nil, ← queue) refl
  serve_forever-exchanges [] (client ∷ clients) more server deliver queue = absurd deliver
  serve_forever-exchanges (es ∷ sessions) [] more server deliver queue = absurd deliver
  serve_forever-exchanges (es ∷ sessions) (client ∷ clients) more server deliver queue =
      let later = concat (map responses_of sessions) ++ more in
      let first : serve_client g client server
          ≡ ((ok tt, replies_of es), after_client es later server) =
        serve_client-exchanges es client later server deliver.0
          (queue ∙ append_assoc (responses_of es) (concat (map responses_of sessions)) more) in
      rw first (
        rw
          (serve_forever-exchanges sessions clients more (after_client es later server) deliver.1
            refl)
          (rw
            (
              append_assoc server.receive_queue (requests_of es)
                  (concat (map requests_of sessions)),
              logged_both server.raw_receive_queue (raw_of es) (concat (map raw_of sessions)),
            )
            refl))
