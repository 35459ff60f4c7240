-- ===== src/Tests/OnConnections.antt =====
-- The theorem on `serve_forever` of sigmadsp/sigmastudio/server.py at two clients.
use sigmadsp.Prelude.{◌≡◌, refl, some, List, [], ◌∷◌, map, arith}
use sigmadsp.Prelude.Result.{ok}
use sigmadsp.Conversion.{to_bytes}
use sigmadsp.Header.Codec.{encode}
use sigmadsp.Header.Generator.Adau1x01.{generator, adau1x01-IsGenerator}
use sigmadsp.Server.Packets.{payload}
use sigmadsp.Server.Session.{Exchange, written}
use sigmadsp.Server.Connections.{
  Client, TcpServer, serve_forever, replies_of, after_clients, serve_forever-exchanges,
}
use sigmadsp.Tests.OnServer.{write_packet, write_packet-IsFrame}
use sigmadsp.Tests.OnSession.{connected, exchanges, request_packet-IsAnswered, response}

abbrev sessions : List (List Exchange)
sessions = exchanges ∷ (written (write_packet 1) ∷ []) ∷ []

abbrev clients : List Client
clients =
    connected.segments ∷ ((9 ∷ 1 ∷ 1 ∷ 0 ∷ 14 ∷ 1 ∷ 0 ∷ 4 ∷ 0 ∷ 5 ∷ 1 ∷ 2 ∷ 3 ∷ 4 ∷ []) ∷ []) ∷ []

abbrev server : TcpServer
server = record { receive_queue = []; send_queue = response ∷ []; raw_receive_queue = some [] }

serve_forever-exchanges_example : serve_forever generator clients server ≡ (
  map (λ (es : List Exchange). (ok tt, replies_of generator adau1x01-IsGenerator es)) sessions,
  after_clients generator adau1x01-IsGenerator sessions [] server,
)
unfolding encode to_bytes payload
serve_forever-exchanges_example =
    serve_forever-exchanges generator adau1x01-IsGenerator sessions clients [] server
      (
        (
          (write_packet-IsFrame 0 (omega arith), (request_packet-IsAnswered, tt)),
          (omega arith, (omega arith, tt)),
          refl,
        ),
        (((write_packet-IsFrame 1 (omega arith), tt), (omega arith, tt), refl), tt),
      )
      refl
