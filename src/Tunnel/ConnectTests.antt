-- ===== src/Tunnel/ConnectTests.antt =====
-- The target of a local connection at both ends: aegs_client.py and aegs_server.py.
use aegs_global.Prelude.{is_ascii, ◌≡◌, refl, some, [], ◌∷◌, ◌++◌, arith, List, Bytes, be16}
use aegs_global.Client.Http.{read_head, connect_target, handle_http_connect, established}
use aegs_global.Client.Socks.{socks_connect, socks_ready}
use aegs_global.Client.State.{server_addr}
use aegs_global.Crypto.Labels.{codes}
use aegs_global.Crypto.Toy.{toy, toy-IsCrypto}
use aegs_global.Server.Packet.{process_packet}
use aegs_global.Server.Payload.{cmd_connect}
use aegs_global.Server.State.{sendto, sendall, spawn_proxy_worker}
use aegs_global.Server.Streams.{frame}
use aegs_global.Tunnel.Connect.{connect_agrees}
use aegs_global.Tunnel.Ends.{
  world, home, server_priv, up_key, live_server, live_client, one_taken, paired, sendable,
}

-- The head of a request, in two pieces.
abbrev request : List Bytes
request = codes "CONNECT a.b:80 HTTP/1.1\r\n" ∷ codes "Host: a.b\r\n\r\n" ∷ []

request_target : connect_target (read_head [] request).0 ≡ some (codes "a.b", 80)
unfolding connect_target read_head
request_target = refl

connect_agrees_example :
    (pkt : Bytes) × ((socks_connect toy world live_client 9 88
        (record { host = codes "a.b"; port = 80; rest = [] })).effects
      ≡ sendto pkt (server_addr live_client 0) ∷ sendall 88 socks_ready ∷ [])
    × ((handle_http_connect toy world live_client 9 88 request).effects
        ≡ sendto pkt (server_addr live_client 0) ∷ sendall 88 established ∷ [])
    × (process_packet toy world server_priv live_server home pkt ≡ (
      record live_server { replay_filter = one_taken; client_addr = some home },
      spawn_proxy_worker 9 (codes "a.b") 80 ∷ [],
    ))
unfolding is_ascii
connect_agrees_example =
    connect_agrees toy toy-IsCrypto world world server_priv live_client live_server home up_key
      one_taken 9 88 (codes "a.b") 80 [] request paired
      (sendable (frame 9 cmd_connect (3 ∷ (codes "a.b" ++ be16 80)))) (omega arith) (omega arith)
      (omega arith) refl request_target
