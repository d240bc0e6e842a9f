-- ===== src/Gateway/Meet.antt =====
-- `perform_handshake` of aegs_tunnel_gateway.py against the loop of its server.
use aegs_global.Prelude.{ℕ, some, [], ◌∷◌, ◌++◌, replicate, Bytes}
use aegs_global.Crypto.{Crypto, IsCrypto}
use aegs_global.Crypto.Labels.{c2s_info, s2c_info}
use aegs_global.Gateway.Client.{GatewayClient}
use aegs_global.Gateway.Server.{GatewayServer, gateway_response}
use aegs_global.Gateway.Wire.{session_key}
use aegs_global.Server.State.{Addr, World, IsWorld}
use aegs_global.Gateway.Greeting.{SameSecrets}

module _ (c : Crypto) (laws : IsCrypto c) (w : World) (lw : IsWorld w)
    (client_priv priv shared : Bytes) (now : ℕ) (k : GatewayClient) (g : GatewayServer)
    (addr : Addr) (same : SameSecrets c k g client_priv priv shared) where
  abbrev up_key : Bytes
  up_key = session_key c shared g.master_key c2s_info

  abbrev down_key : Bytes
  down_key = session_key c shared g.master_key s2c_info

  abbrev gateway_after : GatewayServer
  gateway_after = record g {
    recv_key = some up_key;
    send_key = some down_key;
    client_addr = some addr;
  }

  abbrev client_after : GatewayClient
  client_after = record k { send_key = some up_key; recv_key = some down_key }

  abbrev response : Bytes
  response = gateway_response c w priv g addr down_key

  abbrev answer_head : Bytes
  answer_head = (2 ∷ replicate 7 0) ++ (w.token_bytes 0 8 ++ c.public_bytes priv)

  abbrev config : Bytes
  config = (0x0a ∷ 0x08 ∷ 0x00 ∷ 0x02 ∷ 0x78 ∷ 0x05 ∷ []) ++ replicate 10 0

  abbrev sealed : Bytes
  sealed = c.encrypt down_key (replicate 12 0) config answer_head
