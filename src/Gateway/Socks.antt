-- ===== src/Gateway/Socks.antt =====
-- `handle_socks_client` of aegs_tunnel_gateway.py: the SOCKS5 dialogue and the forwarding loop, up to the
-- `finally` block. It reads requests as aegs_client.py does.
use aegs_global.Prelude.{ℕ, Option, none, some, List, [], ◌∷◌, ◌++◌, Bytes}
use aegs_global.Client.Socks.{Target, socks_greeting, socks_request, connect_payload, socks_ready}
use aegs_global.Crypto.{Crypto}
use aegs_global.Gateway.Client.{GatewayClient, gateway_send}
use aegs_global.Server.Payload.{cmd_connect, cmd_data}
use aegs_global.Server.State.{World, Effect, sendall}

-- What is left: the client, the effects, and what is still unread, if the forwarding loop is entered.
pub record GatewayServed : Type 0 where
  pub client : GatewayClient
  pub effects : List Effect
  pub unread : Option Bytes

-- Where there is no key the sending raises, and the program is not told that it is connected.
unfoldable pub gateway_connect : Crypto → World → GatewayClient → ℕ → ℕ → Target → GatewayServed
unfolding gateway_send
gateway_connect c w k sid conn t = elim (connect_payload t.host t.port) [
  | none ↦ record { client = k; effects = []; unread = none }
  | some payload ↦
      let (k', es) = gateway_send c w k sid cmd_connect payload in
      elim k.send_key [
        | none ↦ record { client = k'; effects = es; unread = none }
        | some key ↦ record {
          client = k';
          effects = es ++ (sendall conn socks_ready ∷ []);
          unread = some t.rest;
        }
      ]
]

unfoldable pub gateway_socks : Crypto → World → GatewayClient → ℕ → ℕ → Bytes → GatewayServed
unfolding gateway_connect
gateway_socks c w k sid conn input = elim (socks_greeting input) [
  | none ↦ record { client = k; effects = []; unread = none }
  | some more ↦ elim (socks_request more) [
    | none ↦ record { client = k; effects = sendall conn (5 ∷ 0 ∷ []) ∷ []; unread = none }
    | some t ↦
        let r = gateway_connect c w k sid conn t in
        record r { effects = sendall conn (5 ∷ 0 ∷ []) ∷ r.effects }
  ]
]

-- One chunk of the forwarding loop.
unfoldable pub gateway_forward :
    Crypto → World → GatewayClient → ℕ → Bytes → GatewayClient × List Effect
unfolding gateway_send
gateway_forward c w k sid chunk = gateway_send c w k sid cmd_data chunk
