-- ===== src/Gateway/Tests.antt =====
-- The two ends of aegs_tunnel_gateway.py at concrete packets.
use aegs_global.Prelude.{
  ℕ, ◌+◌, ◌≡◌, refl, true, some, [], ◌∷◌, ◌++◌, arith, length-replicate, replicate, Bytes, to_le,
}
use aegs_global.Crypto.Toy.{toy, toy-IsCrypto}
use aegs_global.Gateway.Client.{GatewayClient, new_gateway_client, gateway_send}
use aegs_global.Gateway.Carry.{Carries, chunk_arrives}
use aegs_global.Gateway.Laws.{number_stays_taken, packet_once}
use aegs_global.Gateway.Server.{
  GatewayServer, new_gateway_server, seen, gateway_datagram, gateway_run,
}
use aegs_global.Gateway.Wire.{masked_outer, unmasked, mask_with_zeros}
use aegs_global.Wire.{hdr_plain}
use aegs_global.Server.Payload.{cmd_data}
use aegs_global.Server.State.{lookup, Addr, World, IsWorld, sendto, sendall}

abbrev world : World
world = record {
  token_bytes = λ k n. replicate n (k + 7);
  randbelow = λ k n. 0;
  now = 0;
  alive = λ s. true;
}

abbrev home : Addr
home = record { host = 127 ∷ []; port = 40000 }

fresh_gateway : GatewayServer
unfolding new_gateway_server
fresh_gateway = new_gateway_server toy 5555 (1 ∷ 2 ∷ 3 ∷ [])

abbrev gateway : GatewayServer
gateway = record fresh_gateway {
  recv_key = some (replicate 32 1);
  client_addr = some home;
  seen_seqs = 1 ∷ [];
}

-- A data packet of ours with the number `n`.
abbrev packet_of : ℕ → Bytes
packet_of n =
    masked_outer toy gateway.mask_key gateway.raw_kid (replicate 12 9) []
    ++ (to_le 8 n ++ replicate 40 3)

program : Unit {0}
unfolding fresh_gateway masked_outer unmasked mask_with_zeros seen hdr_plain
program = tt

number_stays_taken_example :
    let g = gateway_run toy [] gateway ((world, (home, packet_of 2)) ∷ []) in
    gateway_datagram toy world [] g home (packet_of 1) ≡ (g, [])
unfolding program
number_stays_taken_example =
    number_stays_taken toy [] gateway ((world, (home, packet_of 2)) ∷ []) world home (packet_of 1)
      (λ e. omega (arith, e)) refl

packet_once_example :
    let h = gateway_run toy [] (gateway_datagram toy world [] gateway home (packet_of 2)).0 [] in
    gateway_datagram toy world [] h home (packet_of 2) ≡ (h, [])
unfolding program
packet_once_example =
    packet_once toy [] world gateway home (packet_of 2) (replicate 32 1) (λ e. omega (arith, e))
      refl refl [] world home

world-IsWorld : IsWorld world
world-IsWorld = record {
  length-token_bytes = λ k n. length-replicate n (k + 7);
  randbelow-lt = λ k n h. h;
}

fresh_client : GatewayClient
unfolding new_gateway_client
fresh_client = new_gateway_client toy home (1 ∷ 2 ∷ 3 ∷ [])

abbrev shared : Bytes
shared = replicate 32 13

-- The client and the server with a key of the client's direction, and one stream.
abbrev live_client : GatewayClient
live_client = record fresh_client { send_key = some (replicate 32 1); tx_seq = 4 }

abbrev live_gateway : GatewayServer
live_gateway = record gateway { streams = (6, 31) ∷ [] }

carries : Carries live_client live_gateway world (replicate 32 1)
unfolding fresh_client program
carries = record {
  mask = refl;
  kid = refl;
  length_kid = refl;
  sends = refl;
  receives = refl;
  world = world-IsWorld;
  in_range = omega arith;
  fresh = refl;
  iv_not_one = λ e. omega (arith, e);
}

chunk_arrives_example :
    (p : Bytes) × (g' : GatewayServer) × (gateway_send toy world live_client 6 cmd_data (5 ∷ 6 ∷ [])
      ≡ (record live_client { tx_seq = 5 }, sendto p live_client.server ∷ []))
    × (gateway_datagram toy world [] live_gateway home p ≡ (g', sendall 31 (5 ∷ 6 ∷ []) ∷ []))
    × (gateway_datagram toy world [] g' home p ≡ (g', []))
unfolding lookup
chunk_arrives_example =
    chunk_arrives toy toy-IsCrypto world world [] live_client live_gateway home (replicate 32 1) 6
      31 (5 ∷ 6 ∷ []) carries (omega arith) refl refl
