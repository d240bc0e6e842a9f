-- ===== src/Tunnel/Ends.antt =====
-- Two ends of a tunnel over one token, for the tests: aegs_client.py and aegs_server.py.
use aegs_global.Prelude.{
  ◌+◌, ◌%◌, ◌≡◌, ◌≢◌, refl, true, some, [], ◌∷◌, ◌++◌, arith, length, replicate, length-replicate,
  Bytes, to_le,
}
use aegs_global.Client.Packets.{pad_len, junk_len}
use aegs_global.Client.State.{Client, new_client}
use aegs_global.Crypto.Toy.{toy, box_shut, total}
use aegs_global.Replay.{AntiReplayFilter, init, check_and_update}
use aegs_global.Server.Handshake.{handshake_key}
use aegs_global.Server.State.{Addr, Server, World, IsWorld, new_server}
use aegs_global.Tunnel.Uplink.{Paired, Sendable}
use aegs_global.Wire.{seal, outer_header, unmask}

abbrev pub world : World
world = record {
  token_bytes = λ k n. replicate n (k + 7);
  randbelow = λ k n. 0;
  now = 0;
  alive = λ s. true;
}

pub world-IsWorld : IsWorld world
world-IsWorld = record {
  length-token_bytes = λ k n. length-replicate n (k + 7);
  randbelow-lt = λ k n h. h;
}

abbrev pub token : Bytes
token = 1 ∷ 2 ∷ 3 ∷ []

abbrev pub home : Addr
home = record { host = 127 ∷ []; port = 40000 }

abbrev pub server_priv : Bytes
server_priv = 5 ∷ []

abbrev pub client_priv : Bytes
client_priv = 6 ∷ []

abbrev pub shared : Bytes
shared = replicate 32 11

unfoldable pub fresh_server : Server
unfolding new_server
fresh_server = new_server toy 5555 10 token

unfoldable pub fresh_client : Client
unfolding new_client
fresh_client = new_client toy (1 ∷ []) 5555 10 token client_priv 0

abbrev pub up_key : Bytes
up_key = replicate 32 1

abbrev pub down_key : Bytes
down_key = replicate 32 2

abbrev pub live_server : Server
live_server = record fresh_server {
  recv_key = some up_key;
  send_key = some down_key;
  client_addr = some home;
  streams = (9, 77) ∷ [];
}

abbrev pub live_client : Client
live_client = record fresh_client {
  send_key = some up_key;
  recv_key = some down_key;
  streams = (9, 88) ∷ [];
}

other_total : total (handshake_key toy fresh_server.master_key) ≡ 4352
unfolding fresh_server
other_total = refl

pub keys_apart : total up_key % 251 ≢ total (handshake_key toy fresh_server.master_key) % 251
keys_apart = rw (other_total) (λ e. omega (arith, e))

unfoldable pub program : Unit {0}
unfolding fresh_server fresh_client init check_and_update seal outer_header unmask
program = tt

abbrev pub one_taken : AntiReplayFilter
one_taken = record { window_size = 2048; max_seq = 1; window = 1 ∷ replicate 255 0 }

pub paired : Paired live_client live_server up_key
unfolding program
paired = record { mask = refl; kid = refl; length_kid = refl; sends = refl; receives = refl }

-- Any frame can be sent.
pub sendable : (fr : Bytes) → Sendable toy world live_client live_server up_key fr one_taken
unfolding program
sendable fr = record {
  world = world-IsWorld;
  in_range = omega arith;
  fresh = refl;
  iv_not_one = λ e. omega (arith, e);
  iv_not_four = λ e. omega (arith, e);
  apart =
      box_shut up_key (handshake_key toy fresh_server.master_key)
        (to_le 8 1 ++ world.token_bytes 1 4) (fr ++ world.token_bytes 0 (pad_len world (length fr)))
        (outer_header toy live_server.mask_key live_server.raw_kid 0 (world.token_bytes 2 12)
          (world.token_bytes 3 (junk_len world)))
        keys_apart;
}
