-- ===== src/Server/State.antt =====
-- The state of AegsServer in aegs_server.py, what it does to the world, and what it draws from it.
use aegs_global.Prelude.{
  ℕ, ◌<◌, ◌≡◌, Bool, ◌&&◌, Option, none, some, List, [], ◌∷◌, length, take, ◌==◌, if◌then◌else◌,
  Bytes, bytes_eq,
}
use aegs_global.Crypto.{Crypto}
use aegs_global.Crypto.Labels.{master_salt, mask_info, resumption_salt, resumption_info}
use aegs_global.Replay.{AntiReplayFilter, init}

-- The pair of an IPv4 address, as its text's bytes, and a port.
pub record Addr : Type 0 where
  pub host : Bytes
  pub port : ℕ

pub record ClientInfo : Type 0 where
  pub addr : Addr
  pub connected_at : ℕ
  pub last_seen : ℕ
  pub streams : ℕ

-- A socket of the operating system is a number.
pub record Server : Type 0 where
  pub base_port : ℕ
  pub port_count : ℕ
  pub master_key : Bytes
  pub mask_key : Bytes
  pub raw_kid : Bytes
  pub rkey : Bytes
  pub client_addr : Option Addr
  pub send_key : Option Bytes
  pub recv_key : Option Bytes
  pub replay_filter : AntiReplayFilter
  pub tx_seq : ℕ
  pub streams : List (ℕ × ℕ)
  pub seen_resumption_nonces : List Bytes
  pub total_packets_rx : ℕ
  pub total_packets_tx : ℕ
  pub total_bytes_rx : ℕ
  pub total_bytes_tx : ℕ
  pub active_clients : List (Addr × ClientInfo)

-- What a handler does besides changing the state; printing is left out.
pub data Effect : Type 0 where
  sendto : Bytes → Addr → Effect
  spawn_proxy_worker : ℕ → Bytes → ℕ → Effect
  sendall : ℕ → Bytes → Effect
  close : ℕ → Effect

-- What a handler draws while it runs: `token_bytes k n` is the result of its `k`-th call of
-- `secrets.token_bytes(n)`, `randbelow k n` that of `secrets.randbelow(n)`, `now` the clock, and
-- `alive s` says whether `sendall` on a socket goes through.
pub record World : Type 0 where
  pub token_bytes : ℕ → ℕ → Bytes
  pub randbelow : ℕ → ℕ → ℕ
  pub now : ℕ
  pub alive : ℕ → Bool

-- `token_bytes(n)` has n bytes, and `randbelow(n)` lies below n.
pub record IsWorld (w : World) : Type 0 where
  pub length-token_bytes : (k n : ℕ) → length (w.token_bytes k n) ≡ n
  pub randbelow-lt : (k n : ℕ) → 0 < n → w.randbelow k n < n

-- A new server over a token: `__init__`.
unfoldable pub new_server : Crypto → ℕ → ℕ → Bytes → Server
new_server c base_port port_count token =
    let master = c.pbkdf2_sha256 token master_salt 5000 in
    record {
      base_port = base_port;
      port_count = port_count;
      master_key = master;
      mask_key = c.hkdf none mask_info 32 master;
      raw_kid = take 8 (c.sha256 token);
      rkey = c.hkdf (some master) resumption_info 32 resumption_salt;
      client_addr = none;
      send_key = none;
      recv_key = none;
      replay_filter = init 2048;
      tx_seq = 0;
      streams = [];
      seen_resumption_nonces = [];
      total_packets_rx = 0;
      total_packets_tx = 0;
      total_bytes_rx = 0;
      total_bytes_tx = 0;
      active_clients = [];
    }

abbrev pub addr_eq : Addr → Addr → Bool
addr_eq a b = bytes_eq a.host b.host && a.port == b.port

-- A dictionary write: the entry is replaced, or added at the end.
module _ {ℓ} {V : Type ℓ} where
  unfoldable pub put_client : Addr → V → List (Addr × V) → List (Addr × V)
  put_client a v [] = (a, v) ∷ []
  put_client a v ((b, w) ∷ m) = if addr_eq a b then (a, v) ∷ m else (b, w) ∷ put_client a v m

-- `print_client_connected_banner` without the printing.
unfoldable pub client_connected : World → Addr → Server → Server
client_connected w addr s = record s {
  active_clients =
      put_client addr (record { addr = addr; connected_at = w.now; last_seen = w.now; streams = 0 })
        s.active_clients;
}

-- The dictionary `streams`: get, set and pop.
module _ {ℓ} {V : Type ℓ} where
  unfoldable pub lookup : ℕ → List (ℕ × V) → Option V
  lookup k [] = none
  lookup k ((j, v) ∷ m) = if j == k then some v else lookup k m

  unfoldable pub insert : ℕ → V → List (ℕ × V) → List (ℕ × V)
  insert k v [] = (k, v) ∷ []
  insert k v ((j, u) ∷ m) = if j == k then (k, v) ∷ m else (j, u) ∷ insert k v m

  unfoldable pub remove : ℕ → List (ℕ × V) → List (ℕ × V)
  remove k [] = []
  remove k ((j, v) ∷ m) = if j == k then remove k m else (j, v) ∷ remove k m
