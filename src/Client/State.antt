-- ===== src/Client/State.antt =====
-- The state of AegsClient in aegs_client.py.
use aegs_global.Prelude.{ℕ, ◌+◌, ◌%◌, ◌/◌, Bool, true, Option, none, List, [], take, Bytes}
use aegs_global.Crypto.{Crypto}
use aegs_global.Crypto.Labels.{master_salt, mask_info}
use aegs_global.Server.State.{Addr}

-- Times are in milliseconds.
pub record Client : Type 0 where
  pub server_host : Bytes
  pub base_port : ℕ
  pub port_count : ℕ
  pub master_key : Bytes
  pub mask_key : Bytes
  pub raw_kid : Bytes
  pub client_priv : Bytes
  pub send_key : Option Bytes
  pub recv_key : Option Bytes
  pub session_resumption_token : Option Bytes
  pub running : Bool
  pub streams : List (ℕ × ℕ)
  pub stream_counter : ℕ
  pub tx_seq : ℕ
  pub last_real_traffic : ℕ

-- `__init__`, with the private key that is drawn.
unfoldable pub new_client : Crypto → Bytes → ℕ → ℕ → Bytes → Bytes → ℕ → Client
new_client c server_host base_port port_count token priv now =
    let master = c.pbkdf2_sha256 token master_salt 5000 in
    record {
      server_host = server_host;
      base_port = base_port;
      port_count = port_count;
      master_key = master;
      mask_key = c.hkdf none mask_info 32 master;
      raw_kid = take 8 (c.sha256 token);
      client_priv = priv;
      send_key = none;
      recv_key = none;
      session_resumption_token = none;
      running = true;
      streams = [];
      stream_counter = 100;
      tx_seq = 0;
      last_real_traffic = now;
    }

-- The port hops with the second of the clock. (With no port at all the source divides by zero.)
unfoldable pub get_current_port : Client → ℕ → ℕ
get_current_port k now = k.base_port + (now / 1000) % k.port_count

abbrev pub server_addr : Client → ℕ → Addr
server_addr k now = record { host = k.server_host; port = get_current_port k now }
