-- ===== src/Proxy/Handshake.antt =====
-- `perform_v3_handshake` of scripts/quick_client.py.
use aegs_global.Prelude.{
  ℕ, ◌||◌, Option, none, some, List, [], ◌∷◌, ◌++◌, length, get_or, take, slice, replicate, ltb,
  ◌==◌, not, if◌then◌else◌, Bytes, of_le, to_le,
}
use mathlib.Core.List.{reverse}
use aegs_global.Crypto.{Crypto}
use aegs_global.Crypto.Labels.{c2s_info, s2c_info, config_info}
use aegs_global.Gateway.Wire.{session_key}
use aegs_global.Server.Handshake.{tag16}

-- What a handshake gives; the address is the four bytes that `inet_ntoa` prints.
pub record Session : Type 0 where
  pub send_key : Bytes
  pub recv_key : Bytes
  pub session_id : ℕ
  pub assigned_ip : Bytes

-- The packet of 72 bytes; `now_ms` is in milliseconds.
unfoldable pub init_pkt : Crypto → Bytes → Bytes → Bytes → ℕ → Bytes
init_pkt c client_priv raw_kid master_key now_ms =
    let init_body =
      (1 ∷ replicate 7 0)
      ++ (raw_kid ++ (c.public_bytes client_priv ++ reverse (to_le 8 now_ms))) in
    init_body ++ tag16 c master_key init_body

-- What one attempt comes to. A text of the server that opens and is shorter than six bytes raises.
pub data Attempt : Type 0 where
  again : Attempt
  raised : Attempt
  agreed : Session → Attempt

unfoldable pub read_response : Crypto → Bytes → Bytes → Bytes → Attempt
read_response c client_priv master_key resp =
    if ltb (length resp) 80 || not (get_or resp 0 0 == 2)
    then again
    else elim (c.exchange client_priv (slice 16 48 resp)) [
      | none ↦ again
      | some shared ↦
          (let cfg_key = session_key c shared master_key config_info in
            elim (c.decrypt cfg_key (replicate 12 0) (slice 48 80 resp) (take 48 resp)) [
              | none ↦ again
              | some cfg ↦
                  if ltb (length cfg) 6
                  then raised
                  else agreed (record {
                    send_key = session_key c shared master_key c2s_info;
                    recv_key = session_key c shared master_key s2c_info;
                    session_id = of_le (slice 8 16 resp);
                    assigned_ip = take 4 cfg;
                  })
            ])
    ]

-- An attempt waits three seconds: `none` is an attempt without an answer, of which `recvfrom` reads
-- 2048 bytes.
unfoldable pub attempt : Crypto → Bytes → Bytes → Option Bytes → Attempt
unfolding read_response
attempt c client_priv master_key none = again
attempt c client_priv master_key (some datagram) =
    read_response c client_priv master_key (take 2048 datagram)

-- The answers to the attempts, which are three in the source: `none` is an exception.
unfoldable pub attempts : Crypto → Bytes → Bytes → List (Option Bytes) → Option Session
unfolding attempt
attempts c client_priv master_key [] = none
attempts c client_priv master_key (answer ∷ answers) =
    elim (attempt c client_priv master_key answer) [
      | again ↦ attempts c client_priv master_key answers
      | raised ↦ none
      | agreed session ↦ some session
    ]

unfoldable pub perform_v3_handshake :
    Crypto → Bytes → Bytes → Option Bytes → Option Bytes → Option Bytes → Option Session
unfolding attempts
perform_v3_handshake c client_priv master_key first second third =
    attempts c client_priv master_key (first ∷ second ∷ third ∷ [])
