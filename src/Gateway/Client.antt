-- ===== src/Gateway/Client.antt =====
-- The client of aegs_tunnel_gateway.py: its handshake, its packets and the streams it gives out.
use aegs_global.Prelude.{
  ℕ, ◌+◌, Bool, true, false, ◌&&◌, ◌||◌, Option, none, some, List, [], ◌∷◌, ◌++◌, length, get_or,
  take, drop, slice, replicate, leb, ltb, ◌==◌, not, if◌then◌else◌, Bytes, to_le, of_be32,
}
use mathlib.Core.List.{reverse}
use aegs_global.Crypto.{Crypto}
use aegs_global.Crypto.Labels.{c2s_info, s2c_info}
use aegs_global.Gateway.Wire.{master_key_of, mask_key_of, session_key, masked_outer, unmasked}
use aegs_global.Server.Handshake.{tag16}
use aegs_global.Server.Payload.{cmd_data, cmd_close}
use aegs_global.Server.State.{Addr, World, Effect, sendto, sendall, close, lookup, insert, remove}
use aegs_global.Server.Streams.{frame}
use aegs_global.Wire.{seal, is_ours, junk_len_of}

pub record GatewayClient : Type 0 where
  pub server : Addr
  pub raw_kid : Bytes
  pub master_key : Bytes
  pub mask_key : Bytes
  pub send_key : Option Bytes
  pub recv_key : Option Bytes
  pub tx_seq : ℕ
  pub streams : List (ℕ × ℕ)
  pub stream_counter : ℕ

unfoldable pub new_gateway_client : Crypto → Addr → Bytes → GatewayClient
new_gateway_client c server token = record {
  server = server;
  raw_kid = take 8 (c.sha256 token);
  master_key = master_key_of c token;
  mask_key = mask_key_of c token;
  send_key = none;
  recv_key = none;
  tx_seq = 0;
  streams = [];
  stream_counter = 0;
}

-- The 72 bytes of the handshake; `now` is in milliseconds.
unfoldable pub gateway_init : Crypto → Bytes → ℕ → GatewayClient → Bytes
gateway_init c priv now k =
    let head =
      (1 ∷ replicate 7 0) ++ (k.raw_kid ++ (c.public_bytes priv ++ reverse (to_le 8 now))) in
    head ++ tag16 c k.master_key head

-- The answer, of which `recvfrom` reads 4096 bytes: both keys are set before the server's tag is looked at. A text that is too short or
-- not of type 2 changes nothing.
unfoldable pub gateway_accept : Crypto → Bytes → GatewayClient → Bytes → Bool × GatewayClient
gateway_accept c priv k datagram =
    let resp = take 4096 datagram in
    if ltb (length resp) 80 || not (get_or resp 0 0 == 2)
    then (false, k)
    else elim (c.exchange priv (slice 16 48 resp)) [
      | none ↦ (false, k)
      | some shared ↦
          (let recv_key = session_key c shared k.master_key s2c_info in
            let k' = record k {
              send_key = some (session_key c shared k.master_key c2s_info);
              recv_key = some recv_key;
            } in
            elim (c.decrypt recv_key (replicate 12 0) (drop 48 resp) (take 48 resp)) [
              | none ↦ (false, k')
              | some config ↦ (true, k')
            ])
    ]

-- `send_aegs_packet`. Without a key it raises when the number has been taken.
unfoldable pub gateway_send :
    Crypto → World → GatewayClient → ℕ → ℕ → Bytes → GatewayClient × List Effect
gateway_send c w k stream_id cmd payload =
    let k' = record k { tx_seq = k.tx_seq + 1 } in
    elim k.send_key [
      | none ↦ (k', [])
      | some key ↦
          (let nonce = to_le 8 (k.tx_seq + 1) ++ w.token_bytes 0 4 in
            let outer =
              masked_outer c k.mask_key k.raw_kid (w.token_bytes 1 12) (w.token_bytes 2 8) in
            (k', sendto (seal c key nonce outer (frame stream_id cmd payload)) k.server ∷ []))
    ]

-- The opened text of a packet from the server; one of fewer than five bytes raises.
unfoldable pub gateway_deliver : World → GatewayClient → Bytes → GatewayClient × List Effect
gateway_deliver w k pt =
    let stream_id = of_be32 (take 4 pt) in
    let cmd = get_or pt 4 0 in
    if ltb (length pt) 5 then (k, []) else elim (lookup stream_id k.streams) [
      | none ↦ (k, [])
      | some sock ↦
          if cmd == cmd_data
          then (k, if w.alive sock then sendall sock (drop 5 pt) ∷ [] else [])
          else if cmd == cmd_close
          then (record k { streams = remove stream_id k.streams }, close sock ∷ [])
          else (k, [])
    ]

-- One round of `udp_receiver`.
unfoldable pub gateway_receive :
    Crypto → World → GatewayClient → Bytes → GatewayClient × List Effect
unfolding gateway_deliver
gateway_receive c w k d =
    let hdr = unmasked c k.mask_key d in
    let n = 28 + junk_len_of hdr in
    if leb 56 (length d) && is_ours k.raw_kid hdr
    then elim k.recv_key [
      | none ↦ (k, [])
      | some key ↦ elim (c.decrypt key (slice n (n + 12) d) (drop (n + 12) d) (take n d)) [
        | none ↦ (k, [])
        | some pt ↦ gateway_deliver w k pt
      ]
    ]
    else (k, [])

-- A connection is accepted: it gets the next number.
unfoldable pub gateway_accept_conn : GatewayClient → ℕ → GatewayClient × ℕ
gateway_accept_conn k conn =
    let sid = k.stream_counter + 1 in
    (record k { stream_counter = sid; streams = insert sid conn k.streams }, sid)

-- What the `finally` block of `handle_socks_client` does. Where there is no key the sending raises, and
-- the connection is not closed.
unfoldable pub gateway_conn_end :
    Crypto → World → GatewayClient → ℕ → ℕ → GatewayClient × List Effect
unfolding gateway_send
gateway_conn_end c w k sid conn =
    let (k', es) =
      gateway_send c w (record k { streams = remove sid k.streams }) sid cmd_close [] in
    (k', elim k.send_key [ none ↦ es | some key ↦ es ++ (close conn ∷ []) ])
