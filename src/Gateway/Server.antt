-- ===== src/Gateway/Server.antt =====
-- The server of aegs_tunnel_gateway.py.
use aegs_global.Prelude.{
  ℕ, ◌+◌, Bool, false, ◌&&◌, ◌||◌, Option, none, some, List, [], ◌∷◌, ◌++◌, length, get_or, take,
  drop, slice, replicate, leb, ltb, ◌==◌, if◌then◌else◌, Bytes, bytes_eq, of_le, to_le, of_be32,
}
use aegs_global.Crypto.{Crypto}
use aegs_global.Crypto.Labels.{c2s_info, s2c_info}
use aegs_global.Gateway.Wire.{master_key_of, mask_key_of, session_key, masked_outer, unmasked}
use aegs_global.Server.Handshake.{tag16}
use aegs_global.Server.Payload.{cmd_connect, cmd_data, cmd_close, handle_connect}
use aegs_global.Server.State.{Addr, World, Effect, sendto, sendall, close, lookup, insert, remove}
use aegs_global.Server.Streams.{frame}
use aegs_global.Wire.{seal, is_ours, junk_len_of}

pub record GatewayServer : Type 0 where
  pub port : ℕ
  pub raw_kid : Bytes
  pub master_key : Bytes
  pub mask_key : Bytes
  pub streams : List (ℕ × ℕ)
  pub client_addr : Option Addr
  pub recv_key : Option Bytes
  pub send_key : Option Bytes
  pub tx_seq : ℕ
  pub seen_seqs : List ℕ

unfoldable pub new_gateway_server : Crypto → ℕ → Bytes → GatewayServer
new_gateway_server c port token = record {
  port = port;
  raw_kid = take 8 (c.sha256 token);
  master_key = master_key_of c token;
  mask_key = mask_key_of c token;
  streams = [];
  client_addr = none;
  recv_key = none;
  send_key = none;
  tx_seq = 0;
  seen_seqs = [];
}

-- `seq in self.seen_seqs`
unfoldable pub seen : ℕ → List ℕ → Bool
seen n [] = false
seen n (m ∷ ms) = m == n || seen n ms

-- The commands in an opened frame.
unfoldable pub gateway_payload : World → GatewayServer → Bytes → GatewayServer × List Effect
gateway_payload w g pt =
    if ltb (length pt) 5
    then (g, [])
    else (let stream_id = of_be32 (take 4 pt) in
        let cmd = get_or pt 4 0 in
        if cmd == cmd_connect
        then (g, handle_connect stream_id pt)
        else if cmd == cmd_data
        then (
          g,
          elim (lookup stream_id g.streams) [
            | none ↦ []
            | some sock ↦ if w.alive sock then sendall sock (drop 5 pt) ∷ [] else []
          ],
        )
        else if cmd == cmd_close
        then (
          record g { streams = remove stream_id g.streams },
          elim (lookup stream_id g.streams) [ none ↦ [] | some sock ↦ close sock ∷ [] ],
        )
        else (g, []))

module _ (c : Crypto) (w : World) (server_priv : Bytes) (g : GatewayServer) (addr : Addr) where
  -- The answer to a handshake under the new key of the server's direction.
  unfoldable pub gateway_response : Bytes → Bytes
  gateway_response send_key =
      let hdr = (2 ∷ replicate 7 0) ++ (w.token_bytes 0 8 ++ c.public_bytes server_priv) in
      let config = (0x0a ∷ 0x08 ∷ 0x00 ∷ 0x02 ∷ 0x78 ∷ 0x05 ∷ []) ++ replicate 10 0 in
      hdr ++ c.encrypt send_key (replicate 12 0) config hdr

  -- A handshake of type 0x01. The numbers that were seen are kept.
  unfoldable pub gateway_handshake : Bytes → GatewayServer × List Effect
  unfolding gateway_response
  gateway_handshake d =
      if bytes_eq (slice 8 16 d) g.raw_kid
        && bytes_eq (slice 56 72 d) (tag16 c g.master_key (take 56 d))
      then elim (c.exchange server_priv (slice 16 48 d)) [
        | none ↦ (g, [])
        | some shared ↦
            (let send_key = session_key c shared g.master_key s2c_info in
              (
                record g {
                  recv_key = some (session_key c shared g.master_key c2s_info);
                  send_key = some send_key;
                  client_addr = some addr;
                },
                sendto (gateway_response send_key) addr ∷ [],
              ))
      ]
      else (g, [])

  -- A data packet whose header is ours and that has room for a tag. The number is noted before the
  -- body is opened.
  unfoldable pub gateway_body : Bytes → Bytes → ℕ → GatewayServer × List Effect
  gateway_body key d n =
      let seq = of_le (slice n (n + 8) d) in
      if seen seq g.seen_seqs
      then (g, [])
      else (let g' = record g { seen_seqs = seq ∷ g.seen_seqs } in
          elim (c.decrypt key (slice n (n + 12) d) (drop (n + 12) d) (take n d)) [
            | none ↦ (g', [])
            | some pt ↦ gateway_payload w g' pt
          ])

  unfoldable pub gateway_data : Bytes → GatewayServer × List Effect
  unfolding gateway_body
  gateway_data d = elim g.recv_key [
    | none ↦ (g, [])
    | some key ↦
        (let hdr = unmasked c g.mask_key d in
          let n = 28 + junk_len_of hdr in
          if leb 56 (length d) && (is_ours g.raw_kid hdr && leb (n + 28) (length d))
          then gateway_body key d n
          else (g, []))
  ]

  -- One round of the loop of `start`.
  unfoldable pub gateway_datagram : Bytes → GatewayServer × List Effect
  unfolding gateway_handshake gateway_data
  gateway_datagram d =
      if ltb (length d) 20
      then (g, [])
      else if get_or d 0 0 == 1 && leb 72 (length d)
      then gateway_handshake d
      else gateway_data d

-- `send_aegs_frame`.
unfoldable pub gateway_frame :
    Crypto → World → GatewayServer → ℕ → ℕ → Bytes → GatewayServer × List Effect
gateway_frame c w g stream_id cmd payload = elim g.client_addr [
  | none ↦ (g, [])
  | some addr ↦ elim g.send_key [
    | none ↦ (g, [])
    | some key ↦
        (let pad = w.token_bytes 0 (16 + w.randbelow 0 33) in
          let nonce = to_le 8 (g.tx_seq + 1) ++ w.token_bytes 1 4 in
          let outer =
            masked_outer c g.mask_key g.raw_kid (w.token_bytes 2 12) (w.token_bytes 3 8) in
          (
            record g { tx_seq = g.tx_seq + 1 },
            sendto (seal c key nonce outer (frame stream_id cmd payload ++ pad)) addr ∷ [],
          ))
  ]
]

-- `proxy_worker`: the connection made, a chunk read, and the end.
unfoldable pub gateway_open : GatewayServer → ℕ → ℕ → GatewayServer
gateway_open g stream_id sock = record g { streams = insert stream_id sock g.streams }

unfoldable pub gateway_chunk :
    Crypto → World → GatewayServer → ℕ → Bytes → GatewayServer × List Effect
unfolding gateway_frame
gateway_chunk c w g stream_id chunk = gateway_frame c w g stream_id cmd_data chunk

unfoldable pub gateway_end :
    Crypto → World → GatewayServer → ℕ → Option ℕ → GatewayServer × List Effect
unfolding gateway_frame
gateway_end c w g stream_id remote =
    let (g', es) =
      gateway_frame c w (record g { streams = remove stream_id g.streams }) stream_id cmd_close
        [] in
    (g', es ++ (elim remote [ none ↦ [] | some sock ↦ close sock ∷ [] ]))

-- The loop of `start` over the datagrams that come in, each with what is drawn while it is handled.
-- The server's private key is drawn once.
unfoldable pub gateway_run :
    Crypto → Bytes → GatewayServer → List (World × (Addr × Bytes)) → GatewayServer
unfolding gateway_datagram
gateway_run c priv g [] = g
gateway_run c priv g ((w, (addr, d)) ∷ ds) =
    gateway_run c priv (gateway_datagram c w priv g addr d).0 ds
