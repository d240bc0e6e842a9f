-- ===== src/Server/Streams.antt =====
-- `proxy_worker` and `send_aegs_frame` of aegs_server.py.
use aegs_global.Prelude.{
  ℕ, ◌+◌, Option, none, some, List, [], ◌∷◌, ◌++◌, length, Bytes, be32, to_le,
}
use aegs_global.Crypto.{Crypto}
use aegs_global.Server.State.{Server, World, Effect, sendto, close, insert, remove}
use aegs_global.Server.Payload.{cmd_data, cmd_close}
use aegs_global.Wire.{outer_header, seal}

-- `pack(">IB", stream_id, cmd) + payload`
abbrev pub frame : ℕ → ℕ → Bytes → Bytes
frame stream_id cmd payload = be32 stream_id ++ (cmd ∷ payload)

-- The packet of a frame with the number `seq`: padding of 16 to 48 bytes and 8 bytes of junk.
unfoldable pub aegs_packet : Crypto → World → Server → Bytes → ℕ → Bytes → Bytes
aegs_packet c w s send_key seq fr =
    let pad = w.token_bytes 0 (16 + w.randbelow 0 33) in
    let nonce = to_le 8 seq ++ w.token_bytes 1 4 in
    let outer = outer_header c s.mask_key s.raw_kid 0 (w.token_bytes 2 12) (w.token_bytes 3 8) in
    seal c send_key nonce outer (fr ++ pad)

unfoldable pub send_aegs_frame : Crypto → World → Server → ℕ → ℕ → Bytes → Server × List Effect
unfolding aegs_packet
send_aegs_frame c w s stream_id cmd payload = elim s.client_addr [
  | none ↦ (s, [])
  | some addr ↦ elim s.send_key [
    | none ↦ (s, [])
    | some send_key ↦
        (let seq = s.tx_seq + 1 in
          (
            record s { tx_seq = seq; total_packets_tx = s.total_packets_tx + 1 },
            sendto (aegs_packet c w s send_key seq (frame stream_id cmd payload)) addr ∷ [],
          ))
  ]
]

-- `proxy_worker` in the steps between which other threads may run: the connection is made, a chunk
-- is read from the remote side, and the end, which the `finally` block makes.
unfoldable pub worker_open : Server → ℕ → ℕ → Server
worker_open s stream_id sock = record s { streams = insert stream_id sock s.streams }

unfoldable pub worker_chunk : Crypto → World → Server → ℕ → Bytes → Server × List Effect
unfolding send_aegs_frame
worker_chunk c w s stream_id chunk =
    let (s', es) = send_aegs_frame c w s stream_id cmd_data chunk in
    (record s' { total_bytes_tx = s'.total_bytes_tx + length chunk }, es)

-- `remote` is none where the connection was never made.
unfoldable pub worker_end : Crypto → World → Server → ℕ → Option ℕ → Server × List Effect
unfolding send_aegs_frame
worker_end c w s stream_id remote =
    let (s', es) =
      send_aegs_frame c w (record s { streams = remove stream_id s.streams }) stream_id cmd_close
        [] in
    (s', es ++ (elim remote [ none ↦ [] | some sock ↦ close sock ∷ [] ]))
