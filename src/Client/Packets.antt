-- ===== src/Client/Packets.antt =====
-- `send_raw_packet`, `udp_receiver_loop` and `chaffing_loop` of aegs_client.py.
use aegs_global.Prelude.{
  ℕ, ◌+◌, ◌-◌, max, Bool, true, ◌||◌, none, some, List, [], ◌∷◌, ◌++◌, length, take, drop, slice,
  get_or, ltb, ◌==◌, if◌then◌else◌, Bytes, of_be32, to_le,
}
use aegs_global.Crypto.{Crypto}
use aegs_global.Client.State.{Client, server_addr}
use aegs_global.Server.Payload.{cmd_data, cmd_close, cmd_chaff}
use aegs_global.Server.State.{World, Effect, sendto, sendall, close, lookup, remove}
use aegs_global.Server.Streams.{frame}
use aegs_global.Wire.{outer_header, seal, unmask, has_magic, junk_len_of}

-- Small frames are padded towards 256 bytes and large ones towards 1350, with some jitter.
unfoldable pub pad_len : World → ℕ → ℕ
pad_len w n =
    let target = if ltb n 200 then 256 else 1350 in max 16 (target - n - 40) + w.randbelow 0 33

-- One packet in four carries 16 to 32 bytes of junk.
unfoldable pub junk_len : World → ℕ
junk_len w = if ltb (w.randbelow 1 100) 25 then 16 + w.randbelow 2 17 else 0

unfoldable pub raw_packet : Crypto → World → Client → Bytes → ℕ → ℕ → Bytes → Bytes
unfolding pad_len junk_len
raw_packet c w k send_key seq flag fr =
    let pad = w.token_bytes 0 (pad_len w (length fr)) in
    let nonce = to_le 8 seq ++ w.token_bytes 1 4 in
    let outer =
      outer_header c k.mask_key k.raw_kid flag (w.token_bytes 2 12)
        (w.token_bytes 3 (junk_len w)) in
    seal c send_key nonce outer (fr ++ pad)

unfoldable pub send_raw_packet :
    Crypto → World → Client → ℕ → ℕ → Bytes → Bool → Client × List Effect
unfolding raw_packet
send_raw_packet c w k sid cmd payload chaff = elim k.send_key [
  | none ↦ (k, [])
  | some send_key ↦
      (let seq = k.tx_seq + 1 in
        (
          record k { tx_seq = seq },
          sendto (raw_packet c w k send_key seq (if chaff then 0x80 else 0) (frame sid cmd payload))
                (server_addr k w.now)
              ∷ [],
        ))
]

-- The opened text of a packet from the server. A text of fewer than five bytes raises.
unfoldable pub receive_frame : World → Client → Bytes → Client × List Effect
receive_frame w k pt =
    let sid = of_be32 (take 4 pt) in
    let cmd = get_or pt 4 0 in
    if ltb (length pt) 5 || (sid == 0 || cmd == cmd_chaff)
    then (k, [])
    else elim (lookup sid k.streams) [
      | none ↦ (k, [])
      | some conn ↦
          if cmd == cmd_data
          then (k, if w.alive conn then sendall conn (drop 5 pt) ∷ [] else [])
          else if cmd == cmd_close
          then (record k { streams = remove sid k.streams }, close conn ∷ [])
          else (k, [])
    ]

-- One round of the receiver, for a datagram that `recvfrom(4096)` cuts at 4096 bytes.
unfoldable pub udp_receive : Crypto → World → Client → Bytes → Client × List Effect
unfolding receive_frame
udp_receive c w k datagram =
    let d = take 4096 datagram in
    if ltb (length d) 56
    then (k, [])
    else (let hdr = unmask c k.mask_key d in
        let n = 28 + junk_len_of hdr in
        if has_magic hdr
        then elim k.recv_key [
          | none ↦ (k, [])
          | some recv_key ↦
              elim (c.decrypt recv_key (slice n (n + 12) d) (drop (n + 12) d) (take n d)) [
                | none ↦ (k, [])
                | some pt ↦ receive_frame w k pt
              ]
        ]
        else (k, []))

-- One round of the chaffing loop: after 1.2 seconds without real traffic a dummy packet goes out.
unfoldable pub chaff_round : Crypto → World → Client → Client × List Effect
unfolding send_raw_packet
chaff_round c w k =
    if ltb (k.last_real_traffic + 1200) w.now
    then (let (k', es) =
          send_raw_packet c w k 0 cmd_chaff (w.token_bytes 4 (w.randbelow 3 128 + 32)) true in
        (record k' { last_real_traffic = w.now }, es))
    else (k, [])
