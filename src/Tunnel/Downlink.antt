-- ===== src/Tunnel/Downlink.antt =====
-- From `send_aegs_frame` of aegs_server.py to `udp_receiver_loop` of aegs_client.py.
use aegs_global.Prelude.{
  eq_false, ℕ, ◌+◌, ◌^◌, ◌≤◌, ◌<◌, ◌≡◌, ap, ◌∙◌, true, none, some, [], ◌∷◌, ◌++◌, arith, length,
  take, drop, slice, ltb, ltb-false, Bool-cases, inl, inr, Bytes, to_le, length-append,
  length-to_le, take_of_length-le,
}
use aegs_global.Client.Packets.{udp_receive, receive_frame}
use aegs_global.Client.State.{Client}
use aegs_global.Crypto.{Crypto, IsCrypto}
use aegs_global.Server.Payload.{cmd_data}
use aegs_global.Server.State.{Addr, Server, World, IsWorld, sendto, sendall, lookup}
use aegs_global.Server.Streams.{frame, aegs_packet, send_aegs_frame}
use aegs_global.Tunnel.Uplink.{long_frame, of_be32-be32}
use aegs_global.Wire.{outer_header, seal, unmask, has_magic, junk_len_of}
use aegs_global.Wire.Laws.{
  unmask-seal, hdr_plain-has_magic, junk_len_of-hdr_plain, length-seal, decrypt-seal,
}

-- The two ends hold the same secrets, a session key of the server's direction among them.
pub record Linked (k : Client) (s : Server) (key : Bytes) (addr : Addr) : Type 0 where
  pub mask : s.mask_key ≡ k.mask_key
  pub kid : s.raw_kid ≡ k.raw_kid
  pub length_kid : length k.raw_kid ≡ 8
  pub sends : s.send_key ≡ some key
  pub receives : k.recv_key ≡ some key
  pub knows : s.client_addr ≡ some addr

-- The padding behind a frame of the server.
abbrev pub padding : World → Bytes
padding w = w.token_bytes 0 (16 + w.randbelow 0 33)

module _ (c : Crypto) (laws : IsCrypto c) (ws wk : World) (lw : IsWorld ws) (k : Client)
    (s : Server) (addr : Addr) (key : Bytes) (sid cmd : ℕ) (payload : Bytes)
    (link : Linked k s key addr) where
  abbrev pub text : Bytes
  text = frame sid cmd (payload ++ padding ws)

  abbrev pkt : Bytes
  pkt = aegs_packet c ws s key (s.tx_seq + 1) (frame sid cmd payload)

  abbrev sealed : Bytes
  sealed =
      seal c key (to_le 8 (s.tx_seq + 1) ++ ws.token_bytes 1 4)
        (outer_header c k.mask_key k.raw_kid 0 (ws.token_bytes 2 12) (ws.token_bytes 3 8)) text

  pkt-sealed : pkt ≡ sealed
  unfolding aegs_packet
  pkt-sealed = simp (link.mask, link.kid)

  length-nonce : length (to_le 8 (s.tx_seq + 1) ++ ws.token_bytes 1 4) ≡ 12
  length-nonce = omega (
    arith,
    length-append (to_le 8 (s.tx_seq + 1)) (ws.token_bytes 1 4),
    length-to_le 8 (s.tx_seq + 1),
    lw.length-token_bytes 1 4,
  )

  length-padding : length (padding ws) ≡ 16 + ws.randbelow 0 33
  length-padding = lw.length-token_bytes 0 _

  length-pkt : length pkt ≡ 85 + length payload + ws.randbelow 0 33
  length-pkt = omega (
    arith,
    ap length pkt-sealed,
    length-seal c laws k.mask_key k.raw_kid 0 (ws.token_bytes 2 12) (ws.token_bytes 3 8)
        link.length_kid (lw.length-token_bytes 2 12) key
        (to_le 8 (s.tx_seq + 1) ++ ws.token_bytes 1 4) text length-nonce,
    lw.length-token_bytes 3 8,
    length-append payload (padding ws),
    length-padding,
  )

  send_aegs_frame-linked : send_aegs_frame c ws s sid cmd payload ≡ (
    record s { tx_seq = s.tx_seq + 1; total_packets_tx = s.total_packets_tx + 1 },
    sendto pkt addr ∷ [],
  )
  unfolding send_aegs_frame
  send_aegs_frame-linked = simp (link.knows, link.sends, send_aegs_frame)

  udp_receive-pkt : length pkt ≤ 4096 → udp_receive c wk k pkt ≡ receive_frame wk k text
  unfolding udp_receive
  udp_receive-pkt fits =
      let junk = ws.token_bytes 3 8 in
      let hj = lw.length-token_bytes 3 8 in
      let nonce = to_le 8 (s.tx_seq + 1) ++ ws.token_bytes 1 4 in
      let iv = ws.token_bytes 2 12 in
      let hiv = lw.length-token_bytes 2 12 in
      simp (
        pkt-sealed,
        take_of_length-le 4096 sealed (omega (arith, ap length pkt-sealed)),
        ltb-false (length sealed) 56 (omega (arith, ap length pkt-sealed, length-pkt)),
        unmask-seal c laws k.mask_key k.raw_kid 0 iv junk link.length_kid hiv key nonce text,
        hdr_plain-has_magic k.raw_kid (length junk) 0 link.length_kid,
        junk_len_of-hdr_plain k.raw_kid (length junk) 0 link.length_kid (omega (arith, hj)),
        link.receives,
        decrypt-seal c laws k.mask_key k.raw_kid 0 iv junk link.length_kid hiv key nonce text
            length-nonce,
        udp_receive,
      )

-- A datagram that does not open after the cut leaves the client as it was.
udp_receive-shut :
    (c : Crypto) (wk : World) (k : Client) (p key : Bytes)
    → k.recv_key ≡ some key
    → (let d = take 4096 p in
        let n = 28 + junk_len_of (unmask c k.mask_key d) in
        c.decrypt key (slice n (n + 12) d) (drop (n + 12) d) (take n d) ≡ none)
    → udp_receive c wk k p ≡ (k, [])
unfolding udp_receive
udp_receive-shut c wk k p key receives shut = elim (Bool-cases (ltb (length (take 4096 p)) 56)) [
  | inl short ↦ simp (short, udp_receive)
  | inr long ↦ elim (Bool-cases (has_magic (unmask c k.mask_key (take 4096 p)))) [
    | inl ours ↦ simp (long, ours, receives, shut, udp_receive)
    | inr other ↦ simp (long, other, udp_receive)
  ]
]

-- A chunk from the remote side, of at most 3963 bytes, sent by the server while the client knows the
-- stream, is written to the local connection. What is written is the chunk with the packet's
-- padding behind it, 16 bytes or more.
pub downlink_data :
    (c : Crypto) (laws : IsCrypto c) (ws wk : World) (lw : IsWorld ws) (k : Client) (s : Server)
    (addr : Addr) (key : Bytes) (sid conn : ℕ) (payload : Bytes)
    → Linked k s key addr
    → 0 < sid
    → sid < 256 ^ 4
    → length payload ≤ 3963
    → lookup sid k.streams ≡ some conn
    → wk.alive conn ≡ true
    → (p pad : Bytes) × (send_aegs_frame c ws s sid cmd_data payload ≡ (
      record s { tx_seq = s.tx_seq + 1; total_packets_tx = s.total_packets_tx + 1 },
      sendto p addr ∷ [],
    ))
      × (16 ≤ length pad)
      × (udp_receive c wk k p ≡ (k, sendall conn (payload ++ pad) ∷ []))
downlink_data c laws ws wk lw k s addr key sid conn payload link pos h small known alive = (
  aegs_packet c ws s key (s.tx_seq + 1) (frame sid cmd_data payload),
  padding ws,
  send_aegs_frame-linked c laws ws wk lw k s addr key sid cmd_data payload link,
  omega (arith, length-padding c laws ws wk lw k s addr key sid cmd_data payload link),
  udp_receive-pkt c laws ws wk lw k s addr key sid cmd_data payload link (
        omega (
          arith,
          length-pkt c laws ws wk lw k s addr key sid cmd_data payload link,
          lw.randbelow-lt 0 33,
        ))
      ∙ unfold receive_frame in
        simp (
          long_frame sid cmd_data (payload ++ padding ws),
          of_be32-be32 sid (cmd_data ∷ (payload ++ padding ws)) h,
          eq_false sid 0 (omega arith),
          known,
          alive,
          receive_frame,
        ),
)

-- The server reads chunks of up to 16384 bytes and puts each into one packet, but the client reads
-- 4096 bytes of a datagram. A chunk of 4012 bytes or more gives a longer packet, and unless what is
-- left of it opens, the client drops it without a trace: the chunk is lost.
pub downlink_cut :
    (c : Crypto) (laws : IsCrypto c) (ws wk : World) (lw : IsWorld ws) (k : Client) (s : Server)
    (addr : Addr) (key : Bytes) (sid : ℕ) (payload : Bytes)
    → Linked k s key addr
    → 4012 ≤ length payload
    → (let d = take 4096 (aegs_packet c ws s key (s.tx_seq + 1) (frame sid cmd_data payload)) in
        let n = 28 + junk_len_of (unmask c k.mask_key d) in
        c.decrypt key (slice n (n + 12) d) (drop (n + 12) d) (take n d) ≡ none)
    → (p : Bytes) × (send_aegs_frame c ws s sid cmd_data payload ≡ (
      record s { tx_seq = s.tx_seq + 1; total_packets_tx = s.total_packets_tx + 1 },
      sendto p addr ∷ [],
    ))
      × (4096 < length p)
      × (udp_receive c wk k p ≡ (k, []))
downlink_cut c laws ws wk lw k s addr key sid payload link long shut =
    let p = aegs_packet c ws s key (s.tx_seq + 1) (frame sid cmd_data payload) in
    let l = length-pkt c laws ws wk lw k s addr key sid cmd_data payload link in
    (
      p,
      send_aegs_frame-linked c laws ws wk lw k s addr key sid cmd_data payload link,
      omega (arith, l),
      udp_receive-shut c wk k p key link.receives shut,
    )
