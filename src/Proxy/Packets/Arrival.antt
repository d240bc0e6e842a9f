-- ===== src/Proxy/Packets/Arrival.antt =====
-- The way of a datagram through scripts/quick_client.py: packed at one end, handed over at the other.
use aegs_global.Prelude.{
  ℕ, ◌+◌, ◌-◌, ◌^◌, ◌≤◌, ◌<◌, ◌≡◌, refl, ap, ◌∙◌, true, false, some, [], ◌∷◌, ◌++◌, arith, length,
  take, drop, slice, ltb, le→leb, lt→ltb, ltb-false, eq_false, Bytes, be16, of_be16, of_le, to_le,
  bytes_eq_refl, length-append, slice-middle, length-to_le, take_of_length-le,
}
use aegs_global.Crypto.{Crypto, IsCrypto}
use aegs_global.Proxy.Packets.{
  Proxy, semantic_pad, compute_hopper_port, default_server_port, out_hdr, out_pkt, junk_len,
  hand_over, inbound, is_server, receive,
}
use aegs_global.Proxy.Window.{ReplayWindow, check_replay}
use aegs_global.Gateway.Wire.{unmasked}
use aegs_global.Server.State.{Addr, World, IsWorld, sendto}
use aegs_global.Wire.{seal, hdr_plain}
use aegs_global.Wire.Laws.{hdr_plain-is_ours, junk_len_of-hdr_plain}
use aegs_global.Wire.Seal.{length-sealed, decrypt-sealed, of_le-slice-sealed}
use aegs_global.Proxy.Packets.Laws.{
  frame_size, frame_size-le, compute_hopper_port-bounds, length-out_hdr, unmasked-seal,
}

-- The padding of a packet, which the proxy draws.
padding : World → Bytes → Bytes
padding w d = w.token_bytes 0 (semantic_pad w (length d))

frame_of : World → Bytes → Bytes
unfolding padding
frame_of w d = be16 (length d) ++ (d ++ padding w d)

be16-of : (n : ℕ) (r : Bytes) → n < 65536 → of_be16 (take 2 (be16 n ++ r)) ≡ n
be16-of n r h = omega arith

-- The text of the frame gives the datagram back, and drops the padding.
hand_over-frame :
    (w : World) (k : Proxy) (wg : Addr) (d : Bytes)
    → k.wg_client_addr ≡ some wg
    → length d < 65536
    → hand_over k (frame_of w d) ≡ sendto d wg ∷ []
unfolding hand_over frame_of padding
hand_over-frame w k wg d known h =
    let l = length-append d (padding w d) in
    let long : ltb (length (frame_of w d)) 2 ≡ false = ltb-false _ _ (omega arith) in
    let fits : ltb (length (frame_of w d) - 2) (length d) ≡ false =
      ltb-false _ _ (omega (arith, l)) in
    let cut : slice 2 (2 + length d) (frame_of w d) ≡ d =
      slice-middle (be16 (length d)) d (padding w d) 2 (2 + length d) refl (omega arith) in
    simp (known, be16-of (length d) (d ++ padding w d) h, long, fits, cut, hand_over)

-- The far end `r` holds the keys of `k` the other way round, and knows where its WireGuard is.
pub record Mirrors (r k : Proxy) (wg : Addr) : Type 0 where
  pub mask : r.mask_key ≡ k.mask_key
  pub kid : r.raw_kid ≡ k.raw_kid
  pub length_kid : length k.raw_kid ≡ 8
  pub key : r.recv_key ≡ k.send_key
  pub listener : r.wg_client_addr ≡ some wg

module _ (c : Crypto) (laws : IsCrypto c) (w : World) (lw : IsWorld w) (k r : Proxy) (wg : Addr)
    (d : Bytes) (same : Mirrors r k wg) (small : length d ≤ 60000) where
  junk : Bytes
  junk = w.token_bytes 3 (junk_len w)

  length-junk : length junk ≤ 64
  unfolding junk junk_len
  length-junk =
      ground (arith, lw.length-token_bytes 3 (junk_len w), lw.randbelow-lt 3 49 (omega arith))

  hdr : Bytes
  unfolding junk
  hdr = out_hdr c k.mask_key k.raw_kid 0 (w.token_bytes 2 12) junk

  nonce : Bytes
  nonce = to_le 8 (k.client_tx_seq + 1) ++ w.token_bytes 1 4

  length-nonce : length nonce ≡ 12
  unfolding nonce
  length-nonce = omega (
    arith,
    length-append (to_le 8 (k.client_tx_seq + 1)) (w.token_bytes 1 4),
    length-to_le 8 (k.client_tx_seq + 1),
    lw.length-token_bytes 1 4,
  )

  pkt : Bytes
  unfolding hdr nonce
  pkt = seal c k.send_key nonce hdr (frame_of w d)

  out_pkt-pkt : out_pkt c w k d ≡ pkt
  unfolding out_pkt pkt frame_of padding hdr nonce junk
  out_pkt-pkt = refl

  length-hdr : length hdr ≡ 28 + length junk
  unfolding hdr
  length-hdr =
      length-out_hdr c laws k.mask_key k.raw_kid 0 (w.token_bytes 2 12) junk same.length_kid
        (lw.length-token_bytes 2 12)

  length-frame_of : length (frame_of w d) ≡ frame_size w (length d)
  unfolding frame_of padding
  length-frame_of =
      omega
        (arith, length-append d (padding w d), lw.length-token_bytes 0 (semantic_pad w (length d)))

  length-pkt : length pkt ≡ 56 + length junk + frame_size w (length d)
  unfolding pkt
  length-pkt = omega (
    arith,
    length-sealed c laws hdr (28 + length junk) length-hdr k.send_key nonce (frame_of w d)
        length-nonce,
    length-frame_of,
  )

  length-pkt_le : length pkt ≤ 65535
  length-pkt_le = omega (arith, length-pkt, length-junk, frame_size-le w (length d) lw, small)

  unmasked-pkt : unmasked c r.mask_key pkt ≡ hdr_plain r.raw_kid (length junk) 0
  unfolding pkt hdr
  unmasked-pkt =
      rw (same.mask, same.kid)
        (unmasked-seal c laws k.mask_key k.raw_kid 0 (w.token_bytes 2 12) junk same.length_kid
          (lw.length-token_bytes 2 12) k.send_key nonce (frame_of w d))

  number_of-pkt :
      k.client_tx_seq + 1 < 256 ^ 8
      → of_le (slice (28 + length junk) (28 + length junk + 8) pkt) ≡ k.client_tx_seq + 1
  unfolding pkt nonce
  number_of-pkt h =
      of_le-slice-sealed c laws hdr _ length-hdr k.send_key (w.token_bytes 1 4) (frame_of w d)
        (k.client_tx_seq + 1) h

  opened-pkt :
      c.decrypt r.recv_key
        (slice (28 + length junk) (28 + length junk + 12) pkt)
        (drop (28 + length junk + 12) pkt)
        (take (28 + length junk) pkt)
      ≡ some (frame_of w d)
  unfolding pkt
  opened-pkt =
      rw (same.key)
        (decrypt-sealed c laws hdr _ length-hdr k.send_key nonce (frame_of w d) length-nonce)

  inbound-pkt :
      (win : ReplayWindow)
      → k.client_tx_seq + 1 < 256 ^ 8
      → check_replay r.replay (k.client_tx_seq + 1) ≡ (false, win)
      → inbound c r pkt ≡ (record r { replay = win }, sendto d wg ∷ [])
  unfolding inbound
  inbound-pkt win h fresh =
      let kid8 : length r.raw_kid ≡ 8 = ap length same.kid ∙ same.length_kid in
      let l = length-pkt in
      simp (
        unmasked-pkt,
        junk_len_of-hdr_plain r.raw_kid (length junk) 0 kid8 (omega (arith, length-junk)),
        hdr_plain-is_ours r.raw_kid (length junk) 0 kid8,
        le→leb 56 (length pkt) (omega arith),
        le→leb (28 + length junk + 28) (length pkt) (omega arith),
        number_of-pkt h,
        fresh,
        opened-pkt,
        hand_over-frame w (record r { replay = win }) wg d same.listener (omega (arith, small)),
        inbound,
      )

-- The address from which an answer of the server comes: one of its ports.
abbrev pub server_at : Crypto → Bytes → Proxy → ℕ → Addr
server_at c key r wall = record {
  host = r.server_ip;
  port = compute_hopper_port c key default_server_port r.port_count r.hop_interval wall;
}

is_server-server_at :
    (c : Crypto) (key : Bytes) (r : Proxy) (wall : ℕ)
    → 0 < r.port_count
    → is_server r (server_at c key r wall) ≡ true
unfolding is_server
is_server-server_at c key r wall h =
    let (low, high) =
      compute_hopper_port-bounds c key default_server_port r.port_count r.hop_interval wall h in
    rw (bytes_eq_refl r.server_ip, le→leb _ _ low, lt→ltb _ _ high) refl

-- A datagram of at most 60000 bytes that one proxy packs, whatever padding, junk and random bytes it
-- draws, comes out of another that holds the same keys the other way round, when the packet
-- reaches that one from one of the hopping ports of its server and its window does not refuse the
-- packet's number: exactly the datagram, without its padding, goes to the local WireGuard, and
-- apart from the window nothing changes.
pub datagram_arrives :
    (c : Crypto) (laws : IsCrypto c) (w w' : World) (k r : Proxy) (wg : Addr) (d key : Bytes)
    (win : ReplayWindow) (wall wall' : ℕ)
    → IsWorld w
    → Mirrors r k wg
    → length d ≤ 60000
    → 0 < r.port_count
    → k.client_tx_seq + 1 < 256 ^ 8
    → check_replay r.replay (k.client_tx_seq + 1) ≡ (false, win)
    → receive c w' wall' r (server_at c key r wall) (out_pkt c w k d)
      ≡ (record r { replay = win }, sendto d wg ∷ [])
unfolding receive
datagram_arrives c laws w w' k r wg d key win wall wall' lw same small some_ports h fresh =
    let l = length-pkt c laws w lw k r wg d same small in
    let whole =
      take_of_length-le 65535 (pkt c laws w lw k r wg d same small)
        (length-pkt_le c laws w lw k r wg d same small) in
    let not_empty =
      eq_false (length (pkt c laws w lw k r wg d same small)) 0 (λ e. omega (arith, e, l)) in
    simp (
      out_pkt-pkt c laws w lw k r wg d same small,
      whole,
      not_empty,
      is_server-server_at c key r wall some_ports,
      inbound-pkt c laws w lw k r wg d same small win h fresh,
      receive,
    )
