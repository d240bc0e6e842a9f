-- ===== src/Tunnel/Accept.antt =====
-- The first packet of aegs_client.py's handshake, as `process_packet` of aegs_server.py takes it.
use aegs_global.Prelude.{
  ◌+◌, ◌≡◌, ◌∙◌, none, some, [], ◌∷◌, ◌++◌, arith, length, slice, le→leb, ltb-false, Bytes,
  bytes_eq_refl, length-append, length-take, take-append_eq, slice-append_right, take_of_length-le,
}
use aegs_global.Client.Handshake.{handshake_init}
use aegs_global.Client.State.{Client}
use aegs_global.Crypto.{Crypto, IsCrypto}
use aegs_global.Crypto.Labels.{client_write_info, server_write_info}
use aegs_global.Replay.{init}
use aegs_global.Server.Handshake.{
  hkdf_expand, tag16, handshake_key, handshake_salt, handshake_response, wire_accept,
  wire_handshake,
}
use aegs_global.Server.Packet.{stun_probe, process_packet}
use aegs_global.Server.State.{Addr, Server, World, IsWorld, sendto, client_connected}
use aegs_global.Wire.{outer_header, seal}
use aegs_global.Wire.Laws.{
  unmask-seal, hdr_plain-is_ours, junk_len_of-hdr_plain, length-seal, decrypt-seal,
}

-- The two ends before a handshake: the keys that the token gives, and private keys whose exchange
-- gives a shared secret.
pub record SameToken (c : Crypto) (k : Client) (s : Server) (priv shared : Bytes) : Type 0 where
  pub master : k.master_key ≡ s.master_key
  pub mask : k.mask_key ≡ s.mask_key
  pub kid : k.raw_kid ≡ s.raw_kid
  pub length_kid : length s.raw_kid ≡ 8
  pub secret : c.exchange k.client_priv (c.public_bytes priv) ≡ some shared

module _ (c : Crypto) (laws : IsCrypto c) (wk ws : World) (lk : IsWorld wk) (ls : IsWorld ws)
    (priv shared : Bytes) (k : Client) (s : Server) (addr : Addr)
    (same : SameToken c k s priv shared) where
  -- The server after the handshake.
  abbrev pub server_after : Server
  server_after = client_connected ws addr (record s {
    recv_key = some (hkdf_expand c shared client_write_info);
    send_key = some (hkdf_expand c shared server_write_info);
    client_addr = some addr;
    replay_filter = init 2048;
  })

  pub length-tag16 : (key m : Bytes) → length (tag16 c key m) ≡ 16
  length-tag16 key m = omega (arith, length-take 16 (c.hmac_sha256 key m), laws.length-hmac key m)

  abbrev client_pub : Bytes
  client_pub = c.public_bytes k.client_priv

  abbrev client_text : Bytes
  client_text = client_pub ++ tag16 c (handshake_salt c s.master_key) client_pub

  wire_accept-client :
      wire_accept c ws priv s addr client_text
      ≡ some (server_after, sendto (handshake_response c ws priv s addr) addr ∷ [])
  unfolding wire_accept
  wire_accept-client =
      let l = laws.length-public_bytes k.client_priv in
      let t = length-tag16 (handshake_salt c s.master_key) client_pub in
      let tag = tag16 c (handshake_salt c s.master_key) client_pub in
      let text_length : length client_text ≡ 48 =
        omega (arith, l, t, length-append client_pub tag) in
      let tag_slice : slice 32 48 client_text ≡ tag =
        slice-append_right client_pub tag 32 0 16 l ∙ take_of_length-le 16 tag (omega arith) in
      simp (
        text_length,
        take-append_eq client_pub tag 32 l,
        tag_slice,
        bytes_eq_refl tag,
        laws.exchange_comm priv k.client_priv,
        same.secret,
        wire_accept,
      )

  abbrev init_pkt : Bytes
  init_pkt =
      seal c (handshake_key c s.master_key) (wk.token_bytes 2 12)
        (outer_header c s.mask_key s.raw_kid 0 (wk.token_bytes 0 12) (wk.token_bytes 1 16))
        client_text

  init-sealed : handshake_init c wk k ≡ init_pkt
  unfolding handshake_init
  init-sealed = simp (same.master, same.mask, same.kid)

  length-client_text : length client_text ≡ 48
  length-client_text = omega (
    arith,
    laws.length-public_bytes k.client_priv,
    length-tag16 (handshake_salt c s.master_key) client_pub,
    length-append client_pub (tag16 c (handshake_salt c s.master_key) client_pub),
  )

  length-init : length init_pkt ≡ 120
  length-init = omega (
    arith,
    length-seal c laws s.mask_key s.raw_kid 0 (wk.token_bytes 0 12) (wk.token_bytes 1 16)
        same.length_kid (lk.length-token_bytes 0 12) (handshake_key c s.master_key)
        (wk.token_bytes 2 12) client_text (lk.length-token_bytes 2 12),
    lk.length-token_bytes 1 16,
    length-client_text,
  )

  wire_handshake-init :
      wire_handshake c ws priv s addr init_pkt
      ≡ some (server_after, sendto (handshake_response c ws priv s addr) addr ∷ [])
  unfolding wire_handshake
  wire_handshake-init =
      let iv = wk.token_bytes 0 12 in
      let junk = wk.token_bytes 1 16 in
      let nonce = wk.token_bytes 2 12 in
      let key = handshake_key c s.master_key in
      let hiv = lk.length-token_bytes 0 12 in
      let hj = lk.length-token_bytes 1 16 in
      simp (
        le→leb 88 (length init_pkt) (omega (arith, length-init)),
        unmask-seal c laws s.mask_key s.raw_kid 0 iv junk same.length_kid hiv key nonce client_text,
        hdr_plain-is_ours s.raw_kid (length junk) 0 same.length_kid,
        junk_len_of-hdr_plain s.raw_kid (length junk) 0 same.length_kid (omega (arith, hj)),
        le→leb (28 + length junk + 60) (length init_pkt) (omega (arith, length-init, hj)),
        decrypt-seal c laws s.mask_key s.raw_kid 0 iv junk same.length_kid hiv key nonce client_text
            (lk.length-token_bytes 2 12),
        wire_accept-client,
        wire_handshake,
      )

  pub process_packet-init :
      process_packet c ws priv s addr (handshake_init c wk k)
      ≡ (server_after, sendto (handshake_response c ws priv s addr) addr ∷ [])
  unfolding process_packet
  process_packet-init =
      let quiet : stun_probe ws s addr init_pkt ≡ none =
        unfold stun_probe in ground (arith, length-init) in
      rw (
        init-sealed,
        ltb-false (length init_pkt) 20 (omega (arith, length-init)),
        quiet,
        wire_handshake-init,
      )
