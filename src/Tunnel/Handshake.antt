-- ===== src/Tunnel/Handshake.antt =====
-- `perform_handshake` of aegs_client.py against `process_packet` of aegs_server.py.
use aegs_global.Prelude.{
  ◌≡◌, refl, ap, ◌∙◌, true, some, List, [], ◌∷◌, ◌++◌, arith, length, slice, ltb-false, Bytes,
  bytes_eq_refl, length-append, take-append_eq, slice-append_right, slice-middle, take_of_length-le,
}
use aegs_global.Client.Handshake.{
  handshake_init, accept_response, handshake_datagram, perform_handshake, finish,
}
use aegs_global.Client.State.{Client}
use aegs_global.Crypto.{Crypto, IsCrypto}
use aegs_global.Crypto.Labels.{client_write_info, server_write_info}
use aegs_global.Replay.{init}
use aegs_global.Server.Handshake.{
  hkdf_expand, tag16, handshake_key, handshake_salt, handshake_response,
}
use aegs_global.Server.Packet.{process_packet}
use aegs_global.Server.State.{Addr, Server, World, IsWorld, sendto, client_connected}
use aegs_global.Wire.{outer_header, seal}
use aegs_global.Wire.Laws.{
  unmask-seal, hdr_plain-has_magic, junk_len_of-hdr_plain, length-seal, decrypt-seal,
}
use aegs_global.Tunnel.Accept.{SameToken, server_after, length-tag16, process_packet-init}

module _ (c : Crypto) (laws : IsCrypto c) (wk ws : World) (lk : IsWorld wk) (ls : IsWorld ws)
    (priv shared : Bytes) (k : Client) (s : Server) (addr : Addr)
    (same : SameToken c k s priv shared) where
  -- The client after the handshake.
  abbrev pub client_after : Client
  client_after = record k {
    session_resumption_token = some (ws.token_bytes 0 32);
    send_key = some (hkdf_expand c shared client_write_info);
    recv_key = some (hkdf_expand c shared server_write_info);
  }

  abbrev server_pub : Bytes
  server_pub = c.public_bytes priv

  abbrev server_tag : Bytes
  server_tag = tag16 c (handshake_salt c k.master_key) server_pub

  abbrev server_text : Bytes
  server_text = server_pub ++ (server_tag ++ ws.token_bytes 0 32)

  abbrev response : Bytes
  response =
      seal c (handshake_key c k.master_key) (ws.token_bytes 3 12)
        (outer_header c k.mask_key k.raw_kid 0 (ws.token_bytes 1 12) (ws.token_bytes 2 16))
        server_text

  response-sealed : handshake_response c ws priv s addr ≡ response
  unfolding handshake_response
  response-sealed = simp (same.master, same.mask, same.kid)

  length-response : length response ≡ 152
  length-response = omega (
    arith,
    length-seal c laws k.mask_key k.raw_kid 0 (ws.token_bytes 1 12) (ws.token_bytes 2 16)
        (ap length same.kid ∙ same.length_kid) (ls.length-token_bytes 1 12)
        (handshake_key c k.master_key) (ws.token_bytes 3 12) server_text
        (ls.length-token_bytes 3 12),
    ls.length-token_bytes 2 16,
    laws.length-public_bytes priv,
    length-tag16 c laws wk ws lk ls priv shared k s addr same (handshake_salt c k.master_key)
        server_pub,
    length-append server_pub (server_tag ++ ws.token_bytes 0 32),
    length-append server_tag (ws.token_bytes 0 32),
    ls.length-token_bytes 0 32,
  )

  accept_response-server : accept_response c k server_text ≡ finish true client_after
  unfolding accept_response
  accept_response-server =
      let l = laws.length-public_bytes priv in
      let t =
        length-tag16 c laws wk ws lk ls priv shared k s addr same (handshake_salt c k.master_key)
          server_pub in
      let tok = ws.token_bytes 0 32 in
      let token_slice : slice 48 80 server_text ≡ tok =
        slice-append_right server_pub (server_tag ++ tok) 32 16 48 l
        ∙ slice-append_right server_tag tok 16 0 32 t
        ∙ take_of_length-le 32 tok (omega (arith, ls.length-token_bytes 0 32)) in
      simp (
        take-append_eq server_pub (server_tag ++ tok) 32 l,
        slice-middle server_pub server_tag tok 32 48 l (omega (arith, t)),
        token_slice,
        bytes_eq_refl server_tag,
        same.secret,
        accept_response,
      )

  handshake_datagram-response : handshake_datagram c k response ≡ finish true client_after
  unfolding handshake_datagram
  handshake_datagram-response =
      let iv = ws.token_bytes 1 12 in
      let junk = ws.token_bytes 2 16 in
      let nonce = ws.token_bytes 3 12 in
      let key = handshake_key c k.master_key in
      let hk : length k.raw_kid ≡ 8 = ap length same.kid ∙ same.length_kid in
      let hiv = ls.length-token_bytes 1 12 in
      simp (
        ltb-false (length response) 56 (omega (arith, length-response)),
        unmask-seal c laws k.mask_key k.raw_kid 0 iv junk hk hiv key nonce server_text,
        hdr_plain-has_magic k.raw_kid (length junk) 0 hk,
        junk_len_of-hdr_plain k.raw_kid (length junk) 0 hk
            (omega (arith, ls.length-token_bytes 2 16)),
        decrypt-seal c laws k.mask_key k.raw_kid 0 iv junk hk hiv key nonce server_text
            (ls.length-token_bytes 3 12),
        accept_response-server,
        handshake_datagram,
      )

  perform_handshake-response :
      (ds : List Bytes)
      → perform_handshake c k (handshake_response c ws priv s addr ∷ ds) ≡ (true, client_after)
  unfolding perform_handshake
  perform_handshake-response ds = simp (
    response-sealed,
    take_of_length-le 2048 response (omega (arith, length-response)),
    handshake_datagram-response,
    perform_handshake,
  )

  -- A handshake between a client and a server over one token succeeds: the server answers the
  -- client's packet with one packet to its address, the client ends its wait at once with `true`,
  -- and then each end encrypts with the key by which the other decrypts. The server's window is
  -- new and it sends to the client's address, and the client holds the server's token.
  pub handshake_agrees :
      (ds : List Bytes)
      → (s' : Server) × (r : Bytes) × (k' : Client) × (process_packet c ws priv s addr
            (handshake_init c wk k)
          ≡ (s', sendto r addr ∷ []))
        × (perform_handshake c k (r ∷ ds) ≡ (true, k'))
        × (k'.send_key ≡ s'.recv_key)
        × (s'.send_key ≡ k'.recv_key)
        × (k'.send_key ≡ some (hkdf_expand c shared client_write_info))
        × (s'.client_addr ≡ some addr)
        × (s'.replay_filter ≡ init 2048)
        × (k'.session_resumption_token ≡ some (ws.token_bytes 0 32))
  unfolding client_connected
  handshake_agrees ds = (
    server_after c laws wk ws lk ls priv shared k s addr same,
    handshake_response c ws priv s addr,
    client_after,
    process_packet-init c laws wk ws lk ls priv shared k s addr same,
    perform_handshake-response ds,
    refl,
    refl,
    refl,
    refl,
    refl,
    refl,
  )
