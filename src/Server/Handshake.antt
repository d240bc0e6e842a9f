-- ===== src/Server/Handshake.antt =====
-- The two handshakes and the resumption of `process_packet` in aegs_server.py. A handler gives
-- `none` where the code falls through to the next kind of packet.
use aegs_global.Prelude.{
  ◌+◌, Bool, true, false, ◌&&◌, Option, none, some, List, [], ◌∷◌, ◌++◌, length, take, drop, slice,
  get_or, replicate, leb, ◌==◌, if◌then◌else◌, Bytes, bytes_eq,
}
use aegs_global.Crypto.{Crypto}
use aegs_global.Crypto.Labels.{
  handshake_init_info, handshake_salt_info, client_write_info, server_write_info, c2s_info,
  s2c_info,
}
use aegs_global.Replay.{init}
use aegs_global.Server.State.{Addr, Server, World, Effect, sendto, client_connected}
use aegs_global.Wire.{outer_header, seal, unmask, is_ours, junk_len_of}

abbrev pub hkdf_expand : Crypto → Bytes → Bytes → Bytes
hkdf_expand c prk info = c.hkdf none info 32 prk

-- `hkdf_extract_and_expand(salt, ikm, info)`, the argument order of aegs_server.py.
abbrev pub hkdf_extract_and_expand : Crypto → Bytes → Bytes → Bytes → Bytes
hkdf_extract_and_expand c salt ikm info = c.hkdf (some salt) info 32 ikm

-- The first 16 bytes of `hmac.new(key, message, sha256)`.
abbrev pub tag16 : Crypto → Bytes → Bytes → Bytes
tag16 c key message = take 16 (c.hmac_sha256 key message)

abbrev pub handshake_key : Crypto → Bytes → Bytes
handshake_key c master = hkdf_expand c master handshake_init_info

abbrev pub handshake_salt : Crypto → Bytes → Bytes
handshake_salt c master = hkdf_expand c master handshake_salt_info

-- `nonce in self.seen_resumption_nonces`
unfoldable pub seen_nonce : Bytes → List Bytes → Bool
seen_nonce n [] = false
seen_nonce n (m ∷ ms) = if bytes_eq m n then true else seen_nonce n ms

module _ (c : Crypto) (w : World) (server_priv : Bytes) (s : Server) (addr : Addr) where
  -- The server's answer: its public key, its tag and a token, sealed under the handshake key.
  unfoldable pub handshake_response : Bytes
  handshake_response =
      let server_pub = c.public_bytes server_priv in
      let server_tag = tag16 c (handshake_salt c s.master_key) server_pub in
      let session_tok = w.token_bytes 0 32 in
      let outer = outer_header c s.mask_key s.raw_kid 0 (w.token_bytes 1 12) (w.token_bytes 2 16) in
      seal c (handshake_key c s.master_key) (w.token_bytes 3 12) outer
        (server_pub ++ (server_tag ++ session_tok))

  -- The opened text of a handshake: the client's public key and its tag.
  unfoldable pub wire_accept : Bytes → Option (Server × List Effect)
  unfolding handshake_response
  wire_accept pt =
      if length pt == 48
      then (let client_pub = take 32 pt in
          if bytes_eq (slice 32 48 pt) (tag16 c (handshake_salt c s.master_key) client_pub)
          then elim (c.exchange server_priv client_pub) [
            | none ↦ none
            | some shared ↦ some (
              client_connected w addr (record s {
                recv_key = some (hkdf_expand c shared client_write_info);
                send_key = some (hkdf_expand c shared server_write_info);
                client_addr = some addr;
                replay_filter = init 2048;
              }),
              sendto handshake_response addr ∷ [],
            )
          ]
          else some (s, []))
      else none

  -- Part 3: the masked handshake of aegs_client.py.
  unfoldable pub wire_handshake : Bytes → Option (Server × List Effect)
  unfolding wire_accept
  wire_handshake d =
      if leb 88 (length d)
      then (let hdr = unmask c s.mask_key d in
          let outer_len = 28 + junk_len_of hdr in
          if is_ours s.raw_kid hdr && leb (outer_len + 60) (length d)
          then elim (c.decrypt (handshake_key c s.master_key) (slice outer_len (outer_len + 12) d)
              (drop (outer_len + 12) d) (take outer_len d)) [
                | none ↦ none
                | some pt ↦ wire_accept pt
              ]
          else none)
      else none

  -- b"\x02" + 7 zeros + session id + server_pub, and the sealed configuration
  -- `pack("<IH", 0x0200080A, 1400) + 10 zeros`.
  unfoldable pub raw_response : Bytes → Bytes
  raw_response send_key =
      let hdr = (2 ∷ replicate 7 0) ++ (w.token_bytes 0 8 ++ c.public_bytes server_priv) in
      let config = (0x0a ∷ 0x08 ∷ 0x00 ∷ 0x02 ∷ 0x78 ∷ 0x05 ∷ []) ++ replicate 10 0 in
      hdr ++ c.encrypt send_key (replicate 12 0) config hdr

  -- Part 4: the raw handshake of type 0x01.
  unfoldable pub raw_handshake : Bytes → Option (Server × List Effect)
  unfolding raw_response
  raw_handshake d =
      if get_or d 0 0 == 1 && leb 72 (length d)
      then (if bytes_eq (slice 8 16 d) s.raw_kid
            && bytes_eq (slice 56 72 d) (tag16 c s.master_key (take 56 d))
          then elim (c.exchange server_priv (slice 16 48 d)) [
            | none ↦ some (s, [])
            | some shared ↦
                (let send_key = hkdf_extract_and_expand c shared s.master_key s2c_info in
                  some (
                    client_connected w addr (record s {
                      recv_key = some (hkdf_extract_and_expand c shared s.master_key c2s_info);
                      send_key = some send_key;
                      client_addr = some addr;
                      replay_filter = init 2048;
                    }),
                    sendto (raw_response send_key) addr ∷ [],
                  ))
          ]
          else some (s, []))
      else none

  -- Part 5: a resumption token of type 0x04.
  unfoldable pub resumption : Bytes → Option (Server × List Effect)
  unfolding seen_nonce
  resumption d =
      if get_or d 0 0 == 4 && leb 97 (length d)
      then (let tok = slice 1 97 d in
          let nonce = take 12 tok in
          elim (c.decrypt s.rkey nonce (slice 12 64 tok) []) [
            | none ↦ some (s, [])
            | some dec ↦
                (if seen_nonce nonce s.seen_resumption_nonces
                  then some (s, [])
                  else some (
                    record s {
                      seen_resumption_nonces = nonce ∷ s.seen_resumption_nonces;
                      recv_key = some (hkdf_expand c s.master_key c2s_info);
                      send_key = some (hkdf_expand c s.master_key s2c_info);
                      client_addr = some addr;
                      replay_filter = init 2048;
                    },
                    [],
                  ))
          ])
      else none
