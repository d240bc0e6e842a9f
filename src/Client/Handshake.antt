-- ===== src/Client/Handshake.antt =====
-- `send_illusion_prebypass` and `perform_handshake` of aegs_client.py.
use aegs_global.Prelude.{
  ◌+◌, Bool, true, false, none, some, List, [], ◌∷◌, ◌++◌, length, take, drop, slice, ltb,
  if◌then◌else◌, Bytes, bytes_eq,
}
use aegs_global.Crypto.{Crypto}
use aegs_global.Crypto.Labels.{client_write_info, server_write_info}
use aegs_global.Client.State.{Client, server_addr}
use aegs_global.Server.Handshake.{hkdf_expand, tag16, handshake_key, handshake_salt}
use aegs_global.Server.State.{World, Effect, sendto}
use aegs_global.Wire.{outer_header, seal, unmask, has_magic, junk_len_of}

-- A STUN binding request of 28 bytes before the first packet.
unfoldable pub send_illusion_prebypass : World → Client → List Effect
send_illusion_prebypass w k =
    sendto
      ((0 ∷ 1 ∷ 0 ∷ 8 ∷ 0x21 ∷ 0x12 ∷ 0xa4 ∷ 0x42 ∷ [])
        ++ (w.token_bytes 0 12 ++ (0 ∷ 6 ∷ 0 ∷ 4 ∷ 0 ∷ 0 ∷ 0 ∷ 0 ∷ [])))
      (server_addr k w.now)
    ∷ []

-- The first packet of the handshake: the public key and its tag under the handshake key.
unfoldable pub handshake_init : Crypto → World → Client → Bytes
handshake_init c w k =
    let client_pub = c.public_bytes k.client_priv in
    let auth_tag = tag16 c (handshake_salt c k.master_key) client_pub in
    let outer = outer_header c k.mask_key k.raw_kid 0 (w.token_bytes 0 12) (w.token_bytes 1 16) in
    seal c (handshake_key c k.master_key) (w.token_bytes 2 12) outer (client_pub ++ auth_tag)

-- What one datagram does to the wait for the answer.
pub data Wait : Type 0 where
  go_on : Client → Wait
  finish : Bool → Client → Wait

-- The opened text of the answer. The token is kept before the tag is looked at.
unfoldable pub accept_response : Crypto → Client → Bytes → Wait
accept_response c k pt =
    let server_pub = take 32 pt in
    let k' = record k { session_resumption_token = some (slice 48 80 pt) } in
    if bytes_eq (slice 32 48 pt) (tag16 c (handshake_salt c k.master_key) server_pub)
    then elim (c.exchange k.client_priv server_pub) [
      | none ↦ go_on k'
      | some shared ↦ finish true (record k' {
        send_key = some (hkdf_expand c shared client_write_info);
        recv_key = some (hkdf_expand c shared server_write_info);
      })
    ]
    else finish false k'

unfoldable pub handshake_datagram : Crypto → Client → Bytes → Wait
unfolding accept_response
handshake_datagram c k d =
    if ltb (length d) 56
    then go_on k
    else (let hdr = unmask c k.mask_key d in
        let n = 28 + junk_len_of hdr in
        if has_magic hdr
        then elim (c.decrypt (handshake_key c k.master_key) (slice n (n + 12) d) (drop (n + 12) d)
            (take n d)) [ none ↦ go_on k | some pt ↦ accept_response c k pt ]
        else go_on k)

-- The loop over the datagrams that come within the three seconds, each cut at 2048 bytes.
unfoldable pub perform_handshake : Crypto → Client → List Bytes → Bool × Client
unfolding handshake_datagram
perform_handshake c k [] = (false, k)
perform_handshake c k (d ∷ ds) = elim (handshake_datagram c k (take 2048 d)) [
  | go_on k' ↦ perform_handshake c k' ds
  | finish b k' ↦ (b, k')
]
