-- ===== src/Gateway/Carry.antt =====
-- From `send_aegs_packet` of the client of aegs_tunnel_gateway.py to the loop of its server.
use aegs_global.Prelude.{
  ℕ, ◌+◌, ◌^◌, ◌<◌, ◌≡◌, ◌≢◌, ap, ◌∙◌, true, false, some, [], ◌∷◌, ◌++◌, arith, length, slice,
  get_or, eq_false, le→leb, ◌==◌, ltb-false, Bytes, to_le, of_le, length-append, length-to_le,
}
use aegs_global.Crypto.{Crypto, IsCrypto}
use aegs_global.Gateway.Client.{GatewayClient, gateway_send}
use aegs_global.Gateway.Server.{
  GatewayServer, seen, gateway_payload, gateway_body, gateway_data, gateway_datagram,
}
use aegs_global.Gateway.Laws.{data_at, data_number, HasData, gateway_datagram-seen}
use aegs_global.Gateway.Wire.{masked_outer, unmasked}
use aegs_global.Server.Payload.{cmd_data}
use aegs_global.Server.State.{Addr, World, IsWorld, sendto, sendall, lookup}
use aegs_global.Server.Streams.{frame}
use aegs_global.Wire.{hdr_plain, junk_len_of, seal}
use aegs_global.Proxy.Packets.Laws.{length-out_hdr, unmasked-seal}
use aegs_global.Wire.Laws.{hdr_plain-is_ours, junk_len_of-hdr_plain}
use aegs_global.Wire.Seal.{length-sealed, decrypt-sealed, of_le-slice-sealed}
use aegs_global.Gateway.Parts.{
  masked_outer-out_hdr, first-seal, gateway_data-body, gateway_payload-chunk,
}

-- The two ends hold the same secrets, and what the client draws for its next packet.
pub record Carries (k : GatewayClient) (g : GatewayServer) (w : World) (key : Bytes) : Type 0 where
  pub mask : k.mask_key ≡ g.mask_key
  pub kid : k.raw_kid ≡ g.raw_kid
  pub length_kid : length g.raw_kid ≡ 8
  pub sends : k.send_key ≡ some key
  pub receives : g.recv_key ≡ some key
  pub world : IsWorld w
  pub in_range : k.tx_seq + 1 < 256 ^ 8
  pub fresh : seen (k.tx_seq + 1) g.seen_seqs ≡ false
  pub iv_not_one : get_or (w.token_bytes 1 12) 0 0 ≢ 1

module _ (c : Crypto) (laws : IsCrypto c) (w ws : World) (priv : Bytes) (k : GatewayClient)
    (g : GatewayServer) (addr : Addr) (key : Bytes) (ok : Carries k g w key) (sid cmd : ℕ)
    (payload : Bytes) where
  abbrev iv : Bytes
  iv = w.token_bytes 1 12

  abbrev junk : Bytes
  junk = w.token_bytes 2 8

  abbrev salt : Bytes
  salt = w.token_bytes 0 4

  abbrev nonce : Bytes
  nonce = to_le 8 (k.tx_seq + 1) ++ salt

  abbrev outer : Bytes
  outer = masked_outer c g.mask_key g.raw_kid iv junk

  abbrev text : Bytes
  text = frame sid cmd payload

  abbrev pkt : Bytes
  pkt = seal c key nonce outer text

  -- The server with the packet's number taken.
  abbrev taken : GatewayServer
  taken = record g { seen_seqs = (k.tx_seq + 1) ∷ g.seen_seqs }

  gateway_send-pkt :
      gateway_send c w k sid cmd payload
      ≡ (record k { tx_seq = k.tx_seq + 1 }, sendto pkt k.server ∷ [])
  unfolding gateway_send
  gateway_send-pkt = simp (ok.sends, ok.mask, ok.kid, gateway_send)

  length-nonce : length nonce ≡ 12
  length-nonce = omega (
    arith,
    length-append (to_le 8 (k.tx_seq + 1)) salt,
    length-to_le 8 (k.tx_seq + 1),
    ok.world.length-token_bytes 0 4,
  )

  length-outer : length outer ≡ 36
  length-outer =
      ap length (masked_outer-out_hdr c g.mask_key g.raw_kid iv junk)
      ∙ length-out_hdr c laws g.mask_key g.raw_kid 0 iv junk ok.length_kid
          (ok.world.length-token_bytes 1 12)
      ∙ ap (λ n. 28 + n) (ok.world.length-token_bytes 2 8)

  length-pkt : length pkt ≡ 64 + length text
  length-pkt = length-sealed c laws outer 36 length-outer key nonce text length-nonce

  unmasked-pkt : unmasked c g.mask_key pkt ≡ hdr_plain g.raw_kid 8 0
  unmasked-pkt =
      ap (λ o. unmasked c g.mask_key (seal c key nonce o text))
        (masked_outer-out_hdr c g.mask_key g.raw_kid iv junk)
      ∙ unmasked-seal c laws g.mask_key g.raw_kid 0 iv junk ok.length_kid
          (ok.world.length-token_bytes 1 12) key nonce text
      ∙ ap (λ n. hdr_plain g.raw_kid n 0) (ok.world.length-token_bytes 2 8)

  gateway_body-pkt : gateway_body c ws priv g addr key pkt 36 ≡ gateway_payload ws taken text
  unfolding gateway_body
  gateway_body-pkt = simp (
    of_le-slice-sealed c laws outer 36 length-outer key salt text (k.tx_seq + 1) ok.in_range,
    ok.fresh,
    decrypt-sealed c laws outer 36 length-outer key nonce text length-nonce,
    gateway_body,
  )

  at-pkt : data_at c g pkt ≡ 36
  at-pkt =
      ap (λ h. 28 + junk_len_of h) unmasked-pkt
      ∙ ap (λ n. 28 + n) (junk_len_of-hdr_plain g.raw_kid 8 0 ok.length_kid (omega arith))

  HasData-pkt : HasData c ws priv addr g pkt
  HasData-pkt = rw (
    at-pkt,
    unmasked-pkt,
    hdr_plain-is_ours g.raw_kid 8 0 ok.length_kid,
    le→leb 56 (length pkt) (omega (arith, length-pkt)),
    le→leb 64 (length pkt) (omega (arith, length-pkt)),
  )

  gateway_data-pkt : gateway_data c ws priv g addr pkt ≡ gateway_payload ws taken text
  gateway_data-pkt =
      gateway_data-body c ws priv g addr pkt key ok.receives HasData-pkt
      ∙ ap (gateway_body c ws priv g addr key pkt) at-pkt
      ∙ gateway_body-pkt

  -- The loop of the server hands the frame as it was sent to the handler of frames.
  gateway_datagram-pkt : gateway_datagram c ws priv g addr pkt ≡ gateway_payload ws taken text
  unfolding gateway_datagram
  gateway_datagram-pkt =
      let first : (get_or pkt 0 0 == 1) ≡ false = eq_false (get_or pkt 0 0) 1 (
        rw
          (first-seal c g.mask_key g.raw_kid iv junk key nonce text
            (ok.world.length-token_bytes 1 12))
          ok.iv_not_one) in
      simp (
        ltb-false (length pkt) 20 (omega (arith, length-pkt)),
        first,
        gateway_data-pkt,
        gateway_datagram,
      )

  number-pkt : data_number c taken pkt ≡ k.tx_seq + 1
  number-pkt =
      ap (λ n. of_le (slice n (n + 8) pkt)) at-pkt
      ∙ of_le-slice-sealed c laws outer 36 length-outer key salt text (k.tx_seq + 1) ok.in_range

  taken-seen : seen (data_number c taken pkt) taken.seen_seqs ≡ true
  unfolding seen
  taken-seen = rw (number-pkt) (ground arith)

  gateway_datagram-copy : gateway_datagram c ws priv taken addr pkt ≡ (taken, [])
  gateway_datagram-copy =
      gateway_datagram-seen c ws priv addr taken pkt
        (rw
          (first-seal c g.mask_key g.raw_kid iv junk key nonce text
            (ok.world.length-token_bytes 1 12))
          ok.iv_not_one)
        taken-seen

-- The two ends hold the same secrets and a key of the client's direction. A chunk of a stream, sent by
-- the client while the server knows the stream's number of 32 bits, its socket takes data, and the
-- packet's number, of 64 bits, is one that the server has not seen, in a packet whose first byte, drawn
-- at random, is not 1, is written to the stream's socket as it was sent, not a byte more. The number is
-- then taken: a second copy of the packet does nothing.
pub chunk_arrives :
    (c : Crypto) (laws : IsCrypto c) (w ws : World) (priv : Bytes) (k : GatewayClient)
    (g : GatewayServer) (addr : Addr) (key : Bytes) (sid sock : ℕ) (chunk : Bytes)
    → Carries k g w key
    → sid < 256 ^ 4
    → lookup sid g.streams ≡ some sock
    → ws.alive sock ≡ true
    → (p : Bytes) × (g' : GatewayServer) × (gateway_send c w k sid cmd_data chunk
        ≡ (record k { tx_seq = k.tx_seq + 1 }, sendto p k.server ∷ []))
      × (gateway_datagram c ws priv g addr p ≡ (g', sendall sock chunk ∷ []))
      × (gateway_datagram c ws priv g' addr p ≡ (g', []))
chunk_arrives c laws w ws priv k g addr key sid sock chunk ok small known alive = (
  pkt c laws w ws priv k g addr key ok sid cmd_data chunk,
  taken c laws w ws priv k g addr key ok sid cmd_data chunk,
  gateway_send-pkt c laws w ws priv k g addr key ok sid cmd_data chunk,
  gateway_datagram-pkt c laws w ws priv k g addr key ok sid cmd_data chunk
      ∙ gateway_payload-chunk ws (taken c laws w ws priv k g addr key ok sid cmd_data chunk) sid
          sock chunk small known alive,
  gateway_datagram-copy c laws w ws priv k g addr key ok sid cmd_data chunk,
)
