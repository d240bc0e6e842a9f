-- ===== src/Gateway/Greeting.antt =====
-- The 72 bytes of `perform_handshake` of aegs_tunnel_gateway.py, as the loop of its server takes them.
use aegs_global.Prelude.{
  ℕ, ◌≡◌, refl, ap, sym, ◌∙◌, some, [], ◌∷◌, ◌++◌, arith, length, slice, replicate, le→leb,
  ltb-false, Bytes, bytes_eq_refl, to_le, length-append, length-take, take-append_eq,
  slice-append_right, slice-middle, take_of_length-le,
}
use mathlib.Core.List.{reverse, append_assoc}
use aegs_global.Crypto.{Crypto, IsCrypto}
use aegs_global.Crypto.Labels.{c2s_info, s2c_info}
use aegs_global.Gateway.Client.{GatewayClient, gateway_init}
use aegs_global.Gateway.Server.{
  GatewayServer, gateway_response, gateway_handshake, gateway_datagram,
}
use aegs_global.Gateway.Wire.{session_key}
use aegs_global.Server.Handshake.{tag16}
use aegs_global.Server.State.{Addr, World, IsWorld, sendto}

-- The two ends over one token, and private keys whose exchange gives a shared secret.
pub record SameSecrets (c : Crypto) (k : GatewayClient) (g : GatewayServer)
    (client_priv priv shared : Bytes) : Type 0 where
  pub master : k.master_key ≡ g.master_key
  pub kid : k.raw_kid ≡ g.raw_kid
  pub length_kid : length g.raw_kid ≡ 8
  pub secret : c.exchange client_priv (c.public_bytes priv) ≡ some shared

module _ (c : Crypto) (laws : IsCrypto c) (w : World) (lw : IsWorld w)
    (client_priv priv shared : Bytes) (now : ℕ) (k : GatewayClient) (g : GatewayServer)
    (addr : Addr) (same : SameSecrets c k g client_priv priv shared) where
  abbrev up_key : Bytes
  up_key = session_key c shared g.master_key c2s_info

  abbrev down_key : Bytes
  down_key = session_key c shared g.master_key s2c_info

  abbrev gateway_after : GatewayServer
  gateway_after = record g {
    recv_key = some up_key;
    send_key = some down_key;
    client_addr = some addr;
  }

  abbrev client_pub : Bytes
  client_pub = c.public_bytes client_priv

  abbrev start : Bytes
  start = 1 ∷ replicate 7 0

  abbrev stamp : Bytes
  stamp = reverse (to_le 8 now)

  abbrev head : Bytes
  head = start ++ (g.raw_kid ++ (client_pub ++ stamp))

  abbrev head_tag : Bytes
  head_tag = tag16 c g.master_key head

  abbrev init_pkt : Bytes
  init_pkt = head ++ head_tag

  gateway_init-same : gateway_init c client_priv now k ≡ init_pkt
  unfolding gateway_init
  gateway_init-same = simp (same.master, same.kid)

  length-stamp : length stamp ≡ 8
  length-stamp = refl

  length-head : length head ≡ 56
  length-head = omega (
    arith,
    length-append g.raw_kid (client_pub ++ stamp),
    length-append client_pub stamp,
    length-stamp,
    same.length_kid,
    laws.length-public_bytes client_priv,
  )

  length-head_tag : length head_tag ≡ 16
  length-head_tag =
      omega (
        arith,
        length-take 16 (c.hmac_sha256 g.master_key head),
        laws.length-hmac g.master_key head,
      )

  length-init_pkt : length init_pkt ≡ 72
  length-init_pkt = omega (arith, length-append head head_tag, length-head, length-head_tag)

  tag-init_pkt : slice 56 72 init_pkt ≡ head_tag
  tag-init_pkt =
      slice-append_right head head_tag 56 0 16 length-head
      ∙ take_of_length-le 16 head_tag (omega (arith, length-head_tag))

  init_pkt-parts : init_pkt ≡ start ++ (g.raw_kid ++ (client_pub ++ (stamp ++ head_tag)))
  init_pkt-parts = simp (append_assoc)

  kid-init_pkt : slice 8 16 init_pkt ≡ g.raw_kid
  kid-init_pkt =
      ap (slice 8 16) init_pkt-parts
      ∙ slice-middle start g.raw_kid (client_pub ++ (stamp ++ head_tag)) 8 16 refl
          (omega (arith, same.length_kid))

  pub-init_pkt : slice 16 48 init_pkt ≡ client_pub
  pub-init_pkt =
      ap (slice 16 48)
        (init_pkt-parts ∙ sym (append_assoc start g.raw_kid (client_pub ++ (stamp ++ head_tag))))
      ∙ slice-middle (start ++ g.raw_kid) client_pub (stamp ++ head_tag) 16 48
          (omega (arith, same.length_kid)) (omega (arith, laws.length-public_bytes client_priv))

  abbrev response : Bytes
  response = gateway_response c w priv g addr down_key

  gateway_handshake-init :
      gateway_handshake c w priv g addr init_pkt ≡ (gateway_after, sendto response addr ∷ [])
  unfolding gateway_handshake
  gateway_handshake-init = simp (
    kid-init_pkt,
    tag-init_pkt,
    take-append_eq head head_tag 56 length-head,
    pub-init_pkt,
    bytes_eq_refl g.raw_kid,
    bytes_eq_refl head_tag,
    laws.exchange_comm priv client_priv,
    same.secret,
    gateway_handshake,
  )

  pub gateway_datagram-init :
      gateway_datagram c w priv g addr (gateway_init c client_priv now k)
      ≡ (gateway_after, sendto response addr ∷ [])
  unfolding gateway_datagram
  gateway_datagram-init = simp (
    gateway_init-same,
    ltb-false (length init_pkt) 20 (omega (arith, length-init_pkt)),
    le→leb 72 (length init_pkt) (omega (arith, length-init_pkt)),
    gateway_handshake-init,
    gateway_datagram,
  )
