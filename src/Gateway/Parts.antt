-- ===== src/Gateway/Parts.antt =====
-- The packets of aegs_tunnel_gateway.py as its server takes them apart.
use aegs_global.Prelude.{
  ℕ, ◌+◌, ◌^◌, ◌<◌, ◌≡◌, refl, ap, ◌∙◌, Bool, true, ◌&&◌, some, none, List, [], ◌∷◌, ◌++◌, arith,
  length, get_or, leb, if◌then◌else◌, Bytes, get_or-append_left,
}
use mathlib.Core.List.{append_assoc}
use aegs_global.Crypto.{Crypto}
use aegs_global.Gateway.Server.{GatewayServer, gateway_payload, gateway_body, gateway_data}
use aegs_global.Gateway.Laws.{data_at, HasData}
use aegs_global.Gateway.Wire.{masked_outer, unmasked, mask_with_zeros}
use aegs_global.Server.Payload.{cmd_data}
use aegs_global.Server.State.{Addr, World, Effect, sendall, lookup}
use aegs_global.Server.Streams.{frame}
use aegs_global.Tunnel.Uplink.{of_be32-be32, long_frame}
use aegs_global.Wire.{hdr_plain, is_ours, seal}
use aegs_global.Proxy.Packets.{out_hdr}

pub masked_outer-out_hdr :
    (c : Crypto) (mask_key kid iv junk : Bytes)
    → masked_outer c mask_key kid iv junk ≡ out_hdr c mask_key kid 0 iv junk
unfolding masked_outer out_hdr
masked_outer-out_hdr c mask_key kid iv junk = refl

pub first-seal :
    (c : Crypto) (mask_key kid iv junk key nonce pt : Bytes)
    → length iv ≡ 12
    → get_or (seal c key nonce (masked_outer c mask_key kid iv junk) pt) 0 0 ≡ get_or iv 0 0
unfolding masked_outer seal
first-seal c mask_key kid iv junk key nonce pt h =
    let header = mask_with_zeros c (hdr_plain kid (length junk) 0) mask_key iv in
    let ct = c.encrypt key nonce pt (masked_outer c mask_key kid iv junk) in
    ap (λ p. get_or p 0 0) (append_assoc iv (header ++ junk) (nonce ++ ct))
    ∙ get_or-append_left iv ((header ++ junk) ++ (nonce ++ ct)) 0 0 (omega (arith, h))

pub gateway_data-body :
    (c : Crypto) (w : World) (priv : Bytes) (g : GatewayServer) (addr : Addr) (d key : Bytes)
    → g.recv_key ≡ some key
    → HasData c w priv addr g d
    → gateway_data c w priv g addr d ≡ gateway_body c w priv g addr key d (data_at c g d)
unfolding gateway_data
gateway_data-body c w priv g addr d key receives ours =
    let body : Bytes → GatewayServer × List Effect =
      λ key'. gateway_body c w priv g addr key' d (data_at c g d) in
    let is_data : Bool =
      leb 56 (length d)
      && (is_ours g.raw_kid (unmasked c g.mask_key d) && leb (data_at c g d + 28) (length d)) in
    ap
      (λ o. elim o as (λ x. GatewayServer × List Effect) [
        | none ↦ (g, [])
        | some key' ↦ if is_data then body key' else (g, [])
      ])
      receives
    ∙ ap (λ b. if b then body key else (g, [])) ours

pub gateway_payload-chunk :
    (w : World) (g : GatewayServer) (sid sock : ℕ) (chunk : Bytes)
    → sid < 256 ^ 4
    → lookup sid g.streams ≡ some sock
    → w.alive sock ≡ true
    → gateway_payload w g (frame sid cmd_data chunk) ≡ (g, sendall sock chunk ∷ [])
unfolding gateway_payload
gateway_payload-chunk w g sid sock chunk small known alive = simp (
  long_frame sid cmd_data chunk,
  of_be32-be32 sid (cmd_data ∷ chunk) small,
  known,
  alive,
  gateway_payload,
)
