-- ===== src/Proxy/Packets/Laws.antt =====
-- The packets of scripts/quick_client.py: their sizes and ports, and the way of a datagram.
use aegs_global.Prelude.{
  ℕ, ◌+◌, ◌%◌, ◌≤◌, ◌<◌, ◌≡◌, ◌∙◌, ◌++◌, arith, max, if◌then◌else◌, length, leb, lt→ltb, Bytes,
  length-append, take-append_eq, slice-middle,
}
use native.Mathlib.Nat.{mod-lt}
use mathlib.Core.List.{append_assoc}
use aegs_global.Crypto.{Crypto, IsCrypto}
use aegs_global.Proxy.Packets.{semantic_pad, compute_hopper_port, out_hdr}
use aegs_global.Gateway.Wire.{unmasked, mask_with_zeros}
use aegs_global.Server.State.{World, IsWorld}
use aegs_global.Wire.{seal, hdr_plain}
use aegs_global.Wire.Laws.{length-hdr_plain}

-- The two bytes of the length, the datagram and its padding together.
abbrev pub frame_size : World → ℕ → ℕ
frame_size w n = 2 + n + semantic_pad w n

-- The sizes that the profile of a datagram of `n` bytes allows.
abbrev pub lowest : ℕ → ℕ
lowest n = if leb n 200 then 240 else if leb n 1316 then 1318 else 2 + n

abbrev pub highest : ℕ → ℕ
highest n = if leb n 200 then 272 else max 1382 (2 + n + 32)

-- Unless the first draw makes it one of the five frames in a hundred of medium size, the frame of a
-- datagram of at most 200 bytes has 240 to 272 bytes, and that of one of 201 to 1316 bytes has 1318
-- to 1382. A longer datagram is never cut, and at most 32 bytes are added to it where it does not
-- fit in 1382.
pub frame_size-bounds :
    (w : World) (n : ℕ)
    → IsWorld w
    → 5 ≤ w.randbelow 0 100
    → (lowest n ≤ frame_size w n) × (frame_size w n ≤ highest n)
unfolding semantic_pad
frame_size-bounds w n laws h =
    let b = laws.randbelow-lt 1 33 (omega arith) in
    let e = laws.randbelow-lt 1 65 (omega arith) in (ground (arith, b, e), ground (arith, b, e))

-- Whatever is drawn.
pub frame_size-le : (w : World) (n : ℕ) → IsWorld w → frame_size w n ≤ max 1382 (2 + n + 32)
unfolding semantic_pad
frame_size-le w n laws = ground (
  arith,
  laws.randbelow-lt 1 257 (omega arith),
  laws.randbelow-lt 1 33 (omega arith),
  laws.randbelow-lt 1 65 (omega arith),
)

-- The port lies in the range that the server listens on.
pub compute_hopper_port-bounds :
    (c : Crypto) (key : Bytes) (base_port count interval wall : ℕ)
    → 0 < count
    → (base_port ≤ compute_hopper_port c key base_port count interval wall)
      × (compute_hopper_port c key base_port count interval wall < base_port + count)
unfolding compute_hopper_port
compute_hopper_port-bounds c key base_port count interval wall h =
    rw (lt→ltb 0 count h) (omega arith, below _ count h)
  where
    below : (x m : ℕ) → 0 < m → base_port + x % m < base_port + m
    below x m h = grind (arith, mod-lt x h)

module _ (c : Crypto) (laws : IsCrypto c) (mask_key kid : Bytes) (flag : ℕ) (iv junk : Bytes)
    (hk : length kid ≡ 8) (hiv : length iv ≡ 12) where
  masked : Bytes
  masked = mask_with_zeros c (hdr_plain kid (length junk) flag) mask_key iv

  length-masked : length masked ≡ 16
  unfolding masked mask_with_zeros
  length-masked = laws.length-chacha20 _ _ _ ∙ length-hdr_plain kid (length junk) flag hk

  pub length-out_hdr : length (out_hdr c mask_key kid flag iv junk) ≡ 28 + length junk
  unfolding out_hdr masked
  length-out_hdr =
      omega (arith, length-append iv (masked ++ junk), length-append masked junk, length-masked)

  pub unmasked-seal :
      (key nonce pt : Bytes)
      → unmasked c mask_key (seal c key nonce (out_hdr c mask_key kid flag iv junk) pt)
        ≡ hdr_plain kid (length junk) flag
  unfolding unmasked seal out_hdr masked mask_with_zeros
  unmasked-seal key nonce pt =
      let tail = nonce ++ c.encrypt key nonce pt (out_hdr c mask_key kid flag iv junk) in
      rw
        (
          append_assoc iv (masked ++ junk) tail,
          append_assoc masked junk tail,
          take-append_eq iv (masked ++ (junk ++ tail)) 12 hiv,
          slice-middle iv masked (junk ++ tail) 12 28 hiv (omega (arith, length-masked)),
        )
        (laws.chacha20_again _ _ _)
