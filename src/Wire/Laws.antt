-- ===== src/Wire/Laws.antt =====
-- A packet that one side seals is cut into the same parts by the other.
use aegs_global.Prelude.{
  ℕ, ◌+◌, ◌-◌, ◌*◌, ◌/◌, ◌%◌, ◌<◌, ◌≡◌, ap, ◌∙◌, true, some, ◌∷◌, ◌++◌, arith, length, take, drop,
  slice, get_or, Bytes, be16, bytes_eq_refl, length-append, take-append_eq, slice-middle,
  slice-append_right, get_or-append_right, get_or-append_left, of_le, to_le, ◌^◌,
}
use mathlib.Core.List.{append_assoc}
use aegs_global.Crypto.{Crypto, IsCrypto}
use aegs_global.Wire.Seal.{length-sealed, decrypt-sealed, of_le-slice-sealed}
use aegs_global.Wire.{
  magic, mask_unmask_header, hdr_plain, outer_header, seal, unmask, is_ours, has_magic, junk_len_of,
}

pub be16_round : (n : ℕ) → n < 65536 → n / 256 % 256 * 256 + n % 256 ≡ n
be16_round n h = omega arith

module _ (kid : Bytes) (n flag : ℕ) (hk : length kid ≡ 8) where
  pub length-hdr_plain : length (hdr_plain kid n flag) ≡ 16
  unfolding hdr_plain
  length-hdr_plain = omega (arith, length-append kid (be16 n ++ (flag ∷ 0 ∷ magic)), hk)

  pub hdr_plain-is_ours : is_ours kid (hdr_plain kid n flag) ≡ true
  unfolding hdr_plain
  hdr_plain-is_ours = rw (
    take-append_eq kid (be16 n ++ (flag ∷ 0 ∷ magic)) 8 hk,
    slice-append_right kid (be16 n ++ (flag ∷ 0 ∷ magic)) 8 4 8 hk,
    bytes_eq_refl kid,
  )

  pub hdr_plain-has_magic : has_magic (hdr_plain kid n flag) ≡ true
  unfolding hdr_plain
  hdr_plain-has_magic = rw (slice-append_right kid (be16 n ++ (flag ∷ 0 ∷ magic)) 8 4 8 hk)

  pub junk_len_of-hdr_plain : n < 65536 → junk_len_of (hdr_plain kid n flag) ≡ n
  unfolding hdr_plain
  junk_len_of-hdr_plain h =
      rw (slice-append_right kid (be16 n ++ (flag ∷ 0 ∷ magic)) 8 0 2 hk) (be16_round n h)

  pub flag_of-hdr_plain : get_or (hdr_plain kid n flag) 10 0 ≡ flag
  unfolding hdr_plain
  flag_of-hdr_plain =
      let e : 10 - length kid ≡ 2 = omega arith in
      get_or-append_right kid (be16 n ++ (flag ∷ 0 ∷ magic)) 10 0 (omega arith)
      ∙ ap (λ k. get_or (be16 n ++ (flag ∷ 0 ∷ magic)) k 0) e

module _ (c : Crypto) (laws : IsCrypto c) (mask_key kid : Bytes) (flag : ℕ) (iv junk : Bytes)
    (hk : length kid ≡ 8) (hiv : length iv ≡ 12) where
  masked : Bytes
  masked = mask_unmask_header c (hdr_plain kid (length junk) flag) mask_key iv

  length-masked : length masked ≡ 16
  unfolding masked mask_unmask_header
  length-masked = laws.length-chacha20 _ _ _ ∙ length-hdr_plain kid (length junk) flag hk

  pub length-outer_header : length (outer_header c mask_key kid flag iv junk) ≡ 28 + length junk
  unfolding outer_header masked
  length-outer_header =
      omega (arith, length-append iv (masked ++ junk), length-append masked junk, length-masked)

  -- What follows the outer header does not change the header that is read.
  pub unmask-outer_header :
      (tail : Bytes)
      → unmask c mask_key (outer_header c mask_key kid flag iv junk ++ tail)
        ≡ hdr_plain kid (length junk) flag
  unfolding unmask outer_header masked mask_unmask_header
  unmask-outer_header tail =
      rw
        (
          append_assoc iv (masked ++ junk) tail,
          append_assoc masked junk tail,
          take-append_eq iv (masked ++ (junk ++ tail)) 12 hiv,
          slice-middle iv masked (junk ++ tail) 12 28 hiv (omega (arith, length-masked)),
        )
        (laws.chacha20_again _ _ _)

  pub length-seal :
      (key nonce pt : Bytes)
      → length nonce ≡ 12
      → length (seal c key nonce (outer_header c mask_key kid flag iv junk) pt)
        ≡ 56 + length junk + length pt
  length-seal key nonce pt hn = omega (
    arith,
    length-sealed c laws (outer_header c mask_key kid flag iv junk) _ length-outer_header key nonce
        pt hn,
  )

  -- Cutting out the nonce and the text, and opening it with the same key, gives the text back.
  pub decrypt-seal :
      (key nonce pt : Bytes)
      → length nonce ≡ 12
      → (let pkt = seal c key nonce (outer_header c mask_key kid flag iv junk) pt in
          let n = 28 + length junk in
          c.decrypt key (slice n (n + 12) pkt) (drop (n + 12) pkt) (take n pkt))
        ≡ some pt
  decrypt-seal = decrypt-sealed c laws _ _ length-outer_header

  pub unmask-seal :
      (key nonce pt : Bytes)
      → unmask c mask_key (seal c key nonce (outer_header c mask_key kid flag iv junk) pt)
        ≡ hdr_plain kid (length junk) flag
  unfolding seal
  unmask-seal key nonce pt = unmask-outer_header _

  -- The first eight bytes of the nonce carry the number of the packet.
  pub of_le-slice-seal :
      (key salt pt : Bytes) (seq : ℕ)
      → seq < 256 ^ 8
      → of_le (
          slice
            (28 + length junk)
            (28 + length junk + 8)
            (seal c key (to_le 8 seq ++ salt) (outer_header c mask_key kid flag iv junk) pt))
        ≡ seq
  of_le-slice-seal = of_le-slice-sealed c laws _ _ length-outer_header

  pub first-seal :
      (key nonce pt : Bytes)
      → get_or (seal c key nonce (outer_header c mask_key kid flag iv junk) pt) 0 0 ≡ get_or iv 0 0
  unfolding seal outer_header masked
  first-seal key nonce pt =
      let ct = c.encrypt key nonce pt (outer_header c mask_key kid flag iv junk) in
      get_or-append_left (iv ++ (masked ++ junk)) (nonce ++ ct) 0 0
        (omega (arith, length-append iv (masked ++ junk)))
      ∙ get_or-append_left iv (masked ++ junk) 0 0 (omega arith)
