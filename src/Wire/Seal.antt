-- ===== src/Wire/Seal.antt =====
-- A sealed packet cut at the end of its outer header, of whatever make that header is.
use aegs_global.Prelude.{
  ℕ, ◌+◌, ◌^◌, ◌<◌, ◌≡◌, sym, ap, ◌∙◌, some, ◌++◌, arith, length, take, drop, slice, Bytes,
  length-append, take-append_eq, drop-append_eq, slice-middle, of_le, to_le, of_le-to_le,
  length-to_le,
}
use mathlib.Core.List.{append_assoc}
use aegs_global.Crypto.{Crypto, IsCrypto}
use aegs_global.Wire.{seal}

module _ (c : Crypto) (laws : IsCrypto c) (outer : Bytes) (n : ℕ) (ho : length outer ≡ n) where
  pub take-sealed : (key nonce pt : Bytes) → take n (seal c key nonce outer pt) ≡ outer
  unfolding seal
  take-sealed key nonce pt = take-append_eq _ _ _ ho

  pub slice-sealed :
      (key nonce pt : Bytes)
      → length nonce ≡ 12
      → slice n (n + 12) (seal c key nonce outer pt) ≡ nonce
  unfolding seal
  slice-sealed key nonce pt hn = slice-middle outer nonce _ _ _ ho (omega arith)

  pub drop-sealed :
      (key nonce pt : Bytes)
      → length nonce ≡ 12
      → drop (n + 12) (seal c key nonce outer pt) ≡ c.encrypt key nonce pt outer
  unfolding seal
  drop-sealed key nonce pt hn =
      let ct = c.encrypt key nonce pt outer in
      ap (drop (n + 12)) (sym (append_assoc outer nonce ct))
      ∙ drop-append_eq (outer ++ nonce) ct _ (omega (arith, length-append outer nonce, ho))

  pub length-sealed :
      (key nonce pt : Bytes)
      → length nonce ≡ 12
      → length (seal c key nonce outer pt) ≡ n + 28 + length pt
  unfolding seal
  length-sealed key nonce pt hn =
      let ct = c.encrypt key nonce pt outer in
      omega (
        arith,
        length-append outer (nonce ++ ct),
        length-append nonce ct,
        ho,
        laws.length-encrypt key nonce pt outer,
      )

  -- Cutting out the nonce and the text, and opening it with the same key, gives the text back.
  pub decrypt-sealed :
      (key nonce pt : Bytes)
      → length nonce ≡ 12
      → (let pkt = seal c key nonce outer pt in
          c.decrypt key (slice n (n + 12) pkt) (drop (n + 12) pkt) (take n pkt))
        ≡ some pt
  decrypt-sealed key nonce pt hn =
      rw (slice-sealed key nonce pt hn, drop-sealed key nonce pt hn, take-sealed key nonce pt)
        (laws.decrypt-encrypt key nonce pt _ hn)

  -- The first eight bytes of the nonce carry the number of the packet.
  pub of_le-slice-sealed :
      (key salt pt : Bytes) (seq : ℕ)
      → seq < 256 ^ 8
      → of_le (slice n (n + 8) (seal c key (to_le 8 seq ++ salt) outer pt)) ≡ seq
  unfolding seal
  of_le-slice-sealed key salt pt seq h =
      let ct = c.encrypt key (to_le 8 seq ++ salt) pt outer in
      rw
        (
          append_assoc (to_le 8 seq) salt ct,
          slice-middle outer (to_le 8 seq) (salt ++ ct) n (n + 8) ho
              (omega (arith, length-to_le 8 seq)),
        )
        (of_le-to_le 8 seq h)
