-- ===== src/Crypto/Toy.antt =====
-- Stand-ins that meet the laws of the cryptography, for the concrete inputs of the tests.
use aegs_global.Prelude.{
  ◌*◌, ℕ, ◌+◌, ◌-◌, ◌%◌, ◌≡◌, ◌≢◌, refl, ap, false, Bool, true, Option, some, none, [], ◌∷◌, ◌++◌,
  arith, length, get_or, take, drop, replicate, leb, if◌then◌else◌, Bytes, bytes_eq, bytes_eq_refl,
  length-append, take-append_eq, drop-append_eq, ◌&&◌, le→leb,
}
use aegs_global.Crypto.{Crypto, IsCrypto}

abbrev pub total : Bytes → ℕ
total [] = 0
total (x ∷ xs) = x + total xs

abbrev digest : ℕ → ℕ → Bytes
digest n seed = replicate n (seed % 251)

abbrev tag : Bytes → Bytes → Bytes → Bytes → Bytes
tag k n pt aad = digest 16 (total k + 3 * total n + 5 * total pt + 7 * total aad)

abbrev open_box : Bytes → Bytes → Bytes → Bytes → Option Bytes
open_box k n ct aad =
    let pt = take (length ct - 16) ct in
    if leb 16 (length ct) && bytes_eq (drop (length ct - 16) ct) (tag k n pt aad)
    then some pt
    else none

-- A stream that does nothing, a box that is the text with a checksum, and sums for the rest.
abbrev pub toy : Crypto
toy = record {
  pbkdf2_sha256 = λ p s n. digest 32 (total p + total s);
  sha256 = λ m. digest 32 (total m);
  hmac_sha256 = λ k m. digest 32 (total k + 2 * total m);
  hkdf = λ salt info n ikm. digest n (total info + total ikm);
  chacha20 = λ k n d. d;
  encrypt = λ k n pt aad. pt ++ tag k n pt aad;
  decrypt = open_box;
  public_bytes = λ k. get_or k 0 0 ∷ replicate 31 0;
  exchange = λ a b. some (digest 32 (get_or a 0 0 + get_or b 0 0));
}

box_opens : (k n pt aad : Bytes) → open_box k n (pt ++ tag k n pt aad) aad ≡ some pt
box_opens k n pt aad =
    let t = tag k n pt aad in
    let l = length-append pt t in
    let m : length (pt ++ t) - 16 ≡ length pt = omega arith in
    rw (
      m,
      take-append_eq pt t (length pt) refl,
      drop-append_eq pt t (length pt) refl,
      bytes_eq_refl,
      le→leb 16 (length (pt ++ t)) (omega arith),
    )

pub toy-IsCrypto : IsCrypto toy
toy-IsCrypto = record {
  length-hmac = λ k m. refl;
  length-chacha20 = λ k n d. refl;
  chacha20_again = λ k n d. refl;
  decrypt-encrypt = λ k n pt aad h. box_opens k n pt aad;
  length-encrypt = λ k n pt aad. length-append pt (tag k n pt aad);
  length-public_bytes = λ k. refl;
  exchange_comm = λ a b. ap (λ s. some (digest 32 s)) (omega arith);
}

bytes_eq-head : (x y : ℕ) (xs ys : Bytes) → x ≢ y → bytes_eq (x ∷ xs) (y ∷ ys) ≡ false
bytes_eq-head x y xs ys ne = ground (arith, ne)

-- A box does not open under a key with another checksum.
pub box_shut :
    (k k' n pt aad : Bytes)
    → total k % 251 ≢ total k' % 251
    → open_box k' n (pt ++ tag k n pt aad) aad ≡ none
box_shut k k' n pt aad ne =
    let t = tag k n pt aad in
    let l = length-append pt t in
    let m : length (pt ++ t) - 16 ≡ length pt = omega arith in
    let apart : (total k + 3 * total n + 5 * total pt + 7 * total aad) % 251
        ≢ (total k' + 3 * total n + 5 * total pt + 7 * total aad) % 251 =
      λ e. ne (omega (arith, e)) in
    rw (
      m,
      take-append_eq pt t (length pt) refl,
      drop-append_eq pt t (length pt) refl,
      bytes_eq-head _ _ (replicate 15 _) (replicate 15 _) apart,
      le→leb 16 (length (pt ++ t)) (omega arith),
    )

-- Nor does one whose checksum is to begin with the byte 255: a checksum lies below 251.
pub box_shut_255 :
    (k n ct aad : Bytes) → get_or (drop (length ct - 16) ct) 0 0 ≡ 255 → open_box k n ct aad ≡ none
box_shut_255 k n ct aad h =
    rw
      (differs (drop (length ct - 16) ct)
        (total k + 3 * total n + 5 * total (take (length ct - 16) ct) + 7 * total aad) h)
      (by_room (leb 16 (length ct)))
  where
    differs : (xs : Bytes) (seed : ℕ) → get_or xs 0 0 ≡ 255 → bytes_eq xs (digest 16 seed) ≡ false
    differs [] seed h = ground (arith, h)
    differs (x ∷ xs) seed h =
        bytes_eq-head x (seed % 251) xs (replicate 15 (seed % 251)) (λ e. omega (arith, e, h))

    by_room : (b : Bool) → (if b && false then some (take (length ct - 16) ct) else none) ≡ none
    by_room true = refl
    by_room false = refl
