-- ===== src/Wire.antt =====
-- The frame on the wire of aegs_server.py and aegs_client.py:
-- HDR_IV(12), MASKED_HDR(16), JUNK, AEAD_NONCE(12), CIPHERTEXT with its tag(16).
pub mod Seal
pub mod Laws
use aegs_global.Prelude.{
  ℕ, ◌+◌, Bool, ◌&&◌, some, none, List, [], ◌∷◌, ◌++◌, length, take, drop, slice, Bytes, bytes_eq,
  be16, of_be16,
}
use aegs_global.Crypto.{Crypto}

-- b"AG2\x01"
abbrev pub magic : Bytes
magic = 0x41 ∷ 0x47 ∷ 0x32 ∷ 0x01 ∷ []

-- The 12 bytes of the IV and four zeros are the nonce of the header's stream cipher.
unfoldable pub mask_unmask_header : Crypto → Bytes → Bytes → Bytes → Bytes
mask_unmask_header c header key iv = c.chacha20 key (iv ++ (0 ∷ 0 ∷ 0 ∷ 0 ∷ [])) header

-- `raw_kid + pack(">H", junk_len) + flag + b"\x00" + b"AG2\x01"`
unfoldable pub hdr_plain : Bytes → ℕ → ℕ → Bytes
hdr_plain raw_kid junk_len flag = raw_kid ++ (be16 junk_len ++ (flag ∷ 0 ∷ magic))

-- The part that the tag authenticates.
unfoldable pub outer_header : Crypto → Bytes → Bytes → ℕ → Bytes → Bytes → Bytes
unfolding mask_unmask_header hdr_plain
outer_header c mask_key raw_kid flag iv junk =
    iv ++ (mask_unmask_header c (hdr_plain raw_kid (length junk) flag) mask_key iv ++ junk)

-- A whole packet over a key.
unfoldable pub seal : Crypto → Bytes → Bytes → Bytes → Bytes → Bytes
seal c key nonce outer pt = outer ++ (nonce ++ c.encrypt key nonce pt outer)

-- The header of a received packet, unmasked.
unfoldable pub unmask : Crypto → Bytes → Bytes → Bytes
unfolding mask_unmask_header
unmask c mask_key d = mask_unmask_header c (slice 12 28 d) mask_key (take 12 d)

abbrev pub has_magic : Bytes → Bool
has_magic hdr = bytes_eq (slice 12 16 hdr) magic

-- `unmasked_hdr[:8] == self.raw_kid and unmasked_hdr[12:16] == b"AG2\x01"`
abbrev pub is_ours : Bytes → Bytes → Bool
is_ours raw_kid hdr = bytes_eq (take 8 hdr) raw_kid && has_magic hdr

abbrev pub junk_len_of : Bytes → ℕ
junk_len_of hdr = of_be16 (slice 8 10 hdr)
