-- ===== src/Gateway/Wire.antt =====
-- The packets of aegs_tunnel_gateway.py, which differ from those of aegs_server.py in the nonce of the
-- header's stream cipher and in the secrets made of the token.
use aegs_global.Prelude.{[], ◌∷◌, ◌++◌, length, take, slice, Bytes}
use aegs_global.Bot.Sync.{hexdigest}
use aegs_global.Crypto.{Crypto}
use aegs_global.Crypto.Labels.{gateway_mask_info}
use aegs_global.Wire.{hdr_plain}
use mathlib.Core.Option.{none, some}

-- The master key, salted with the key id in hexadecimal.
abbrev pub master_key_of : Crypto → Bytes → Bytes
master_key_of c token = c.pbkdf2_sha256 token (hexdigest (take 8 (c.sha256 token))) 5000

abbrev pub mask_key_of : Crypto → Bytes → Bytes
mask_key_of c token = c.hkdf none gateway_mask_info 32 (master_key_of c token)

-- `hkdf_extract_and_expand(secret, salt, info)`
abbrev pub session_key : Crypto → Bytes → Bytes → Bytes → Bytes
session_key c secret salt info = c.hkdf (some salt) info 32 secret

-- Four zeros and the 12 bytes of the IV.
unfoldable pub mask_with_zeros : Crypto → Bytes → Bytes → Bytes → Bytes
mask_with_zeros c header key iv = c.chacha20 key ((0 ∷ 0 ∷ 0 ∷ 0 ∷ []) ++ iv) header

unfoldable pub masked_outer : Crypto → Bytes → Bytes → Bytes → Bytes → Bytes
masked_outer c mask_key raw_kid iv junk =
    iv ++ (mask_with_zeros c (hdr_plain raw_kid (length junk) 0) mask_key iv ++ junk)

unfoldable pub unmasked : Crypto → Bytes → Bytes → Bytes
unmasked c mask_key d = mask_with_zeros c (slice 12 28 d) mask_key (take 12 d)
