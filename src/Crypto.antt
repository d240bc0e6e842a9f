-- ===== src/Crypto.antt =====
-- The cryptography that the Python programs call: `hashlib`, `hmac` and the third-party package
-- `cryptography`. The operations are parameters, and the documented facts about them are laws. No
-- law says that a key, a digest or a tag cannot be guessed.
pub mod Toy
pub mod Labels
use aegs_global.Prelude.{ℕ, ◌+◌, ◌≡◌, Option, some, none, length, Bytes}

pub record Crypto : Type 0 where
  -- `hashlib.pbkdf2_hmac("sha256", token, salt, iterations, 32)`
  pub pbkdf2_sha256 : Bytes → Bytes → ℕ → Bytes
  -- `hashlib.sha256(data).digest()`
  pub sha256 : Bytes → Bytes
  -- `hmac.new(key, message, hashlib.sha256).digest()`
  pub hmac_sha256 : Bytes → Bytes → Bytes
  -- `HKDF(SHA256, length, salt, info).derive(ikm)`, in the order salt, info, length, ikm
  pub hkdf : Option Bytes → Bytes → ℕ → Bytes → Bytes
  -- the key stream of `ChaCha20(key, nonce)` over some data, with a nonce of 16 bytes
  pub chacha20 : Bytes → Bytes → Bytes → Bytes
  -- `ChaCha20Poly1305(key).encrypt(nonce, plaintext, aad)` and `decrypt`; `none` is InvalidTag
  pub encrypt : Bytes → Bytes → Bytes → Bytes → Bytes
  pub decrypt : Bytes → Bytes → Bytes → Bytes → Option Bytes
  -- `public_key().public_bytes_raw()`, and `exchange(from_public_bytes(peer))`, `none` if one raises
  pub public_bytes : Bytes → Bytes
  pub exchange : Bytes → Bytes → Option Bytes

pub record IsCrypto (c : Crypto) : Type 0 where
  pub length-hmac : (k m : Bytes) → length (c.hmac_sha256 k m) ≡ 32
  pub length-chacha20 : (k n d : Bytes) → length (c.chacha20 k n d) ≡ length d
  pub chacha20_again : (k n d : Bytes) → c.chacha20 k n (c.chacha20 k n d) ≡ d
  pub decrypt-encrypt :
      (k n pt aad : Bytes) → length n ≡ 12 → c.decrypt k n (c.encrypt k n pt aad) aad ≡ some pt
  pub length-encrypt : (k n pt aad : Bytes) → length (c.encrypt k n pt aad) ≡ length pt + 16
  pub length-public_bytes : (k : Bytes) → length (c.public_bytes k) ≡ 32
  pub exchange_comm :
      (a b : Bytes) → c.exchange a (c.public_bytes b) ≡ c.exchange b (c.public_bytes a)
