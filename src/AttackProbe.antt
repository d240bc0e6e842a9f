-- ===== src/AttackProbe.antt =====
-- aegs_attack_probe.py: seven attacks on a server over one socket, and the verdicts that it prints.
pub mod Attacks
pub mod Sent
pub mod Laws
pub mod Silence
mod Tests
use aegs_global.Prelude.{
  ℕ, ◌+◌, ◌-◌, ◌/◌, ◌%◌, Bool, true, false, Option, none, some, List, [], ◌∷◌, ◌++◌, length, take,
  drop, slice, leb, ◌==◌, if◌then◌else◌, Bytes, zero, suc,
}
use aegs_global.Bot.Sync.{hexdigest}
use aegs_global.Crypto.{Crypto}
use aegs_global.Crypto.Labels.{codes, gateway_mask_info, proxy_payload_info}

-- An entry of `results`; the details, which are text, are left out.
pub record Verdict : Type 0 where
  pub num : ℕ
  pub name : Bytes
  pub defended : Bool

-- What the tester draws: the private keys and the clock in milliseconds of its two handshakes, and
-- `token_bytes k n`, the result of the k-th call of `secrets.token_bytes(n)`.
pub record Draws : Type 0 where
  pub client_priv : Bytes
  pub fake_priv : Bytes
  pub init_ms : ℕ
  pub fake_ms : ℕ
  pub token_bytes : ℕ → ℕ → Bytes

-- The keys of `LiveAttackTester`.
pub record Keys : Type 0 where
  pub raw_kid : Bytes
  pub master_key : Bytes
  pub mask_key : Bytes
  pub payload_key : Bytes

abbrev pub pbkdf2_sha256 : Crypto → Bytes → Bytes → Bytes
pbkdf2_sha256 c token salt_hex = c.pbkdf2_sha256 token salt_hex 5000

unfoldable pub keys_of : Crypto → Bytes → Keys
unfolding hexdigest
keys_of c token =
    let raw_kid = take 8 (c.sha256 token) in
    let master_key = pbkdf2_sha256 c token (hexdigest raw_kid) in
    record {
      raw_kid = raw_kid;
      master_key = master_key;
      mask_key = c.hkdf none gateway_mask_info 32 master_key;
      payload_key = c.hkdf none proxy_payload_info 32 master_key;
    }

-- A function is applied to the byte at an index; a list that is too short stays.
unfoldable pub change_at : ℕ → (ℕ → ℕ) → Bytes → Bytes
change_at i f [] = []
change_at zero f (b ∷ bs) = f b ∷ bs
change_at (suc i) f (b ∷ bs) = b ∷ change_at i f bs

-- `^ 0x01`, `^ 0x80` and `^ 0xFF` of a byte.
abbrev pub flip_lowest : ℕ → ℕ
flip_lowest b = if b % 2 == 0 then b + 1 else b - 1

abbrev pub flip_highest : ℕ → ℕ
flip_highest b = if leb 128 b then b - 128 else b + 128

abbrev pub flip_all : ℕ → ℕ
flip_all b = 255 - b

-- The number of the verdicts that are good.
unfoldable pub passed : List Verdict → ℕ
passed [] = 0
passed (r ∷ rs) = let n = passed rs in if r.defended then 1 + n else n

-- The tester: what the other end has come to, the datagrams that wait in the socket, and the verdicts.
-- `reply` is what the other end makes of a datagram, with the answers that come within the timeout.
pub record Tester (S : Type 0) : Type 0 where
  pub peer : S
  pub waiting : List Bytes
  pub results : List Verdict

module _ {S : Type 0} where
  abbrev pub log_attack : ℕ → Bytes → Bool → Tester S → Tester S
  log_attack num name defended t = record t {
    results = t.results ++ (record { num = num; name = name; defended = defended } ∷ []);
  }

  -- `select` says whether a datagram waits, and leaves it there.
  abbrev pub select : Tester S → Bool
  select t = elim t.waiting [ [] ↦ false | r ∷ rs ↦ true ]

  -- How many attacks were warded off, of how many.
  abbrev pub summary : Tester S → ℕ × ℕ
  summary t = (passed t.results, length t.results)
