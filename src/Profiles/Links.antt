-- ===== src/Profiles/Links.antt =====
-- `AegsProfile.from_uri` and `to_mobile_conf` of aegs_config.py. What `urllib.parse`, `int`, `base64` and
-- `json` give is a parameter.
pub mod Scan
pub mod Laws
mod Tests
use aegs_global.Prelude.{
  ℕ, ◌+◌, ◌-◌, ◌%◌, Bool, true, false, ◌&&◌, ◌||◌, not, Option, none, some, List, [], ◌∷◌, ◌++◌,
  Bytes, length, replicate, ◌==◌, if◌then◌else◌, bytes_eq,
}
use aegs_global.Bot.Commands.Words.{strip, starts_with, after_prefix}
use aegs_global.Bot.Sync.{show_nat}
use aegs_global.Crypto.Labels.{codes}
use aegs_global.Profiles.{Profile}
use aegs_global.Profiles.Load.{default_profile}

-- The parts of `urlparse(text)` that are used.
pub record Url : Type 0 where
  pub netloc : Bytes
  pub path : Bytes
  pub query : Bytes

-- The fields of the packed form, each `none` where it is not there.
pub record Packed : Type 0 where
  pub name : Option Bytes
  pub ip : Option Bytes
  pub p : Option ℕ
  pub pc : Option ℕ
  pub t : Option Bytes
  pub k : Option Bytes
  pub m : Option Bool
  pub st : Option Bool

pub record Library : Type 0 where
  pub urlencode : List (Bytes × Bytes) → Bytes
  -- `none` where the call raises
  pub urlparse : Bytes → Option Url
  pub parse_qs : Bytes → List (Bytes × List Bytes)
  -- `int(text)` of a number that is not negative
  pub int : Bytes → Option ℕ
  -- `json.loads(base64.urlsafe_b64decode(text))`, an object whose values have the types of the fields
  pub unpack : Bytes → Option Packed

-- `c in text`
unfoldable pub has_char : ℕ → Bytes → Bool
has_char c [] = false
has_char c (x ∷ xs) = x == c || has_char c xs

-- `sub in text`
unfoldable pub has_text : Bytes → Bytes → Bool
has_text sub [] = starts_with sub []
has_text sub (x ∷ xs) = starts_with sub (x ∷ xs) || has_text sub xs

-- `text.split(c, 1)[0]`, and what stands behind the first `c`.
unfoldable pub before_char : ℕ → Bytes → Bytes
before_char c [] = []
before_char c (x ∷ xs) = let r = before_char c xs in if x == c then [] else x ∷ r

unfoldable pub behind_char : ℕ → Bytes → Bytes
behind_char c [] = []
behind_char c (x ∷ xs) = let r = behind_char c xs in if x == c then xs else r

-- `qs.get(key, [default])[0]`. `parse_qs` gives no key an empty list.
unfoldable pub first_of : Bytes → Bytes → List (Bytes × List Bytes) → Bytes
first_of key default [] = default
first_of key default ((k, vs) ∷ qs) =
    let r = first_of key default qs in
    if bytes_eq k key then (elim vs [ [] ↦ default | v ∷ ws ↦ v ]) else r

unfoldable pub given_or {ℓ} : {A : Type ℓ} → A → Option A → A
given_or d none = d
given_or d (some a) = a

-- The address and the port in the network part.
unfoldable pub address : Library → Bytes → Option (Bytes × ℕ)
unfolding has_char before_char behind_char
address lib netloc =
    if has_char 58 netloc
    then (elim (lib.int (behind_char 58 netloc)) [
      | none ↦ none
      | some port ↦ some (before_char 58 netloc, port)
    ])
    else some (netloc, 50001)

-- The profile that a parsed link names.
unfoldable pub linked_profile : List (Bytes × List Bytes) → Bytes → ℕ → Profile
unfolding first_of has_text
linked_profile qs ip port =
    record (default_profile (first_of (codes "name") (codes "AEGS (" ++ (ip ++ codes ")")) qs) ip) {
      port = port;
      token = first_of (codes "token") [] qs;
      key_id = first_of (codes "key_id") (codes "key_" ++ ip) qs;
      mimicry = true;
      split_tunnel = true;
      mode = if has_text (codes "185.196.") ip then codes "service" else codes "custom";
    }

-- The first form, `none` where a call raises.
unfoldable pub from_query : Library → Bytes → Option Profile
from_query lib raw =
    let fake_url = if starts_with (codes "http") raw then raw else codes "aegs://" ++ raw in
    elim (lib.urlparse fake_url) [
      | none ↦ none
      | some parsed ↦
          (let netloc : Bytes = elim parsed.netloc [
            | [] ↦ before_char 63 parsed.path
            | c ∷ cs ↦ c ∷ cs
          ] in
            elim (address lib netloc) [
              | none ↦ none
              | some (ip, port) ↦ some (linked_profile (lib.parse_qs parsed.query) ip port)
            ])
    ]

-- The second form.
unfoldable pub from_packed : Library → Bytes → Option Profile
unfolding given_or
from_packed lib raw = elim (lib.unpack (raw ++ replicate ((4 - length raw % 4) % 4) 61)) [
  | none ↦ none
  | some d ↦ elim d.ip [
    | none ↦ none
    | some ip ↦
        some (record (default_profile (given_or (codes "Импортированный сервер") d.name) ip) {
          port = given_or 50001 d.p;
          port_count = given_or 8 d.pc;
          token = given_or [] d.t;
          key_id = given_or [] d.k;
          mimicry = given_or true d.m;
          split_tunnel = given_or true d.st;
          mode = codes "custom";
        })
  ]
]

-- `none` is the `ValueError`.
unfoldable pub from_uri : Library → Bytes → Option Profile
from_uri lib uri =
    let raw = given_or (strip uri) (after_prefix (codes "aegs://") (strip uri)) in
    let packed = from_packed lib raw in
    if has_char 63 raw || (has_char 58 raw && not (starts_with (codes "{") raw))
    then (elim (from_query lib raw) [ some p ↦ some p | none ↦ packed ])
    else packed

-- The pieces one after the other.
unfoldable pub joined : List Bytes → Bytes
joined [] = []
joined (t ∷ ts) = t ++ joined ts

-- `port + port_count - 1`, in decimal.
unfoldable pub last_port : Profile → Bytes
unfolding show_nat
last_port p =
    if p.port + p.port_count == 0 then codes "-1" else show_nat (p.port + p.port_count - 1)

unfoldable pub to_mobile_conf : Profile → Bytes
unfolding show_nat joined last_port
to_mobile_conf p = joined (
    codes "# AEGS v6 High-Speed Stealth Protocol Profile\n"
    ∷ codes "# Compatible with AEGS Mobile & Amnezia Client\n[Interface]\nName = "
    ∷ p.name
    ∷ codes "\nAssignedIP = "
    ∷ p.assigned_ip
    ∷ codes "/24\nDNS = "
    ∷ p.dns
    ∷ codes "\nMimicry = "
    ∷ (if p.mimicry then codes "RFC9000_QUIC_INITIAL" else codes "OFF")
    ∷ codes "\nSplitTunneling = "
    ∷ (if p.split_tunnel then codes "ENABLED" else codes "DISABLED")
    ∷ codes "\nBypassList = "
    ∷ p.bypass_domains
    ∷ codes "\n\n[Server]\nEndpoint = "
    ∷ p.server_ip
    ∷ codes ":"
    ∷ show_nat p.port
    ∷ codes "\nPortRange = "
    ∷ show_nat p.port
    ∷ codes " - "
    ∷ last_port p
    ∷ codes "\nToken = "
    ∷ p.token
    ∷ codes "\nKeyID = "
    ∷ p.key_id
    ∷ codes "\nEncryption = ChaCha20-Poly1305\nAntiDDoS = StatelessCookies\n"
    ∷ [])
