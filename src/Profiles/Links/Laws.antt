-- ===== src/Profiles/Links/Laws.antt =====
-- A link of aegs_config.py that is read back.
use aegs_global.Prelude.{
  leb, ◌||◌, ◌==◌, ℕ, ◌≡◌, ◌≢◌, refl, sym, ap, ◌∙◌, Bool, true, false, ◌&&◌, some, List, [], ◌∷◌,
  ◌++◌, arith, Bytes, if◌then◌else◌,
}
use mathlib.Core.List.{append_assoc}
use aegs_global.Bot.Commands.Numbers.{all_digits-show_nat}
use aegs_global.Bot.Commands.Words.{starts_with, after_prefix, all_digits}
use aegs_global.Bot.Sync.{show_nat}
use aegs_global.Crypto.Labels.{codes}
use aegs_global.Profiles.{Profile}
use aegs_global.Profiles.Load.{default_profile, to_uri}
use aegs_global.Profiles.Links.{
  Library, has_char, has_text, before_char, first_of, given_or, address, linked_profile, from_query,
  from_uri,
}
use aegs_global.Profiles.Links.Scan.{
  all_of, all_of-append, all_of-weaken, no_space, other_than, strip-none, has_char-append,
  before_char-append, behind_char-append,
}

-- A character that can stand in a host name or an address, and not in front of what follows it.
abbrev pub plain : ℕ → Bool
plain c =
    leb 48 c && leb c 57
    || (leb 65 c && leb c 90 || (leb 97 c && leb c 122 || (c == 46 || c == 45)))

abbrev pub netloc_char : ℕ → Bool
netloc_char c = plain c || c == 58

abbrev pub query_char : ℕ → Bool
query_char c = leb 33 c && (leb c 126 && other_than 35 c)

abbrev pub fields : Bytes → Bytes → Bytes → List (Bytes × Bytes)
fields t k n =
    (codes "token", t)
    ∷ (codes "proto", codes "titan_quic")
    ∷ (codes "key_id", k)
    ∷ (codes "name", n)
    ∷ []

abbrev pub link_fields : Profile → List (Bytes × Bytes)
link_fields p = fields p.token p.key_id p.name

-- What `parse_qs` gives back of fields with different keys: those with a value.
abbrev pub kept : List (Bytes × Bytes) → List (Bytes × List Bytes)
kept [] = []
kept ((k, []) ∷ ps) = kept ps
kept ((k, (c ∷ cs)) ∷ ps) = (k, (c ∷ cs) ∷ []) ∷ kept ps

-- What the documentation of Python says of the calls.
pub record IsLibrary (lib : Library) : Type 0 where
  pub int-show_nat : (n : ℕ) → lib.int (show_nat n) ≡ some n
  pub urlparse_query :
      (netloc query : Bytes)
      → all_of netloc_char netloc ≡ true
      → all_of query_char query ≡ true
      → lib.urlparse (codes "aegs://" ++ (netloc ++ (63 ∷ query)))
        ≡ some (record { netloc = netloc; path = []; query = query })

-- A profile whose link can be read: an address of letters, digits, dots and dashes, which does not begin
-- with `http`, a name and a key that are not empty, and fields that are encoded as documented.
pub record IsReadable (lib : Library) (p : Profile) : Type 0 where
  pub ip_plain : all_of plain p.server_ip ≡ true
  pub ip_no_http : starts_with (codes "http") (p.server_ip ++ (58 ∷ [])) ≡ false
  pub named : p.name ≢ []
  pub keyed : p.key_id ≢ []
  pub encoded : all_of query_char (lib.urlencode (link_fields p)) ≡ true
  pub decoded : lib.parse_qs (lib.urlencode (link_fields p)) ≡ kept (link_fields p)

digits-plain : (t : Bytes) → all_digits t ≡ true → all_of plain t ≡ true
unfolding all_digits all_of
digits-plain [] h = refl
digits-plain (c ∷ cs) h = ground (arith, h, digits-plain cs)

-- What stands behind a colon does not make a text begin with `http`.
http-append :
    (t r : Bytes)
    → starts_with (codes "http") (t ++ (58 ∷ [])) ≡ false
    → starts_with (codes "http") (t ++ (58 ∷ r)) ≡ false
unfolding starts_with after_prefix
http-append [] r h = refl
http-append (a ∷ []) r h = ground (arith, h)
http-append (a ∷ b ∷ []) r h = ground (arith, h)
http-append (a ∷ b ∷ c ∷ []) r h = ground (arith, h)
http-append (a ∷ b ∷ c ∷ d ∷ t) r h = ground (arith, h)

-- The three values are found again among the fields that have one.
fields-kept :
    (t k n dk dn : Bytes)
    → k ≢ []
    → n ≢ []
    → (first_of (codes "token") [] (kept (fields t k n)) ≡ t)
      × (first_of (codes "key_id") dk (kept (fields t k n)) ≡ k)
      × (first_of (codes "name") dn (kept (fields t k n)) ≡ n)
unfolding first_of
fields-kept t [] n dk dn hk hn = absurd (hk refl)
fields-kept t (x ∷ k) [] dk dn hk hn = absurd (hn refl)
fields-kept [] (x ∷ k) (y ∷ n) dk dn hk hn = (refl, refl, refl)
fields-kept (z ∷ t) (x ∷ k) (y ∷ n) dk dn hk hn = (refl, refl, refl)

from_query-parsed :
    (lib : Library) (raw netloc query ip : Bytes) (port : ℕ)
    → starts_with (codes "http") raw ≡ false
    → lib.urlparse (codes "aegs://" ++ raw)
      ≡ some (record { netloc = netloc; path = []; query = query })
    → (elim netloc as (λ x. Bytes) [ [] ↦ before_char 63 [] | c ∷ cs ↦ c ∷ cs ]) ≡ netloc
    → address lib netloc ≡ some (ip, port)
    → from_query lib raw ≡ some (linked_profile (lib.parse_qs query) ip port)
unfolding from_query
from_query-parsed lib raw netloc query ip port plain_start parsed head found =
    simp (plain_start, parsed, head, found, from_query)

module _ (lib : Library) (laws : IsLibrary lib) (p : Profile) (ok : IsReadable lib p) where
  abbrev query : Bytes
  query = lib.urlencode (link_fields p)

  abbrev netloc : Bytes
  netloc = p.server_ip ++ (58 ∷ show_nat p.port)

  abbrev raw : Bytes
  raw = p.server_ip ++ (58 ∷ (show_nat p.port ++ (63 ∷ query)))

  port_plain : all_of plain (show_nat p.port) ≡ true
  port_plain = digits-plain (show_nat p.port) (all_digits-show_nat p.port)

  netloc_plain : all_of netloc_char netloc ≡ true
  unfolding all_of
  netloc_plain =
      all_of-append netloc_char p.server_ip (58 ∷ show_nat p.port)
        (all_of-weaken plain netloc_char (λ c h. ground (arith, h)) p.server_ip ok.ip_plain)
        (all_of-weaken plain netloc_char (λ c h. ground (arith, h)) (show_nat p.port) port_plain)

  raw-parts : raw ≡ netloc ++ (63 ∷ query)
  raw-parts = sym (append_assoc p.server_ip (58 ∷ show_nat p.port) (63 ∷ query))

  link_no_space : all_of no_space (codes "aegs://" ++ raw) ≡ true
  unfolding all_of
  link_no_space =
      ap (all_of no_space) raw-parts
      ∙ all_of-append no_space netloc (63 ∷ query)
          (all_of-weaken netloc_char no_space (λ c h. ground (arith, h)) netloc netloc_plain)
          (all_of-weaken query_char no_space (λ c h. ground (arith, h)) query ok.encoded)

  has_mark : has_char 63 raw ≡ true
  has_mark = ap (has_char 63) raw-parts ∙ has_char-append 63 netloc query

  address-netloc : address lib netloc ≡ some (p.server_ip, p.port)
  unfolding address
  address-netloc =
      let no_colon =
        all_of-weaken plain (other_than 58) (λ c h. ground (arith, h)) p.server_ip ok.ip_plain in
      simp (
        has_char-append 58 p.server_ip (show_nat p.port),
        before_char-append 58 p.server_ip (show_nat p.port) no_colon,
        behind_char-append 58 p.server_ip (show_nat p.port) no_colon,
        laws.int-show_nat p.port,
        address,
      )

  -- The profile that is read back.
  abbrev pub read_back : Profile
  read_back = record (default_profile p.name p.server_ip) {
    port = p.port;
    token = p.token;
    key_id = p.key_id;
    mode = if has_text (codes "185.196.") p.server_ip then codes "service" else codes "custom";
  }

  linked_profile-kept : linked_profile (lib.parse_qs query) p.server_ip p.port ≡ read_back
  unfolding linked_profile default_profile
  linked_profile-kept =
      let (t, k, n) =
        fields-kept p.token p.key_id p.name (codes "key_" ++ p.server_ip)
          (codes "AEGS (" ++ (p.server_ip ++ codes ")")) ok.keyed ok.named in
      simp (ok.decoded, t, k, n)

  netloc-head : (elim netloc as (λ x. Bytes) [ [] ↦ before_char 63 [] | c ∷ cs ↦ c ∷ cs ]) ≡ netloc
  netloc-head = kept_whole p.server_ip (show_nat p.port)
    where
      kept_whole :
          (a b : Bytes)
          → (elim (a ++ (58 ∷ b)) as (λ x. Bytes) [ [] ↦ before_char 63 [] | c ∷ cs ↦ c ∷ cs ])
            ≡ a ++ (58 ∷ b)
      kept_whole [] b = refl
      kept_whole (x ∷ a) b = refl

  from_query-raw : from_query lib raw ≡ some read_back
  from_query-raw =
      from_query-parsed lib raw netloc query p.server_ip p.port
        (http-append p.server_ip (show_nat p.port ++ (63 ∷ query)) ok.ip_no_http)
        (ap (λ t. lib.urlparse (codes "aegs://" ++ t)) raw-parts
          ∙ laws.urlparse_query netloc query netloc_plain ok.encoded)
        netloc-head address-netloc
      ∙ ap (λ q. some q) linked_profile-kept

  -- The link of a profile whose name and key are not empty and whose address is of letters, digits,
  -- dots and dashes and does not begin with `http`, is read back as a profile with the same name,
  -- address, port, token and key. Everything else is lost: the number of ports, the switches, the addresses and the list of exceptions are the
  -- defaults, and whether the server counts as one of the service is told by its address alone.
  pub from_uri-to_uri : from_uri lib (to_uri lib.urlencode p) ≡ some read_back
  unfolding from_uri to_uri after_prefix given_or
  from_uri-to_uri =
      simp (strip-none (codes "aegs://" ++ raw) link_no_space, has_mark, from_query-raw, from_uri)
