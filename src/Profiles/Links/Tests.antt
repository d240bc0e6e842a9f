-- ===== src/Profiles/Links/Tests.antt =====
-- A link of aegs_config.py at a concrete profile, with a library that meets the documented behaviour.
use aegs_global.Prelude.{◌≡◌, refl, ap, true, Option, none, some, [], ◌∷◌, ◌++◌, arith, Bytes}
use aegs_global.Bot.Commands.Numbers.{int_or-show_nat}
use aegs_global.Bot.Commands.Words.{int_or, after_prefix, starts_with}
use aegs_global.Crypto.Labels.{codes}
use aegs_global.Profiles.{Profile}
use aegs_global.Profiles.Load.{default_profile, to_uri}
use aegs_global.Profiles.Links.{Url, Library, before_char, behind_char, from_uri, has_text}
use aegs_global.Profiles.Links.Laws.{
  IsLibrary, IsReadable, netloc_char, link_fields, kept, from_uri-to_uri,
}
use aegs_global.Profiles.Links.Scan.{
  all_of, all_of-weaken, other_than, before_char-append, behind_char-append,
}

home : Profile
unfolding default_profile
home = record (default_profile (codes "home") (codes "198.51.100.7")) {
  port = 50003;
  port_count = 3;
  token = codes "t o";
  key_id = codes "k1";
}

cut : Bytes → Option Url
unfolding before_char behind_char after_prefix
cut t = elim (after_prefix (codes "aegs://") t) [
  | none ↦ none
  | some r ↦ some (record { netloc = before_char 63 r; path = []; query = behind_char 63 r })
]

library : Library
unfolding cut home
library = record {
  urlencode = λ ps. codes "token=t+o&proto=titan_quic&key_id=k1&name=home";
  urlparse = cut;
  parse_qs = λ t. kept (link_fields home);
  int = λ t. some (int_or 0 t);
  unpack = λ t. none;
}

cut_lem :
    (netloc query : Bytes)
    → all_of netloc_char netloc ≡ true
    → cut (codes "aegs://" ++ (netloc ++ (63 ∷ query)))
      ≡ some (record { netloc = netloc; path = []; query = query })
unfolding cut after_prefix
cut_lem netloc query h =
    let no_mark = all_of-weaken netloc_char (other_than 63) (λ c k. ground (arith, k)) netloc h in
    simp (before_char-append 63 netloc query no_mark, behind_char-append 63 netloc query no_mark)

library-IsLibrary : IsLibrary library
unfolding library
library-IsLibrary = record {
  int-show_nat = λ n. ap (λ k. some k) (int_or-show_nat 0 n);
  urlparse_query = λ netloc query h k. cut_lem netloc query h;
}

home-IsReadable : IsReadable library home
unfolding library home default_profile all_of starts_with after_prefix
home-IsReadable = record {
  ip_plain = refl;
  ip_no_http = refl;
  named = λ e. cc e;
  keyed = λ e. cc e;
  encoded = refl;
  decoded = refl;
}

from_uri-to_uri_example :
    from_uri library (to_uri library.urlencode home)
    ≡ some (record (default_profile (codes "home") (codes "198.51.100.7")) {
      port = 50003;
      token = codes "t o";
      key_id = codes "k1";
      mode = codes "custom";
    })
unfolding home default_profile has_text starts_with after_prefix
from_uri-to_uri_example = from_uri-to_uri library library-IsLibrary home home-IsReadable
