-- ===== src/Profiles/Load.antt =====
-- A profile's defaults and link, and what `ProfileStorage.load` of aegs_config.py begins with. What the
-- file holds and `urllib.parse.urlencode` are parameters.
use aegs_global.Prelude.{Bool, true, false, Option, none, some, List, [], ◌∷◌, ◌++◌, Bytes}
use aegs_global.Bot.Sync.{show_nat}
use aegs_global.Crypto.Labels.{codes}
use aegs_global.Profiles.{Profile}

-- `", ".join(DEFAULT_BYPASS_DOMAINS)`
abbrev pub default_bypass : Bytes
default_bypass =
    codes "sberbank.ru, sber.ru, tbank.ru, tinkoff.ru, vtb.ru, "
    ++ (codes "gosuslugi.ru, ya.ru, yandex.ru, vk.com, kinopoisk.ru, "
        ++ codes "ozon.ru, wildberries.ru, avito.ru, nalog.gov.ru, mos.ru")

-- The fields with their defaults, for the two that have none.
unfoldable pub default_profile : Bytes → Bytes → Profile
default_profile name server_ip = record {
  name = name;
  server_ip = server_ip;
  port = 50001;
  port_count = 8;
  token = codes "default_token_aegs_v6";
  key_id = codes "aegs_client_01";
  mimicry = true;
  split_tunnel = true;
  mode = codes "service";
  is_active = false;
  assigned_ip = codes "10.8.0.2";
  dns = codes "1.1.1.1, 8.8.8.8";
  bypass_domains = default_bypass;
  notes = [];
}

-- `aegs://IP:PORT?` and the encoded fields.
unfoldable pub to_uri : (List (Bytes × Bytes) → Bytes) → Profile → Bytes
unfolding show_nat
to_uri urlencode p =
    codes "aegs://"
    ++ (p.server_ip
        ++ (codes ":"
            ++ (show_nat p.port
                ++ (codes "?"
                    ++ urlencode (
                        (codes "token", p.token)
                        ∷ (codes "proto", codes "titan_quic")
                        ∷ (codes "key_id", p.key_id)
                        ∷ (codes "name", p.name)
                        ∷ [])))))

-- The profiles of a first start.
unfoldable pub starter_profiles : List Profile
unfolding default_profile
starter_profiles =
    record (default_profile (codes "AEGS Cloud Скоростной (Германия)") (codes "31.76.9.86")) {
      token = codes "aegs_secure_token_titan_v6";
      key_id = codes "user_key_01";
      is_active = true;
      notes = codes "Официальный скоростной сервер AEGS с защитой от ТСПУ/DPI";
    }
    ∷ record (default_profile (codes "Мой личный VPS (Amnezia-style)") (codes "198.51.100.1")) {
      token = codes "my_vps_secret_token";
      key_id = codes "my_vps_key";
      mode = codes "custom";
      notes = codes "Свой сервер (введите IP и токен вашего VPS)";
    }
    ∷ []

-- `none` is a file that is not there or cannot be read. The flag says whether the list is saved.
unfoldable pub load : Option (List Profile) → List Profile × Bool
unfolding starter_profiles
load none = (starter_profiles, true)
load (some []) = (starter_profiles, true)
load (some (p ∷ ps)) = (p ∷ ps, false)
