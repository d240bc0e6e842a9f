-- ===== src/Desktop/Servers.antt =====
-- The list of servers and the exceptions of aegs_app.py.
use aegs_global.Prelude.{
  ℕ, Option, none, some, List, [], ◌∷◌, ◌++◌, map, length, leb, ◌==◌, if◌then◌else◌, exists, Bytes,
}
use mathlib.Core.Option
use aegs_global.Bot.Commands.Words.{strip}
use aegs_global.Crypto.Labels.{codes}
use aegs_global.Desktop.{App, populate_server_list, refresh_active_display, refresh_mobile_display}
use aegs_global.Profiles.{Profile, active, add_profile, delete_profile, get_active, set_active}
use aegs_global.Profiles.Links.{Library, from_uri, to_mobile_conf}
use aegs_global.Profiles.Load.{default_profile}

-- The three calls that follow a change of the storage.
unfoldable pub refresh : Library → App → App
unfolding populate_server_list refresh_active_display refresh_mobile_display
refresh lib a =
    refresh_mobile_display lib.urlencode (refresh_active_display (populate_server_list a))

-- The line that is marked in the list, if one is.
unfoldable pub select_server : Library → Option ℕ → App → App
unfolding refresh
select_server lib none a = a
select_server lib (some idx) a = refresh lib (record a { storage = set_active idx a.storage })

-- The name of an imported profile is the one in the second field, if that holds one.
unfoldable pub renamed : Bytes → Profile → Profile
renamed [] p = p
renamed (c ∷ cs) p = record p { name = c ∷ cs }

unfoldable pub import_text : Library → Bytes → Bytes → App → App
unfolding refresh renamed
import_text lib [] name a = a
import_text lib (c ∷ cs) name a = elim (from_uri lib (c ∷ cs)) [
  | none ↦ a
  | some prof ↦
      refresh lib (record a { storage = add_profile (renamed (strip name) prof) a.storage })
]

unfoldable pub do_import : Library → Bytes → Bytes → App → App
unfolding import_text
do_import lib uri name a = import_text lib (strip uri) name a

-- `text or default`
unfoldable pub or_text : Bytes → Bytes → Bytes
or_text default [] = default
or_text default (c ∷ cs) = c ∷ cs

unfoldable pub own_server : Library → Bytes → Bytes → Bytes → Bytes → Profile
unfolding or_text
own_server lib name ip port token =
    record (default_profile (or_text (codes "Custom VPS") (strip name)) ip) {
      port = elim (lib.int (strip port)) [ none ↦ 50001 | some n ↦ n ];
      token = strip token;
      mode = codes "custom";
    }

unfoldable pub add_server : Library → Bytes → Bytes → Bytes → Bytes → App → App
unfolding own_server refresh
add_server lib name [] port token a = a
add_server lib name (c ∷ cs) port token a =
    refresh lib
      (record a { storage = add_profile (own_server lib name (c ∷ cs) port token) a.storage })

unfoldable pub save_srv : Library → Bytes → Bytes → Bytes → Bytes → App → App
unfolding add_server
save_srv lib name ip port token a = add_server lib name (strip ip) port token a

-- The last server is not deleted.
unfoldable pub delete_server : Library → Option ℕ → App → App
unfolding refresh
delete_server lib none a = a
delete_server lib (some idx) a =
    if leb (length a.storage) 1
    then a
    else refresh lib (record a { storage = delete_profile idx a.storage })

-- A change of the object that `get_active` gives out: the first that is active, else the first.
unfoldable pub change_first_active : (Profile → Profile) → List Profile → List Profile
change_first_active f [] = []
change_first_active f (p ∷ ps) =
    let rest = change_first_active f ps in if p.is_active then f p ∷ ps else p ∷ rest

unfoldable pub change_active : (Profile → Profile) → List Profile → List Profile
unfolding change_first_active
change_active f [] = []
change_active f (p ∷ ps) =
    if exists active (p ∷ ps) then change_first_active f (p ∷ ps) else f p ∷ ps

unfoldable pub on_toggle_split : App → App
unfolding change_active
on_toggle_split a = record a {
  storage = change_active (λ p. record p { split_tunnel = a.var_split }) a.storage;
}

unfoldable pub save_split_settings : App → App
unfolding change_active
save_split_settings a = record a {
  storage =
      change_active
        (λ p. record p { split_tunnel = a.var_split; bypass_domains = strip a.txt_bypass })
        a.storage;
}

-- What goes to the clipboard.
unfoldable pub copy_mobile_uri : App → Option Bytes
copy_mobile_uri a = elim (strip a.txt_uri) [ [] ↦ none | c ∷ cs ↦ some (c ∷ cs) ]

-- `text.replace(" ", "_")`
unfoldable pub underscores : Bytes → Bytes
underscores t = map (λ c. if c == 32 then 95 else c) t

-- The name of the file on the desktop and what is written into it.
unfoldable pub save_mobile_conf : App → Option (Bytes × Bytes)
unfolding underscores to_mobile_conf
save_mobile_conf a =
    Option.map (λ p. (underscores p.name ++ codes ".conf", to_mobile_conf p)) (get_active a.storage)
