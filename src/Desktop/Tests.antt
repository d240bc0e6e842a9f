-- ===== src/Desktop/Tests.antt =====
-- The window of aegs_app.py at concrete events.
use aegs_global.Prelude.{
  ◌≡◌, refl, true, none, some, List, [], ◌∷◌, arith, count_where, find, exists,
}
use aegs_global.Bot.Commands.Words.{strip}
use aegs_global.Crypto.Labels.{codes}
use aegs_global.Desktop.{App, new_app, connecting}
use aegs_global.Desktop.Arrival.{IsThrough, run_waiting, connecting_ends}
use aegs_global.Desktop.Connect.{click, run_connection}
use aegs_global.Desktop.Laws.{IsConsistent, Reached-IsConsistent}
use aegs_global.Desktop.Servers.{select_server, delete_server, save_split_settings}
use aegs_global.Desktop.Split.{save_split_settings-select_server}
use aegs_global.Desktop.Steps.{Reached, start, next, clicks, selects, deletes}
use aegs_global.Profiles.{
  Profile, active, get_active, set_active, set_from, delete_profile, with_first, remove_at,
}
use aegs_global.Profiles.Links.{Library}
use aegs_global.Profiles.Load.{default_profile}

abbrev library : Library
library = record {
  urlencode = λ ps. [];
  urlparse = λ t. none;
  parse_qs = λ t. [];
  int = λ t. none;
  unpack = λ t. none;
}

first : Profile
unfolding default_profile
first = record (default_profile (codes "a") (codes "10.0.0.1")) { is_active = true }

second : Profile
unfolding default_profile
second = default_profile (codes "b") (codes "10.0.0.2")

abbrev servers : List Profile
servers = first ∷ second ∷ []

opened : App
unfolding first second new_app
opened = new_app library.urlencode servers

one : count_where active servers ≡ 1
unfolding first second default_profile count_where
one = refl

opened-Reached : Reached library opened
unfolding opened
opened-Reached = start servers one

program : Unit {0}
unfolding opened first second default_profile new_app delete_server select_server click get_active
    find set_active set_from delete_profile with_first remove_at exists
program = tt

-- The first server deleted, the second chosen, and the button clicked.
abbrev asked : App
asked = click (select_server library (some 0) (delete_server library (some 0) opened))

asked-Reached : Reached library asked
unfolding program
asked-Reached =
    let deleted = delete_server library (some 0) opened in
    let chosen = select_server library (some 0) deleted in
    next chosen asked
      (next deleted chosen (next opened deleted opened-Reached (deletes (some 0)))
        (selects (some 0) (omega arith)))
      clicks

asked-connecting : asked.lbl_status ≡ connecting
unfolding program
asked-connecting = refl

Reached-IsConsistent_example : IsConsistent asked
Reached-IsConsistent_example = Reached-IsConsistent library asked asked-Reached

connecting_ends_example : IsThrough (run_waiting (run_connection asked))
connecting_ends_example = connecting_ends library asked asked-Reached asked-connecting

save_split_settings-select_server_example :
    get_active (save_split_settings (select_server library (some 1) opened)).storage
    ≡ some (record second {
      is_active = true;
      split_tunnel = true;
      bypass_domains = strip opened.txt_bypass;
    })
unfolding program
save_split_settings-select_server_example =
    save_split_settings-select_server library 1 opened second (omega arith) refl
