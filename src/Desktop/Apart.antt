-- ===== src/Desktop/Apart.antt =====
-- What the calls of aegs_app.py leave alone: the list of servers the connection, and the connection the
-- servers.
use aegs_global.Prelude.{
  ℕ, ◌≡◌, refl, sym, ap, ◌∙◌, Bool, true, false, Option, none, some, List, [], ◌∷◌, map, arith,
  length, leb, count_where, if◌then◌else◌, Bytes,
}
use mathlib.Core.Option
use aegs_global.Bot.Commands.Words.{strip}
use aegs_global.Desktop.{
  App, Callback, on_connected, telemetry, list_row, shown, populate_server_list,
  refresh_active_display, refresh_mobile_display,
}
use aegs_global.Desktop.Connect.{
  cut_off, toggle_connect, click, run_connection, telemetry_round, run_callback, run_next,
}
use aegs_global.Desktop.Servers.{
  refresh, select_server, import_text, add_server, own_server, renamed, delete_server,
}
use aegs_global.Profiles.{Profile, active, add_profile, delete_profile, get_active, set_active}
use aegs_global.Profiles.Load.{to_uri}
use aegs_global.Profiles.Links.{Library, from_uri}
use aegs_global.Desktop.Phases.{wires}
use aegs_global.Desktop.Shows.{ShowsServers}

pub mobile-wires :
    (urlencode : List (Bytes × Bytes) → Bytes) (a : App)
    → wires (refresh_mobile_display urlencode a) ≡ wires a
unfolding refresh_mobile_display
mobile-wires urlencode a = either (get_active a.storage)
  where
    either :
        (o : Option Profile)
        → wires
            (elim o as (λ x. App) [ none ↦ a | some p ↦ record a { txt_uri = to_uri urlencode p } ])
          ≡ wires a
    either none = refl
    either (some p) = refl

module _ (lib : Library) (a : App) where
  refresh-wires : (ps : List Profile) → wires (refresh lib (record a { storage = ps })) ≡ wires a
  unfolding refresh populate_server_list refresh_active_display
  refresh-wires ps =
      mobile-wires lib.urlencode
        (refresh_active_display (populate_server_list (record a { storage = ps })))

  pub select_server-wires : (sel : Option ℕ) → wires (select_server lib sel a) ≡ wires a
  unfolding select_server
  select_server-wires none = refl
  select_server-wires (some idx) = refresh-wires (set_active idx a.storage)

  pub import_text-wires : (uri name : Bytes) → wires (import_text lib uri name a) ≡ wires a
  unfolding import_text
  import_text-wires [] name = refl
  import_text-wires (c ∷ cs) name = either (from_uri lib (c ∷ cs))
    where
      either :
          (o : Option Profile)
          → wires (elim o as (λ x. App) [
            | none ↦ a
            | some prof ↦
                refresh lib
                  (record a { storage = add_profile (renamed (strip name) prof) a.storage })
          ])
            ≡ wires a
      either none = refl
      either (some prof) = refresh-wires (add_profile (renamed (strip name) prof) a.storage)

  pub add_server-wires :
      (name ip port token : Bytes) → wires (add_server lib name ip port token a) ≡ wires a
  unfolding add_server
  add_server-wires name [] port token = refl
  add_server-wires name (c ∷ cs) port token =
      refresh-wires (add_profile (own_server lib name (c ∷ cs) port token) a.storage)

  pub delete_server-wires : (sel : Option ℕ) → wires (delete_server lib sel a) ≡ wires a
  unfolding delete_server
  delete_server-wires none = refl
  delete_server-wires (some idx) = either (leb (length a.storage) 1)
    where
      either :
          (b : Bool)
          → wires
              (if b then a else refresh lib (record a { storage = delete_profile idx a.storage }))
            ≡ wires a
      either true = refl
      either false = refresh-wires (delete_profile idx a.storage)

-- The connecting side leaves the servers alone.
abbrev pub SameServers : App → App → Type 0
SameServers a b =
    (b.storage ≡ a.storage)
    × (b.srv_listbox ≡ a.srv_listbox)
    × (b.lbl_active_server ≡ a.lbl_active_server)

pub ShowsServers-same : (a b : App) → SameServers a b → ShowsServers a → ShowsServers b
ShowsServers-same a b (s, r, l) h = record {
  one_active = ap (count_where active) s ∙ h.one_active;
  rows = r ∙ h.rows ∙ ap (map list_row) (sym s);
  label = l ∙ h.label ∙ ap (λ ps. Option.map shown (get_active ps)) (sym s);
}

pub click-SameServers : (a : App) → SameServers a (click a)
unfolding click toggle_connect cut_off
click-SameServers a = ground arith

pub run_connection-SameServers : (a : App) → SameServers a (run_connection a)
unfolding run_connection
run_connection-SameServers a = ground arith

pub telemetry_round-SameServers :
    (rx tx ping : ℕ) (a : App) → SameServers a (telemetry_round rx tx ping a)
unfolding telemetry_round
telemetry_round-SameServers rx tx ping a = ground arith

pub run_next-SameServers : (a : App) → SameServers a (run_next a)
unfolding run_next run_callback
run_next-SameServers a = waiting a a.after_queue
  where
    called : (f : Callback) (b : App) → SameServers b (run_callback f b)
    called on_connected b = (refl, refl, refl)
    called (telemetry speed ping) b = ground arith

    waiting :
        (b : App) (q : List Callback)
        → SameServers b (elim q as (λ x. App) [
          | [] ↦ b
          | f ∷ fs ↦ run_callback f (record b { after_queue = fs })
        ])
    waiting b [] = (refl, refl, refl)
    waiting b (f ∷ fs) = called f (record b { after_queue = fs })
