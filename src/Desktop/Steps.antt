-- ===== src/Desktop/Steps.antt =====
-- What can happen to the window of aegs_app.py, in any order.
use aegs_global.Prelude.{ℕ, ◌<◌, ◌≡◌, Bool, Option, none, some, List, length, Bytes, count_where}
use aegs_global.Desktop.{App, new_app}
use aegs_global.Desktop.Connect.{click, run_connection, telemetry_round, run_next}
use aegs_global.Desktop.Servers.{
  select_server, do_import, save_srv, delete_server, on_toggle_split, save_split_settings,
}
use aegs_global.Profiles.{Profile, active}
use aegs_global.Profiles.Links.{Library}

-- A line can be marked if the list shows it.
abbrev pub IsMarked : App → Option ℕ → Type 0
IsMarked a none = Unit {0}
IsMarked a (some idx) = idx < length a.srv_listbox

pub data Step (lib : Library) (a : App) : App → Type 0 where
  clicks : Step lib a (click a)
  selects : (sel : Option ℕ) → IsMarked a sel → Step lib a (select_server lib sel a)
  imports : (uri name : Bytes) → Step lib a (do_import lib uri name a)
  adds : (name ip port token : Bytes) → Step lib a (save_srv lib name ip port token a)
  deletes : (sel : Option ℕ) → Step lib a (delete_server lib sel a)
  types : (text : Bytes) → Step lib a (record a { txt_bypass = text })
  ticks : (b : Bool) → Step lib a (on_toggle_split (record a { var_split = b }))
  saves : Step lib a (save_split_settings a)
  wakes : Step lib a (run_connection a)
  measures : (rx tx ping : ℕ) → Step lib a (telemetry_round rx tx ping a)
  runs : Step lib a (run_next a)

-- From a start over profiles of which one is active.
pub data Reached (lib : Library) : App → Type 0 where
  start : (ps : List Profile) → count_where active ps ≡ 1 → Reached lib (new_app lib.urlencode ps)
  next : (a b : App) → Reached lib a → Step lib a b → Reached lib b
