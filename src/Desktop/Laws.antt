-- ===== src/Desktop/Laws.antt =====
-- What holds of the window of aegs_app.py at any time.
use aegs_global.Prelude.{◌≡◌, refl, ◌∙◌, Bool, some, List, Bytes}
use aegs_global.Bot.Commands.Words.{strip}
use aegs_global.Desktop.{App, blank_app, new_app, populate_server_list, refresh_active_display}
use aegs_global.Desktop.Connect.{click, run_connection, telemetry_round, run_next}
use aegs_global.Desktop.Marks.{get_active-find}
use aegs_global.Desktop.Servers.{
  select_server, import_text, do_import, add_server, save_srv, delete_server, on_toggle_split,
  save_split_settings,
}
use aegs_global.Desktop.Steps.{
  Step, Reached, start, next, clicks, selects, imports, adds, deletes, types, ticks, saves, wakes,
  measures, runs,
}
use aegs_global.Profiles.{Profile, get_active}
use aegs_global.Profiles.Links.{Library}
use aegs_global.Desktop.Marks.{some-found}
use aegs_global.Desktop.Phases.{
  wires, Phase, off, click-Phase, run_connection-Phase, telemetry_round-Phase, run_next-Phase,
  Phase-same,
}
use aegs_global.Desktop.Shows.{
  ShowsServers, new_app-ShowsServers, selected, import_text-ShowsServers, add_server-ShowsServers,
  delete_server-ShowsServers, changed,
}
use aegs_global.Desktop.Apart.{
  mobile-wires, select_server-wires, import_text-wires, add_server-wires, delete_server-wires,
  click-SameServers, run_connection-SameServers, telemetry_round-SameServers, run_next-SameServers,
  ShowsServers-same,
}

-- The servers and the connection, as the window has them.
pub record IsConsistent (a : App) : Type 0 where
  pub servers : ShowsServers a
  pub phase : Phase (wires a)

-- There is a profile to connect to.
with_profile : (a : App) → ShowsServers a → (p : Profile) × (get_active a.storage ≡ some p)
with_profile a h =
    let (p, e) = some-found a.storage h.one_active in
    (p, get_active-find a.storage h.one_active ∙ e)

abbrev split_set : Bool → Profile → Profile
split_set b p = record p { split_tunnel = b }

abbrev split_saved : Bool → Bytes → Profile → Profile
split_saved b text p = record p { split_tunnel = b; bypass_domains = text }

Step-IsConsistent : (lib : Library) (a b : App) → Step lib a b → IsConsistent a → IsConsistent b
unfolding do_import save_srv on_toggle_split save_split_settings
Step-IsConsistent lib a _ clicks h = record {
  servers = ShowsServers-same a (click a) (click-SameServers a) h.servers;
  phase = let (p, e) = with_profile a h.servers in click-Phase a p e h.phase;
}
Step-IsConsistent lib a _ (selects sel m) h = record {
  servers = selected lib sel a h.servers m;
  phase = Phase-same a (select_server lib sel a) (select_server-wires lib a sel) h.phase;
}
Step-IsConsistent lib a _ (imports uri name) h = record {
  servers = import_text-ShowsServers lib (strip uri) name a h.servers;
  phase =
      Phase-same a (import_text lib (strip uri) name a) (import_text-wires lib a (strip uri) name)
        h.phase;
}
Step-IsConsistent lib a _ (adds name ip port token) h = record {
  servers = add_server-ShowsServers lib name (strip ip) port token a h.servers;
  phase =
      Phase-same a (add_server lib name (strip ip) port token a)
        (add_server-wires lib a name (strip ip) port token) h.phase;
}
Step-IsConsistent lib a _ (deletes sel) h = record {
  servers = delete_server-ShowsServers lib sel a h.servers;
  phase = Phase-same a (delete_server lib sel a) (delete_server-wires lib a sel) h.phase;
}
Step-IsConsistent lib a _ (types text) h = record {
  servers = ShowsServers-same a (record a { txt_bypass = text }) (refl, refl, refl) h.servers;
  phase = h.phase;
}
Step-IsConsistent lib a _ (ticks b) h = record {
  servers =
      changed (split_set b) (record a { var_split = b }) (record { same_row = λ p. refl })
        (ShowsServers-same a (record a { var_split = b }) (refl, refl, refl) h.servers);
  phase = h.phase;
}
Step-IsConsistent lib a _ saves h = record {
  servers =
      changed (split_saved a.var_split (strip a.txt_bypass)) a (record { same_row = λ p. refl })
        h.servers;
  phase = h.phase;
}
Step-IsConsistent lib a _ wakes h = record {
  servers = ShowsServers-same a (run_connection a) (run_connection-SameServers a) h.servers;
  phase = run_connection-Phase a h.phase;
}
Step-IsConsistent lib a _ (measures rx tx ping) h = record {
  servers =
      ShowsServers-same a (telemetry_round rx tx ping a) (telemetry_round-SameServers rx tx ping a)
        h.servers;
  phase = telemetry_round-Phase rx tx ping a h.phase;
}
Step-IsConsistent lib a _ runs h = record {
  servers = ShowsServers-same a (run_next a) (run_next-SameServers a) h.servers;
  phase = run_next-Phase a h.phase;
}

new_app-Phase :
    (urlencode : List (Bytes × Bytes) → Bytes) (ps : List Profile)
    → Phase (wires (new_app urlencode ps))
unfolding new_app blank_app populate_server_list refresh_active_display
new_app-Phase urlencode ps =
    Phase-same (refresh_active_display (blank_app ps)) (new_app urlencode ps)
      (mobile-wires urlencode (populate_server_list (refresh_active_display (blank_app ps))))
      (off
        (record {
          running = refl;
          arriving = refl;
          flag = refl;
          status_shown = refl;
          caption_shown = refl;
          enabled_shown = refl;
        })
        (record { no_ping = refl; no_speed = refl }))

-- Whatever is clicked, imported, added, deleted and saved, and however the threads and the callbacks of
-- the window come in between: exactly one profile is active, the list and the label show the storage,
-- and the connection is in one of four phases. It is off, with no thread, no figures and the button
-- to connect; or one thread sleeps, or one callback waits, with the button disabled; or it is on, with
-- the button to disconnect. So "protected" is never shown while the flag says that it is not connected.
pub Reached-IsConsistent : (lib : Library) (a : App) → Reached lib a → IsConsistent a
Reached-IsConsistent lib _ (start ps one) = record {
  servers = new_app-ShowsServers lib.urlencode ps one;
  phase = new_app-Phase lib.urlencode ps;
}
Reached-IsConsistent lib _ (next a b before step) =
    Step-IsConsistent lib a b step (Reached-IsConsistent lib a before)
