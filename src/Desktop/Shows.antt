-- ===== src/Desktop/Shows.antt =====
-- The list and the label of aegs_app.py's window against the storage.
use aegs_global.Prelude.{
  ℕ, suc, ◌<◌, ◌≡◌, refl, sym, ap, ◌∙◌, Option, none, some, List, [], ◌∷◌, map, arith, length, leb,
  leb→gt, count_where, Bool-cases, inl, inr, Bytes,
}
use mathlib.Core.Option
use aegs_global.Bot.Commands.Words.{strip}
use aegs_global.Desktop.{
  App, blank_app, list_row, shown, new_app, populate_server_list, refresh_active_display,
  refresh_mobile_display,
}
use aegs_global.Desktop.Marks.{
  IsHidden, rows-change_active, count-same, label-same, count-delete_profile,
}
use aegs_global.Desktop.Servers.{
  refresh, select_server, import_text, add_server, own_server, renamed, delete_server,
  change_active,
}
use aegs_global.Desktop.Steps.{IsMarked}
use aegs_global.Profiles.{Profile, active, add_profile, delete_profile, get_active, set_active}
use aegs_global.Profiles.Laws.{count-start, add_profile_lem}
use aegs_global.Profiles.Load.{to_uri}
use aegs_global.Profiles.Links.{Library, from_uri}

-- The window shows the storage, in which exactly one profile is active.
pub record ShowsServers (a : App) : Type 0 where
  pub one_active : count_where active a.storage ≡ 1
  pub rows : a.srv_listbox ≡ map list_row a.storage
  pub label : a.lbl_active_server ≡ Option.map shown (get_active a.storage)

-- A text for the telephone changes nothing of this.
mobile-ShowsServers :
    (urlencode : List (Bytes × Bytes) → Bytes) (a : App)
    → ShowsServers a
    → ShowsServers (refresh_mobile_display urlencode a)
unfolding refresh_mobile_display
mobile-ShowsServers urlencode a h = either (get_active a.storage)
  where
    either :
        (o : Option Profile)
        → ShowsServers
            (elim o as (λ x. App) [ none ↦ a | some p ↦ record a { txt_uri = to_uri urlencode p } ])
    either none = h
    either (some p) = record { one_active = h.one_active; rows = h.rows; label = h.label }

drawn :
    (a : App)
    → count_where active a.storage ≡ 1
    → ShowsServers (refresh_active_display (populate_server_list a))
unfolding populate_server_list refresh_active_display
drawn a one = record { one_active = one; rows = refl; label = refl }

drawn_first :
    (a : App)
    → count_where active a.storage ≡ 1
    → ShowsServers (populate_server_list (refresh_active_display a))
unfolding populate_server_list refresh_active_display
drawn_first a one = record { one_active = one; rows = refl; label = refl }

pub new_app-ShowsServers :
    (urlencode : List (Bytes × Bytes) → Bytes) (ps : List Profile)
    → count_where active ps ≡ 1
    → ShowsServers (new_app urlencode ps)
unfolding new_app blank_app
new_app-ShowsServers urlencode ps one =
    mobile-ShowsServers urlencode (populate_server_list (refresh_active_display (blank_app ps)))
      (drawn_first (blank_app ps) one)

length-rows : (ps : List Profile) → length (map list_row ps) ≡ length ps
length-rows [] = refl
length-rows (p ∷ ps) = ap suc (length-rows ps)

module _ (lib : Library) where
  refreshed : (a : App) → count_where active a.storage ≡ 1 → ShowsServers (refresh lib a)
  unfolding refresh
  refreshed a one = mobile-ShowsServers lib.urlencode _ (drawn a one)

  added :
      (p : Profile) (a : App)
      → ShowsServers (refresh lib (record a { storage = add_profile p a.storage }))
  added p a =
      refreshed (record a { storage = add_profile p a.storage }) (add_profile_lem p a.storage).0

  pub selected :
      (sel : Option ℕ) (a : App)
      → ShowsServers a
      → IsMarked a sel
      → ShowsServers (select_server lib sel a)
  unfolding select_server set_active
  selected none a h m = h
  selected (some idx) a h m =
      let within : idx < length a.storage =
        omega (arith, m, ap length h.rows, length-rows a.storage) in
      refreshed (record a { storage = set_active idx a.storage }) (count-start idx a.storage within)

  pub import_text-ShowsServers :
      (uri name : Bytes) (a : App) → ShowsServers a → ShowsServers (import_text lib uri name a)
  unfolding import_text
  import_text-ShowsServers [] name a h = h
  import_text-ShowsServers (c ∷ cs) name a h = either (from_uri lib (c ∷ cs))
    where
      either :
          (o : Option Profile)
          → ShowsServers (elim o as (λ x. App) [
            | none ↦ a
            | some prof ↦
                refresh lib
                  (record a { storage = add_profile (renamed (strip name) prof) a.storage })
          ])
      either none = h
      either (some prof) = added (renamed (strip name) prof) a

  pub add_server-ShowsServers :
      (name ip port token : Bytes) (a : App)
      → ShowsServers a
      → ShowsServers (add_server lib name ip port token a)
  unfolding add_server
  add_server-ShowsServers name [] port token a h = h
  add_server-ShowsServers name (c ∷ cs) port token a h =
      added (own_server lib name (c ∷ cs) port token) a

  pub delete_server-ShowsServers :
      (sel : Option ℕ) (a : App) → ShowsServers a → ShowsServers (delete_server lib sel a)
  unfolding delete_server
  delete_server-ShowsServers none a h = h
  delete_server-ShowsServers (some idx) a h = elim (Bool-cases (leb (length a.storage) 1)) [
    | inl last ↦ rw (last, delete_server) h
    | inr more ↦
        rw (more, delete_server)
          (refreshed (record a { storage = delete_profile idx a.storage })
            (count-delete_profile idx a.storage h.one_active (leb→gt (length a.storage) 1 more)))
  ]

pub changed :
    (f : Profile → Profile) (a : App)
    → IsHidden f
    → ShowsServers a
    → ShowsServers (record a { storage = change_active f a.storage })
changed f a hidden h =
    let same = rows-change_active f hidden a.storage in
    record {
      one_active = count-same a.storage (change_active f a.storage) same ∙ h.one_active;
      rows = h.rows ∙ sym same;
      label = h.label ∙ sym (label-same a.storage (change_active f a.storage) h.one_active same);
    }
