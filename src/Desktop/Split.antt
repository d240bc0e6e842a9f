-- ===== src/Desktop/Split.antt =====
-- The tab of exceptions of aegs_app.py after another server is chosen.
use aegs_global.Prelude.{
  ℕ, ◌<◌, Bytes, ◌≡◌, refl, sym, ap, ◌∙◌, Bool, true, false, Option, none, some, List, [], ◌∷◌,
  arith, length, get_elem?, exists, find, count_where, if◌then◌else◌,
}
use mathlib.Core.Option
use aegs_global.Bot.Commands.Words.{strip}
use aegs_global.Desktop.{App, populate_server_list, refresh_active_display, refresh_mobile_display}
use aegs_global.Desktop.Marks.{get_active-find, some-found}
use aegs_global.Desktop.Servers.{
  refresh, select_server, change_first_active, change_active, save_split_settings,
}
use aegs_global.Profiles.{Profile, active, get_active, set_active}
use aegs_global.Profiles.Laws.{set_active_lem}
use aegs_global.Profiles.Links.{Library}
use aegs_global.Profiles.Load.{to_uri}

exists-one : (ps : List Profile) → count_where active ps ≡ 1 → exists active ps ≡ true
unfolding exists count_where
exists-one [] h = absurd (omega (arith, h))
exists-one (p ∷ ps) h = ground (arith, exists-one ps, h)

get_active-some :
    (ps : List Profile) (q : Profile) → find active ps ≡ some q → get_active ps ≡ some q
unfolding get_active
get_active-some ps q h = rw (h, get_active)

module _ (f : Profile → Profile) (same_mark : (p : Profile) → (f p).is_active ≡ p.is_active) where
  find-branch :
      (b : Bool) (p : Profile) (ps qs : List Profile)
      → p.is_active ≡ b
      → find active qs ≡ Option.map f (find active ps)
      → find active (if b then f p ∷ ps else p ∷ qs) ≡ Option.map f (find active (p ∷ ps))
  unfolding find
  find-branch true p ps qs e h =
      ap (λ b. if b then some (f p) else find active ps) (same_mark p ∙ e)
      ∙ ap (λ b. Option.map f (if b then some p else find active ps)) (sym e)
  find-branch false p ps qs e h =
      ap (λ b. if b then some p else find active qs) e
      ∙ h
      ∙ ap (λ b. Option.map f (if b then some p else find active ps)) (sym e)

  find-change_first :
      (ps : List Profile) → find active (change_first_active f ps) ≡ Option.map f (find active ps)
  unfolding change_first_active find
  find-change_first [] = refl
  find-change_first (p ∷ ps) =
      find-branch p.is_active p ps (change_first_active f ps) refl (find-change_first ps)

  change_active-first :
      (ps : List Profile) → exists active ps ≡ true → change_active f ps ≡ change_first_active f ps
  unfolding change_active change_first_active
  change_active-first [] h = refl
  change_active-first (p ∷ ps) h =
      ap (λ b. if b then change_first_active f (p ∷ ps) else f p ∷ ps) h

  -- The profile that is given out is the changed one.
  get_active-change_active :
      (ps : List Profile)
      → count_where active ps ≡ 1
      → get_active (change_active f ps) ≡ Option.map f (find active ps)
  get_active-change_active ps one =
      let (q, e) = some-found ps one in
      let changed =
        ap (find active) (change_active-first ps (exists-one ps one)) ∙ find-change_first ps in
      get_active-some (change_active f ps) (f q) (changed ∙ ap (Option.map f) e)
      ∙ sym (ap (Option.map f) e)

storage-mobile :
    (urlencode : List (Bytes × Bytes) → Bytes) (a : App)
    → ((refresh_mobile_display urlencode a).storage ≡ a.storage)
      × ((refresh_mobile_display urlencode a).var_split ≡ a.var_split)
      × ((refresh_mobile_display urlencode a).txt_bypass ≡ a.txt_bypass)
unfolding refresh_mobile_display
storage-mobile urlencode a = either (get_active a.storage)
  where
    either :
        (o : Option Profile)
        → (let b : App = elim o [ none ↦ a | some p ↦ record a { txt_uri = to_uri urlencode p } ] in
            (b.storage ≡ a.storage) × (b.var_split ≡ a.var_split) × (b.txt_bypass ≡ a.txt_bypass))
    either none = (refl, refl, refl)
    either (some p) = (refl, refl, refl)

select-tab :
    (lib : Library) (idx : ℕ) (a : App)
    → ((select_server lib (some idx) a).storage ≡ set_active idx a.storage)
      × ((select_server lib (some idx) a).var_split ≡ a.var_split)
      × ((select_server lib (some idx) a).txt_bypass ≡ a.txt_bypass)
unfolding select_server refresh populate_server_list refresh_active_display
select-tab lib idx a = storage-mobile lib.urlencode (
    refresh_active_display (populate_server_list (record a { storage = set_active idx a.storage })))

abbrev saved : Bool → Bytes → Profile → Profile
saved b text p = record p { split_tunnel = b; bypass_domains = text }

-- The tab of exceptions is not filled anew when another server is chosen: saving right after the
-- choice of a server of the list writes the tab's switch and its stripped text, as they stood before the choice,
-- into the chosen server's profile, whatever that profile held, and makes it the active one.
pub save_split_settings-select_server :
    (lib : Library) (idx : ℕ) (a : App) (p : Profile)
    → idx < length a.storage
    → get_elem? a.storage idx ≡ some p
    → get_active (save_split_settings (select_server lib (some idx) a)).storage
      ≡ some (record p {
        is_active = true;
        split_tunnel = a.var_split;
        bypass_domains = strip a.txt_bypass;
      })
unfolding save_split_settings
save_split_settings-select_server lib idx a p within there =
    let b = select_server lib (some idx) a in
    let (stored, switch, text) = select-tab lib idx a in
    let (one, chosen) = set_active_lem idx a.storage p within there in
    let f = saved a.var_split (strip a.txt_bypass) in
    ap (λ t. get_active (change_active (saved b.var_split (strip t)) b.storage)) text
    ∙ ap (λ v. get_active (change_active (saved v (strip a.txt_bypass)) b.storage)) switch
    ∙ ap (λ ps. get_active (change_active f ps)) stored
    ∙ get_active-change_active f (λ q. refl) (set_active idx a.storage) one
    ∙ ap (Option.map f) (sym (get_active-find (set_active idx a.storage) one) ∙ chosen)
