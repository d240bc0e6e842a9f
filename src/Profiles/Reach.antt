-- ===== src/Profiles/Reach.antt =====
-- The lists that `ProfileStorage` of aegs_config.py comes to hold, one call after the other. Each call
-- saves the list, and a later start reads back what has been saved.
use aegs_global.Prelude.{ℕ, ◌<◌, refl, inr, none, some, List, [], ◌∷◌, length, count_where}
use aegs_global.Profiles.{Profile, add_profile, delete_profile, set_active}
use aegs_global.Profiles.Laws.{IsSelected, count-start, add_profile_lem, delete_profile-IsSelected}
use aegs_global.Profiles.Load.{load, starter_profiles}

-- One call: any profile is added, any index deleted, an index of the list chosen.
pub data Step (ps : List Profile) : List Profile → Type 0 where
  adds : (p : Profile) → Step ps (add_profile p ps)
  deletes : (idx : ℕ) → Step ps (delete_profile idx ps)
  chooses : (idx : ℕ) → idx < length ps → Step ps (set_active idx ps)

-- From a first start, by calls and by new starts.
pub data Reached : List Profile → Type 0 where
  first_start : Reached (load none).0
  call : (ps qs : List Profile) → Reached ps → Step ps qs → Reached qs
  new_start : (ps : List Profile) → Reached ps → Reached (load (some ps)).0

starter-IsSelected : IsSelected starter_profiles
unfolding IsSelected starter_profiles count_where
starter-IsSelected = inr refl

load-IsSelected : (ps : List Profile) → IsSelected ps → IsSelected (load (some ps)).0
unfolding load
load-IsSelected [] h = starter-IsSelected
load-IsSelected (p ∷ ps) h = h

Step-IsSelected : (ps qs : List Profile) → Step ps qs → IsSelected ps → IsSelected qs
unfolding IsSelected set_active
Step-IsSelected ps _ (adds p) h = inr (add_profile_lem p ps).0
Step-IsSelected ps _ (deletes idx) h = delete_profile-IsSelected idx ps h
Step-IsSelected ps _ (chooses idx within) h = inr (count-start idx ps within)

-- Whatever is added, deleted and chosen after a first start, and however often the program is started
-- anew in between, the list is empty or exactly one of its profiles is active.
pub Reached-IsSelected : (ps : List Profile) → Reached ps → IsSelected ps
unfolding load
Reached-IsSelected _ first_start = starter-IsSelected
Reached-IsSelected _ (call ps qs before step) =
    Step-IsSelected ps qs step (Reached-IsSelected ps before)
Reached-IsSelected _ (new_start ps before) = load-IsSelected ps (Reached-IsSelected ps before)
