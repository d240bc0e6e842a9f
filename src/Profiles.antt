-- ===== src/Profiles.antt =====
-- `ProfileStorage` of aegs_config.py: the list of connection profiles, of which one is active. The file
-- that it is saved to is left out.
pub mod Laws
pub mod Load
pub mod Links
pub mod Reach
mod Tests
use aegs_global.Prelude.{
  ℕ, zero, suc, ◌+◌, Bool, true, false, Option, none, some, List, [], ◌∷◌, ◌++◌, map, Bytes, ltb,
  length, ◌==◌, if◌then◌else◌, exists, find,
}

pub record Profile : Type 0 where
  pub name : Bytes
  pub server_ip : Bytes
  pub port : ℕ
  pub port_count : ℕ
  pub token : Bytes
  pub key_id : Bytes
  pub mimicry : Bool
  pub split_tunnel : Bool
  pub mode : Bytes
  pub is_active : Bool
  pub assigned_ip : Bytes
  pub dns : Bytes
  pub bypass_domains : Bytes
  pub notes : Bytes

abbrev pub active : Profile → Bool
active p = p.is_active

abbrev pub with_active : Bool → Profile → Profile
with_active b p = record p { is_active = b }

unfoldable pub deactivate_all : List Profile → List Profile
deactivate_all [] = []
deactivate_all (p ∷ ps) = with_active false p ∷ deactivate_all ps

unfoldable pub add_profile : Profile → List Profile → List Profile
add_profile p ps = deactivate_all ps ++ (with_active true p ∷ [])

-- `del profiles[idx]`.
unfoldable pub remove_at : ℕ → List Profile → List Profile
remove_at idx [] = []
remove_at zero (p ∷ ps) = ps
remove_at (suc idx) (p ∷ ps) = p ∷ remove_at idx ps

-- Where none is active, the first is made so.
unfoldable pub with_first : List Profile → List Profile
with_first [] = []
with_first (p ∷ ps) = if exists active (p ∷ ps) then p ∷ ps else with_active true p ∷ ps

-- A negative index is as one past the end.
unfoldable pub delete_profile : ℕ → List Profile → List Profile
delete_profile idx ps = if ltb idx (length ps) then with_first (remove_at idx ps) else ps

unfoldable pub get_active : List Profile → Option Profile
get_active ps = elim (find active ps) [
  | some p ↦ some p
  | none ↦ elim ps [ [] ↦ none | q ∷ qs ↦ some q ]
]

-- The loop of `set_active`, at the index `i`.
unfoldable pub set_from : ℕ → ℕ → List Profile → List Profile
set_from i idx [] = []
set_from i idx (p ∷ ps) = with_active (i == idx) p ∷ set_from (i + 1) idx ps

unfoldable pub set_active : ℕ → List Profile → List Profile
set_active idx ps = set_from 0 idx ps
