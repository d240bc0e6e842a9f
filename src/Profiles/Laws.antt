-- ===== src/Profiles/Laws.antt =====
-- The active profile in aegs_config.py.
use aegs_global.Prelude.{
  ℕ, zero, suc, ◌+◌, ◌≤◌, ◌<◌, ◌≡◌, refl, ap, ◌∙◌, ◌⊎◌, inl, inr, true, false, none, some, List, [],
  ◌∷◌, ◌++◌, arith, ltb, length, get_elem?, ◌==◌, exists, find, count_where, Bool-cases,
  find-append,
}
use mathlib.Core.Option
use aegs_global.Profiles.{
  Profile, active, with_active, deactivate_all, add_profile, remove_at, with_first, delete_profile,
  get_active, set_from, set_active,
}

-- No profile at all, or one that is active and no other.
unfoldable pub IsSelected : List Profile → Type 0
IsSelected ps = (ps ≡ []) ⊎ (count_where active ps ≡ 1)

find-deactivate_all : (ps : List Profile) → find active (deactivate_all ps) ≡ none
unfolding find deactivate_all
find-deactivate_all [] = refl
find-deactivate_all (p ∷ ps) = find-deactivate_all ps

count-deactivate_all :
    (p : Profile) (ps : List Profile)
    → count_where active (deactivate_all ps ++ (with_active true p ∷ [])) ≡ 1
unfolding count_where deactivate_all
count-deactivate_all p [] = refl
count-deactivate_all p (q ∷ ps) = omega (arith, count-deactivate_all p ps)

-- A profile that is added is the active one, and the only one, whatever was active before.
pub add_profile_lem :
    (p : Profile) (ps : List Profile)
    → (count_where active (add_profile p ps) ≡ 1)
      × (get_active (add_profile p ps) ≡ some (with_active true p))
unfolding add_profile get_active
add_profile_lem p ps = (
  count-deactivate_all p ps,
  simp (
    find-append active (deactivate_all ps) (with_active true p) (find-deactivate_all ps) refl,
    get_active,
  ),
)

none-active : (ps : List Profile) → exists active ps ≡ false → count_where active ps ≡ 0
unfolding exists count_where
none-active [] h = refl
none-active (p ∷ ps) h = ground (arith, none-active ps, h)

some-active : (ps : List Profile) → exists active ps ≡ true → 0 < count_where active ps
unfolding exists count_where
some-active [] h = ground (arith, h)
some-active (p ∷ ps) h = ground (arith, some-active ps, h)

count-remove_at :
    (i : ℕ) (ps : List Profile) → count_where active (remove_at i ps) ≤ count_where active ps
unfolding count_where remove_at
count-remove_at i [] = omega arith
count-remove_at zero (p ∷ ps) = omega arith
count-remove_at (suc i) (p ∷ ps) = omega (arith, count-remove_at i ps)

head-off :
    (p : Profile) (ps : List Profile) → exists active (p ∷ ps) ≡ false → exists active ps ≡ false
unfolding exists
head-off p ps h = ground (arith, h)

first-only :
    (p : Profile) (ps : List Profile)
    → exists active (p ∷ ps) ≡ false
    → count_where active (with_active true p ∷ ps) ≡ 1
unfolding count_where
first-only p ps n = omega (arith, none-active ps (head-off p ps n))

with_first-IsSelected : (ps : List Profile) → count_where active ps ≤ 1 → IsSelected (with_first ps)
unfolding with_first IsSelected
with_first-IsSelected [] h = inl refl
with_first-IsSelected (p ∷ ps) h = elim (Bool-cases (exists active (p ∷ ps))) [
  | inl y ↦ let pos = some-active (p ∷ ps) y in rw (y) (inr (omega (arith, pos, h)))
  | inr n ↦ rw (n) (inr (first-only p ps n))
]

at_most_one : (ps : List Profile) → IsSelected ps → count_where active ps ≤ 1
unfolding IsSelected count_where
at_most_one ps (inl e) =
    let none_there : count_where active ps ≡ 0 = ap (count_where active) e in
    omega (arith, none_there)
at_most_one ps (inr e) = omega (arith, e)

-- Deleting a profile, the active one included, leaves none at all or exactly one that is active.
pub delete_profile-IsSelected :
    (idx : ℕ) (ps : List Profile) → IsSelected ps → IsSelected (delete_profile idx ps)
unfolding delete_profile IsSelected
delete_profile-IsSelected idx ps h = elim (Bool-cases (ltb idx (length ps))) [
  | inr out ↦ rw (out, delete_profile) h
  | inl y ↦
      rw (y, delete_profile)
        (with_first-IsSelected (remove_at idx ps)
          (omega (arith, count-remove_at idx ps, at_most_one ps h)))
]

past : (i idx : ℕ) (ps : List Profile) → idx < i → count_where active (set_from i idx ps) ≡ 0
unfolding count_where set_from
past i idx [] h = refl
past i idx (p ∷ ps) h = ground (arith, past (i + 1) idx ps, h)

count-set_from :
    (i j : ℕ) (ps : List Profile) → j < length ps → count_where active (set_from i (i + j) ps) ≡ 1
unfolding count_where set_from
count-set_from i j [] h = absurd (omega (arith, h))
count-set_from i zero (p ∷ ps) h = ground (arith, past (i + 1) i ps)
count-set_from i (suc j) (p ∷ ps) h =
    let rest : count_where active (set_from (i + 1) (i + suc j) ps) ≡ 1 =
      ap (λ n. count_where active (set_from (i + 1) n ps)) (omega arith)
      ∙ count-set_from (i + 1) j ps (omega (arith, h)) in
    ground (arith, rest)

find-set_from :
    (i j : ℕ) (ps : List Profile)
    → find active (set_from i (i + j) ps) ≡ Option.map (with_active true) (get_elem? ps j)
unfolding find set_from
find-set_from i j [] = refl
find-set_from i zero (p ∷ ps) = rw (here i)
  where
    here : (i : ℕ) → (i == i + zero) ≡ true
    here i = ground arith
find-set_from i (suc j) (p ∷ ps) =
    rw (there i j)
      (ap (λ n. find active (set_from (i + 1) n ps)) (omega arith) ∙ find-set_from (i + 1) j ps)
  where
    there : (i j : ℕ) → (i == i + suc j) ≡ false
    there i j = ground arith

pub count-start :
    (idx : ℕ) (ps : List Profile) → idx < length ps → count_where active (set_from 0 idx ps) ≡ 1
count-start idx ps h =
    ap (λ n. count_where active (set_from 0 n ps)) (omega arith) ∙ count-set_from 0 idx ps h

find-start :
    (idx : ℕ) (ps : List Profile)
    → find active (set_from 0 idx ps) ≡ Option.map (with_active true) (get_elem? ps idx)
find-start idx ps = ap (λ n. find active (set_from 0 n ps)) (omega arith) ∙ find-set_from 0 idx ps

-- The profile that is chosen, by an index within the list, becomes the active one and the only one.
pub set_active_lem :
    (idx : ℕ) (ps : List Profile) (p : Profile)
    → idx < length ps
    → get_elem? ps idx ≡ some p
    → (count_where active (set_active idx ps) ≡ 1)
      × (get_active (set_active idx ps) ≡ some (with_active true p))
unfolding set_active get_active
set_active_lem idx ps p within h =
    (count-start idx ps within, simp (find-start idx ps, h, get_active))
