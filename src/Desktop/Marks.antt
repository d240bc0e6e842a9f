-- ===== src/Desktop/Marks.antt =====
-- The active profile of the storage, and what the list of servers of aegs_app.py shows of it.
use aegs_global.Prelude.{
  ℕ, zero, suc, ◌+◌, ◌≤◌, ◌<◌, ◌≡◌, refl, sym, ap, ◌∙◌, Bool, true, false, Option, none, some, List,
  [], ◌∷◌, map, arith, length, ltb, exists, find, count_where, Bool-cases, inl, inr, if◌then◌else◌,
  Bytes,
}
use mathlib.Core.Option
use aegs_global.Desktop.{Row, list_row, shown}
use aegs_global.Desktop.Servers.{change_active, change_first_active}
use aegs_global.Profiles.{
  Profile, active, remove_at, with_active, with_first, delete_profile, get_active,
}
use aegs_global.Profiles.Laws.{IsSelected, delete_profile-IsSelected}

-- One active profile is found.
pub some-found :
    (ps : List Profile) → count_where active ps ≡ 1 → (q : Profile) × (find active ps ≡ some q)
unfolding count_where find
some-found [] h = absurd (omega (arith, h))
some-found (p ∷ ps) h = elim (Bool-cases p.is_active) [
  | inl y ↦ (p, rw (y) refl)
  | inr n ↦
      let rest : count_where active ps ≡ 1 = ground (arith, h, n) in
      let (q, e) = some-found ps rest in (q, rw (n) e)
]

-- A change of a profile that the list does not show.
pub record IsHidden (f : Profile → Profile) : Type 0 where
  pub same_row : (p : Profile) → list_row (f p) ≡ list_row p

module _ (f : Profile → Profile) (hidden : IsHidden f) where
  -- One profile in either branch of a test.
  rows-branch :
      (b : Bool) (p : Profile) (ps qs : List Profile)
      → map list_row qs ≡ map list_row ps
      → map list_row (if b then f p ∷ ps else p ∷ qs) ≡ list_row p ∷ map list_row ps
  rows-branch true p ps qs h = ap (λ r. r ∷ map list_row ps) (hidden.same_row p)
  rows-branch false p ps qs h = ap (λ rs. list_row p ∷ rs) h

  rows-change_first :
      (ps : List Profile) → map list_row (change_first_active f ps) ≡ map list_row ps
  unfolding change_first_active
  rows-change_first [] = refl
  rows-change_first (p ∷ ps) =
      rows-branch p.is_active p ps (change_first_active f ps) (rows-change_first ps)

  rows-either :
      (b : Bool) (p : Profile) (ps qs : List Profile)
      → map list_row qs ≡ list_row p ∷ map list_row ps
      → map list_row (if b then qs else f p ∷ ps) ≡ list_row p ∷ map list_row ps
  rows-either true p ps qs h = h
  rows-either false p ps qs h = ap (λ r. r ∷ map list_row ps) (hidden.same_row p)

  pub rows-change_active : (ps : List Profile) → map list_row (change_active f ps) ≡ map list_row ps
  unfolding change_active
  rows-change_active [] = refl
  rows-change_active (p ∷ ps) =
      rows-either (exists active (p ∷ ps)) p ps (change_first_active f (p ∷ ps))
        (rows-change_first (p ∷ ps))

-- The rows tell how many profiles are active, and which one the label names.
abbrev starred : Row → Bool
starred r = r.star

abbrev named : Row → Bytes × Bytes × ℕ
named r = (r.name, r.ip, r.port)

count-rows : (ps : List Profile) → count_where active ps ≡ count_where starred (map list_row ps)
unfolding count_where
count-rows [] = refl
count-rows (p ∷ ps) = ap (λ n. (if p.is_active then 1 else 0) + n) (count-rows ps)

find-branch :
    (b : Bool) (p : Profile) (o : Option Profile) (q : Option Row)
    → Option.map shown o ≡ Option.map named q
    → Option.map shown (if b then some p else o)
      ≡ Option.map named (if b then some (list_row p) else q)
find-branch true p o q h = refl
find-branch false p o q h = h

find-rows :
    (ps : List Profile)
    → Option.map shown (find active ps) ≡ Option.map named (find starred (map list_row ps))
unfolding find
find-rows [] = refl
find-rows (p ∷ ps) =
    find-branch p.is_active p (find active ps) (find starred (map list_row ps)) (find-rows ps)

pub count-same :
    (ps qs : List Profile)
    → map list_row qs ≡ map list_row ps
    → count_where active qs ≡ count_where active ps
count-same ps qs h = count-rows qs ∙ ap (count_where starred) h ∙ sym (count-rows ps)

-- The first active profile, where there is one.
pub get_active-find :
    (ps : List Profile) → count_where active ps ≡ 1 → get_active ps ≡ find active ps
unfolding get_active count_where find
get_active-find [] h = refl
get_active-find (p ∷ ps) h = found (find active (p ∷ ps)) (some-found (p ∷ ps) h)
  where
    found :
        (o : Option Profile)
        → ((q : Profile) × (o ≡ some q))
        → (elim o as (λ x. Option Profile) [ some q ↦ some q | none ↦ some p ]) ≡ o
    found (some q) h = refl
    found none (q, e) = cc (e)

-- The label names the same profile, where the rows are the same.
pub label-same :
    (ps qs : List Profile)
    → count_where active ps ≡ 1
    → map list_row qs ≡ map list_row ps
    → Option.map shown (get_active qs) ≡ Option.map shown (get_active ps)
label-same ps qs one h =
    ap (Option.map shown) (get_active-find qs (count-same ps qs h ∙ one))
    ∙ find-rows qs
    ∙ ap (λ rs. Option.map named (find starred rs)) h
    ∙ sym (find-rows ps)
    ∙ ap (Option.map shown) (sym (get_active-find ps one))

length-remove_at : (i : ℕ) (ps : List Profile) → length ps ≤ length (remove_at i ps) + 1
unfolding remove_at
length-remove_at i [] = omega arith
length-remove_at zero (p ∷ ps) = omega arith
length-remove_at (suc i) (p ∷ ps) = omega (arith, length-remove_at i ps)

length-with_first : (ps : List Profile) → length (with_first ps) ≡ length ps
unfolding with_first
length-with_first [] = refl
length-with_first (p ∷ ps) = either (exists active (p ∷ ps)) p ps
  where
    either :
        (b : Bool) (p : Profile) (ps : List Profile)
        → length (if b then p ∷ ps else with_active true p ∷ ps) ≡ suc (length ps)
    either true p ps = refl
    either false p ps = refl

length-delete_profile :
    (idx : ℕ) (ps : List Profile) → length ps ≤ length (delete_profile idx ps) + 1
unfolding delete_profile
length-delete_profile idx ps = elim (Bool-cases (ltb idx (length ps))) [
  | inl y ↦
      rw (y, delete_profile)
        (omega (arith, length-with_first (remove_at idx ps), length-remove_at idx ps))
  | inr n ↦ rw (n, delete_profile) (omega arith)
]

-- Of two profiles or more, one of them active, one can be deleted and one is active.
pub count-delete_profile :
    (idx : ℕ) (ps : List Profile)
    → count_where active ps ≡ 1
    → 1 < length ps
    → count_where active (delete_profile idx ps) ≡ 1
unfolding IsSelected
count-delete_profile idx ps one more = elim (delete_profile-IsSelected idx ps (inr one)) [
  | inl gone ↦ absurd (omega (arith, length-delete_profile idx ps, ap length gone, more))
  | inr still ↦ still
]
