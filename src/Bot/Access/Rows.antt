-- ===== src/Bot/Access/Rows.antt =====
-- What the changes of the VPN server's table do to the agreement with the users.
use aegs_global.Prelude.{
  ℕ, ◌≡◌, ◌≢◌, refl, sym, ap, ◌∙◌, Bool, true, false, Option, none, some, List, [], ◌∷◌, arith,
  bytes_eq, bytes_eq→eq, exists, delete_where, Bool-cases, inl, inr,
}
use mathlib.Core.Path.{fun_ext}
use aegs_global.Bot.Access.{owner, Fits, AllFit, InStep}
use aegs_global.Bot.State.{Text, ServerUser}
use aegs_global.Bot.Sync.{has_key, upsert_user}

abbrev new_row : Text → Text → Text → ServerUser
new_row name key token = record { username = name; aegis_key_id = key; aegis_token = token }

pub AllFit-upsert :
    (keys : ℕ → Option Text) (name key token : Text) (rows : List ServerUser)
    → ((t : Text) → Fits keys (record { username = name; aegis_key_id = key; aegis_token = t }))
    → AllFit keys rows
    → AllFit keys (upsert_user name key token rows)
unfolding upsert_user
AllFit-upsert keys name key token [] fits all = (fits token, tt)
AllFit-upsert keys name key token (r ∷ rs) fits (h, hs) =
    elim (Bool-cases (bytes_eq r.username name)) [
      | inl same ↦ rw (same, upsert_user, bytes_eq→eq r.username name same) (fits token, hs)
      | inr other ↦ rw (other, upsert_user) (h, AllFit-upsert keys name key token rs fits hs)
    ]

-- A key that no row of the name carries, and that is not the new one, is as before.
abbrev pub NotUnder : Text → Text → List ServerUser → Type 0
NotUnder name k [] = Unit {0}
NotUnder name k (r ∷ rs) =
    (bytes_eq r.username name ≡ true → bytes_eq r.aegis_key_id k ≡ false) × NotUnder name k rs

pub exists-upsert_other :
    (name key token k : Text) (rows : List ServerUser)
    → bytes_eq key k ≡ false
    → NotUnder name k rows
    → exists (has_key k) (upsert_user name key token rows) ≡ exists (has_key k) rows
unfolding upsert_user exists
exists-upsert_other name key token k [] ne h = ground (arith, ne)
exists-upsert_other name key token k (r ∷ rs) ne (h, hs) =
    ground (arith, ne, h, exists-upsert_other name key token k rs ne hs)

pub AllFit-delete :
    (keys : ℕ → Option Text) (p : ServerUser → Bool) (rows : List ServerUser)
    → AllFit keys rows
    → AllFit keys (delete_where p rows)
unfolding delete_where
AllFit-delete keys p [] all = tt
AllFit-delete keys p (r ∷ rs) (h, hs) = elim (Bool-cases (p r)) [
  | inl y ↦ rw (y, delete_where) (AllFit-delete keys p rs hs)
  | inr n ↦ rw (n, delete_where) (h, AllFit-delete keys p rs hs)
]

pub exists-delete_other :
    (k k' : Text) (rows : List ServerUser)
    → k ≢ k'
    → exists (has_key k) (delete_where (has_key k') rows) ≡ exists (has_key k) rows
unfolding delete_where exists
exists-delete_other k k' [] ne = refl
exists-delete_other k k' (r ∷ rs) ne = elim (Bool-cases (bytes_eq r.aegis_key_id k')) [
  | inl y ↦
      let not_k : bytes_eq r.aegis_key_id k ≡ false = apart_of r.aegis_key_id k k' y ne in
      ground (arith, y, not_k, exists-delete_other k k' rs ne)
  | inr n ↦ ground (arith, n, exists-delete_other k k' rs ne)
]
  where
    apart_of : (a k k' : Text) → bytes_eq a k' ≡ true → k ≢ k' → bytes_eq a k ≡ false
    apart_of a k k' y ne = elim (Bool-cases (bytes_eq a k)) [
      | inl z ↦ absurd (ne (sym (bytes_eq→eq a k z) ∙ bytes_eq→eq a k' y))
      | inr z ↦ z
    ]

-- The agreement is one of keys and switches, number by number, and of rows.
pub InStep-same :
    (keys keys' : ℕ → Option Text) (active active' : ℕ → Bool) (rows rows' : List ServerUser)
    → ((j : ℕ) → keys' j ≡ keys j)
    → ((j : ℕ) → active' j ≡ active j)
    → rows' ≡ rows
    → InStep keys active rows
    → InStep keys' active' rows'
InStep-same keys keys' active active' rows rows' hk ha hr h = rw (fun_ext hk, fun_ext ha, hr) h

pub some-text : (a b : Text) → some a ≡ some b → a ≡ b
some-text a b e = cc (e)

pub some-number : (i j : ℕ) → some i ≡ some j → i ≡ j
some-number i j e = cc (e)

-- The rows under a user's name carry the user's key, and so no other.
pub NotUnder-mine :
    (keys : ℕ → Option Text) (name k k' : Text) (id : ℕ) (rows : List ServerUser)
    → owner name ≡ some id
    → keys id ≡ some k
    → bytes_eq k k' ≡ false
    → AllFit keys rows
    → NotUnder name k' rows
NotUnder-mine keys name k k' id [] own key ne all = tt
NotUnder-mine keys name k k' id (r ∷ rs) own key ne (h, hs) = (
  λ y.
      let e = bytes_eq→eq r.username name y in
      let rk = some-text r.aegis_key_id k (sym (h.mine id (ap owner e ∙ own)) ∙ key) in
      ap (λ t. bytes_eq t k') rk ∙ ne,
  NotUnder-mine keys name k k' id rs own key ne hs,
)

-- The rows under another name carry no user's key.
pub NotUnder-stray :
    (keys : ℕ → Option Text) (name k : Text) (id : ℕ) (rows : List ServerUser)
    → owner name ≡ none
    → keys id ≡ some k
    → AllFit keys rows
    → NotUnder name k rows
NotUnder-stray keys name k id [] own key all = tt
NotUnder-stray keys name k id (r ∷ rs) own key (h, hs) = (
  λ y. h.stray (ap owner (bytes_eq→eq r.username name y) ∙ own) id k key,
  NotUnder-stray keys name k id rs own key hs,
)
