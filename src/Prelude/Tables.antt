-- ===== src/Prelude/Tables.antt =====
-- Tables of rows: the queries that the bot sends to SQLite.
use Prim.Native.Nat.{ℕ, ◌+◌}
use mathlib.Core.Bool.{Bool, false, true, ◌||◌}
use mathlib.Core.Logic.{◌≢◌, inl, inr}
use mathlib.Core.List.{List, [], ◌∷◌, ◌++◌}
use mathlib.Core.Option.{Option, none, some}
use mathlib.Core.Path.{refl, ◌≡◌}
use native.Mathlib.Omega.{arith}
use aegs_global.Prelude.Tests.{if◌then◌else◌, Bool-cases, ◌==◌, ==_iff}

module _ {ℓ} {A : Type ℓ} where
  -- The first row that meets a test.
  unfoldable pub find : (A → Bool) → List A → Option A
  find p [] = none
  find p (x ∷ xs) = if p x then some x else find p xs

  -- `UPDATE … WHERE`.
  unfoldable pub update_where : (A → Bool) → (A → A) → List A → List A
  update_where p f [] = []
  update_where p f (x ∷ xs) = (if p x then f x else x) ∷ update_where p f xs

  -- `SELECT … WHERE`, in the order of the rows.
  unfoldable pub select : (A → Bool) → List A → List A
  select p [] = []
  select p (x ∷ xs) = let r = select p xs in if p x then x ∷ r else r

  -- `DELETE … WHERE`.
  unfoldable pub delete_where : (A → Bool) → List A → List A
  delete_where p [] = []
  delete_where p (x ∷ xs) = let r = delete_where p xs in if p x then r else x ∷ r

  unfoldable pub exists : (A → Bool) → List A → Bool
  exists p [] = false
  exists p (x ∷ xs) = p x || exists p xs

  unfoldable pub count_where : (A → Bool) → List A → ℕ
  count_where p [] = 0
  count_where p (x ∷ xs) = (if p x then 1 else 0) + count_where p xs

  pub exists-delete_where : (p : A → Bool) (xs : List A) → exists p (delete_where p xs) ≡ false
  unfolding exists delete_where
  exists-delete_where p [] = refl
  exists-delete_where p (x ∷ xs) = ground (arith, exists-delete_where p xs)

  -- A changed row is found, if the change keeps the test.
  pub find-update_where :
      (p : A → Bool) (f : A → A) (xs : List A) (x : A)
      → p (f x) ≡ true
      → find p xs ≡ some x
      → find p (update_where p f xs) ≡ some (f x)
  unfolding find update_where
  find-update_where p f [] x keeps h = ground arith
  find-update_where p f (y ∷ ys) x keeps h = ground (arith, find-update_where p f ys x)

  pub find-holds : (p : A → Bool) (xs : List A) (x : A) → find p xs ≡ some x → p x ≡ true
  unfolding find
  find-holds p [] x h = ground arith
  find-holds p (y ∷ ys) x h = ground (arith, find-holds p ys x)

  -- A change of other rows is not seen.
  pub find-update_where_other :
      (p q : A → Bool) (f : A → A) (xs : List A)
      → ((x : A) → q x ≡ true → p x ≡ false)
      → ((x : A) → q x ≡ true → p (f x) ≡ false)
      → find p (update_where q f xs) ≡ find p xs
  unfolding find update_where
  find-update_where_other p q f [] a b = refl
  find-update_where_other p q f (y ∷ ys) a b =
      ground (arith, a y, b y, find-update_where_other p q f ys a b)

  pub update_where_absent :
      (p : A → Bool) (f : A → A) (xs : List A) → find p xs ≡ none → update_where p f xs ≡ xs
  unfolding find update_where
  update_where_absent p f [] h = refl
  update_where_absent p f (y ∷ ys) h = ground (arith, update_where_absent p f ys)

  pub exists-append :
      (p : A → Bool) (xs : List A) (x : A) → p x ≡ true → exists p (xs ++ (x ∷ [])) ≡ true
  unfolding exists
  exists-append p [] x h = ground arith
  exists-append p (y ∷ ys) x h = ground (arith, exists-append p ys x h)

  pub find-append :
      (p : A → Bool) (xs : List A) (x : A)
      → find p xs ≡ none
      → p x ≡ true
      → find p (xs ++ (x ∷ [])) ≡ some x
  unfolding find
  find-append p [] x n h = ground (arith, h)
  find-append p (y ∷ ys) x n h = ground (arith, find-append p ys x, n, h)

  pub find-append_other :
      (p : A → Bool) (xs : List A) (x : A) → p x ≡ false → find p (xs ++ (x ∷ [])) ≡ find p xs
  unfolding find
  find-append_other p [] x h = ground (arith, h)
  find-append_other p (y ∷ ys) x h = ground (arith, find-append_other p ys x h)

  -- What is found stays found behind new rows.
  pub find-append_found :
      (p : A → Bool) (xs : List A) (x y : A) → find p xs ≡ some y → find p (xs ++ (x ∷ [])) ≡ some y
  unfolding find
  find-append_found p [] x y h = ground arith
  find-append_found p (z ∷ zs) x y h = ground (arith, find-append_found p zs x y, h)

  -- Two cases that together say what every number finds.
  pub by_number :
      (id : ℕ) (o : Option A) (old new : ℕ → Option A)
      → new id ≡ o
      → ((j : ℕ) → j ≢ id → new j ≡ old j)
      → (j : ℕ) → new j ≡ (if j == id then o else old j)
  by_number id o old new h others j = elim (Bool-cases (j == id)) [
    | inl y ↦ rw (y, (==_iff j id).0 y) h
    | inr n ↦ rw (n) (others j (λ e. ground (arith, e, n)))
  ]
