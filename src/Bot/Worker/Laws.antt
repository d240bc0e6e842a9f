-- ===== src/Bot/Worker/Laws.antt =====
-- What a pass of tools/telegram_bot/subscription_worker.py leaves behind.
use aegs_global.Prelude.{
  ℕ, ◌≡◌, refl, sym, Bool, true, false, ◌&&◌, ◌||◌, not, none, some, ◌+◌, ◌≤◌, ap, ◌∙◌, ltb, lt→ltb,
  List, [], ◌∷◌, arith, exists, find, select, update_where, if◌then◌else◌, Bool-cases, Option-cases,
  inl, inr,
}
use mathlib.Core.Path.{subst}
use aegs_global.Bot.State.{User, Store, stamp, date_of, second}
use aegs_global.Bot.Sync.{opens, sync_remove_user_from_server}
use aegs_global.Bot.Users.{
  before, Reminder, in_24h, in_72h, mark_reminder_sent, get_expiring_users, is_user, get_user,
  update_user, has_lapsed, get_expired_active_users,
}
use aegs_global.Bot.Subscriptions.{deactivate_user}
use aegs_global.Bot.Worker.{remind, expire, check_expirations}

or-false : (a b : Bool) → (a || b) ≡ false → (a ≡ false) × (b ≡ false)
or-false a b h = ground (arith, h)

-- Does a user on the list have the number?
listed : ℕ → List User → Bool
listed id us = exists (is_user id) us

-- A row that has lapsed and that the list does not cover.
abbrev uncovered : ℕ → List User → User → Bool
uncovered now us u = has_lapsed now u && not (listed u.user_id us)

module _ (id now : ℕ) (us : List User) (u : User) (e : u.user_id ≡ id) where
  absent-row :
      (rows : List User)
      → find (is_user id) rows ≡ none
      → exists (uncovered now (u ∷ us)) rows ≡ false
      → exists (uncovered now us) rows ≡ false
  unfolding find exists listed
  absent-row [] n h = refl
  absent-row (r ∷ rows) n h = ground (arith, absent-row rows, n, h, e)

  abbrev switch_off : User → User
  switch_off v = record v { is_active = false }

  off-row :
      (r : User)
      → uncovered now (u ∷ us) r ≡ false
      → uncovered now us (if is_user id r then switch_off r else r) ≡ false
  unfolding exists listed
  off-row r h = elim (Bool-cases (is_user id r)) [
    | inl y ↦ rw (y) refl
    | inr n ↦ rw (n) (ground (arith, h, e, n))
  ]

  off-rows :
      (rows : List User)
      → exists (uncovered now (u ∷ us)) rows ≡ false
      → exists (uncovered now us) (update_where (is_user id) switch_off rows) ≡ false
  unfolding update_where exists
  off-rows [] h = refl
  off-rows (r ∷ rows) h =
      let (a, b) = or-false (uncovered now (u ∷ us) r) (exists (uncovered now (u ∷ us)) rows) h in
      rw (off-row r a) (off-rows rows b)

module _ (now : ℕ) where
  deactivate-uncovered :
      (us : List User) (u : User) (st : Store)
      → exists (uncovered now (u ∷ us)) st.users ≡ false
      → exists (uncovered now us) (deactivate_user u.user_id st).users ≡ false
  unfolding deactivate_user get_user update_user sync_remove_user_from_server
  deactivate-uncovered us u st h = elim (Option-cases (get_user u.user_id st)) [
    | inl n ↦ rw (n, deactivate_user) (absent-row u.user_id now us u refl st.users n h)
    | inr (v, y) ↦ rw (y, deactivate_user) (off-rows u.user_id now us u refl st.users h)
  ]

  uncovered-nobody :
      (rows : List User)
      → exists (uncovered now []) rows ≡ false
      → exists (has_lapsed now) rows ≡ false
  unfolding exists listed
  uncovered-nobody [] h = refl
  uncovered-nobody (r ∷ rows) h = ground (arith, uncovered-nobody rows, h)

  deactivate_user-server_db :
      (id : ℕ) (st : Store) → (deactivate_user id st).server_db ≡ st.server_db
  unfolding deactivate_user sync_remove_user_from_server update_user
  deactivate_user-server_db id st = elim (Option-cases (get_user id st)) [
    | inl n ↦ rw (n, deactivate_user) refl
    | inr (u, y) ↦ rw (y, deactivate_user) refl
  ]

  expire-lapsed :
      (us : List User) (st : Store)
      → opens st.server_db ≡ true
      → exists (uncovered now us) st.users ≡ false
      → exists (has_lapsed now) (expire us st).users ≡ false
  unfolding expire
  expire-lapsed [] st up h = uncovered-nobody st.users h
  expire-lapsed (u ∷ us) st up h =
      let st' = deactivate_user u.user_id st in
      rw (up) (
        expire-lapsed us st' (ap opens (deactivate_user-server_db u.user_id st) ∙ up)
          (deactivate-uncovered us u st h))

  uncovered-more :
      (x : User) (us rows : List User)
      → exists (uncovered now us) rows ≡ false
      → exists (uncovered now (x ∷ us)) rows ≡ false
  unfolding exists listed
  uncovered-more x us [] h = refl
  uncovered-more x us (r ∷ rows) h = ground (arith, uncovered-more x us rows, h)

  listed-head : (r : User) (us : List User) → listed r.user_id (r ∷ us) ≡ true
  unfolding exists listed
  listed-head r us = ground arith

  select-true :
      (r : User) (rows : List User)
      → has_lapsed now r ≡ true
      → select (has_lapsed now) (r ∷ rows) ≡ r ∷ select (has_lapsed now) rows
  unfolding select
  select-true r rows y = rw (y) refl

  select-false :
      (r : User) (rows : List User)
      → has_lapsed now r ≡ false
      → select (has_lapsed now) (r ∷ rows) ≡ select (has_lapsed now) rows
  unfolding select
  select-false r rows n = rw (n) refl

  covers-head :
      (r : User) (us rows : List User)
      → exists (uncovered now us) rows ≡ false
      → exists (uncovered now (r ∷ us)) (r ∷ rows) ≡ false
  unfolding exists
  covers-head r us rows h = ground (arith, listed-head r us, uncovered-more r us rows h)

  covers-skip :
      (r : User) (us rows : List User)
      → has_lapsed now r ≡ false
      → exists (uncovered now us) rows ≡ false
      → exists (uncovered now us) (r ∷ rows) ≡ false
  unfolding exists
  covers-skip r us rows n h = rw (n) h

  select-covers :
      (rows : List User) → exists (uncovered now (select (has_lapsed now) rows)) rows ≡ false
  unfolding exists
  select-covers [] = refl
  select-covers (r ∷ rows) = elim (Bool-cases (has_lapsed now r)) [
    | inl y ↦
        subst (λ us. exists (uncovered now us) (r ∷ rows) ≡ false) (sym (select-true r rows y))
          (covers-head r _ rows (select-covers rows))
    | inr n ↦
        subst (λ us. exists (uncovered now us) (r ∷ rows) ≡ false) (sym (select-false r rows n))
          (covers-skip r _ rows n (select-covers rows))
  ]

-- A row that is found passes no test that no row passes.
found-false :
    (p q : User → Bool) (rows : List User) (u : User)
    → exists p rows ≡ false
    → find q rows ≡ some u
    → p u ≡ false
unfolding exists find
found-false p q [] u none_there found = cc (found)
found-false p q (r ∷ rows) u none_there found = elim (Bool-cases (q r)) [
  | inl y ↦
      let same : some r ≡ some u = ap (λ b. if b then some r else find q rows) (sym y) ∙ found in
      let e : r ≡ u = cc (same) in rw (← e) (or-false (p r) (exists p rows) none_there).0
  | inr n ↦
      found-false p q rows u (or-false (p r) (exists p rows) none_there).1
        (ap (λ b. if b then some r else find q rows) (sym n) ∙ found)
]

remind-server_db :
    (sends : ℕ → Bool) (flag : Reminder) (us : List User) (st : Store)
    → (remind sends flag us st).server_db ≡ st.server_db
unfolding remind mark_reminder_sent update_user
remind-server_db sends flag [] st = refl
remind-server_db sends flag (u ∷ us) st =
    remind-server_db sends flag us
      (if sends u.user_id then mark_reminder_sent u.user_id flag st else st)
    ∙ either (sends u.user_id)
  where
    either :
        (b : Bool)
        → (if b then mark_reminder_sent u.user_id flag st else st).server_db ≡ st.server_db
    either true = refl
    either false = refl

not_active :
    (now e : ℕ) (active : Bool)
    → (active && ltb e (stamp now)) ≡ false
    → date_of e + second ≤ now
    → active ≡ false
not_active now e active h past =
    let t : ltb e (stamp now) ≡ true = lt→ltb e (stamp now) (omega arith) in ground (arith, h, t)

-- After a pass of the worker, while the VPN server's database can be opened: no user whose
-- subscription ended a second or more before the pass read the clock is active, whatever was in the
-- table and whichever messages went through.
pub check_expirations_lem :
    (sends_72h sends_24h : ℕ → Bool) (now_72h now_24h now : ℕ) (st : Store)
    → opens st.server_db ≡ true
    → (id : ℕ) (u : User) (e : ℕ)
    → get_user id (check_expirations sends_72h sends_24h now_72h now_24h now st) ≡ some u
    → u.sub_expires_at ≡ some e
    → date_of e + second ≤ now
    → u.is_active ≡ false
unfolding check_expirations get_expired_active_users get_user
check_expirations_lem sends_72h sends_24h now_72h now_24h now st up id u e found ends past =
    let st1 = remind sends_72h in_72h (get_expiring_users now_72h 48 72 in_72h st) st in
    let list = get_expiring_users now_24h 0 24 in_24h st1 in
    let st2 = remind sends_24h in_24h list st1 in
    let still =
      ap opens (
        remind-server_db sends_24h in_24h list st1
        ∙ remind-server_db sends_72h in_72h (get_expiring_users now_72h 48 72 in_72h st) st)
      ∙ up in
    let fits =
      found-false (has_lapsed now) (is_user id) _ u
        (expire-lapsed now _ st2 still (select-covers now _)) found in
    not_active now e u.is_active (sym (ap (λ o. u.is_active && before (stamp now) o) ends) ∙ fits)
      past
