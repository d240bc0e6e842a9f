-- ===== src/Bot/Subscriptions/Laws.antt =====
-- Paying for and ending a subscription in tools/telegram_bot/database.py.
use aegs_global.Prelude.{
  by_number, ℕ, ◌+◌, ◌*◌, ◌≤◌, ◌<◌, ◌≡◌, ◌≢◌, refl, true, false, Option, none, some, List, [], ◌∷◌,
  ◌++◌, arith, lt→ltb, ◌==◌, if◌then◌else◌, bytes_eq_refl, exists, find-update_where,
  find-update_where_other, find-holds, exists-append,
}
use aegs_global.Bot.State.{
  Text, User, Payment, ServerUser, writable, Store, returns, add_days, stamp, date_of, second, day,
}
use aegs_global.Bot.Sync.{upsert_user, has_key, sync_add_user_to_server}
use aegs_global.Bot.Users.{get_user, update_user, is_user, status_at, check_subscription_status}
use aegs_global.Bot.Subscriptions.{new_expiry, server_name, renewed, is_paid, extend_subscription}

-- The server accepts the key that has just been given to it.
pub has_key-upsert_user :
    (name key token : Text) (us : List ServerUser)
    → exists (has_key key) (upsert_user name key token us) ≡ true
unfolding exists upsert_user
has_key-upsert_user name key token [] = ground (arith, bytes_eq_refl key)
has_key-upsert_user name key token (u ∷ us) =
    ground (arith, bytes_eq_refl key, has_key-upsert_user name key token us)

module _ (id : ℕ) (f : User → User) (keeps : (u : User) → (f u).user_id ≡ u.user_id) where
  pub get_user-update_user :
      (st : Store) (u : User)
      → get_user id st ≡ some u
      → get_user id (update_user id f st) ≡ some (f u)
  unfolding get_user update_user
  get_user-update_user st u h =
      find-update_where (is_user id) f st.users u
        (rw (keeps u) (find-holds (is_user id) st.users u h)) h

  pub get_user-update_user_other :
      (st : Store) (j : ℕ) → j ≢ id → get_user j (update_user id f st) ≡ get_user j st
  unfolding get_user update_user
  get_user-update_user_other st j ne =
      find-update_where_other (is_user j) (is_user id) f st.users (λ x e. ground (arith, ne, e))
        (λ x e. ground (arith, ne, e, keeps x))

-- What a successful extension has done.
pub record IsExtended (now id days : ℕ) (payment_id : Text) (st st' : Store) (u : User) (until : ℕ)
    : Type 0 where
  pub rows :
      (j : ℕ) → get_user j st' ≡ (if j == id then some (renewed (stamp until) u) else get_user j st)
  pub known_to_server : exists (has_key u.aegs_key_id) st'.server_users ≡ true
  pub paid : exists (is_paid payment_id) st'.payments ≡ true
  pub same_orders : st'.orders ≡ st.orders
  pub later : now + days * day ≤ until
  pub active : (check_subscription_status now id st').is_active ≡ true

pub new_expiry-le :
    (now : ℕ) (o : Option ℕ) (days until : ℕ)
    → new_expiry now o days ≡ some until
    → now + days * day ≤ until
unfolding new_expiry add_days
new_expiry-le now none days until h = ground (arith, h)
new_expiry-le now (some s) days until h = ground (arith, h)

pub status-renewed :
    (now id until : ℕ) (st : Store) (u : User)
    → get_user id st ≡ some (renewed (stamp until) u)
    → now + second ≤ until
    → (check_subscription_status now id st).is_active ≡ true
unfolding check_subscription_status renewed
status-renewed now id until st u h later =
    simp (h, lt→ltb now (date_of (stamp until)) (omega arith), status_at, check_subscription_status)

-- The store after a payment.
unfoldable pub after_payment : ℕ → Text → Payment → User → ℕ → Store → Store
after_payment id name paid u until st =
    sync_add_user_to_server name u.aegs_key_id u.aegs_token
      (update_user id (renewed (stamp until)) (record st { payments = st.payments ++ (paid ∷ []) }))

module _ (now id : ℕ) (name : Text) (paid : Payment) (u : User) (until : ℕ) (st : Store)
    (h : get_user id st ≡ some u) where
  pub after_payment-row :
      get_user id (after_payment id name paid u until st) ≡ some (renewed (stamp until) u)
  unfolding after_payment get_user update_user sync_add_user_to_server
  after_payment-row =
      get_user-update_user id (renewed (stamp until)) (λ v. unfold renewed in refl) st u h

  after_payment-others :
      (j : ℕ) → j ≢ id → get_user j (after_payment id name paid u until st) ≡ get_user j st
  unfolding after_payment get_user update_user sync_add_user_to_server
  after_payment-others j ne =
      get_user-update_user_other id (renewed (stamp until)) (λ v. unfold renewed in refl) st j ne

  after_payment-IsExtended :
      st.server_db ≡ writable
      → 0 < paid.days_added
      → now + paid.days_added * day ≤ until
      → IsExtended now id paid.days_added paid.payment_id st
          (after_payment id name paid u until st)
          u
          until
  unfolding after_payment update_user sync_add_user_to_server
  after_payment-IsExtended takes pos late = record {
    rows =
        by_number id (some (renewed (stamp until) u)) (λ j. get_user j st)
          (λ j. get_user j (after_payment id name paid u until st)) after_payment-row
          after_payment-others;
    known_to_server =
        rw (takes) (has_key-upsert_user name u.aegs_key_id u.aegs_token st.server_users);
    paid = exists-append (is_paid paid.payment_id) st.payments paid (bytes_eq_refl paid.payment_id);
    same_orders = refl;
    later = late;
    active =
        status-renewed now id until (after_payment id name paid u until st) u after_payment-row
          (omega arith);
  }

pub extend_subscription_lem :
    (now id days : ℕ) (plan_id payment_id : Text) (amount : ℕ) (currency provider : Text)
    (st : Store) (u : User) (until : ℕ)
    → get_user id st ≡ some u
    → new_expiry now u.sub_expires_at days ≡ some until
    → exists (is_paid payment_id) st.payments ≡ false
    → 0 < days
    → st.server_db ≡ writable
    → (st' : Store) × (extend_subscription now id days plan_id payment_id amount currency provider
          st
        ≡ returns (st', true))
      × IsExtended now id days payment_id st st' u until
unfolding extend_subscription after_payment
extend_subscription_lem now id days plan_id payment_id amount currency provider st u until h e fresh
      pos takes =
    let paid : Payment = record {
      user_id = id;
      plan_id = plan_id;
      days_added = days;
      amount = amount;
      currency = currency;
      provider = provider;
      payment_id = payment_id;
    } in
    (
      after_payment id (server_name id u.username) paid u until st,
      simp (h, e, fresh, takes, extend_subscription),
      after_payment-IsExtended now id (server_name id u.username) paid u until st h takes pos
          (new_expiry-le now u.sub_expires_at days until e),
    )
