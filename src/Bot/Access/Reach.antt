-- ===== src/Bot/Access/Reach.antt =====
-- One call of tools/telegram_bot after the other, beside the users' table of the VPN server.
use aegs_global.Prelude.{ℕ, ◌≡◌, refl, ap, ◌∙◌, Bool, false, Option, none, some, [], exists, find}
use mathlib.Core.Option
use mathlib.Core.Path.{subst}
use aegs_global.Bot.Access.{key_of, active_of, AllFit}
use aegs_global.Bot.Access.Rows.{InStep-same}
use aegs_global.Bot.Access.Calls.{Agrees}
use aegs_global.Bot.Access.Kept.{
  Leaves, IsFresh, get_or_create_user-Agrees, set_user_support_state-Agrees,
  mark_reminder_sent-Agrees,
}
use aegs_global.Bot.Access.Passes.{check_expirations-Agrees}
use aegs_global.Bot.Access.Rest.{
  create_promocode-Agrees, create_support_ticket-Agrees, reply_support_ticket-Agrees,
  create_order-Leaves, approve_order-Leaves, reject_order-Agrees, create_manual_key-Leaves,
}
use aegs_global.Bot.Access.Switches.{
  deactivate_user-Agrees, extend_subscription-Leaves, apply_promocode-Agrees,
}
use aegs_global.Bot.Orders.{create_order, approve_order, reject_order}
use aegs_global.Bot.Promocodes.{apply_promocode, create_promocode}
use aegs_global.Bot.State.{writable, Text, User, ManualKey, Store, Result, returns}
use aegs_global.Bot.Subscriptions.{extend_subscription, deactivate_user}
use aegs_global.Bot.Support.{create_support_ticket, reply_support_ticket, create_manual_key}
use aegs_global.Bot.Sync.{has_key, compute_key_id}
use aegs_global.Bot.Users.{
  get_user, is_user, get_or_create_user, set_user_support_state, Reminder, mark_reminder_sent,
}
use aegs_global.Bot.Worker.{check_expirations}
use aegs_global.Crypto.{Crypto}

-- A call that changes the tables. A token that is drawn gives a key that nobody has, and a call that
-- raises leaves no store behind, so the tables are as they were.
pub data Step (c : Crypto) (st : Store) : Store → Type 0 where
  meets :
      (id : ℕ) (username : Option Text) (first_name token : Text)
      → IsFresh (compute_key_id c token) st
      → Step c st (get_or_create_user c id username first_name token st).0
  listens : (id : ℕ) (waiting : Bool) → Step c st (set_user_support_state id waiting st)
  extends :
      (now id days : ℕ) (plan_id payment_id : Text) (amount : ℕ) (currency provider : Text)
      (st' : Store) (done : Bool)
      → extend_subscription now id days plan_id payment_id amount currency provider st
        ≡ returns (st', done)
      → Step c st st'
  deactivates : (id : ℕ) → Step c st (deactivate_user id st)
  redeems : (now id : ℕ) (code : Text) → Step c st (apply_promocode now id code st).0
  offers : (code : Text) (days max_uses : ℕ) → Step c st (create_promocode code days max_uses st)
  asks :
      (id : ℕ) (username : Option Text) (question : Text)
      → Step c st (create_support_ticket id username question st).0
  answers :
      (now ticket admin : ℕ) (text : Text)
      → Step c st (reply_support_ticket now ticket admin text st).0
  orders :
      (n id : ℕ) (username : Option Text) (first_name plan_id : Text) (amount : ℕ) (currency : Text)
      (st' : Store) (order_id : Text)
      → create_order n id username first_name plan_id amount currency st ≡ returns (st', order_id)
      → Step c st st'
  approves :
      (now : ℕ) (order_id : Text) (admin : ℕ) (st' : Store) (done : Bool)
      → approve_order now order_id admin st ≡ returns (st', done)
      → Step c st st'
  rejects :
      (now : ℕ) (order_id : Text) (admin : ℕ) → Step c st (reject_order now order_id admin st).0
  hands_out :
      (now : ℕ) (token : Text) (days speed : ℕ) (note : Text) (admin : ℕ) (st' : Store)
      (key : Option ManualKey)
      → IsFresh (compute_key_id c token) st
      → create_manual_key c now token days speed note admin st ≡ returns (st', key)
      → Step c st st'
  reminds : (id : ℕ) (flag : Reminder) → Step c st (mark_reminder_sent id flag st)
  checks :
      (sends_72h sends_24h : ℕ → Bool) (now_72h now_24h now : ℕ)
      → Step c st (check_expirations sends_72h sends_24h now_72h now_24h now st)

-- From a store without users, in which the VPN server has no row under a user's name, while the VPN
-- server's database takes every write.
pub data Reached (c : Crypto) : Store → Type 0 where
  first :
      (st : Store)
      → st.server_db ≡ writable
      → st.users ≡ []
      → AllFit (λ id. none) st.server_users
      → Reached c st
  call : (st st' : Store) → Reached c st → Step c st st' → Reached c st'

returned :
    {A : Type 0} (r : Result (Store × A)) (st' : Store) (a : A)
    → r ≡ returns (st', a)
    → Leaves r
    → Agrees st'
returned r st' a e h = let k : Leaves (returns (st', a)) = subst Leaves e h in k

first-Agrees :
    (st : Store)
    → st.server_db ≡ writable
    → st.users ≡ []
    → AllFit (λ id. none) st.server_users
    → Agrees st
unfolding get_user find
first-Agrees st up nobody fits = (
  up,
  InStep-same (λ id. none) (key_of st) (λ id. false) (active_of st) st.server_users st.server_users
      (λ j. ap (λ us. Option.map (λ w. w.aegs_key_id) (find (is_user j) us)) nobody)
      (λ j.
        ap (λ us. elim (find (is_user j) us) as (λ x. Bool) [ none ↦ false | some w ↦ w.is_active ])
          nobody)
      refl (record { apart = λ i j k e. cc (e); rows_fit = fits; accepted = λ id k e. cc (e) }),
)

Step-Agrees : (c : Crypto) (st st' : Store) → Step c st st' → Agrees st → Agrees st'
Step-Agrees c st _ (meets id username first_name token fresh) h =
    get_or_create_user-Agrees c id username first_name token st fresh h
Step-Agrees c st _ (listens id waiting) h = set_user_support_state-Agrees id waiting st h
Step-Agrees c st st' (extends now id days plan payment amount currency provider _ done e) h =
    returned (extend_subscription now id days plan payment amount currency provider st) st' done e
      (extend_subscription-Leaves now id days plan payment amount currency provider st h)
Step-Agrees c st _ (deactivates id) h = deactivate_user-Agrees id st h
Step-Agrees c st _ (redeems now id code) h = apply_promocode-Agrees now id code st h
Step-Agrees c st _ (offers code days max_uses) h = create_promocode-Agrees code days max_uses st h
Step-Agrees c st _ (asks id username question) h =
    create_support_ticket-Agrees id username question st h
Step-Agrees c st _ (answers now ticket admin text) h =
    reply_support_ticket-Agrees now ticket admin text st h
Step-Agrees c st st' (orders n id username first_name plan amount currency _ order_id e) h =
    returned (create_order n id username first_name plan amount currency st) st' order_id e
      (create_order-Leaves n id username first_name plan amount currency st h)
Step-Agrees c st st' (approves now order_id admin _ done e) h =
    returned (approve_order now order_id admin st) st' done e
      (approve_order-Leaves now order_id admin st h)
Step-Agrees c st _ (rejects now order_id admin) h = reject_order-Agrees now order_id admin st h
Step-Agrees c st st' (hands_out now token days speed note admin _ key fresh e) h =
    returned (create_manual_key c now token days speed note admin st) st' key e
      (create_manual_key-Leaves c now token days speed note admin st fresh h)
Step-Agrees c st _ (reminds id flag) h = mark_reminder_sent-Agrees id flag st h
Step-Agrees c st _ (checks sends_72h sends_24h now_72h now_24h now) h =
    check_expirations-Agrees sends_72h sends_24h now_72h now_24h now st h

Reached-Agrees : (c : Crypto) (st : Store) → Reached c st → Agrees st
Reached-Agrees c _ (first st up nobody fits) = first-Agrees st up nobody fits
Reached-Agrees c st' (call st _ before step) =
    Step-Agrees c st st' step (Reached-Agrees c st before)

-- Whatever calls change the bot's database, in any order, from a store without users in which the VPN
-- server has no row under a user's name, while its database takes every write and each token that is
-- drawn gives a key that nobody has: the table of the VPN server holds the key of a user just while the user is active.
pub Reached-accepted :
    (c : Crypto) (st : Store)
    → Reached c st
    → (id : ℕ) (u : User) → get_user id st ≡ some u
    → exists (has_key u.aegs_key_id) st.server_users ≡ u.is_active
Reached-accepted c st before id u found =
    (Reached-Agrees c st before).1.accepted id u.aegs_key_id
      (ap (Option.map (λ w. w.aegs_key_id)) found)
    ∙ ap (λ o. elim o as (λ x. Bool) [ none ↦ false | some w ↦ w.is_active ]) found
