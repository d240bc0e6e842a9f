-- ===== src/Bot/Access/Rest.antt =====
-- Orders, tickets and keys made by hand of tools/telegram_bot, beside the VPN server.
use aegs_global.Prelude.{
  ℕ, ◌≡◌, refl, sym, ap, ◌∙◌, Bool, true, false, Option, none, some, ◌++◌, arith, bytes_eq, exists,
  find, Bool-cases, Option-cases, inl, inr,
}
use mathlib.Core.Option
use aegs_global.Bot.Access.{key_of, active_of, owner}
use aegs_global.Bot.Access.Calls.{Agrees}
use aegs_global.Bot.Access.Moves.{stray_added}
use aegs_global.Bot.Access.Names.{owner-manual_name}
use aegs_global.Bot.Access.Rows.{InStep-same}
use aegs_global.Bot.Promocodes.{create_promocode}
use aegs_global.Bot.State.{Text, Store, Result, returns, raises, add_days}
use aegs_global.Bot.Subscriptions.{extend_subscription}
use aegs_global.Bot.Sync.{written, upsert_user, show_nat, compute_key_id, sync_add_user_to_server}
use aegs_global.Bot.Users.{get_user, is_user}
use aegs_global.Crypto.{Crypto}
use aegs_global.Crypto.Labels.{codes}
use aegs_global.Prelude.{bytes_eq→eq}
use aegs_global.Bot.Access.Kept.{Leaves, same-Agrees, IsFresh}
use aegs_global.Bot.Access.Switches.{extend_subscription-Leaves}
use aegs_global.Bot.Orders.{
  is_order, create_order, get_order, plan_days, settle, approve_order, reject_order,
}
use aegs_global.Bot.State.{OrderStatus, pending, approved, rejected}
use aegs_global.Bot.Support.{
  create_support_ticket, reply_support_ticket, manual_name, create_manual_key,
}

pub create_promocode-Agrees :
    (raw : Text) (days max_uses : ℕ) (st : Store)
    → Agrees st
    → Agrees (create_promocode raw days max_uses st)
unfolding create_promocode
create_promocode-Agrees raw days max_uses st h =
    same-Agrees st (create_promocode raw days max_uses st) (ground arith) (ground arith)
      (ground arith) h

pub create_support_ticket-Agrees :
    (user : ℕ) (username : Option Text) (question : Text) (st : Store)
    → Agrees st
    → Agrees (create_support_ticket user username question st).0
unfolding create_support_ticket
create_support_ticket-Agrees user username question st h =
    same-Agrees st (create_support_ticket user username question st).0 refl refl refl h

pub reply_support_ticket-Agrees :
    (now id admin : ℕ) (text : Text) (st : Store)
    → Agrees st
    → Agrees (reply_support_ticket now id admin text st).0
unfolding reply_support_ticket
reply_support_ticket-Agrees now id admin text st h =
    same-Agrees st (reply_support_ticket now id admin text st).0 refl refl refl h

pub create_order-Leaves :
    (n user : ℕ) (username : Option Text) (first_name plan_id : Text) (amount : ℕ) (currency : Text)
    (st : Store)
    → Agrees st
    → Leaves (create_order n user username first_name plan_id amount currency st)
unfolding create_order
create_order-Leaves n user username first_name plan_id amount currency st h =
    elim (Bool-cases (exists (is_order (codes "ORD-" ++ show_nat n)) st.orders)) [
      | inl old ↦ rw (old, create_order) tt
      | inr new ↦ rw (new, create_order) (same-Agrees st _ refl refl refl h)
    ]

settle-Agrees :
    (result : OrderStatus) (now admin : ℕ) (id : Text) (st : Store)
    → Agrees st
    → Agrees (settle result now admin id st)
unfolding settle
settle-Agrees result now admin id st h =
    same-Agrees st (settle result now admin id st) refl refl refl h

-- What `approve_order` makes of a payment.
settled_after :
    (now admin : ℕ) (id : Text) (r : Result (Store × Bool))
    → Leaves r
    → Leaves (elim r as (λ x. Result (Store × Bool)) [
      | raises ↦ raises
      | returns (st', false) ↦ returns (st', false)
      | returns (st', true) ↦ returns (settle approved now admin id st', true)
    ])
settled_after now admin id raises h = tt
settled_after now admin id (returns (st', false)) h = h
settled_after now admin id (returns (st', true)) h = settle-Agrees approved now admin id st' h

pub approve_order-Leaves :
    (now : ℕ) (id : Text) (admin : ℕ) (st : Store)
    → Agrees st
    → Leaves (approve_order now id admin st)
unfolding approve_order
approve_order-Leaves now id admin st h = elim (Option-cases (get_order id st)) [
  | inl n ↦ rw (n, approve_order) h
  | inr (o, y) ↦
      rw (y, approve_order)
        (by_status
          (extend_subscription now o.user_id (plan_days o.plan_id) o.plan_id
            (codes "approved_" ++ id) o.amount o.currency (codes "admin_manual") st)
          (extend_subscription-Leaves now o.user_id (plan_days o.plan_id) o.plan_id
            (codes "approved_" ++ id) o.amount o.currency (codes "admin_manual") st h)
          o.status)
]
  where
    by_status :
        (r : Result (Store × Bool))
        → Leaves r
        → (s : OrderStatus)
        → Leaves (elim s as (λ x. Result (Store × Bool)) [
          | approved ↦ returns (st, false)
          | rejected ↦ returns (st, false)
          | pending ↦ elim r as (λ x. Result (Store × Bool)) [
            | raises ↦ raises
            | returns (st', false) ↦ returns (st', false)
            | returns (st', true) ↦ returns (settle approved now admin id st', true)
          ]
        ])
    by_status r k approved = h
    by_status r k rejected = h
    by_status r k pending = settled_after now admin id r k

pub reject_order-Agrees :
    (now : ℕ) (id : Text) (admin : ℕ) (st : Store)
    → Agrees st
    → Agrees (reject_order now id admin st).0
unfolding reject_order
reject_order-Agrees now id admin st h = elim (Option-cases (get_order id st)) [
  | inl n ↦ rw (n, reject_order) h
  | inr (o, y) ↦ rw (y, reject_order) (by_status o.status)
]
  where
    by_status :
        (s : OrderStatus)
        → Agrees
            (elim s as (λ x. Store × Bool) [
              | approved ↦ (st, false)
              | rejected ↦ (st, false)
              | pending ↦ (settle rejected now admin id st, true)
            ]).0
    by_status approved = h
    by_status rejected = h
    by_status pending = settle-Agrees rejected now admin id st h

fresh_apart :
    (k : Text) (st : Store)
    → IsFresh k st
    → (j : ℕ) (k' : Text) → key_of st j ≡ some k'
    → bytes_eq k k' ≡ false
fresh_apart k st fresh j k' e = elim (Bool-cases (bytes_eq k k')) [
  | inl y ↦ absurd (fresh.no_user j (e ∙ ap (λ t. some t) (sym (bytes_eq→eq k k' y))))
  | inr n ↦ n
]

-- A row of the VPN server under a name that is no user's.
stray-Agrees :
    (name key token : Text) (st st' : Store)
    → st'.users ≡ st.users
    → st'.server_users ≡ st.server_users
    → st'.server_db ≡ st.server_db
    → owner name ≡ none
    → IsFresh key st
    → Agrees st
    → Agrees (sync_add_user_to_server name key token st')
unfolding sync_add_user_to_server get_user
stray-Agrees name key token st st' users rows db own fresh (up, h) = (
  db ∙ up,
  InStep-same (key_of st) (key_of (sync_add_user_to_server name key token st')) (active_of st)
      (active_of (sync_add_user_to_server name key token st'))
      (upsert_user name key token st.server_users)
      (written st'.server_db (upsert_user name key token st'.server_users) st'.server_users)
      (λ j. ap (λ us. Option.map (λ w. w.aegs_key_id) (find (is_user j) us)) users)
      (λ j.
        ap (λ us. elim (find (is_user j) us) as (λ x. Bool) [ none ↦ false | some w ↦ w.is_active ])
          users)
      (ap (λ d. written d (upsert_user name key token st'.server_users) st'.server_users) (db ∙ up)
        ∙ ap (upsert_user name key token) rows)
      (stray_added (key_of st) (active_of st) st.server_users h name key token own
        (fresh_apart key st fresh)),
)

pub create_manual_key-Leaves :
    (c : Crypto) (now : ℕ) (token : Text) (days speed : ℕ) (note : Text) (admin : ℕ) (st : Store)
    → IsFresh (compute_key_id c token) st
    → Agrees st
    → Leaves (create_manual_key c now token days speed note admin st)
unfolding create_manual_key sync_add_user_to_server
create_manual_key-Leaves c now token days speed note admin st fresh h =
    let key = compute_key_id c token in
    elim (Option-cases (add_days now days)) [
      | inl n ↦ rw (n, create_manual_key) tt
      | inr (until, e) ↦ elim (Bool-cases (exists (λ k. bytes_eq k.key_id key) st.manual_keys)) [
        | inl old ↦ rw (e, old, create_manual_key) tt
        | inr new ↦
            rw (e, new, create_manual_key)
              (stray-Agrees (manual_name note key) key token st _ refl refl refl
                (owner-manual_name note key) fresh h)
      ]
    ]
