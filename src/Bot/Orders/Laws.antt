-- ===== src/Bot/Orders/Laws.antt =====
-- The settling of orders in tools/telegram_bot/database.py.
use aegs_global.Prelude.{
  ℕ, ◌≡◌, refl, ◌⊎◌, Bool, true, false, some, ◌++◌, find-update_where, find-holds, exists,
  Option-cases, inl, inr, Bool-cases,
}
use mathlib.Core.Path.{subst}
use aegs_global.Bot.State.{
  Text, Order, OrderStatus, pending, approved, rejected, Store, Result, returns, raises, stamp,
}
use aegs_global.Bot.Orders.{is_order, get_order, plan_days, settle, approve_order, reject_order}
use aegs_global.Bot.Subscriptions.{new_expiry, is_paid, extend_subscription}
use aegs_global.Bot.Users.{get_user, update_user}
use aegs_global.Bot.Sync.{sync_add_user_to_server}
use aegs_global.Crypto.Labels.{codes}

abbrev settled : OrderStatus → ℕ → ℕ → Order → Order
settled result now admin o = record o {
  status = result;
  approved_at = some (stamp now);
  approved_by = some admin;
}

get_order-settle :
    (result : OrderStatus) (now admin : ℕ) (id : Text) (st : Store) (o : Order)
    → get_order id st ≡ some o
    → get_order id (settle result now admin id st) ≡ some (settled result now admin o)
unfolding get_order settle
get_order-settle result now admin id st o h =
    find-update_where (is_order id) (settled result now admin) st.orders o
      (find-holds (is_order id) st.orders o h) h

-- A payment does not touch the orders.
pub data Paid (st : Store) : Result (Store × Bool) → Type 0 where
  raised : Paid st raises
  answered : (st' : Store) (b : Bool) → st'.orders ≡ st.orders → Paid st (returns (st', b))

pub extend_subscription-Paid :
    (now id days : ℕ) (plan_id payment_id : Text) (amount : ℕ) (currency provider : Text)
    (st : Store)
    → Paid st (extend_subscription now id days plan_id payment_id amount currency provider st)
unfolding extend_subscription update_user sync_add_user_to_server
extend_subscription-Paid now id days plan_id payment_id amount currency provider st =
    elim (Option-cases (get_user id st)) [
      | inl h ↦ rw (h, extend_subscription) (answered st false refl)
      | inr (u, h) ↦ elim (Option-cases (new_expiry now u.sub_expires_at days)) [
        | inl e ↦ rw (h, e, extend_subscription) raised
        | inr (until, e) ↦ elim (Bool-cases (exists (is_paid payment_id) st.payments)) [
          | inl p ↦ rw (h, e, p, extend_subscription) (answered st false refl)
          | inr p ↦ rw (h, e, p, extend_subscription) (answered _ _ refl)
        ]
      ]
    ]

-- How an approval ends: by an exception, refused with the orders as they were, or with a pending order
-- approved, when the payment has gone through.
pub data Approval (now : ℕ) (id : Text) (admin : ℕ) (st : Store)
    : Result (Store × Bool) → Type 0 where
  raised : Approval now id admin st raises
  refused : (st' : Store) → st'.orders ≡ st.orders → Approval now id admin st (returns (st', false))
  done :
      (o : Order) (st' : Store)
      → get_order id st ≡ some o
      → o.status ≡ pending
      → get_order id st' ≡ some (settled approved now admin o)
      → Approval now id admin st (returns (st', true))

module _ (now : ℕ) (id : Text) (admin : ℕ) (st : Store) where
  paid-Approval :
      (o : Order) (r : Result (Store × Bool))
      → Paid st r
      → get_order id st ≡ some o
      → o.status ≡ pending
      → Approval now id admin st (elim r [
        | raises ↦ raises
        | returns (st', false) ↦ returns (st', false)
        | returns (st', true) ↦ returns (settle approved now admin id st', true)
      ])
  unfolding get_order
  paid-Approval o raises raised h p = raised
  paid-Approval o (returns (_, false)) (answered st' _ same) h p = refused st' same
  paid-Approval o (returns (_, true)) (answered st' _ same) h p =
      done o (settle approved now admin id st') h p
        (get_order-settle approved now admin id st' o (rw (same) h))

  by_status :
      (o : Order) (s : OrderStatus)
      → get_order id st ≡ some o
      → o.status ≡ s
      → Approval now id admin st (approve_order now id admin st)
  unfolding approve_order
  by_status o approved h e = rw (h, e, approve_order) (refused st refl)
  by_status o rejected h e = rw (h, e, approve_order) (refused st refl)
  by_status o pending h e =
      rw (h, e, approve_order)
        (paid-Approval o _
          (extend_subscription-Paid now o.user_id (plan_days o.plan_id) o.plan_id
            (codes "approved_" ++ id) o.amount o.currency (codes "admin_manual") st)
          h e)

  -- Approving an order raises, refuses and leaves the orders alone, or takes an order that was pending and
  -- leaves it approved, with the moment and the administrator noted.
  approve_order_lem : Approval now id admin st (approve_order now id admin st)
  unfolding approve_order
  approve_order_lem = elim (Option-cases (get_order id st)) [
    | inl h ↦ rw (h, approve_order) (refused st refl)
    | inr (o, h) ↦ by_status o o.status h refl
  ]

-- An order that is settled stays so.
pub settled-stays :
    (id : Text) (st : Store) (o : Order)
    → get_order id st ≡ some o
    → (o.status ≡ approved) ⊎ (o.status ≡ rejected)
    → (now admin : ℕ)
    → (approve_order now id admin st ≡ returns (st, false))
      × (reject_order now id admin st ≡ (st, false))
unfolding approve_order reject_order
settled-stays id st o h (inl e) now admin = (simp (h, e, approve_order), simp (h, e, reject_order))
settled-stays id st o h (inr e) now admin = (simp (h, e, approve_order), simp (h, e, reject_order))

approved-is_settled :
    (now : ℕ) (id : Text) (admin : ℕ) (st st' : Store)
    → Approval now id admin st (returns (st', true))
    → (o : Order) × (get_order id st' ≡ some o) × (o.status ≡ approved)
approved-is_settled now id admin st _ (done o st' h p h') = (settled approved now admin o, h', refl)

-- Once an order has been approved, no later approval or rejection of it does anything: each answers
-- `False` and leaves both databases as they are.
approve_order_once :
    (now : ℕ) (id : Text) (admin : ℕ) (st st' : Store)
    → approve_order now id admin st ≡ returns (st', true)
    → (now' admin' : ℕ)
    → (approve_order now' id admin' st' ≡ returns (st', false))
      × (reject_order now' id admin' st' ≡ (st', false))
approve_order_once now id admin st st' h =
    let (o, found, e) =
      approved-is_settled now id admin st st'
        (subst (Approval now id admin st) h (approve_order_lem now id admin st)) in
    settled-stays id st' o found (inl e)

-- A pending order that is rejected gives nobody anything, neither a payment, nor a date, nor a key
-- on the VPN server, and from then on it can be neither approved nor rejected.
reject_order_lem :
    (now : ℕ) (id : Text) (admin : ℕ) (st : Store) (o : Order)
    → get_order id st ≡ some o
    → o.status ≡ pending
    → let st' = (reject_order now id admin st).0 in
      ((reject_order now id admin st).1 ≡ true)
      × ((st'.users ≡ st.users)
          × (st'.payments ≡ st.payments)
          × (st'.server_users ≡ st.server_users))
      × ((now' admin' : ℕ)
          → (approve_order now' id admin' st' ≡ returns (st', false))
            × (reject_order now' id admin' st' ≡ (st', false)))
unfolding settle reject_order
reject_order_lem now id admin st o h p = rw (same) (
  refl,
  (refl, refl, refl),
  settled-stays id _ (settled rejected now admin o) (get_order-settle rejected now admin id st o h)
      (inr refl),
)
  where
    same : reject_order now id admin st ≡ (settle rejected now admin id st, true)
    same = simp (h, p, reject_order)
