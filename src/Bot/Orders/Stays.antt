-- ===== src/Bot/Orders/Stays.antt =====
-- An order of tools/telegram_bot/database.py that is settled, while others are made and settled.
use aegs_global.Prelude.{
  ℕ, ◌≡◌, refl, ◌⊎◌, inl, inr, ◌∙◌, Bool, true, false, some, ◌++◌, bytes_eq, bytes_eq→eq,
  find-update_where_other, Option-cases, Bool-cases,
}
use aegs_global.Bot.State.{
  Text, Order, OrderStatus, pending, approved, rejected, Store, Result, returns, raises,
}
use aegs_global.Bot.Orders.{is_order, get_order, plan_days, settle, approve_order, reject_order}
use aegs_global.Bot.Orders.Laws.{Paid, raised, answered, extend_subscription-Paid, settled-stays}
use aegs_global.Crypto.Labels.{codes}

-- Approved or rejected.
abbrev pub Settled : Order → Type 0
Settled o = (o.status ≡ approved) ⊎ (o.status ≡ rejected)

another :
    (id id' : Text) (o : Order)
    → bytes_eq id' id ≡ false
    → is_order id' o ≡ true
    → is_order id o ≡ false
another id id' o ne h = rw (bytes_eq→eq o.order_id id' h) ne

get_order-settle_other :
    (result : OrderStatus) (now admin : ℕ) (id id' : Text) (st : Store)
    → bytes_eq id' id ≡ false
    → get_order id (settle result now admin id' st) ≡ get_order id st
unfolding get_order settle
get_order-settle_other result now admin id id' st ne =
    find-update_where_other (is_order id) (is_order id') _ st.orders (λ x e. another id id' x ne e)
      (λ x e. another id id' x ne e)

-- The order `o` is in the store that a call leaves; where the call raises, the store is not changed.
abbrev pub StillThere : Text → Order → Result (Store × Bool) → Type 0
StillThere id o raises = Unit
StillThere id o (returns (st, _)) = get_order id st ≡ some o

module _ (now admin : ℕ) (id : Text) (st : Store) (o : Order) (h : get_order id st ≡ some o)
    (done : Settled o) where
  pay-stays :
      (id' : Text) (r : Result (Store × Bool))
      → bytes_eq id' id ≡ false
      → Paid st r
      → StillThere id o (elim r [
        | raises ↦ raises
        | returns (st', false) ↦ returns (st', false)
        | returns (st', true) ↦ returns (settle approved now admin id' st', true)
      ])
  unfolding get_order
  pay-stays id' _ ne raised = tt
  pay-stays id' _ ne (answered st' false same) = rw (same) h
  pay-stays id' _ ne (answered st' true same) =
      get_order-settle_other approved now admin id id' st' ne ∙ rw (same) h

  other_approved :
      (id' : Text) (o' : Order) (status : OrderStatus)
      → bytes_eq id' id ≡ false
      → get_order id' st ≡ some o'
      → o'.status ≡ status
      → StillThere id o (approve_order now id' admin st)
  unfolding approve_order
  other_approved id' o' approved ne found e = rw (found, e, approve_order) h
  other_approved id' o' rejected ne found e = rw (found, e, approve_order) h
  other_approved id' o' pending ne found e =
      rw (found, e, approve_order)
        (pay-stays id' _ ne (
          extend_subscription-Paid now o'.user_id (plan_days o'.plan_id) o'.plan_id
            (codes "approved_" ++ id') o'.amount o'.currency (codes "admin_manual") st))

  -- No approval changes an order that is settled.
  pub approve_order-stays : (id' : Text) → StillThere id o (approve_order now id' admin st)
  unfolding approve_order
  approve_order-stays id' = elim (Bool-cases (bytes_eq id' id)) [
    | inl y ↦ rw (bytes_eq→eq id' id y, (settled-stays id st o h done now admin).0) h
    | inr ne ↦ elim (Option-cases (get_order id' st)) [
      | inl n ↦ rw (n, approve_order) h
      | inr (o', found) ↦ other_approved id' o' o'.status ne found refl
    ]
  ]

  other_rejected :
      (id' : Text) (o' : Order) (status : OrderStatus)
      → bytes_eq id' id ≡ false
      → get_order id' st ≡ some o'
      → o'.status ≡ status
      → get_order id (reject_order now id' admin st).0 ≡ some o
  unfolding reject_order
  other_rejected id' o' approved ne found e = rw (found, e, reject_order) h
  other_rejected id' o' rejected ne found e = rw (found, e, reject_order) h
  other_rejected id' o' pending ne found e =
      rw (found, e, reject_order) (get_order-settle_other rejected now admin id id' st ne ∙ h)

  -- Nor does a rejection.
  pub reject_order-stays : (id' : Text) → get_order id (reject_order now id' admin st).0 ≡ some o
  unfolding reject_order
  reject_order-stays id' = elim (Bool-cases (bytes_eq id' id)) [
    | inl y ↦ rw (bytes_eq→eq id' id y, (settled-stays id st o h done now admin).1) h
    | inr ne ↦ elim (Option-cases (get_order id' st)) [
      | inl n ↦ rw (n, reject_order) h
      | inr (o', found) ↦ other_rejected id' o' o'.status ne found refl
    ]
  ]
