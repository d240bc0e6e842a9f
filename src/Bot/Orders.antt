-- ===== src/Bot/Orders.antt =====
-- Orders of tools/telegram_bot/database.py, which the administrator approves or rejects.
pub mod Laws
pub mod Stays
pub mod Stuck
use aegs_global.Prelude.{
  ℕ, ◌+◌, Bool, true, false, Option, none, some, List, [], ◌∷◌, ◌++◌, if◌then◌else◌, bytes_eq,
  exists, find, update_where,
}
use aegs_global.Bot.State.{
  Text, Order, OrderStatus, pending, approved, rejected, Store, Result, returns, raises, stamp,
}
use aegs_global.Bot.Subscriptions.{extend_subscription}
use aegs_global.Bot.Sync.{show_nat}
use aegs_global.Crypto.Labels.{codes}

abbrev pub is_order : Text → Order → Bool
is_order id o = bytes_eq o.order_id id

-- `n` is what `random.randint(10000, 99999)` draws; an id that is taken already raises.
unfoldable pub create_order :
    ℕ → ℕ → Option Text → Text → Text → ℕ → Text → Store → Result (Store × Text)
create_order n user username first_name plan_id amount currency st =
    let id = codes "ORD-" ++ show_nat n in
    if exists (is_order id) st.orders
    then raises
    else (let o : Order = record {
      order_id = id;
      user_id = user;
      username = username;
      first_name = first_name;
      plan_id = plan_id;
      amount = amount;
      currency = currency;
      status = pending;
      approved_at = none;
      approved_by = none;
    } in
        returns (record st { orders = st.orders ++ (o ∷ []) }, id))

unfoldable pub get_order : Text → Store → Option Order
get_order id st = find (is_order id) st.orders

-- The one plan of config.py has 30 days, and it also stands in for a plan that is not known.
abbrev pub plan_days : Text → ℕ
plan_days plan_id = 30

-- `UPDATE orders SET status = …, approved_at = …, approved_by = … WHERE order_id = ?`.
unfoldable pub settle : OrderStatus → ℕ → ℕ → Text → Store → Store
settle result now admin id st = record st {
  orders =
      update_where (is_order id)
        (λ o. record o {
          status = result;
          approved_at = some (stamp now);
          approved_by = some admin;
        })
        st.orders;
}

unfoldable pub approve_order : ℕ → Text → ℕ → Store → Result (Store × Bool)
approve_order now id admin st = elim (get_order id st) [
  | none ↦ returns (st, false)
  | some o ↦ elim o.status [
    | approved ↦ returns (st, false)
    | rejected ↦ returns (st, false)
    | pending ↦
        elim (extend_subscription now o.user_id (plan_days o.plan_id) o.plan_id
          (codes "approved_" ++ id) o.amount o.currency (codes "admin_manual") st) [
            | raises ↦ raises
            | returns (st', false) ↦ returns (st', false)
            | returns (st', true) ↦ returns (settle approved now admin id st', true)
          ]
  ]
]

unfoldable pub reject_order : ℕ → Text → ℕ → Store → Store × Bool
reject_order now id admin st = elim (get_order id st) [
  | none ↦ (st, false)
  | some o ↦ elim o.status [
    | approved ↦ (st, false)
    | rejected ↦ (st, false)
    | pending ↦ (settle rejected now admin id st, true)
  ]
]
