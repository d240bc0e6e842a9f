-- ===== src/Bot/Orders/Stuck.antt =====
-- Orders of tools/telegram_bot/database.py while the VPN server's database cannot be opened.
use aegs_global.Prelude.{
  ℕ, ◌≡◌, true, false, some, ◌++◌, arith, exists, exists-append, bytes_eq_refl,
}
use aegs_global.Bot.Orders.{get_order, approve_order}
use aegs_global.Bot.State.{
  Text, User, Payment, Order, pending, unreachable, ServerDb, Store, returns, stamp,
}
use aegs_global.Bot.Subscriptions.{new_expiry, server_name, renewed, is_paid, extend_subscription}
use aegs_global.Bot.Subscriptions.Laws.{after_payment, after_payment-row}
use aegs_global.Bot.Subscriptions.Unsynced.{after_payment-active}
use aegs_global.Bot.Sync.{sync_add_user_to_server}
use aegs_global.Bot.Users.{get_user, update_user, check_subscription_status}
use aegs_global.Crypto.Labels.{codes}

-- An order whose payment is in the books already cannot be approved.
paid-refused :
    (now : ℕ) (id : Text) (admin : ℕ) (st : Store) (o : Order) (v : User) (end until : ℕ)
    → get_order id st ≡ some o
    → o.status ≡ pending
    → get_user o.user_id st ≡ some (renewed end v)
    → new_expiry now (some end) 30 ≡ some until
    → exists (is_paid (codes "approved_" ++ id)) st.payments ≡ true
    → approve_order now id admin st ≡ returns (st, false)
unfolding approve_order extend_subscription renewed
paid-refused now id admin st o v end until found waits row e old =
    let pays : extend_subscription now o.user_id 30 o.plan_id (codes "approved_" ++ id) o.amount
          o.currency (codes "admin_manual") st
        ≡ returns (st, false) =
      simp (row, e, old, extend_subscription) in
    simp (found, waits, pays, approve_order)

-- A waiting order is approved whose buyer has a row, whose new end is within the calendar and which no
-- payment names, while the VPN server's database cannot be opened. The approval answers `False` and the
-- order waits on, but the payment is booked and the buyer's subscription counts as active; and a later
-- approval is refused at any time for which a new end can be computed, by any administrator, whatever
-- the VPN server's database does by then.
pub approve_order_stuck :
    (now : ℕ) (id : Text) (admin : ℕ) (st : Store) (o : Order) (u : User) (until : ℕ)
    (now' admin' until' : ℕ) (db : ServerDb)
    → get_order id st ≡ some o
    → o.status ≡ pending
    → get_user o.user_id st ≡ some u
    → new_expiry now u.sub_expires_at 30 ≡ some until
    → new_expiry now' (some (stamp until)) 30 ≡ some until'
    → exists (is_paid (codes "approved_" ++ id)) st.payments ≡ false
    → st.server_db ≡ unreachable
    → (st' : Store) × (approve_order now id admin st ≡ returns (st', false))
      × (get_order id st' ≡ some o)
      × ((check_subscription_status now o.user_id st').is_active ≡ true)
      × (approve_order now' id admin' (record st' { server_db = db })
          ≡ returns (record st' { server_db = db }, false))
unfolding approve_order extend_subscription after_payment update_user sync_add_user_to_server
    get_order get_user
approve_order_stuck now id admin st o u until now' admin' until' db found waits row e e' fresh
      down =
    let pid = codes "approved_" ++ id in
    let paid : Payment = record {
      user_id = o.user_id;
      plan_id = o.plan_id;
      days_added = 30;
      amount = o.amount;
      currency = o.currency;
      provider = codes "admin_manual";
      payment_id = pid;
    } in
    let name = server_name o.user_id u.username in
    let st' = after_payment o.user_id name paid u until st in
    let pays : extend_subscription now o.user_id 30 o.plan_id pid o.amount o.currency
          (codes "admin_manual") st
        ≡ returns (st', false) =
      simp (row, e, fresh, down, extend_subscription) in
    (
      st',
      simp (found, waits, pays, approve_order),
      found,
      after_payment-active now o.user_id name paid u until st row (omega arith) e,
      paid-refused now' id admin' (record st' { server_db = db }) o u (stamp until) until' found
          waits (after_payment-row now o.user_id name paid u until st row) e'
          (exists-append (is_paid pid) st.payments paid (bytes_eq_refl pid)),
    )
