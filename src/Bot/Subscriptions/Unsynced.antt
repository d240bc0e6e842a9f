-- ===== src/Bot/Subscriptions/Unsynced.antt =====
-- Payments in tools/telegram_bot/database.py while the VPN server's database does not take the write.
use aegs_global.Prelude.{ℕ, ◌<◌, ◌≡◌, refl, true, false, some, arith, exists}
use aegs_global.Bot.State.{Text, User, Payment, locked, Store, returns}
use aegs_global.Bot.Subscriptions.{new_expiry, server_name, is_paid, extend_subscription}
use aegs_global.Bot.Subscriptions.Laws.{
  new_expiry-le, status-renewed, after_payment, after_payment-row,
}
use aegs_global.Bot.Sync.{sync_add_user_to_server}
use aegs_global.Bot.Users.{get_user, update_user, check_subscription_status}

-- The subscription counts as active after a payment, whatever became of the key.
pub after_payment-active :
    (now id : ℕ) (name : Text) (paid : Payment) (u : User) (until : ℕ) (st : Store)
    → get_user id st ≡ some u
    → 0 < paid.days_added
    → new_expiry now u.sub_expires_at paid.days_added ≡ some until
    → (check_subscription_status now id (after_payment id name paid u until st)).is_active ≡ true
after_payment-active now id name paid u until st h pos e =
    let late = new_expiry-le now u.sub_expires_at paid.days_added until e in
    status-renewed now id until (after_payment id name paid u until st) u
      (after_payment-row now id name paid u until st h) (omega arith)

-- A payment of at least one day for a user who is there, with a new id and an end within the calendar,
-- while the VPN server's database can be opened and refuses writes: the call succeeds all the same and
-- the subscription counts as active, but the table of the VPN server is exactly as it was.
pub extend_subscription_unsynced :
    (now id days : ℕ) (plan_id payment_id : Text) (amount : ℕ) (currency provider : Text)
    (st : Store) (u : User) (until : ℕ)
    → get_user id st ≡ some u
    → new_expiry now u.sub_expires_at days ≡ some until
    → exists (is_paid payment_id) st.payments ≡ false
    → 0 < days
    → st.server_db ≡ locked
    → (st' : Store) × (extend_subscription now id days plan_id payment_id amount currency provider
          st
        ≡ returns (st', true))
      × ((check_subscription_status now id st').is_active ≡ true)
      × (st'.server_users ≡ st.server_users)
unfolding extend_subscription after_payment update_user sync_add_user_to_server
extend_subscription_unsynced now id days plan_id payment_id amount currency provider st u until h e
      fresh pos refuses =
    let paid : Payment = record {
      user_id = id;
      plan_id = plan_id;
      days_added = days;
      amount = amount;
      currency = currency;
      provider = provider;
      payment_id = payment_id;
    } in
    (
      after_payment id (server_name id u.username) paid u until st,
      simp (h, e, fresh, refuses, extend_subscription),
      after_payment-active now id (server_name id u.username) paid u until st h pos e,
      rw (refuses) refl,
    )
