-- ===== src/Bot/Subscriptions.antt =====
-- How a subscription is paid for and ended in tools/telegram_bot/database.py.
pub mod Laws
pub mod Unsynced
use aegs_global.Prelude.{
  ℕ, ◌+◌, ◌*◌, ◌/◌, Bool, true, false, Option, none, some, List, [], ◌∷◌, ◌++◌, ltb, if◌then◌else◌,
  bytes_eq, exists, update_where, ◌==◌,
}
use aegs_global.Bot.State.{
  Text, User, Payment, Store, Result, returns, raises, add_days, stamp, date_of,
}
use aegs_global.Bot.Sync.{show_nat, opens, sync_add_user_to_server, sync_remove_user_from_server}
use aegs_global.Bot.Users.{get_user, update_user, is_user}
use aegs_global.Crypto.Labels.{codes}

-- A running subscription is extended from its end, any other from now.
unfoldable pub new_expiry : ℕ → Option ℕ → ℕ → Option ℕ
new_expiry now none days = add_days now days
new_expiry now (some s) days =
    if ltb now (date_of s) then add_days (date_of s) days else add_days now days

-- `f"tg_{user_id}_{user.get('username') or 'user'}"`
unfoldable pub server_name : ℕ → Option Text → Text
server_name id username =
    codes "tg_"
    ++ (show_nat id
        ++ (codes "_" ++ (elim username [
          | none ↦ codes "user"
          | some [] ↦ codes "user"
          | some (x ∷ xs) ↦ x ∷ xs
        ])))

-- What the payment sets in the user's row.
unfoldable pub renewed : ℕ → User → User
renewed until u = record u {
  sub_expires_at = some until;
  is_active = true;
  warned_24h = false;
  warned_72h = false;
}

abbrev pub is_paid : Text → Payment → Bool
is_paid id p = bytes_eq p.payment_id id

-- The payment and the new date, in one transaction: a payment id that is there already is refused by
-- the UNIQUE column. The key then goes to the VPN server, and
-- whether that worked is not looked at; where the server's database cannot be opened, the exception is
-- caught and the call answers `False`, with the payment and the new end kept.
unfoldable pub extend_subscription :
    ℕ → ℕ → ℕ → Text → Text → ℕ → Text → Text → Store → Result (Store × Bool)
extend_subscription now id days plan_id payment_id amount currency provider st =
    elim (get_user id st) [
      | none ↦ returns (st, false)
      | some u ↦ elim (new_expiry now u.sub_expires_at days) [
        | none ↦ raises
        | some until ↦
            if exists (is_paid payment_id) st.payments
            then returns (st, false)
            else (let paid : Payment = record {
              user_id = id;
              plan_id = plan_id;
              days_added = days;
              amount = amount;
              currency = currency;
              provider = provider;
              payment_id = payment_id;
            } in
                returns (
                  sync_add_user_to_server (server_name id u.username) u.aegs_key_id u.aegs_token (
                      update_user id (renewed (stamp until))
                        (record st { payments = st.payments ++ (paid ∷ []) })),
                  opens st.server_db,
                ))
      ]
    ]

-- The row is switched off, and then every row of the VPN server with the user's key is deleted. Where
-- the server's database cannot be opened, an exception leaves the call and the row stays switched off.
unfoldable pub deactivate_user : ℕ → Store → Store
deactivate_user id st = elim (get_user id st) [
  | none ↦ st
  | some u ↦
      sync_remove_user_from_server u.aegs_key_id
        (update_user id (λ v. record v { is_active = false }) st)
]
