-- ===== src/Bot/Tests.antt =====
-- The bot's database at a concrete store: one user, one order, one code and one ticket.
use aegs_global.Prelude.{
  select, update_where, ℕ, ◌+◌, ◌*◌, ◌≡◌, refl, true, false, none, some, [], ◌∷◌, arith, exists,
  find,
}
use aegs_global.Bot.State.{
  writable, locked, unreachable, User, Promocode, Ticket, Order, pending, Store, returns, day,
  second, add_days,
}
use aegs_global.Bot.Orders.{get_order, approve_order}
use aegs_global.Bot.Orders.Stuck.{approve_order_stuck}
use aegs_global.Bot.Subscriptions.Unsynced.{extend_subscription_unsynced}
use aegs_global.Bot.Promocodes.{normalise, apply_promocode}
use aegs_global.Bot.Promocodes.Laws.{apply_promocode_once, apply_promocode-warned}
use aegs_global.Bot.Subscriptions.{deactivate_user, new_expiry, extend_subscription}
use aegs_global.Bot.Support.{get_ticket}
use aegs_global.Bot.Support.Laws.{asked}
use aegs_global.Bot.Sync.{sync_remove_user_from_server}
use aegs_global.Bot.Users.{
  get_expired_active_users, update_user, get_user, in_24h, warned, get_expiring_users,
  check_subscription_status,
}
use aegs_global.Bot.Worker.{check_expirations}
use aegs_global.Bot.Worker.Laws.{check_expirations_lem}

abbrev ann : User
ann = record {
  user_id = 7;
  username = none;
  first_name = 65 ∷ [];
  aegs_token = 1 ∷ [];
  aegs_key_id = 2 ∷ [];
  sub_expires_at = some 50;
  is_active = true;
  trial_used = false;
  warned_24h = true;
  warned_72h = false;
  waiting_support_input = false;
}

abbrev the_order : Order
the_order = record {
  order_id = 79 ∷ [];
  user_id = 7;
  username = none;
  first_name = 65 ∷ [];
  plan_id = 109 ∷ [];
  amount = 149;
  currency = 82 ∷ [];
  status = pending;
  approved_at = none;
  approved_by = none;
}

abbrev the_code : Promocode
the_code = record { code = 72 ∷ 73 ∷ []; days = 3; max_uses = 5; used_count = 0 }

abbrev the_ticket : Ticket
the_ticket = asked 1 7 none (63 ∷ [])

abbrev store : Store
store = record {
  users = ann ∷ [];
  payments = [];
  promocodes = the_code ∷ [];
  promocode_uses = [];
  tickets = the_ticket ∷ [];
  next_ticket = 2;
  manual_keys = [];
  orders = the_order ∷ [];
  server_users = record { username = 90 ∷ []; aegis_key_id = 2 ∷ []; aegis_token = 1 ∷ [] } ∷ [];
  server_db = writable;
}

abbrev noon : ℕ
noon = 100 * second

program : Unit {0}
unfolding get_user new_expiry add_days exists find get_order normalise get_ticket
program = tt

paid_until : ℕ
paid_until = noon + 30 * day

-- Another process holds the VPN server's database open for writing.
abbrev locked_store : Store
locked_store = record store { server_db = locked }

extend_subscription_unsynced_example :
    (st' : Store) × (extend_subscription noon 7 30 [] (80 ∷ []) 149 [] [] locked_store
      ≡ returns (st', true))
    × ((check_subscription_status noon 7 st').is_active ≡ true)
    × (st'.server_users ≡ locked_store.server_users)
unfolding program paid_until
extend_subscription_unsynced_example =
    extend_subscription_unsynced noon 7 30 [] (80 ∷ []) 149 [] [] locked_store ann paid_until refl
      refl refl (omega arith) refl

-- The directory of the VPN server's database is not there.
abbrev cut_off : Store
cut_off = record store { server_db = unreachable }

approve_order_stuck_example :
    (st' : Store) × (approve_order noon (79 ∷ []) 1 cut_off ≡ returns (st', false))
    × (get_order (79 ∷ []) st' ≡ some the_order)
    × ((check_subscription_status noon 7 st').is_active ≡ true)
    × (approve_order noon (79 ∷ []) 1 (record st' { server_db = writable })
        ≡ returns (record st' { server_db = writable }, false))
unfolding program paid_until
approve_order_stuck_example =
    approve_order_stuck noon (79 ∷ []) 1 cut_off the_order ann paid_until noon 1 (noon + 60 * day)
      writable refl refl refl refl refl refl refl

abbrev paid_once : Store
paid_once = record store {
  payments =
      record {
        user_id = 7;
        plan_id = [];
        days_added = 30;
        amount = 149;
        currency = [];
        provider = [];
        payment_id = 80 ∷ [];
      }
      ∷ [];
}

abbrev ended : User
ended = record ann { is_active = false }

is_ended : get_user 7 (check_expirations (λ u. true) (λ u. false) noon noon noon store) ≡ some ended
unfolding program check_expirations get_expired_active_users select get_expiring_users
    deactivate_user sync_remove_user_from_server update_user update_where
is_ended = refl

check_expirations_lem_example : ended.is_active ≡ false
check_expirations_lem_example =
    check_expirations_lem (λ u. true) (λ u. false) noon noon noon store refl 7 ended 50 is_ended
      refl (omega arith)

redeemed_store : Store
unfolding apply_promocode
redeemed_store = (apply_promocode noon 7 (32 ∷ 104 ∷ 105 ∷ []) store).0

has_redeemed : apply_promocode noon 7 (32 ∷ 104 ∷ 105 ∷ []) store ≡ (redeemed_store, true)
unfolding redeemed_store program
has_redeemed = refl

apply_promocode_once_example :
    apply_promocode noon 7 (72 ∷ 105 ∷ []) redeemed_store ≡ (redeemed_store, false)
unfolding program
apply_promocode_once_example =
    apply_promocode_once noon 7 (32 ∷ 104 ∷ 105 ∷ []) store redeemed_store has_redeemed noon
      (72 ∷ 105 ∷ []) refl

apply_promocode-warned_example :
    ((v : User) × (get_user 7 redeemed_store ≡ some v)
      × (v.is_active ≡ true)
      × (warned in_24h v ≡ true))
    × ((t lo hi : ℕ)
        → exists (warned in_24h) (get_expiring_users t lo hi in_24h redeemed_store) ≡ false)
unfolding program
apply_promocode-warned_example =
    apply_promocode-warned noon 7 (32 ∷ 104 ∷ 105 ∷ []) store redeemed_store ann in_24h has_redeemed
      refl refl
