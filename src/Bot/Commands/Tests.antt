-- ===== src/Bot/Commands/Tests.antt =====
-- The bot of tools/telegram_bot/bot.py at concrete updates: one user, and one order that waits.
use aegs_global.Prelude.{◌*◌, ◌≡◌, refl, inl, true, false, none, some, [], ◌∷◌, ◌++◌, exists, find}
use aegs_global.Crypto.Labels.{codes}
use aegs_global.Crypto.Toy.{toy}
use aegs_global.Bot.State.{writable, User, Order, pending, approved, Store, stamp, day, add_days}
use aegs_global.Bot.Orders.{get_order}
use aegs_global.Bot.Subscriptions.{new_expiry}
use aegs_global.Bot.Sync.{has_key}
use aegs_global.Bot.Users.{get_user, check_subscription_status}
use aegs_global.Bot.Commands.{
  Env, BotState, edit_text, answer_callback_query, send_message, order_confirmed, payment_confirmed,
  key_caption, is_owner, stored_name,
}
use aegs_global.Bot.Commands.Approval.{Approvable, approve_button-delivers}
use aegs_global.Bot.Commands.Callbacks.{process_callback}
use aegs_global.Bot.Commands.Handlers.{aegs_uri, send_key}
use aegs_global.Bot.Commands.Laws.{Harmless}
use aegs_global.Bot.Commands.Outsiders.{OutsiderUpdate, process_update-Harmless}
use aegs_global.Bot.Commands.Settled.{poll-Settled}
use aegs_global.Bot.Commands.Updates.{Update, callback_query, process_update, poll}

abbrev eve : User
eve = record {
  user_id = 7;
  username = some (codes "eve");
  first_name = codes "Eve";
  aegs_token = 1 ∷ [];
  aegs_key_id = 2 ∷ [];
  sub_expires_at = none;
  is_active = false;
  trial_used = false;
  warned_24h = false;
  warned_72h = false;
  waiting_support_input = false;
}

abbrev waiting : Order
waiting = record {
  order_id = codes "ORD-1";
  user_id = 7;
  username = some (codes "eve");
  first_name = codes "Eve";
  plan_id = codes "1_month";
  amount = 100;
  currency = codes "RUB";
  status = pending;
  approved_at = none;
  approved_by = none;
}

abbrev bot_with : Order → BotState
bot_with o = record {
  store = record {
    users = eve ∷ [];
    payments = [];
    promocodes = [];
    promocode_uses = [];
    tickets = [];
    next_ticket = 1;
    manual_keys = [];
    orders = o ∷ [];
    server_users = [];
    server_db = writable;
  };
  admin_ids = 99 ∷ [];
}

abbrev env : Env
env = record {
  now = 0;
  token = 5 ∷ [];
  order_number = 2;
  edit_ok = λ chat mid. true;
  caption_ok = λ chat mid. true;
  send_ok = λ chat. true;
  has_picture = λ t. true;
  apk = none;
  server_ip = codes "10.0.0.1";
  server_port = 50001;
}

-- The user presses the administrator's button.
abbrev forged : Update
forged = callback_query [] 7 3 (some (codes "eve")) (codes "Eve") (codes "admin_approve:ORD-1")

forged-OutsiderUpdate : OutsiderUpdate forged (bot_with waiting)
unfolding OutsiderUpdate is_owner stored_name get_user find exists
forged-OutsiderUpdate = record { not_listed = refl; not_owner = refl; not_stored = refl }

process_update-Harmless_example :
    Harmless (bot_with waiting) (process_update toy env forged (bot_with waiting)).0
process_update-Harmless_example =
    process_update-Harmless toy env forged (bot_with waiting) forged-OutsiderUpdate

waiting-Approvable : Approvable 0 (codes "ORD-1") (bot_with waiting).store waiting eve (30 * day)
unfolding get_order get_user new_expiry find add_days exists
waiting-Approvable = record { found = refl; waits = refl; buyer = refl; ends = refl; unpaid = refl }

approve_button-delivers_example :
    let uri = aegs_uri env (1 ∷ []) (2 ∷ []) in
    (st' : Store) × (process_callback toy env
        (9 ∷ [])
        99
        3
        none
        (codes "B")
        (codes "admin_approve:" ++ codes "ORD-1")
        (bot_with waiting)
      ≡ (
        record (bot_with waiting) { store = st' },
        answer_callback_query (9 ∷ [])
            ∷ (edit_text env 99 3 (order_confirmed (codes "ORD-1"))
                ++ (send_message 7 (payment_confirmed (codes "ORD-1"))
                    ∷ send_key env 7 uri (key_caption uri (some (stamp (30 * day)))))),
      ))
    × (exists (has_key (2 ∷ [])) st'.server_users ≡ true)
    × ((check_subscription_status 0 7 st').is_active ≡ true)
unfolding exists
approve_button-delivers_example =
    approve_button-delivers toy env (9 ∷ []) 99 3 none (codes "B") (codes "ORD-1")
      (bot_with waiting) waiting eve (30 * day) refl waiting-Approvable refl

abbrev paid : Order
paid = record waiting { status = approved; approved_at = some 3; approved_by = some 99 }

paid_found : get_order (codes "ORD-1") (bot_with paid).store ≡ some paid
unfolding get_order find
paid_found = refl

-- The administrator presses the other button under an order that is approved.
poll-Settled_example :
    get_order
      (codes "ORD-1")
      (poll toy
        ((env, 1, callback_query [] 99 3 none (codes "B") (codes "admin_reject:ORD-1")) ∷ [])
        0
        (bot_with paid)).1.store
    ≡ some paid
poll-Settled_example =
    poll-Settled toy
      ((env, 1, callback_query [] 99 3 none (codes "B") (codes "admin_reject:ORD-1")) ∷ []) 0
      (bot_with paid) (codes "ORD-1") paid paid_found (inl refl)
