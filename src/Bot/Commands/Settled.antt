-- ===== src/Bot/Commands/Settled.antt =====
-- Settled orders in tools/telegram_bot/bot.py: they stay as they are whatever updates come in.
use aegs_global.Prelude.{ℕ, ◌≡◌, Option, none, some, List, [], ◌∷◌}
use aegs_global.Crypto.{Crypto}
use aegs_global.Bot.State.{Text, Order}
use aegs_global.Bot.Commands.{Env, BotState, is_admin, register_owner}
use aegs_global.Bot.Commands.Words.{strip}
use aegs_global.Bot.Commands.Callbacks.{
  Button, main_menu_button, status_button, buy_menu_button, select_plan_button, submit_order_button,
  approve_button, reject_button, check_order_button, trial_button, get_key_button, downloads_button,
  support_button, about_button, admin_panel_button, unknown_button, button_of, press,
  process_callback,
}
use aegs_global.Bot.Commands.Updates.{
  Command, start_command, status_command, buy_command, key_command, trial_command, apk_command,
  create_key_command, broadcast_command, admin_command, promo_command, other_command, command_of,
  handle_create_key, obey, process_message, Update, message, callback_query, other_update,
  process_update,
}
use aegs_global.Bot.Commands.Updates.{poll}
use aegs_global.Bot.Orders.{get_order}
use aegs_global.Bot.Orders.Stays.{Settled}
use aegs_global.Prelude.{◌+◌}
use aegs_global.Bot.Commands.Kept.{
  Holds, is_admin-store, register_owner-store, keep, guarded, handle_start-Holds,
  handle_broadcast-Holds, handle_admin_panel-Holds, handle_promo-Holds, handle_other_text-Holds,
  submit_order-Holds, admin_approve-Holds, admin_reject-Holds, handle_create_manual_key-Holds,
}

module _ (id : Text) (o : Order) (done : Settled o) where
  module _ (c : Crypto) (env : Env) (chat : ℕ) (un : Option Text) (fn : Text) (s : BotState)
      (h : Holds id o done s) where
    handle_create_key-Holds : (t : Text) → Holds id o done (handle_create_key c env chat un t s).0
    unfolding handle_create_key
    handle_create_key-Holds t =
        let r = is_admin chat un s in
        let e = keep id o done c env chat un fn s h r (is_admin-store chat un s) in
        guarded id o done c env chat un fn s h r (is_admin-store chat un s) _ _
          (handle_create_manual_key-Holds id o done c env chat un fn r.1 e _ _ _)

    obey-Holds : (t : Text) (cmd : Command) → Holds id o done (obey c env chat un fn t cmd s).0
    unfolding obey
    obey-Holds t start_command = handle_start-Holds id o done c env chat un fn s h
    obey-Holds t status_command = h
    obey-Holds t buy_command = h
    obey-Holds t key_command = h
    obey-Holds t trial_command = h
    obey-Holds t apk_command = h
    obey-Holds t create_key_command = handle_create_key-Holds t
    obey-Holds t broadcast_command = handle_broadcast-Holds id o done c env chat un fn s h t
    obey-Holds t admin_command = handle_admin_panel-Holds id o done c env chat un fn s h none
    obey-Holds t promo_command = handle_promo-Holds id o done c env chat un fn s h t
    obey-Holds t other_command = handle_other_text-Holds id o done c env chat un fn s h

    press-Holds : (mid : ℕ) (b : Button) → Holds id o done (press c env chat mid un fn b s).0
    unfolding press
    press-Holds mid main_menu_button = handle_start-Holds id o done c env chat un fn s h
    press-Holds mid status_button = h
    press-Holds mid buy_menu_button = h
    press-Holds mid (select_plan_button p) = h
    press-Holds mid (submit_order_button p) =
        submit_order-Holds id o done c env chat un fn s h mid p
    press-Holds mid (approve_button id') =
        admin_approve-Holds id o done c env chat un fn s h mid id'
    press-Holds mid (reject_button id') = admin_reject-Holds id o done c env chat un fn s h mid id'
    press-Holds mid (check_order_button id') = h
    press-Holds mid trial_button = h
    press-Holds mid get_key_button = h
    press-Holds mid downloads_button = h
    press-Holds mid support_button = h
    press-Holds mid about_button = h
    press-Holds mid admin_panel_button =
        handle_admin_panel-Holds id o done c env chat un fn s h (some mid)
    press-Holds mid unknown_button = h

  register_owner-Holds :
      (chat : ℕ) (un : Option Text) (s : BotState)
      → Holds id o done s
      → Holds id o done (register_owner chat un s)
  register_owner-Holds chat un s h = rw (register_owner-store chat un s) h

  process_update-Holds :
      (c : Crypto) (env : Env) (u : Update) (s : BotState)
      → Holds id o done s
      → Holds id o done (process_update c env u s).0
  unfolding process_update process_message process_callback
  process_update-Holds c env (message chat un fn t) s h =
      obey-Holds c env chat un fn _ (register_owner-Holds chat un s h) (strip t)
        (command_of (strip t))
  process_update-Holds c env (callback_query cb chat mid un fn t) s h =
      press-Holds c env chat un fn _ (register_owner-Holds chat un s h) mid (button_of t)
  process_update-Holds c env other_update s h = h

-- An order that is approved or rejected stays in the books exactly as it is, whatever updates come in
-- after it, in whatever order and from whomever, administrators included: neither its status, nor its
-- buyer, its plan or its amount ever changes.
pub poll-Settled :
    (c : Crypto) (us : List (Env × ℕ × Update)) (offset : ℕ) (s : BotState) (id : Text) (o : Order)
    → get_order id s.store ≡ some o
    → Settled o
    → get_order id (poll c us offset s).1.store ≡ some o
unfolding poll
poll-Settled c [] offset s id o h done = h
poll-Settled c ((env, n, u) ∷ us) offset s id o h done =
    poll-Settled c us (n + 1) (process_update c env u s).0 id o
      (process_update-Holds id o done c env u s h) done
