-- ===== src/Bot/Commands/Polled.antt =====
-- The updates of tools/telegram_bot/bot.py, as calls of its database one after the other.
use aegs_global.Prelude.{ℕ, ◌+◌, ◌≡◌, refl, sym, Option, none, some, List, [], ◌∷◌, exists}
use aegs_global.Bot.Access.Kept.{IsFresh}
use aegs_global.Bot.Access.Reach.{Reached, call, rejects, Reached-accepted}
use aegs_global.Bot.Commands.{Env, BotState, is_admin, register_owner}
use aegs_global.Bot.Commands.Callbacks.{
  Button, main_menu_button, status_button, buy_menu_button, select_plan_button, submit_order_button,
  approve_button, reject_button, check_order_button, trial_button, get_key_button, downloads_button,
  support_button, about_button, admin_panel_button, unknown_button, button_of, press,
  process_callback, admin_approve, admin_reject,
}
use aegs_global.Bot.Commands.Kept.{is_admin-store, register_owner-store}
use aegs_global.Bot.Commands.Updates.{
  Command, start_command, status_command, buy_command, key_command, trial_command, apk_command,
  create_key_command, broadcast_command, admin_command, promo_command, other_command, command_of,
  handle_create_key, obey, process_message, Update, message, callback_query, other_update,
  process_update, poll,
}
use aegs_global.Bot.Commands.Words.{strip}
use aegs_global.Bot.Orders.{approve_order, reject_order}
use aegs_global.Bot.State.{Text, User}
use aegs_global.Bot.Sync.{has_key, compute_key_id}
use aegs_global.Bot.Users.{get_user}
use aegs_global.Crypto.{Crypto}
use mathlib.Core.Path.{subst}
use aegs_global.Bot.Commands.Served.{
  IsServed, kept, guarded, asked, handle_start-IsServed, handle_admin_panel-IsServed,
  handle_create_manual_key-IsServed, handle_broadcast-IsServed, submit_order-IsServed,
  handle_promo-IsServed, handle_other_text-IsServed, after_approval-IsServed,
}

module _ (c : Crypto) where
  module _ (env : Env) (chat : ℕ) (un : Option Text) (fn : Text) (s : BotState)
      (h : IsServed c s) where
    admin_approve-IsServed :
        (mid : ℕ) (id : Text) → IsServed c (admin_approve env chat mid un id s).0
    unfolding admin_approve
    admin_approve-IsServed mid id =
        let r = is_admin chat un s in
        let k = asked c env chat un fn s h in
        guarded c s h r _ _ (is_admin-store chat un s) (
          after_approval-IsServed c env chat un fn r.1 k mid id
            (approve_order env.now id chat r.1.store) refl)

    admin_reject-IsServed : (mid : ℕ) (id : Text) → IsServed c (admin_reject env chat mid un id s).0
    unfolding admin_reject
    admin_reject-IsServed mid id =
        let r = is_admin chat un s in
        guarded c s h r _ _ (is_admin-store chat un s) (
          call r.1.store (reject_order env.now id chat r.1.store).0 (asked c env chat un fn s h)
            (rejects env.now id chat))

    module _ (fresh : IsFresh (compute_key_id c env.token) s.store) where
      handle_create_key-IsServed : (t : Text) → IsServed c (handle_create_key c env chat un t s).0
      unfolding handle_create_key
      handle_create_key-IsServed t =
          let r = is_admin chat un s in
          let e = is_admin-store chat un s in
          guarded c s h r _ _ e (
            handle_create_manual_key-IsServed c env chat un fn r.1 (asked c env chat un fn s h) _ _
              _ (subst (IsFresh (compute_key_id c env.token)) (sym e) fresh))

      obey-IsServed : (t : Text) (cmd : Command) → IsServed c (obey c env chat un fn t cmd s).0
      unfolding obey
      obey-IsServed t start_command = handle_start-IsServed c env chat un fn s h fresh
      obey-IsServed t status_command = h
      obey-IsServed t buy_command = h
      obey-IsServed t key_command = h
      obey-IsServed t trial_command = h
      obey-IsServed t apk_command = h
      obey-IsServed t create_key_command = handle_create_key-IsServed t
      obey-IsServed t broadcast_command = handle_broadcast-IsServed c env chat un fn s h t
      obey-IsServed t admin_command = handle_admin_panel-IsServed c env chat un fn s h none
      obey-IsServed t promo_command = handle_promo-IsServed c env chat un fn s h t
      obey-IsServed t other_command = handle_other_text-IsServed c env chat un fn s h

      press-IsServed : (mid : ℕ) (b : Button) → IsServed c (press c env chat mid un fn b s).0
      unfolding press
      press-IsServed mid main_menu_button = handle_start-IsServed c env chat un fn s h fresh
      press-IsServed mid status_button = h
      press-IsServed mid buy_menu_button = h
      press-IsServed mid (select_plan_button p) = h
      press-IsServed mid (submit_order_button p) = submit_order-IsServed c env chat un fn s h mid p
      press-IsServed mid (approve_button id) = admin_approve-IsServed mid id
      press-IsServed mid (reject_button id) = admin_reject-IsServed mid id
      press-IsServed mid (check_order_button id) = h
      press-IsServed mid trial_button = h
      press-IsServed mid get_key_button = h
      press-IsServed mid downloads_button = h
      press-IsServed mid support_button = h
      press-IsServed mid about_button = h
      press-IsServed mid admin_panel_button =
          handle_admin_panel-IsServed c env chat un fn s h (some mid)
      press-IsServed mid unknown_button = h

  process_update-IsServed :
      (env : Env) (u : Update) (s : BotState)
      → IsFresh (compute_key_id c env.token) s.store
      → IsServed c s
      → IsServed c (process_update c env u s).0
  unfolding process_update process_message process_callback
  process_update-IsServed env (message chat un fn t) s fresh h =
      let e = register_owner-store chat un s in
      obey-IsServed env chat un fn (register_owner chat un s)
        (kept c s (register_owner chat un s) e h)
        (subst (IsFresh (compute_key_id c env.token)) (sym e) fresh) (strip t)
        (command_of (strip t))
  process_update-IsServed env (callback_query cb chat mid un fn t) s fresh h =
      let e = register_owner-store chat un s in
      press-IsServed env chat un fn (register_owner chat un s)
        (kept c s (register_owner chat un s) e h)
        (subst (IsFresh (compute_key_id c env.token)) (sym e) fresh) mid (button_of t)
  process_update-IsServed env other_update s fresh h = h

  -- The token that each update draws, if it draws one, gives a key that nobody has by then.
  abbrev pub DrawsFresh : List (Env × ℕ × Update) → BotState → Type 0
  DrawsFresh [] s = Unit {0}
  DrawsFresh ((env, n, u) ∷ us) s =
      IsFresh (compute_key_id c env.token) s.store × DrawsFresh us (process_update c env u s).0

  poll-IsServed :
      (us : List (Env × ℕ × Update)) (offset : ℕ) (s : BotState)
      → DrawsFresh us s
      → IsServed c s
      → IsServed c (poll c us offset s).1
  unfolding poll
  poll-IsServed [] offset s fresh h = h
  poll-IsServed ((env, n, u) ∷ us) offset s (now, later) h =
      poll-IsServed us (n + 1) (process_update c env u s).0 later
        (process_update-IsServed env u s now h)

  -- Whatever updates come in, in whatever order and from whomever, over tables that calls of the
  -- database have made, while the VPN server's database takes every write and each token that is drawn
  -- gives a key that nobody has: the table of the VPN server then holds the key of a user just while
  -- the user is active.
  pub poll-accepted :
      (us : List (Env × ℕ × Update)) (offset : ℕ) (s : BotState)
      → Reached c s.store
      → DrawsFresh us s
      → (id : ℕ) (u : User) → get_user id (poll c us offset s).1.store ≡ some u
      → exists (has_key u.aegs_key_id) (poll c us offset s).1.store.server_users ≡ u.is_active
  poll-accepted us offset s made fresh =
      Reached-accepted c (poll c us offset s).1.store (poll-IsServed us offset s fresh made)
