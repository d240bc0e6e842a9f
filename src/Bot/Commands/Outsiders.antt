-- ===== src/Bot/Commands/Outsiders.antt =====
-- What an update of somebody who is not an administrator does in tools/telegram_bot/bot.py.
use aegs_global.Prelude.{
  ℕ, ◌≡◌, refl, ap, ◌∙◌, Bool, false, Option, none, some, ◌++◌, exists, Option-cases, Bool-cases,
  inl, inr,
}
use aegs_global.Crypto.{Crypto}
use aegs_global.Crypto.Labels.{codes}
use aegs_global.Bot.State.{Text, Store, stamp}
use aegs_global.Bot.Orders.{is_order, create_order}
use aegs_global.Bot.Promocodes.{normalise, prolonged}
use aegs_global.Bot.Promocodes.Laws.{Redemption, refused, redeemed, apply_promocode_lem}
use aegs_global.Bot.Sync.{show_nat}
use aegs_global.Bot.Users.{get_or_create_user}
use aegs_global.Bot.Commands.{Env, BotState, is_owner, is_admin, stored_name, get_main_keyboard}
use aegs_global.Bot.Commands.Handlers.{handle_start, handle_admin_panel}
use aegs_global.Bot.Commands.Words.{strip, after_word}
use aegs_global.Bot.Commands.Callbacks.{
  submit_order, admin_approve, admin_reject, Button, main_menu_button, status_button,
  buy_menu_button, select_plan_button, submit_order_button, approve_button, reject_button,
  check_order_button, trial_button, get_key_button, downloads_button, support_button, about_button,
  admin_panel_button, unknown_button, button_of, press, process_callback,
}
use aegs_global.Bot.Commands.Updates.{
  Command, start_command, status_command, buy_command, key_command, trial_command, apk_command,
  create_key_command, broadcast_command, admin_command, promo_command, other_command, command_of,
  handle_create_key, handle_broadcast, handle_promo, handle_other_text, obey, process_message,
  Update, message, callback_query, other_update, process_update,
}
use aegs_global.Bot.Commands.Laws.{
  one_more, Harmless, nothing, Outsider, is_admin-no, get_main_keyboard-no, stored_name-some,
  register_owner-no, with_books, stored_name-get_or_create, get_or_create-SameBooks,
}

module _ (c : Crypto) (env : Env) (chat : ℕ) (un : Option Text) (fn : Text) (s : BotState)
    (out : Outsider chat un s) where
  refused_admin : is_admin chat un s ≡ (false, s)
  refused_admin = is_admin-no chat un s out.not_listed out.not_owner

  handle_start-Harmless : Harmless s (handle_start c env chat un fn s).0
  unfolding handle_start
  handle_start-Harmless =
      let st = (get_or_create_user c chat un fn env.token s.store).0 in
      let t = record s { store = st } in
      rw
        (
          is_admin-no chat un t out.not_listed out.not_owner,
          get_main_keyboard-no chat t out.not_listed (
              ap is_owner (stored_name-get_or_create c chat un fn env.token s.store)
              ∙ out.not_owner),
        )
        (with_books s st (get_or_create-SameBooks c chat un fn env.token s.store))

  handle_admin_panel-Harmless : (mid : Option ℕ) → Harmless s (handle_admin_panel env chat mid s).0
  unfolding handle_admin_panel
  handle_admin_panel-Harmless mid =
      rw (is_admin-no chat (stored_name chat s.store) s out.not_listed out.not_stored) (nothing s)

  handle_other_text-Harmless : Harmless s (handle_other_text chat s).0
  unfolding handle_other_text
  handle_other_text-Harmless =
      rw (get_main_keyboard-no chat s out.not_listed out.not_stored) (nothing s)

  handle_create_key-Harmless : (t : Text) → Harmless s (handle_create_key c env chat un t s).0
  unfolding handle_create_key
  handle_create_key-Harmless t = rw (refused_admin) (nothing s)

  handle_broadcast-Harmless : (t : Text) → Harmless s (handle_broadcast env chat un t s).0
  unfolding handle_broadcast
  handle_broadcast-Harmless t = rw (refused_admin) (nothing s)

  admin_approve-Harmless : (mid : ℕ) (id : Text) → Harmless s (admin_approve env chat mid un id s).0
  unfolding admin_approve
  admin_approve-Harmless mid id = rw (refused_admin) (nothing s)

  admin_reject-Harmless : (mid : ℕ) (id : Text) → Harmless s (admin_reject env chat mid un id s).0
  unfolding admin_reject
  admin_reject-Harmless mid id = rw (refused_admin) (nothing s)

  submit_order-Harmless :
      (mid : ℕ) (plan : Text) → Harmless s (submit_order env chat mid un fn plan s).0
  unfolding submit_order create_order
  submit_order-Harmless mid plan =
      elim (Bool-cases
        (exists (is_order (codes "ORD-" ++ show_nat env.order_number)) s.store.orders)) [
          | inl y ↦ rw (y, submit_order) (nothing s)
          | inr n ↦
              rw (n, submit_order)
                (record {
                  admin_ids = refl;
                  payments = refl;
                  manual_keys = refl;
                  orders = one_more _ refl;
                })
        ]

  keyboard-Redemption :
      (code : Text) (r : Store × Bool)
      → Redemption env.now chat code s.store r
      → Harmless s (get_main_keyboard chat (record s { store = r.0 })).1
  keyboard-Redemption code _ refused =
      rw (get_main_keyboard-no chat s out.not_listed out.not_stored) (nothing s)
  keyboard-Redemption code _ (redeemed p u until st' h less new g e h' now_used g' books) =
      let name = stored_name-some chat st' (prolonged (stamp until) u) g' in
      let old = stored_name-some chat s.store u g in
      rw
        (get_main_keyboard-no chat (record s { store = st' }) out.not_listed
          (ap is_owner (cc (name, old)) ∙ out.not_stored))
        (with_books s st' books)

  handle_promo-Harmless : (t : Text) → Harmless s (handle_promo env chat t s).0
  unfolding handle_promo
  handle_promo-Harmless t = elim (Option-cases (after_word t)) [
    | inl n ↦ rw (n, handle_promo) (nothing s)
    | inr (code, h) ↦
        rw (h, handle_promo)
          (keyboard-Redemption (normalise code) _ (apply_promocode_lem env.now chat code s.store))
  ]

  obey-Harmless : (t : Text) (cmd : Command) → Harmless s (obey c env chat un fn t cmd s).0
  unfolding obey
  obey-Harmless t start_command = handle_start-Harmless
  obey-Harmless t status_command = nothing s
  obey-Harmless t buy_command = nothing s
  obey-Harmless t key_command = nothing s
  obey-Harmless t trial_command = nothing s
  obey-Harmless t apk_command = nothing s
  obey-Harmless t create_key_command = handle_create_key-Harmless t
  obey-Harmless t broadcast_command = handle_broadcast-Harmless t
  obey-Harmless t admin_command = handle_admin_panel-Harmless none
  obey-Harmless t promo_command = handle_promo-Harmless t
  obey-Harmless t other_command = handle_other_text-Harmless

  press-Harmless : (mid : ℕ) (b : Button) → Harmless s (press c env chat mid un fn b s).0
  unfolding press
  press-Harmless mid main_menu_button = handle_start-Harmless
  press-Harmless mid status_button = nothing s
  press-Harmless mid buy_menu_button = nothing s
  press-Harmless mid (select_plan_button p) = nothing s
  press-Harmless mid (submit_order_button p) = submit_order-Harmless mid p
  press-Harmless mid (approve_button id) = admin_approve-Harmless mid id
  press-Harmless mid (reject_button id) = admin_reject-Harmless mid id
  press-Harmless mid (check_order_button id) = nothing s
  press-Harmless mid trial_button = nothing s
  press-Harmless mid get_key_button = nothing s
  press-Harmless mid downloads_button = nothing s
  press-Harmless mid support_button = nothing s
  press-Harmless mid about_button = nothing s
  press-Harmless mid admin_panel_button = handle_admin_panel-Harmless (some mid)
  press-Harmless mid unknown_button = nothing s

-- The sender of an update and its chat are not the administrator's.
unfoldable pub OutsiderUpdate : Update → BotState → Type 0
OutsiderUpdate (message chat un fn t) s = Outsider chat un s
OutsiderUpdate (callback_query id chat mid un fn t) s = Outsider chat un s
OutsiderUpdate other_update s = Unit

-- Whatever somebody sends or presses, whose chat is not an administrator's and who does not have the
-- owner's name, nor a row with it: nobody becomes an administrator, no payment is added, no key is
-- made by hand, and of the orders none is changed; at most one new order is there, which waits.
pub process_update-Harmless :
    (c : Crypto) (env : Env) (u : Update) (s : BotState)
    → OutsiderUpdate u s
    → Harmless s (process_update c env u s).0
unfolding process_update process_message process_callback OutsiderUpdate
process_update-Harmless c env (message chat un fn t) s out =
    rw (register_owner-no chat un s out.not_owner)
      (obey-Harmless c env chat un fn s out (strip t) (command_of (strip t)))
process_update-Harmless c env (callback_query id chat mid un fn t) s out =
    rw (register_owner-no chat un s out.not_owner)
      (press-Harmless c env chat un fn s out mid (button_of t))
process_update-Harmless c env other_update s out = nothing s
