-- ===== src/Bot/Commands/Callbacks.antt =====
-- The buttons of tools/telegram_bot/bot.py: the second half of `process_update`.
use aegs_global.Prelude.{
  Bool, true, false, ℕ, true, false, Option, none, some, List, [], ◌∷◌, ◌++◌, map, if◌then◌else◌,
  bytes_eq,
}
use aegs_global.Crypto.{Crypto}
use aegs_global.Crypto.Labels.{codes}
use aegs_global.Bot.Orders.{create_order, get_order, approve_order, reject_order}
use aegs_global.Bot.State.{Result, Store, Text, Order, pending, approved, rejected, returns, raises}
use aegs_global.Bot.Commands.{
  trial_closed, approve_denied, reject_denied, order_sent, payment_confirmed, order_confirmed,
  approve_failed, new_order, order_refused, your_order_refused, order_missing, order_waits,
  order_is_approved, order_is_rejected, Call, send_message, answer_callback_query, Env, BotState,
  edit_text, is_admin, register_owner,
}
use aegs_global.Bot.Commands.Handlers.{
  handle_start, handle_status, handle_buy_menu, handle_select_plan, handle_get_key,
  handle_downloads, handle_support_menu, handle_about_proto, handle_admin_panel,
}
use aegs_global.Bot.Commands.Words.{after_prefix}

-- A buyer asks for an order. A plan that is not known has the price of the one plan and keeps its own
-- name. An order number that is taken raises.
unfoldable pub submit_order :
    Env → ℕ → ℕ → Option Text → Text → Text → BotState → BotState × List Call
unfolding edit_text
submit_order env chat mid username first_name plan_id s =
    elim (create_order env.order_number chat username first_name plan_id 100 (codes "RUB")
      s.store) [
        | raises ↦ (s, [])
        | returns (st, id) ↦ (
          record s { store = st },
          edit_text env chat mid (order_sent id)
              ++ map (λ adm. send_message adm (new_order id chat username first_name)) s.admin_ids,
        )
      ]

-- What goes out when an order has been approved: to the administrator, and to the buyer with the key.
unfoldable pub approval_calls : Env → BotState → ℕ → ℕ → Text → Order → List Call
unfolding edit_text handle_get_key
approval_calls env s chat mid id o =
    edit_text env chat mid (order_confirmed id)
    ++ (send_message o.user_id (payment_confirmed id) ∷ handle_get_key env s.store o.user_id)

-- What follows the call of `approve_order`. `order` is the row that the call has read, which is there
-- when it answers `True`; `s` is the state before it.
unfoldable pub after_approval :
    Env → ℕ → ℕ → Text → BotState → Result (Store × Bool) → BotState × List Call
after_approval env chat mid id s raises = (s, [])
after_approval env chat mid id s (returns (st, false)) =
    (record s { store = st }, send_message chat (approve_failed id) ∷ [])
after_approval env chat mid id s (returns (st, true)) = elim (get_order id s.store) [
  | none ↦ (record s { store = st }, send_message chat (approve_failed id) ∷ [])
  | some o ↦ (record s { store = st }, approval_calls env (record s { store = st }) chat mid id o)
]

unfoldable pub admin_approve : Env → ℕ → ℕ → Option Text → Text → BotState → BotState × List Call
unfolding is_admin after_approval
admin_approve env chat mid username id s =
    let (ok, s') = is_admin chat username s in
    if ok
    then after_approval env chat mid id s' (approve_order env.now id chat s'.store)
    else (s', send_message chat approve_denied ∷ [])

unfoldable pub admin_reject : Env → ℕ → ℕ → Option Text → Text → BotState → BotState × List Call
unfolding is_admin edit_text
admin_reject env chat mid username id s =
    let (ok, s') = is_admin chat username s in
    if ok
    then (let (st, done) = reject_order env.now id chat s'.store in
        (
          record s' { store = st },
          if done
              then elim (get_order id s'.store) [
                | none ↦ []
                | some o ↦
                    edit_text env chat mid (order_refused id)
                    ++ (send_message o.user_id (your_order_refused id) ∷ [])
              ]
              else [],
        ))
    else (s', send_message chat reject_denied ∷ [])

unfoldable pub check_order : ℕ → Text → BotState → List Call
check_order chat id s = elim (get_order id s.store) [
  | none ↦ send_message chat order_missing ∷ []
  | some o ↦ elim o.status [
    | pending ↦ send_message chat (order_waits id) ∷ []
    | approved ↦ send_message chat (order_is_approved id) ∷ []
    | rejected ↦ send_message chat (order_is_rejected id) ∷ []
  ]
]

-- What a button asks for, by its text: the prefixes are tried in the source's order.
pub data Button : Type 0 where
  main_menu_button status_button buy_menu_button : Button
  select_plan_button submit_order_button approve_button reject_button check_order_button :
      Text → Button
  trial_button get_key_button downloads_button support_button about_button admin_panel_button
        unknown_button :
      Button

unfoldable pub plain_button : Text → Button
plain_button t =
    if bytes_eq t (codes "activate_trial")
    then trial_button
    else if bytes_eq t (codes "get_key")
    then get_key_button
    else if bytes_eq t (codes "downloads")
    then downloads_button
    else if bytes_eq t (codes "support_menu")
    then support_button
    else if bytes_eq t (codes "about_proto")
    then about_button
    else if bytes_eq t (codes "admin_panel")
    then admin_panel_button
    else unknown_button

unfoldable pub prefixed : List (Text × (Text → Button)) → Text → Button
unfolding after_prefix plain_button
prefixed [] t = plain_button t
prefixed ((p, b) ∷ ps) t =
    let rest = prefixed ps t in elim (after_prefix p t) [ none ↦ rest | some r ↦ b r ]

unfoldable pub button_of : Text → Button
unfolding prefixed
button_of t =
    if bytes_eq t (codes "main_menu")
    then main_menu_button
    else if bytes_eq t (codes "status")
    then status_button
    else if bytes_eq t (codes "buy_menu")
    then buy_menu_button
    else prefixed
        ((codes "select_plan:", select_plan_button)
          ∷ (codes "submit_order:", submit_order_button)
          ∷ (codes "admin_approve:", approve_button)
          ∷ (codes "admin_reject:", reject_button)
          ∷ (codes "check_order:", check_order_button)
          ∷ [])
        t

unfoldable pub press :
    Crypto → Env → ℕ → ℕ → Option Text → Text → Button → BotState → BotState × List Call
press c env chat mid un fn main_menu_button s = handle_start c env chat un fn s
press c env chat mid un fn status_button s = (s, handle_status env s.store chat (some mid))
press c env chat mid un fn buy_menu_button s = (s, handle_buy_menu env chat (some mid))
press c env chat mid un fn (select_plan_button p) s = (s, handle_select_plan env chat mid p)
press c env chat mid un fn (submit_order_button p) s = submit_order env chat mid un fn p s
press c env chat mid un fn (approve_button id) s = admin_approve env chat mid un id s
press c env chat mid un fn (reject_button id) s = admin_reject env chat mid un id s
press c env chat mid un fn (check_order_button id) s = (s, check_order chat id s)
press c env chat mid un fn trial_button s = (s, send_message chat trial_closed ∷ [])
press c env chat mid un fn get_key_button s = (s, handle_get_key env s.store chat)
press c env chat mid un fn downloads_button s = (s, handle_downloads env chat (some mid))
press c env chat mid un fn support_button s = (s, handle_support_menu env chat (some mid))
press c env chat mid un fn about_button s = (s, handle_about_proto env chat (some mid))
press c env chat mid un fn admin_panel_button s = handle_admin_panel env chat (some mid) s
press c env chat mid un fn unknown_button s = (s, [])

-- The query is answered first, whatever the button.
unfoldable pub process_callback :
    Crypto → Env → Text → ℕ → ℕ → Option Text → Text → Text → BotState → BotState × List Call
unfolding button_of press register_owner
process_callback c env cb_id chat mid username first_name payload s =
    let (s', calls) =
      press c env chat mid username first_name (button_of payload)
        (register_owner chat username s) in
    (s', answer_callback_query cb_id ∷ calls)
