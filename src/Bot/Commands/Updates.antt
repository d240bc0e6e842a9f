-- ===== src/Bot/Commands/Updates.antt =====
-- The commands of tools/telegram_bot/bot.py, and its loop over the updates.
use aegs_global.Prelude.{
  ℕ, ◌+◌, ◌||◌, Option, none, some, List, [], ◌∷◌, ◌++◌, drop, get_elem?, if◌then◌else◌, bytes_eq,
}
use aegs_global.Crypto.{Crypto}
use aegs_global.Crypto.Labels.{codes}
use aegs_global.Bot.Promocodes.{apply_promocode}
use aegs_global.Bot.State.{Text}
use aegs_global.Bot.Commands.Callbacks.{process_callback}
use aegs_global.Bot.Commands.{
  main_menu, trial_closed, create_denied, broadcast_denied, promo_answer, promo_format, Call,
  send_message, Env, BotState, lower, is_admin, get_main_keyboard, register_owner,
}
use aegs_global.Bot.Commands.Handlers.{
  send_apk_file, handle_start, handle_status, handle_buy_menu, handle_get_key,
  handle_create_manual_key, broadcast_app_update, handle_admin_panel,
}
use aegs_global.Bot.Commands.Words.{strip, starts_with, words, after_word, int_or, join}

-- What a text asks for: the prefixes are tried in the source's order.
pub data Command : Type 0 where
  start_command status_command buy_command key_command trial_command apk_command create_key_command
        broadcast_command admin_command promo_command :
      Command
  other_command : Command

unfoldable pub command_of : Text → Command
unfolding starts_with
command_of t =
    if starts_with (codes "/start") t
    then start_command
    else if starts_with (codes "/status") t || bytes_eq (lower t) (codes "статус")
    then status_command
    else if starts_with (codes "/buy") t || bytes_eq (lower t) (codes "купить")
    then buy_command
    else if starts_with (codes "/key") t || bytes_eq (lower t) (codes "ключ")
    then key_command
    else if starts_with (codes "/trial") t
    then trial_command
    else if starts_with (codes "/apk") t
    then apk_command
    else if starts_with (codes "/create_key") t
    then create_key_command
    else if starts_with (codes "/broadcast_update") t
    then broadcast_command
    else if starts_with (codes "/admin") t
    then admin_command
    else if starts_with (codes "/promo") t
    then promo_command
    else other_command

-- `/create_key DAYS SPEED NOTE`, with 30 days and 940 megabits where no number is given.
unfoldable pub handle_create_key :
    Crypto → Env → ℕ → Option Text → Text → BotState → BotState × List Call
unfolding is_admin words int_or join handle_create_manual_key
handle_create_key c env chat username t s =
    let parts = words t in
    let days : ℕ = elim (get_elem? parts 1) [ none ↦ 30 | some p ↦ int_or 30 p ] in
    let speed : ℕ = elim (get_elem? parts 2) [ none ↦ 940 | some p ↦ int_or 940 p ] in
    let (ok, s') = is_admin chat username s in
    if ok
    then handle_create_manual_key c env chat days speed (join (drop 3 parts)) s'
    else (s', send_message chat create_denied ∷ [])

-- `custom or None`
abbrev or_none : Text → Option Text
or_none [] = none
or_none (x ∷ xs) = some (x ∷ xs)

unfoldable pub handle_broadcast : Env → ℕ → Option Text → Text → BotState → BotState × List Call
unfolding is_admin strip broadcast_app_update
handle_broadcast env chat username t s =
    let (ok, s') = is_admin chat username s in
    if ok
    then (s', broadcast_app_update env s'.store chat (or_none (strip (drop 17 t))))
    else (s', send_message chat broadcast_denied ∷ [])

unfoldable pub handle_promo : Env → ℕ → Text → BotState → BotState × List Call
unfolding after_word get_main_keyboard
handle_promo env chat t s = elim (after_word t) [
  | none ↦ (s, send_message chat promo_format ∷ [])
  | some code ↦
      (let (st, ok) = apply_promocode env.now chat code s.store in
        let (button, s') = get_main_keyboard chat (record s { store = st }) in
        (s', send_message chat (promo_answer ok button) ∷ []))
]

unfoldable pub handle_other_text : ℕ → BotState → BotState × List Call
unfolding get_main_keyboard
handle_other_text chat s =
    let (button, s') = get_main_keyboard chat s in (s', send_message chat (main_menu button) ∷ [])

unfoldable pub obey :
    Crypto → Env → ℕ → Option Text → Text → Text → Command → BotState → BotState × List Call
obey c env chat un fn t start_command s = handle_start c env chat un fn s
obey c env chat un fn t status_command s = (s, handle_status env s.store chat none)
obey c env chat un fn t buy_command s = (s, handle_buy_menu env chat none)
obey c env chat un fn t key_command s = (s, handle_get_key env s.store chat)
obey c env chat un fn t trial_command s = (s, send_message chat trial_closed ∷ [])
obey c env chat un fn t apk_command s = (s, send_apk_file env chat)
obey c env chat un fn t create_key_command s = handle_create_key c env chat un t s
obey c env chat un fn t broadcast_command s = handle_broadcast env chat un t s
obey c env chat un fn t admin_command s = handle_admin_panel env chat none s
obey c env chat un fn t promo_command s = handle_promo env chat t s
obey c env chat un fn t other_command s = handle_other_text chat s

unfoldable pub process_message :
    Crypto → Env → ℕ → Option Text → Text → Text → BotState → BotState × List Call
unfolding command_of obey strip register_owner
process_message c env chat username first_name raw s =
    let t = strip raw in
    obey c env chat username first_name t (command_of t) (register_owner chat username s)

-- An update: a message with its chat, the sender's names and its text; a button with the id of the
-- query, the chat, the message under which it is, the sender's names and its text; or another.
pub data Update : Type 0 where
  message : ℕ → Option Text → Text → Text → Update
  callback_query : Text → ℕ → ℕ → Option Text → Text → Text → Update
  other_update : Update

unfoldable pub process_update : Crypto → Env → Update → BotState → BotState × List Call
process_update c env (message chat un fn t) s = process_message c env chat un fn t s
process_update c env (callback_query id chat mid un fn t) s =
    process_callback c env id chat mid un fn t s
process_update c env other_update s = (s, [])

-- One answer of `getUpdates`, with what the bot reads during each update. The offset moves past an
-- update before it is handled, so that it is never asked for again.
unfoldable pub poll : Crypto → List (Env × ℕ × Update) → ℕ → BotState → ℕ × BotState × List Call
unfolding process_update
poll c [] offset s = (offset, s, [])
poll c ((env, id, u) ∷ us) offset s =
    let (s', calls) = process_update c env u s in
    let (offset', s'', more) = poll c us (id + 1) s' in (offset', s'', calls ++ more)
