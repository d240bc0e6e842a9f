-- ===== src/Bot/Commands/Handlers.antt =====
-- The handlers of tools/telegram_bot/bot.py that commands and buttons share. A handler that an
-- exception leaves has made the calls and the changes before it; `run_polling` goes on.
use aegs_global.Prelude.{
  ℕ, ◌+◌, Bool, Option, none, some, List, [], ◌∷◌, ◌++◌, length, if◌then◌else◌, bytes_eq,
}
use aegs_global.Crypto.{Crypto}
use aegs_global.Crypto.Labels.{codes}
use aegs_global.Bot.State.{Text, Store, returns, raises}
use aegs_global.Bot.Sync.{show_nat}
use aegs_global.Bot.Support.{get_admin_stats, create_manual_key, get_all_user_chat_ids}
use aegs_global.Bot.Users.{Status, get_user, get_or_create_user, check_subscription_status}
use aegs_global.Bot.Commands.{
  account_status, Message, welcome, buy_offer, plan_details, user_not_found, no_subscription,
  downloads_text, support_text, about_text, key_caption, manual_key_caption, admin_denied,
  nobody_to_tell, broadcast_begins, update_text, broadcast_done, admin_panel, sending_apk,
  apk_caption, apk_link, Call, send_message, send_photo, send_document, Env, BotState, edit_text,
  reply, is_admin, stored_name, get_main_keyboard,
}

unfoldable pub send_apk_file : Env → ℕ → List Call
send_apk_file env chat = elim env.apk [
  | none ↦ send_message chat apk_link ∷ []
  | some file ↦ send_message chat sending_apk ∷ send_document chat file apk_caption ∷ []
]

-- The user's row is made or brought up to date, and the owner's chat registered.
unfoldable pub handle_start :
    Crypto → Env → ℕ → Option Text → Text → BotState → BotState × List Call
unfolding is_admin get_main_keyboard
handle_start c env chat username first_name s =
    let (st, u) = get_or_create_user c chat username first_name env.token s.store in
    let status = check_subscription_status env.now chat st in
    let (is_adm, s') = is_admin chat username (record s { store = st }) in
    let (button, s'') = get_main_keyboard chat s' in
    (s'', send_message chat (welcome chat status button) ∷ [])

-- `status['key_id']`: no dictionary that `check_subscription_status` returns has the key.
abbrev pub key_id_of : Status → Option Text
key_id_of status = none

-- The missing key raises KeyError while the text is made, and nothing is sent.
unfoldable pub handle_status : Env → Store → ℕ → Option ℕ → List Call
unfolding reply
handle_status env st chat mid =
    let status = check_subscription_status env.now chat st in
    elim (key_id_of status) [
      | none ↦ []
      | some key ↦ reply env chat mid (account_status chat key status)
    ]

unfoldable pub handle_buy_menu : Env → ℕ → Option ℕ → List Call
unfolding reply
handle_buy_menu env chat mid = reply env chat mid buy_offer

-- The one plan of config.py.
abbrev pub is_plan : Text → Bool
is_plan id = bytes_eq id (codes "1_month")

unfoldable pub handle_select_plan : Env → ℕ → ℕ → Text → List Call
unfolding edit_text
handle_select_plan env chat mid plan_id =
    if is_plan plan_id then edit_text env chat mid plan_details else []

-- `aegs://HOST:PORT?token=TOKEN&proto=titan_quic&key_id=KEY`
unfoldable pub aegs_uri : Env → Text → Text → Text
unfolding show_nat
aegs_uri env token key_id =
    codes "aegs://"
    ++ (env.server_ip
        ++ (codes ":"
            ++ (show_nat env.server_port
                ++ (codes "?token=" ++ (token ++ (codes "&proto=titan_quic&key_id=" ++ key_id))))))

-- A key goes out under its picture, or alone where there is no picture.
unfoldable pub send_key : Env → ℕ → Text → Message → List Call
send_key env chat uri m =
    if env.has_picture uri then send_photo chat uri m ∷ [] else send_message chat m ∷ []

unfoldable pub handle_get_key : Env → Store → ℕ → List Call
unfolding aegs_uri send_key
handle_get_key env st chat =
    let status = check_subscription_status env.now chat st in
    elim (get_user chat st) [
      | none ↦ send_message chat user_not_found ∷ []
      | some u ↦
          (let uri = aegs_uri env u.aegs_token u.aegs_key_id in
            if status.is_active
            then send_key env chat uri (key_caption uri status.expires_at)
            else send_message chat no_subscription ∷ [])
    ]

unfoldable pub handle_downloads : Env → ℕ → Option ℕ → List Call
unfolding reply
handle_downloads env chat mid = reply env chat mid downloads_text

unfoldable pub handle_support_menu : Env → ℕ → Option ℕ → List Call
unfolding reply
handle_support_menu env chat mid = reply env chat mid support_text

unfoldable pub handle_about_proto : Env → ℕ → Option ℕ → List Call
unfolding reply
handle_about_proto env chat mid = reply env chat mid about_text

unfoldable pub handle_create_manual_key :
    Crypto → Env → ℕ → ℕ → ℕ → Text → BotState → BotState × List Call
unfolding aegs_uri send_key
handle_create_manual_key c env chat days speed note s =
    elim (create_manual_key c env.now env.token days speed note chat s.store) [
      | raises ↦ (s, [])
      | returns (st, none) ↦ (record s { store = st }, [])
      | returns (st, some k) ↦
          (let uri = aegs_uri env k.token k.key_id ++ (codes "&speed=" ++ show_nat speed) in
            (
              record s { store = st },
              send_key env chat uri (manual_key_caption uri days speed k.expires_at note),
            ))
    ]

-- The messages to the users, and how many of them the interface took and refused.
unfoldable pub broadcast : Env → Message → List ℕ → List Call
broadcast env m [] = []
broadcast env m (uid ∷ uids) = send_message uid m ∷ broadcast env m uids

unfoldable pub delivered : Env → List ℕ → ℕ
delivered env [] = 0
delivered env (uid ∷ uids) = (if env.send_ok uid then 1 else 0) + delivered env uids

unfoldable pub refused : Env → List ℕ → ℕ
refused env [] = 0
refused env (uid ∷ uids) = (if env.send_ok uid then 0 else 1) + refused env uids

unfoldable pub broadcast_app_update : Env → Store → ℕ → Option Text → List Call
unfolding broadcast delivered refused
broadcast_app_update env st admin custom = elim (get_all_user_chat_ids st.users) [
  | [] ↦ send_message admin nobody_to_tell ∷ []
  | uid ∷ uids ↦
      send_message admin (broadcast_begins (length (uid ∷ uids)))
      ∷ (broadcast env (update_text custom) (uid ∷ uids)
          ++ (send_message admin
                (broadcast_done (delivered env (uid ∷ uids)) (refused env (uid ∷ uids)))
              ∷ []))
]

-- The name that is looked at is the one in the chat's row.
unfoldable pub handle_admin_panel : Env → ℕ → Option ℕ → BotState → BotState × List Call
unfolding is_admin stored_name reply
handle_admin_panel env chat mid s =
    let (ok, s') = is_admin chat (stored_name chat s.store) s in
    if ok
    then (s', reply env chat mid (admin_panel (get_admin_stats env.now s'.store)))
    else (s', send_message chat admin_denied ∷ [])
