-- ===== src/Bot/Commands.antt =====
-- tools/telegram_bot/bot.py: the state of the bot, the calls of the Telegram interface that it makes,
-- and who is an administrator.
-- A message is named for its text, with what the text shows; the number of a chat is not negative.
pub mod Words
pub mod Numbers
pub mod Handlers
pub mod Callbacks
pub mod Updates
pub mod Laws
pub mod Outsiders
pub mod Approval
pub mod Kept
pub mod Settled
pub mod Served
pub mod Polled
mod Tests
use aegs_global.Prelude.{
  ℕ, ◌+◌, ◌-◌, Bool, true, false, ◌&&◌, ◌||◌, Option, none, some, List, [], ◌∷◌, ◌++◌, leb, ◌==◌,
  map, if◌then◌else◌, bytes_eq, exists, Bytes,
}
use aegs_global.Bot.State.{Text, User, Store}
use aegs_global.Bot.Support.{AdminStats}
use aegs_global.Bot.Users.{Status, get_user}
use aegs_global.Crypto.Labels.{codes}

pub data Message : Type 0 where
  -- The flag of a message with the main keyboard says whether it has the administrator's button.
  welcome : ℕ → Status → Bool → Message
  main_menu : Bool → Message
  buy_offer plan_details user_not_found no_subscription : Message
  downloads_text support_text about_text trial_closed : Message
  account_status : ℕ → Text → Status → Message
  key_caption : Text → Option ℕ → Message
  -- The link, the days, the speed, the end and the note.
  manual_key_caption : Text → ℕ → ℕ → ℕ → Text → Message
  create_denied broadcast_denied admin_denied approve_denied reject_denied : Message
  nobody_to_tell : Message
  broadcast_begins : ℕ → Message
  update_text : Option Text → Message
  broadcast_done : ℕ → ℕ → Message
  admin_panel : AdminStats → Message
  promo_answer : Bool → Bool → Message
  promo_format : Message
  order_sent payment_confirmed order_confirmed approve_failed : Text → Message
  -- The order, the buyer, and the buyer's names.
  new_order : Text → ℕ → Option Text → Text → Message
  order_refused your_order_refused : Text → Message
  order_missing : Message
  order_waits order_is_approved order_is_rejected : Text → Message
  sending_apk apk_caption apk_link : Message

-- A call of the interface.
pub data Call : Type 0 where
  send_message : ℕ → Message → Call
  edit_message_text edit_message_caption : ℕ → ℕ → Message → Call
  -- The picture is the code of a text.
  send_photo : ℕ → Text → Message → Call
  send_document : ℕ → Bytes → Message → Call
  answer_callback_query : Text → Call

-- What the bot reads while it handles an update: the clock, the token and the order number that it
-- draws, the answers of the interface, whether the picture of a text can be made, the file of the
-- application, and config.py's address of the server.
pub record Env : Type 0 where
  pub now : ℕ
  pub token : Text
  pub order_number : ℕ
  pub edit_ok : ℕ → ℕ → Bool
  pub caption_ok : ℕ → ℕ → Bool
  pub send_ok : ℕ → Bool
  pub has_picture : Text → Bool
  pub apk : Option Bytes
  pub server_ip : Text
  pub server_port : ℕ

-- Both databases and `config.ADMIN_IDS`.
pub record BotState : Type 0 where
  pub store : Store
  pub admin_ids : List ℕ

-- An edit that fails becomes an edit of a caption, and that a new message.
unfoldable pub edit_text : Env → ℕ → ℕ → Message → List Call
edit_text env chat mid m =
    edit_message_text chat mid m
    ∷ (if env.edit_ok chat mid
        then []
        else edit_message_caption chat mid m
          ∷ (if env.caption_ok chat mid then [] else send_message chat m ∷ []))

-- The handlers that either edit the message under which the button is, or send a new one.
unfoldable pub reply : Env → ℕ → Option ℕ → Message → List Call
unfolding edit_text
reply env chat none m = send_message chat m ∷ []
reply env chat (some mid) m =
    if mid == 0 then send_message chat m ∷ [] else edit_text env chat mid m

-- `str.lower` on ASCII and Russian letters, and `lstrip("@")`.
abbrev pub lower_char : ℕ → ℕ
lower_char c = if leb 65 c && leb c 90 || leb 1040 c && leb c 1071 then c + 32 else c

abbrev pub lower : Text → Text
lower = map lower_char

abbrev pub lstrip_at : Text → Text
lstrip_at [] = []
lstrip_at (c ∷ cs) = let r = lstrip_at cs in if c == 64 then r else c ∷ cs

-- Is this the one name in `config.ADMIN_USERNAMES`?
unfoldable pub is_owner : Option Text → Bool
is_owner none = false
is_owner (some u) = bytes_eq (lstrip_at (lower u)) (codes "balbes_ls")

abbrev pub member : ℕ → List ℕ → Bool
member x = exists (λ y. y == x)

unfoldable pub register : ℕ → BotState → BotState
register chat s =
    if member chat s.admin_ids then s else record s { admin_ids = s.admin_ids ++ (chat ∷ []) }

-- The chat of the owner is registered when the name is seen.
unfoldable pub is_admin : ℕ → Option Text → BotState → Bool × BotState
unfolding is_owner register
is_admin chat username s =
    if member chat s.admin_ids
    then (true, s)
    else if is_owner username
    then (true, register chat s)
    else (false, s)

-- `(user.get('username') or '') if user else ''`
unfoldable pub stored_name : ℕ → Store → Option Text
stored_name chat st = elim (get_user chat st) [ none ↦ some [] | some u ↦ u.username ]

-- The main keyboard: asking who may see the button can register the chat.
unfoldable pub get_main_keyboard : ℕ → BotState → Bool × BotState
unfolding is_admin stored_name
get_main_keyboard chat s = is_admin chat (stored_name chat s.store) s

-- What both kinds of update do first.
unfoldable pub register_owner : ℕ → Option Text → BotState → BotState
unfolding is_owner register
register_owner chat username s = if is_owner username then register chat s else s
