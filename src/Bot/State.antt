-- ===== src/Bot/State.antt =====
-- The tables of tools/telegram_bot/database.py (`init_db`) and of aegs_sync.py
-- (`init_aegis_server_db`), the clock, and results.
-- A time is a number of microseconds since 1970. A stored date is a number of seconds: the columns
-- hold only what `strftime('%Y-%m-%d %H:%M:%S')` has written, a text of fixed width whose order is
-- that of the seconds, and `strptime` reads it back. An amount is a whole number of roubles.
use aegs_global.Prelude.{
  ℕ, ◌+◌, ◌*◌, ◌/◌, Bool, Option, none, some, List, Bytes, ltb, if◌then◌else◌,
}

abbrev pub Text : Type 0
Text = Bytes

pub record User : Type 0 where
  pub user_id : ℕ
  pub username : Option Text
  pub first_name : Text
  pub aegs_token : Text
  pub aegs_key_id : Text
  pub sub_expires_at : Option ℕ
  pub is_active : Bool
  pub trial_used : Bool
  pub warned_24h : Bool
  pub warned_72h : Bool
  pub waiting_support_input : Bool

pub record Payment : Type 0 where
  pub user_id : ℕ
  pub plan_id : Text
  pub days_added : ℕ
  pub amount : ℕ
  pub currency : Text
  pub provider : Text
  pub payment_id : Text

pub record Promocode : Type 0 where
  pub code : Text
  pub days : ℕ
  pub max_uses : ℕ
  pub used_count : ℕ

pub data TicketStatus : Type 0 where
  open_ticket closed : TicketStatus

pub record Ticket : Type 0 where
  pub ticket_id : ℕ
  pub user_id : ℕ
  pub username : Option Text
  pub question : Text
  pub reply : Option Text
  pub admin_id : Option ℕ
  pub status : TicketStatus
  pub answered_at : Option ℕ

pub data OrderStatus : Type 0 where
  pending approved rejected : OrderStatus

pub record Order : Type 0 where
  pub order_id : Text
  pub user_id : ℕ
  pub username : Option Text
  pub first_name : Text
  pub plan_id : Text
  pub amount : ℕ
  pub currency : Text
  pub status : OrderStatus
  pub approved_at : Option ℕ
  pub approved_by : Option ℕ

pub record ManualKey : Type 0 where
  pub key_id : Text
  pub token : Text
  pub days : ℕ
  pub speed_mbps : ℕ
  pub note : Text
  pub created_at : ℕ
  pub expires_at : ℕ
  pub created_by : ℕ

-- A row of the VPN server's table of users.
pub record ServerUser : Type 0 where
  pub username : Text
  pub aegis_key_id : Text
  pub aegis_token : Text

-- Both databases. `next_ticket` is the counter behind the tickets' AUTOINCREMENT.
-- What the VPN server's database does with a write of the bot: it takes it, it refuses it while it can
-- be opened, or it cannot be opened.
pub data ServerDb : Type 0 where
  writable locked unreachable : ServerDb

pub record Store : Type 0 where
  pub users : List User
  pub payments : List Payment
  pub promocodes : List Promocode
  pub promocode_uses : List (Text × ℕ)
  pub tickets : List Ticket
  pub next_ticket : ℕ
  pub manual_keys : List ManualKey
  pub orders : List Order
  pub server_users : List ServerUser
  pub server_db : ServerDb

-- A call returns a value, or an exception leaves it; then the store is as it was.
pub data Result {ℓ} (A : Type ℓ) : Type ℓ where
  returns : A → Result A
  raises : Result A

abbrev pub second : ℕ
second = 1000000

abbrev pub day : ℕ
day = 86400 * second

-- The first microsecond of the year 10000.
abbrev pub end_of_time : ℕ
end_of_time = 253402300800 * second

-- `t + timedelta(days=n)`; `none` is OverflowError.
unfoldable pub add_days : ℕ → ℕ → Option ℕ
add_days t n = if ltb (t + n * day) end_of_time then some (t + n * day) else none

-- `strftime` drops the microseconds.
abbrev pub stamp : ℕ → ℕ
stamp t = t / second

-- `strptime` of a stored date.
abbrev pub date_of : ℕ → ℕ
date_of s = s * second
