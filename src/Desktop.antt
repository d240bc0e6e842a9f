-- ===== src/Desktop.antt =====
-- The window of aegs_app.py: what it holds and shows. Message boxes, colours and the layout are left
-- out.
pub mod Servers
pub mod Connect
pub mod Steps
pub mod Marks
pub mod Shows
pub mod Phases
pub mod Apart
pub mod Laws
pub mod Arrival
pub mod Split
mod Tests
use aegs_global.Prelude.{
  ℕ, Bool, true, false, Option, none, some, List, [], ◌∷◌, map, Bytes, bytes_eq,
}
use mathlib.Core.Option
use aegs_global.Crypto.Labels.{codes}
use aegs_global.Profiles.{Profile, get_active}
use aegs_global.Profiles.Load.{to_uri}

-- The texts of `lbl_status`.
pub data StatusText : Type 0 where
  disconnected connecting protected : StatusText

-- The texts of `btn_connect`.
pub data Caption : Type 0 where
  connect busy disconnect : Caption

-- What other threads hand to the window by `after(0, ...)`.
pub data Callback : Type 0 where
  on_connected : Callback
  telemetry : ℕ → ℕ → Callback

-- A line of the list of servers: the star, the name, the address and whose server it is.
pub record Row : Type 0 where
  pub star : Bool
  pub name : Bytes
  pub ip : Bytes
  pub port : ℕ
  pub service : Bool

pub record App : Type 0 where
  pub storage : List Profile
  pub is_connected : Bool
  pub bytes_rx : ℕ
  pub bytes_tx : ℕ
  pub lbl_status : StatusText
  pub btn_caption : Caption
  pub btn_enabled : Bool
  pub lbl_ping : Option ℕ
  -- the bits of the last second, and the two counters; `none` is the text with three zeros
  pub lbl_speed : Option (ℕ × ℕ × ℕ)
  pub lbl_active_server : Option (Bytes × Bytes × ℕ)
  pub srv_listbox : List Row
  pub txt_uri : Bytes
  pub var_split : Bool
  pub txt_bypass : Bytes
  -- the threads of `_run_connection` that still sleep, and what waits to be run by the window
  pub threads : ℕ
  pub after_queue : List Callback

abbrev pub list_row : Profile → Row
list_row p = record {
  star = p.is_active;
  name = p.name;
  ip = p.server_ip;
  port = p.port;
  service = bytes_eq p.mode (codes "service");
}

abbrev pub shown : Profile → Bytes × Bytes × ℕ
shown p = (p.name, p.server_ip, p.port)

unfoldable pub populate_server_list : App → App
populate_server_list a = record a { srv_listbox = map list_row a.storage }

unfoldable pub refresh_active_display : App → App
refresh_active_display a = record a { lbl_active_server = Option.map shown (get_active a.storage) }

unfoldable pub refresh_mobile_display : (List (Bytes × Bytes) → Bytes) → App → App
refresh_mobile_display urlencode a = elim (get_active a.storage) [
  | none ↦ a
  | some p ↦ record a { txt_uri = to_uri urlencode p }
]

abbrev default_exceptions : Bytes
default_exceptions =
    codes
      "sberbank.ru, tbank.ru, gosuslugi.ru, ya.ru, yandex.ru, vk.com, kinopoisk.ru, ozon.ru, wildberries.ru"

-- The list of exceptions that the window begins with.
unfoldable pub first_exceptions : Option Profile → Bytes
first_exceptions none = default_exceptions
first_exceptions (some p) = elim p.bypass_domains [ [] ↦ default_exceptions | c ∷ cs ↦ c ∷ cs ]

-- The window before its displays are filled.
unfoldable pub blank_app : List Profile → App
unfolding first_exceptions
blank_app ps = record {
  storage = ps;
  is_connected = false;
  bytes_rx = 0;
  bytes_tx = 0;
  lbl_status = disconnected;
  btn_caption = connect;
  btn_enabled = true;
  lbl_ping = none;
  lbl_speed = none;
  lbl_active_server = none;
  srv_listbox = [];
  txt_uri = [];
  var_split = true;
  txt_bypass = first_exceptions (get_active ps);
  threads = 0;
  after_queue = [];
}

-- `__init__`, over the profiles that the storage has loaded.
unfoldable pub new_app : (List (Bytes × Bytes) → Bytes) → List Profile → App
unfolding blank_app populate_server_list refresh_active_display refresh_mobile_display
new_app urlencode ps =
    refresh_mobile_display urlencode (populate_server_list (refresh_active_display (blank_app ps)))
