-- ===== src/Bot/Users.antt =====
-- The users of tools/telegram_bot/database.py and the state of their subscriptions.
use aegs_global.Prelude.{
  ℕ, ◌+◌, ◌-◌, ◌*◌, ◌/◌, Bool, true, false, ◌&&◌, not, Option, none, some, List, [], ◌∷◌, ◌++◌, ltb,
  leb, ◌==◌, if◌then◌else◌, find, update_where, select,
}
use aegs_global.Bot.State.{Text, User, Store, day, second, stamp, date_of}
use aegs_global.Bot.Sync.{compute_key_id}
use aegs_global.Crypto.{Crypto}

abbrev pub is_user : ℕ → User → Bool
is_user id u = u.user_id == id

unfoldable pub get_user : ℕ → Store → Option User
get_user id st = find (is_user id) st.users

-- `UPDATE users SET … WHERE user_id = ?`.
unfoldable pub update_user : ℕ → (User → User) → Store → Store
update_user id f st = record st { users = update_where (is_user id) f st.users }

-- A row with a fresh token, whose key id is computed from it.
unfoldable pub new_user : Crypto → ℕ → Option Text → Text → Text → User
new_user c id username first_name token = record {
  user_id = id;
  username = username;
  first_name = first_name;
  aegs_token = token;
  aegs_key_id = compute_key_id c token;
  sub_expires_at = none;
  is_active = false;
  trial_used = false;
  warned_24h = false;
  warned_72h = false;
  waiting_support_input = false;
}

-- A known user's names are brought up to date, and the row as it was is returned. `token` is what
-- `generate_token()` draws.
unfoldable pub get_or_create_user : Crypto → ℕ → Option Text → Text → Text → Store → Store × User
get_or_create_user c id username first_name token st = elim (get_user id st) [
  | some u ↦ (update_user id (λ v. record v { username = username; first_name = first_name }) st, u)
  | none ↦
      let u = new_user c id username first_name token in
      (record st { users = st.users ++ (u ∷ []) }, u)
]

unfoldable pub set_user_support_state : ℕ → Bool → Store → Store
set_user_support_state id waiting =
    update_user id (λ u. record u { waiting_support_input = waiting })

-- The trial is switched off: the call refuses at once.
unfoldable pub activate_trial : ℕ → Store → Store × Bool
activate_trial id st = (st, false)

pub data Label : Type 0 where
  unknown_user not_active active expired : Label

pub record Status : Type 0 where
  pub label : Label
  pub is_active : Bool
  pub expires_at : Option ℕ
  pub days_left : ℕ
  pub hours_left : ℕ
  pub total_seconds_left : ℕ

unfoldable pub status_at : ℕ → ℕ → Status
status_at now s =
    if ltb now (date_of s)
    then record {
      label = active;
      is_active = true;
      expires_at = some s;
      days_left = (date_of s - now) / day;
      hours_left = (date_of s - now) / (3600 * second);
      total_seconds_left = (date_of s - now) / second;
    }
    else record {
      label = expired;
      is_active = false;
      expires_at = some s;
      days_left = 0;
      hours_left = 0;
      total_seconds_left = 0;
    }

abbrev no_status : Label → Status
no_status l = record {
  label = l;
  is_active = false;
  expires_at = none;
  days_left = 0;
  hours_left = 0;
  total_seconds_left = 0;
}

unfoldable pub check_subscription_status : ℕ → ℕ → Store → Status
unfolding status_at
check_subscription_status now id st = elim (get_user id st) [
  | none ↦ no_status unknown_user
  | some u ↦ elim u.sub_expires_at [ none ↦ no_status not_active | some s ↦ status_at now s ]
]

-- The two reminders, by the column that remembers them.
pub data Reminder : Type 0 where
  in_24h in_72h : Reminder

abbrev pub warned : Reminder → User → Bool
warned in_24h u = u.warned_24h
warned in_72h u = u.warned_72h

abbrev pub set_warned : Reminder → User → User
set_warned in_24h u = record u { warned_24h = true }
set_warned in_72h u = record u { warned_72h = true }

-- `BETWEEN`; NULL is between nothing.
abbrev pub between : ℕ → ℕ → Option ℕ → Bool
between lo hi none = false
between lo hi (some s) = leb lo s && leb s hi

abbrev pub hours : ℕ → ℕ
hours n = n * (3600 * second)

unfoldable pub get_expiring_users : ℕ → ℕ → ℕ → Reminder → Store → List User
get_expiring_users now hours_left_min hours_left_max flag st =
    select
      (λ u.
        u.is_active
        && (not (warned flag u)
            && between (stamp (now + hours hours_left_min)) (stamp (now + hours hours_left_max))
                u.sub_expires_at))
      st.users

unfoldable pub mark_reminder_sent : ℕ → Reminder → Store → Store
unfolding update_user
mark_reminder_sent id flag = update_user id (set_warned flag)

abbrev pub before : ℕ → Option ℕ → Bool
before t none = false
before t (some s) = ltb s t

abbrev pub has_lapsed : ℕ → User → Bool
has_lapsed now u = u.is_active && before (stamp now) u.sub_expires_at

unfoldable pub get_expired_active_users : ℕ → Store → List User
get_expired_active_users now st = select (has_lapsed now) st.users
