-- ===== src/Bot/Worker.antt =====
-- tools/telegram_bot/subscription_worker.py: one pass of `_check_expirations`.
pub mod Laws
use aegs_global.Prelude.{ℕ, Bool, true, false, List, [], ◌∷◌, ◌++◌, if◌then◌else◌}
use aegs_global.Bot.State.{User, Store}
use aegs_global.Bot.Subscriptions.{deactivate_user}
use aegs_global.Bot.Sync.{opens}
use aegs_global.Bot.Users.{
  Reminder, in_24h, in_72h, get_expiring_users, mark_reminder_sent, get_expired_active_users,
}

-- The loop over the users to be warned. `sends id` says whether `send_message` goes through; a
-- message that fails is not marked as sent.
unfoldable pub remind : (ℕ → Bool) → Reminder → List User → Store → Store
remind sends flag [] st = st
remind sends flag (u ∷ us) st =
    remind sends flag us (if sends u.user_id then mark_reminder_sent u.user_id flag st else st)

-- The loop over the users whose time is over; the message after it changes nothing. Where the
-- VPN server's database cannot be opened, the exception of the first one ends the pass.
unfoldable pub expire : List User → Store → Store
expire [] st = st
expire (u ∷ us) st =
    let st' = deactivate_user u.user_id st in
    let rest = expire us st' in if opens st.server_db then rest else st'

-- The clock is read for each of the three queries.
unfoldable pub check_expirations : (ℕ → Bool) → (ℕ → Bool) → ℕ → ℕ → ℕ → Store → Store
unfolding remind expire
check_expirations sends_72h sends_24h now_72h now_24h now st =
    let st1 = remind sends_72h in_72h (get_expiring_users now_72h 48 72 in_72h st) st in
    let st2 = remind sends_24h in_24h (get_expiring_users now_24h 0 24 in_24h st1) st1 in
    expire (get_expired_active_users now st2) st2
