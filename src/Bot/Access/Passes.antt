-- ===== src/Bot/Access/Passes.antt =====
-- The passes of tools/telegram_bot/subscription_worker.py keep the VPN server in step with the users.
use aegs_global.Prelude.{ap, ℕ, Bool, true, false, List, [], ◌∷◌, if◌then◌else◌}
use aegs_global.Bot.Access.Calls.{Agrees}
use aegs_global.Bot.State.{User, Store}
use aegs_global.Bot.Subscriptions.{deactivate_user}
use aegs_global.Bot.Users.{Reminder, in_24h, in_72h, mark_reminder_sent}
use aegs_global.Bot.Access.Kept.{mark_reminder_sent-Agrees}
use aegs_global.Bot.Access.Switches.{deactivate_user-Agrees}
use aegs_global.Bot.Users.{get_expiring_users, get_expired_active_users}
use aegs_global.Bot.Sync.{opens}
use aegs_global.Bot.Worker.{remind, expire, check_expirations}

warned-Agrees :
    (b : Bool) (id : ℕ) (flag : Reminder) (st : Store)
    → Agrees st
    → Agrees (if b then mark_reminder_sent id flag st else st)
warned-Agrees true id flag st h = mark_reminder_sent-Agrees id flag st h
warned-Agrees false id flag st h = h

remind-Agrees :
    (sends : ℕ → Bool) (flag : Reminder) (us : List User) (st : Store)
    → Agrees st
    → Agrees (remind sends flag us st)
unfolding remind
remind-Agrees sends flag [] st h = h
remind-Agrees sends flag (u ∷ us) st h =
    remind-Agrees sends flag us
      (if sends u.user_id then mark_reminder_sent u.user_id flag st else st)
      (warned-Agrees (sends u.user_id) u.user_id flag st h)

expire-Agrees : (us : List User) (st : Store) → Agrees st → Agrees (expire us st)
unfolding expire
expire-Agrees [] st h = h
expire-Agrees (u ∷ us) st h =
    rw (ap opens h.0)
      (expire-Agrees us (deactivate_user u.user_id st) (deactivate_user-Agrees u.user_id st h))

pub check_expirations-Agrees :
    (sends_72h sends_24h : ℕ → Bool) (now_72h now_24h now : ℕ) (st : Store)
    → Agrees st
    → Agrees (check_expirations sends_72h sends_24h now_72h now_24h now st)
unfolding check_expirations
check_expirations-Agrees sends_72h sends_24h now_72h now_24h now st h =
    let st1 = remind sends_72h in_72h (get_expiring_users now_72h 48 72 in_72h st) st in
    let st2 = remind sends_24h in_24h (get_expiring_users now_24h 0 24 in_24h st1) st1 in
    expire-Agrees (get_expired_active_users now st2) st2 (
      remind-Agrees sends_24h in_24h (get_expiring_users now_24h 0 24 in_24h st1) st1
        (remind-Agrees sends_72h in_72h (get_expiring_users now_72h 48 72 in_72h st) st h))
