-- ===== src/Bot/Sync.antt =====
-- tools/telegram_bot/aegs_sync.py: the keys that the VPN server accepts.
use aegs_global.Prelude.{
  ℕ, zero, suc, ◌+◌, ◌/◌, ◌%◌, Bool, true, false, List, [], ◌∷◌, ◌++◌, take, ltb, if◌then◌else◌,
  bytes_eq, delete_where,
}
use aegs_global.Bot.State.{Text, ServerUser, ServerDb, writable, locked, unreachable, Store}
use aegs_global.Crypto.{Crypto}
use aegs_global.Crypto.Labels.{codes}

-- The lowest digits of a number, lowest first, with fuel.
unfoldable pub digits : ℕ → ℕ → Text
digits zero n = []
digits (suc f) n =
    let r = digits f (n / 10) in if ltb n 10 then (48 + n) ∷ [] else r ++ ((48 + n % 10) ∷ [])

-- `str(n)`.
unfoldable pub show_nat : ℕ → Text
unfolding digits
show_nat n = digits (suc n) n

abbrev hex_digit : ℕ → ℕ
hex_digit n = if ltb n 10 then 48 + n else 87 + n

unfoldable pub hexdigest : Text → Text
hexdigest [] = []
hexdigest (b ∷ bs) = hex_digit (b / 16) ∷ (hex_digit (b % 16) ∷ hexdigest bs)

-- The first eight bytes of SHA-256 of the token, in hexadecimal.
unfoldable pub compute_key_id : Crypto → Text → Text
unfolding hexdigest
compute_key_id c token = take 16 (hexdigest (c.sha256 token))

-- `INSERT … ON CONFLICT(username) DO UPDATE`.
unfoldable pub upsert_user : Text → Text → Text → List ServerUser → List ServerUser
upsert_user name key token [] =
    record { username = name; aegis_key_id = key; aegis_token = token } ∷ []
upsert_user name key token (u ∷ us) =
    let r = upsert_user name key token us in
    if bytes_eq u.username name
    then record u { aegis_key_id = key; aegis_token = token } ∷ us
    else u ∷ r

-- The table after a write, as the database takes it or not.
abbrev pub written : ServerDb → List ServerUser → List ServerUser → List ServerUser
written writable new old = new
written locked new old = old
written unreachable new old = old

-- Does `init_aegis_server_db` come to its end? If not, its exception leaves the call.
abbrev pub opens : ServerDb → Bool
opens writable = true
opens locked = true
opens unreachable = false

-- The store after the call, however it ends. It answers whether the write was taken, and nobody looks
-- at the answer; `opens` says whether it answers at all.
unfoldable pub sync_add_user_to_server : Text → Text → Text → Store → Store
sync_add_user_to_server name key token st = record st {
  server_users = written st.server_db (upsert_user name key token st.server_users) st.server_users;
}

-- Does a row carry the key?
abbrev pub has_key : Text → ServerUser → Bool
has_key key u = bytes_eq u.aegis_key_id key

unfoldable pub sync_remove_user_from_server : Text → Store → Store
sync_remove_user_from_server key st = record st {
  server_users = written st.server_db (delete_where (has_key key) st.server_users) st.server_users;
}

-- `aegs://HOST:PORT/TOKEN?name=NAME`
unfoldable pub make_subscription_uri : Text → ℕ → Text → Text → Text
unfolding show_nat
make_subscription_uri ip port token name =
    codes "aegs://"
    ++ (ip ++ (codes ":" ++ (show_nat port ++ (codes "/" ++ (token ++ (codes "?name=" ++ name))))))
