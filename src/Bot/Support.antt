-- ===== src/Bot/Support.antt =====
-- Support tickets, statistics and keys made by hand in tools/telegram_bot/database.py.
pub mod Laws
use aegs_global.Prelude.{
  ℕ, ◌+◌, Bool, true, false, ◌&&◌, ◌||◌, Option, none, some, List, [], ◌∷◌, ◌++◌, take, ltb, leb,
  ◌==◌, if◌then◌else◌, bytes_eq, exists, find, update_where, select, count_where, length,
}
use mathlib.Core.List.{reverse}
use aegs_global.Bot.State.{
  Text, User, Payment, Ticket, TicketStatus, open_ticket, closed, ManualKey, Store, Result, returns,
  raises, add_days, stamp,
}
use aegs_global.Bot.Sync.{opens, compute_key_id, sync_add_user_to_server}
use aegs_global.Crypto.{Crypto}
use aegs_global.Crypto.Labels.{codes}

abbrev pub is_open : Ticket → Bool
is_open t = elim t.status [ open_ticket ↦ true | closed ↦ false ]

abbrev pub is_ticket : ℕ → Ticket → Bool
is_ticket id t = t.ticket_id == id

unfoldable pub create_support_ticket : ℕ → Option Text → Text → Store → Store × ℕ
create_support_ticket user username question st =
    let t : Ticket = record {
      ticket_id = st.next_ticket;
      user_id = user;
      username = username;
      question = question;
      reply = none;
      admin_id = none;
      status = open_ticket;
      answered_at = none;
    } in
    (
      record st { tickets = st.tickets ++ (t ∷ []); next_ticket = st.next_ticket + 1 },
      st.next_ticket,
    )

-- The open tickets, the newest first: the rows stand in the order of their ids.
unfoldable pub get_open_tickets : Store → List Ticket
get_open_tickets st = reverse (select is_open st.tickets)

unfoldable pub get_ticket : ℕ → Store → Option Ticket
get_ticket id st = find (is_ticket id) st.tickets

unfoldable pub reply_support_ticket : ℕ → ℕ → ℕ → Text → Store → Store × Option Ticket
reply_support_ticket now id admin text st =
    let st' = record st {
      tickets =
          update_where (is_ticket id)
            (λ t. record t {
              reply = some text;
              admin_id = some admin;
              status = closed;
              answered_at = some (stamp now);
            })
            st.tickets;
    } in
    (st', get_ticket id st')

pub record AdminStats : Type 0 where
  pub total_users : ℕ
  pub active_subs : ℕ
  pub paid_cnt : ℕ
  pub total_revenue : ℕ
  pub open_tickets : ℕ

unfoldable pub revenue : List Payment → ℕ
revenue [] = 0
revenue (p ∷ ps) = p.amount + revenue ps

abbrev pub after : ℕ → Option ℕ → Bool
after t none = false
after t (some s) = ltb t s

-- Every payment has the status 'success', which is the column's default.
unfoldable pub get_admin_stats : ℕ → Store → AdminStats
unfolding revenue
get_admin_stats now st = record {
  total_users = length st.users;
  active_subs = count_where (λ u. u.is_active && after (stamp now) u.sub_expires_at) st.users;
  paid_cnt = length st.payments;
  total_revenue = revenue st.payments;
  open_tickets = count_where is_open st.tickets;
}

-- The letters, digits, `_` and `-` of an ASCII note, 16 at most.
abbrev pub is_safe : ℕ → Bool
is_safe c =
    leb 48 c && leb c 57
    || (leb 65 c && leb c 90 || (leb 97 c && leb c 122 || (c == 95 || c == 45)))

unfoldable pub manual_name : Text → Text → Text
manual_name note key_id = elim (take 16 (select is_safe note)) [
  | [] ↦ codes "manual_" ++ take 8 key_id
  | x ∷ xs ↦ codes "manual_" ++ ((x ∷ xs) ++ (codes "_" ++ take 6 key_id))
]

-- `token` is what `secrets.token_hex(32)` draws. A date past the year 9999 and a key id that is there
-- already raise. `none` stands for the exception of a server's database that cannot be opened, which
-- comes when the key has been kept.
unfoldable pub create_manual_key :
    Crypto → ℕ → Text → ℕ → ℕ → Text → ℕ → Store → Result (Store × Option ManualKey)
unfolding manual_name
create_manual_key c now token days speed note admin st =
    let key = compute_key_id c token in
    elim (add_days now days) [
      | none ↦ raises
      | some until ↦
          if exists (λ k. bytes_eq k.key_id key) st.manual_keys
          then raises
          else (let k : ManualKey = record {
            key_id = key;
            token = token;
            days = days;
            speed_mbps = speed;
            note = note;
            created_at = stamp now;
            expires_at = stamp until;
            created_by = admin;
          } in
              returns (
                sync_add_user_to_server (manual_name note key) key token
                    (record st { manual_keys = st.manual_keys ++ (k ∷ []) }),
                if opens st.server_db then some k else none,
              ))
    ]

-- The chats of all users, each once since the id is the key of the table.
unfoldable pub get_all_user_chat_ids : List User → List ℕ
get_all_user_chat_ids [] = []
get_all_user_chat_ids (u ∷ us) =
    let r = get_all_user_chat_ids us in if ltb 0 u.user_id then u.user_id ∷ r else r
