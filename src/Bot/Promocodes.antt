-- ===== src/Bot/Promocodes.antt =====
-- Promocodes of tools/telegram_bot/database.py.
pub mod Laws
use aegs_global.Prelude.{
  ℕ, ◌+◌, ◌-◌, Bool, true, false, ◌&&◌, ◌||◌, Option, none, some, List, [], ◌∷◌, ◌++◌, map, ltb,
  leb, ◌==◌, if◌then◌else◌, bytes_eq, exists, find, update_where,
}
use mathlib.Core.List.{reverse}
use aegs_global.Bot.State.{Text, User, Promocode, Store, stamp}
use aegs_global.Bot.Subscriptions.{new_expiry}
use aegs_global.Bot.Sync.{opens, show_nat, sync_add_user_to_server}
use aegs_global.Bot.Users.{get_user, update_user}
use aegs_global.Crypto.Labels.{codes}

-- `str.strip` and `str.upper` on ASCII text.
abbrev pub is_space : ℕ → Bool
is_space c = c == 32 || (leb 9 c && leb c 13 || leb 28 c && leb c 31)

unfoldable pub lstrip : Text → Text
lstrip [] = []
lstrip (c ∷ cs) = let r = lstrip cs in if is_space c then r else c ∷ cs

abbrev upper_char : ℕ → ℕ
upper_char c = if leb 97 c && leb c 122 then c - 32 else c

unfoldable pub normalise : Text → Text
unfolding lstrip
normalise code = map upper_char (reverse (lstrip (reverse (lstrip code))))

abbrev pub is_code : Text → Promocode → Bool
is_code code p = bytes_eq p.code code

abbrev pub is_use : Text → ℕ → Text × ℕ → Bool
is_use code id (c, u) = bytes_eq c code && u == id

-- What the code sets in the user's row: the date and the switch, and nothing else.
abbrev pub prolonged : ℕ → User → User
prolonged until u = record u { sub_expires_at = some until; is_active = true }

-- The code with its spaces and case gone. Every exception within the call, such as that of a user
-- who is not there, is answered with `False`.
unfoldable pub redeem : ℕ → ℕ → Text → Promocode → User → Store → Store × Bool
redeem now id code promo u st = elim (new_expiry now u.sub_expires_at promo.days) [
  | none ↦ (st, false)
  | some until ↦ (
    sync_add_user_to_server (codes "tg_" ++ show_nat id) u.aegs_key_id u.aegs_token (
        update_user id (prolonged (stamp until)) (record st {
          promocode_uses = st.promocode_uses ++ ((code, id) ∷ []);
          promocodes =
              update_where (is_code code) (λ p. record p { used_count = p.used_count + 1 })
                st.promocodes;
        })),
    opens st.server_db,
  )
]

unfoldable pub apply_normal : ℕ → ℕ → Text → Store → Store × Bool
unfolding redeem
apply_normal now id code st = elim (find (is_code code) st.promocodes) [
  | none ↦ (st, false)
  | some promo ↦
      if leb promo.max_uses promo.used_count
      then (st, false)
      else if exists (is_use code id) st.promocode_uses
      then (st, false)
      else elim (get_user id st) [ none ↦ (st, false) | some u ↦ redeem now id code promo u st ]
]

unfoldable pub apply_promocode : ℕ → ℕ → Text → Store → Store × Bool
unfolding normalise apply_normal
apply_promocode now id raw st = apply_normal now id (normalise raw) st

-- `INSERT … ON CONFLICT(code) DO UPDATE SET days, max_uses`: the count of uses stays.
unfoldable pub create_promocode : Text → ℕ → ℕ → Store → Store
unfolding normalise
create_promocode raw days max_uses st =
    let code = normalise raw in
    if exists (is_code code) st.promocodes
    then record st {
      promocodes =
          update_where (is_code code) (λ p. record p { days = days; max_uses = max_uses })
            st.promocodes;
    }
    else (let p : Promocode = record {
      code = code;
      days = days;
      max_uses = max_uses;
      used_count = 0;
    } in
        record st { promocodes = st.promocodes ++ (p ∷ []) })
