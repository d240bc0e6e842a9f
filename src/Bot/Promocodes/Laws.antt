-- ===== src/Bot/Promocodes/Laws.antt =====
-- What a promocode does in tools/telegram_bot/database.py.
use aegs_global.Prelude.{
  ℕ, ◌+◌, ◌<◌, ◌≡◌, refl, ◌&&◌, not, Bool, true, false, some, arith, List, [], ◌∷◌, leb,
  bytes_eq_refl, exists, exists-append, find, find-update_where, find-holds, select, Bool-cases,
  Option-cases, inl, inr,
}
use mathlib.Core.Path.{subst}
use aegs_global.Bot.State.{Text, User, Promocode, Store, stamp}
use aegs_global.Bot.Promocodes.{
  normalise, is_code, is_use, prolonged, redeem, apply_normal, apply_promocode,
}
use aegs_global.Bot.Subscriptions.{new_expiry}
use aegs_global.Bot.Subscriptions.Laws.{get_user-update_user}
use aegs_global.Bot.Sync.{opens, sync_add_user_to_server}
use aegs_global.Bot.Users.{
  get_user, update_user, Reminder, in_24h, in_72h, warned, get_expiring_users,
}

-- One use more.
abbrev used : Promocode → Promocode
used p = record p { used_count = p.used_count + 1 }

-- The books: what is sold, and for what.
pub record SameBooks (st st' : Store) : Type 0 where
  pub payments : st'.payments ≡ st.payments
  pub manual_keys : st'.manual_keys ≡ st.manual_keys
  pub orders : st'.orders ≡ st.orders

-- How an application ends: refused with nothing changed, or with a use of the code counted and noted
-- and the user's subscription prolonged, which is answered with whether the VPN server's database could
-- be opened.
pub data Redemption (now id : ℕ) (code : Text) (st : Store) : Store × Bool → Type 0 where
  refused : Redemption now id code st (st, false)
  redeemed :
      (p : Promocode) (u : User) (until : ℕ) (st' : Store)
      → find (is_code code) st.promocodes ≡ some p
      → p.used_count < p.max_uses
      → exists (is_use code id) st.promocode_uses ≡ false
      → get_user id st ≡ some u
      → new_expiry now u.sub_expires_at p.days ≡ some until
      → find (is_code code) st'.promocodes ≡ some (used p)
      → exists (is_use code id) st'.promocode_uses ≡ true
      → get_user id st' ≡ some (prolonged (stamp until) u)
      → SameBooks st st'
      → Redemption now id code st (st', opens st.server_db)

below : (p : Promocode) → leb p.max_uses p.used_count ≡ false → p.used_count < p.max_uses
below p h = ground (arith, h)

is_use_refl : (code : Text) (id : ℕ) → is_use code id (code, id) ≡ true
is_use_refl code id = ground (arith, bytes_eq_refl code)

module _ (now id : ℕ) (code : Text) (st : Store) where
  redeem-Redemption :
      (p : Promocode) (u : User)
      → find (is_code code) st.promocodes ≡ some p
      → leb p.max_uses p.used_count ≡ false
      → exists (is_use code id) st.promocode_uses ≡ false
      → get_user id st ≡ some u
      → Redemption now id code st (redeem now id code p u st)
  unfolding redeem get_user update_user sync_add_user_to_server
  redeem-Redemption p u h less new g =
      elim (Option-cases (new_expiry now u.sub_expires_at p.days)) [
        | inl n ↦ rw (n, redeem) refused
        | inr (until, e) ↦
            rw (e, redeem)
              (redeemed p u until _ h (below p less) new g e
                (find-update_where (is_code code) used st.promocodes p
                  (find-holds (is_code code) st.promocodes p h) h)
                (exists-append (is_use code id) st.promocode_uses (code, id) (is_use_refl code id))
                (get_user-update_user id (prolonged (stamp until)) (λ v. refl) st u g)
                (record { payments = refl; manual_keys = refl; orders = refl }))
      ]

  apply_normal-Redemption : Redemption now id code st (apply_normal now id code st)
  unfolding apply_normal
  apply_normal-Redemption = elim (Option-cases (find (is_code code) st.promocodes)) [
    | inl n ↦ rw (n, apply_normal) refused
    | inr (p, h) ↦ elim (Bool-cases (leb p.max_uses p.used_count)) [
      | inl full ↦ rw (h, full, apply_normal) refused
      | inr less ↦ elim (Bool-cases (exists (is_use code id) st.promocode_uses)) [
        | inl old ↦ rw (h, less, old, apply_normal) refused
        | inr new ↦ elim (Option-cases (get_user id st)) [
          | inl n ↦ rw (h, less, new, n, apply_normal) refused
          | inr (u, g) ↦ rw (h, less, new, g, apply_normal) (redeem-Redemption p u h less new g)
        ]
      ]
    ]
  ]

pub apply_promocode_lem :
    (now id : ℕ) (raw : Text) (st : Store)
    → Redemption now id (normalise raw) st (apply_promocode now id raw st)
unfolding apply_promocode
apply_promocode_lem now id raw st = apply_normal-Redemption now id (normalise raw) st

Redemption-used :
    (now id : ℕ) (code : Text) (st : Store) (r : Store × Bool)
    → Redemption now id code st r
    → r.1 ≡ true
    → exists (is_use code id) r.0.promocode_uses ≡ true
Redemption-used now id code st _ refused won = cc (won)
Redemption-used now id code st _ (redeemed p u until st' h less new g e h' now_used g' kept) won =
    now_used

used-refused :
    (now id : ℕ) (code : Text) (st : Store)
    → exists (is_use code id) st.promocode_uses ≡ true
    → apply_normal now id code st ≡ (st, false)
unfolding apply_normal
used-refused now id code st y = elim (Option-cases (find (is_code code) st.promocodes)) [
  | inl n ↦ simp (n, apply_normal)
  | inr (p, h) ↦ elim (Bool-cases (leb p.max_uses p.used_count)) [
    | inl full ↦ simp (h, full, apply_normal)
    | inr less ↦ simp (h, less, y, apply_normal)
  ]
]

-- A user redeems a code once: after a success, the same user's call with any text that names the same
-- code is refused and changes nothing.
pub apply_promocode_once :
    (now id : ℕ) (raw : Text) (st st' : Store)
    → apply_promocode now id raw st ≡ (st', true)
    → (now' : ℕ) (raw' : Text) → normalise raw' ≡ normalise raw
    → apply_promocode now' id raw' st' ≡ (st', false)
unfolding apply_promocode
apply_promocode_once now id raw st st' h now' raw' e = rw (e) (
    used-refused now' id (normalise raw) st' (
      Redemption-used now id (normalise raw) st (st', true)
        (subst (Redemption now id (normalise raw) st) h
          (apply_normal-Redemption now id (normalise raw) st))
        refl))

warned-select :
    (flag : Reminder) (p : User → Bool) (us : List User)
    → exists (warned flag) (select (λ u. u.is_active && (not (warned flag u) && p u)) us) ≡ false
unfolding exists select
warned-select flag p [] = refl
warned-select flag p (u ∷ us) = elim (Bool-cases (warned flag u)) [
  | inl y ↦ rw (y) (ground (arith, warned-select flag p us))
  | inr n ↦ ground (arith, warned-select flag p us, n)
]

prolonged-warned :
    (flag : Reminder) (until : ℕ) (u : User) → warned flag (prolonged until u) ≡ warned flag u
prolonged-warned in_24h until u = refl
prolonged-warned in_72h until u = refl

Redemption-warned :
    (now id : ℕ) (code : Text) (st : Store) (r : Store × Bool) (u : User) (flag : Reminder)
    → Redemption now id code st r
    → r.1 ≡ true
    → get_user id st ≡ some u
    → warned flag u ≡ true
    → (v : User) × (get_user id r.0 ≡ some v) × (v.is_active ≡ true) × (warned flag v ≡ true)
Redemption-warned now id code st _ u flag refused won k y = cc (won)
Redemption-warned now id code st _ u flag
      (redeemed p w until st' h less new g e h' now_used g' kept) won k y =
    let same : w ≡ u = cc (g, k) in
    (prolonged (stamp until) w, g', refl, rw (prolonged-warned flag (stamp until) w, same) y)

-- A promocode leaves the reminders as they were: a user who has been warned before the old end stays
-- marked as warned with the new one, and no user marked so is ever in the list of those to be warned.
pub apply_promocode-warned :
    (now id : ℕ) (raw : Text) (st st' : Store) (u : User) (flag : Reminder)
    → apply_promocode now id raw st ≡ (st', true)
    → get_user id st ≡ some u
    → warned flag u ≡ true
    → ((v : User) × (get_user id st' ≡ some v) × (v.is_active ≡ true) × (warned flag v ≡ true))
      × ((t lo hi : ℕ) → exists (warned flag) (get_expiring_users t lo hi flag st') ≡ false)
unfolding apply_promocode get_expiring_users
apply_promocode-warned now id raw st st' u flag h g y = (
  Redemption-warned now id (normalise raw) st (st', true) u flag
      (subst (Redemption now id (normalise raw) st) h
        (apply_normal-Redemption now id (normalise raw) st))
      refl g y,
  λ t lo hi. warned-select flag _ st'.users,
)
