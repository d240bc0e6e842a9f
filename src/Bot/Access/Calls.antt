-- ===== src/Bot/Access/Calls.antt =====
-- The calls of tools/telegram_bot/database.py keep the VPN server's table in step with the users.
use aegs_global.Prelude.{
  ℕ, ◌≡◌, refl, sym, ap, ◌∙◌, Bool, true, false, Option, none, some, find, delete_where,
  if◌then◌else◌, Bool-cases, inl, inr, ◌==◌, ==→eq, by_number,
}
use mathlib.Core.Option
use aegs_global.Bot.Access.{key_of, active_of, owner, InStep}
use aegs_global.Bot.Access.Moves.{granted, revoked}
use aegs_global.Bot.Access.Rows.{InStep-same}
use aegs_global.Bot.State.{writable, Text, User, Store}
use aegs_global.Bot.Subscriptions.Laws.{get_user-update_user, get_user-update_user_other}
use aegs_global.Bot.Sync.{has_key, upsert_user}
use aegs_global.Bot.Users.{get_user, update_user, is_user}

-- The VPN server's database takes the bot's writes, and its table is in step with the users.
abbrev pub Agrees : Store → Type 0
Agrees st = (st.server_db ≡ writable) × InStep (key_of st) (active_of st) st.server_users

-- A row of the users' table is changed, and the key with its owner stays.
pub record IsChanged (st st' : Store) (id : ℕ) (u v : User) : Type 0 where
  pub was : get_user id st ≡ some u
  pub now : (j : ℕ) → get_user j st' ≡ (if j == id then some v else get_user j st)
  pub same_key : v.aegs_key_id ≡ u.aegs_key_id

pub IsChanged-updated :
    (id : ℕ) (f : User → User) (st : Store) (u : User)
    → ((w : User) → (f w).user_id ≡ w.user_id)
    → ((w : User) → (f w).aegs_key_id ≡ w.aegs_key_id)
    → get_user id st ≡ some u
    → IsChanged st (update_user id f st) id u (f u)
IsChanged-updated id f st u keeps key h = record {
  was = h;
  now =
      by_number id (some (f u)) (λ j. get_user j st) (λ j. get_user j (update_user id f st))
        (get_user-update_user id f keeps st u h) (get_user-update_user_other id f keeps st);
  same_key = key u;
}

-- Only the users' table counts.
pub IsChanged-same :
    (a b st st' : Store) (id : ℕ) (u v : User)
    → st.users ≡ a.users
    → st'.users ≡ b.users
    → IsChanged a b id u v
    → IsChanged st st' id u v
unfolding get_user
IsChanged-same a b st st' id u v before after c = record {
  was = ap (find (is_user id)) before ∙ c.was;
  now = λ j.
      ap (find (is_user j)) after
      ∙ c.now j
      ∙ ap (λ us. if j == id then some v else find (is_user j) us) (sym before);
  same_key = c.same_key;
}

module _ (st st' : Store) (id : ℕ) (u v : User) (c : IsChanged st st' id u v) where
  -- A value read off the user of each number.
  read_changed :
      {A : Type 0} (g : Option User → A) (j : ℕ)
      → g (get_user j st') ≡ (if j == id then g (some v) else g (get_user j st))
  read_changed g j = ap g (c.now j) ∙ inside (j == id)
    where
      inside :
          (b : Bool)
          → g (if b then some v else get_user j st) ≡ (if b then g (some v) else g (get_user j st))
      inside true = refl
      inside false = refl

  keys_changed : (j : ℕ) → key_of st' j ≡ key_of st j
  keys_changed j = read_changed (Option.map (λ w. w.aegs_key_id)) j ∙ inside (j == id) refl
    where
      inside :
          (b : Bool) → (j == id) ≡ b → (if b then some v.aegs_key_id else key_of st j) ≡ key_of st j
      inside true e =
          ap (λ t. some t) c.same_key
          ∙ ap (Option.map (λ w. w.aegs_key_id)) (sym c.was)
          ∙ ap (key_of st) (sym (==→eq j id e))
      inside false e = refl

  active_changed : (j : ℕ) → active_of st' j ≡ (if j == id then v.is_active else active_of st j)
  active_changed j = read_changed (λ o. elim o [ none ↦ false | some w ↦ w.is_active ]) j

  key_at : key_of st id ≡ some u.aegs_key_id
  key_at = ap (Option.map (λ w. w.aegs_key_id)) c.was

  -- The user is switched on, with a row of the server.
  pub granted-Agrees :
      (name token : Text)
      → owner name ≡ some id
      → v.is_active ≡ true
      → st'.server_users ≡ upsert_user name u.aegs_key_id token st.server_users
      → st'.server_db ≡ st.server_db
      → Agrees st
      → Agrees st'
  granted-Agrees name token own on rows db (up, h) = (
    db ∙ up,
    InStep-same (key_of st) (key_of st') (λ j. if j == id then true else active_of st j)
        (active_of st') (upsert_user name u.aegs_key_id token st.server_users) st'.server_users
        keys_changed (λ j. active_changed j ∙ ap (λ b. if j == id then b else active_of st j) on)
        rows
        (granted (key_of st) (active_of st) st.server_users h id name u.aegs_key_id token own
          key_at),
  )

  -- The user is switched off, with the server's rows gone.
  pub revoked-Agrees :
      v.is_active ≡ false
      → st'.server_users ≡ delete_where (has_key u.aegs_key_id) st.server_users
      → st'.server_db ≡ st.server_db
      → Agrees st
      → Agrees st'
  revoked-Agrees switched rows db (up, h) = (
    db ∙ up,
    InStep-same (key_of st) (key_of st') (λ j. if j == id then false else active_of st j)
        (active_of st') (delete_where (has_key u.aegs_key_id) st.server_users) st'.server_users
        keys_changed
        (λ j. active_changed j ∙ ap (λ b. if j == id then b else active_of st j) switched) rows
        (revoked (key_of st) (active_of st) st.server_users h id u.aegs_key_id key_at),
  )

  -- Something else of the user is changed.
  pub kept-Agrees :
      v.is_active ≡ u.is_active
      → st'.server_users ≡ st.server_users
      → st'.server_db ≡ st.server_db
      → Agrees st
      → Agrees st'
  kept-Agrees same rows db (up, h) = (
    db ∙ up,
    InStep-same (key_of st) (key_of st') (active_of st) (active_of st') st.server_users
        st'.server_users keys_changed (λ j. active_changed j ∙ still j) rows h,
  )
    where
      still : (j : ℕ) → (if j == id then v.is_active else active_of st j) ≡ active_of st j
      still j = elim (Bool-cases (j == id)) [
        | inl y ↦ rw (y) (
            same
            ∙ ap (λ o. elim o as (λ x. Bool) [ none ↦ false | some w ↦ w.is_active ]) (sym c.was)
            ∙ ap (active_of st) (sym (==→eq j id y)))
        | inr n ↦ rw (n) refl
      ]
