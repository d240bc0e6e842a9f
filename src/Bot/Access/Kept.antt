-- ===== src/Bot/Access/Kept.antt =====
-- One call of tools/telegram_bot after the other: the VPN server's table stays in step with the users.
use aegs_global.Prelude.{
  ℕ, ◌≡◌, ◌≢◌, refl, ap, ◌∙◌, Bool, true, false, Option, none, some, [], ◌∷◌, ◌++◌, arith, exists,
  find, update_where_absent, find-append, find-append_other, if◌then◌else◌, Option-cases, inl, inr,
  ◌==◌, by_number,
}
use mathlib.Core.Option
use aegs_global.Bot.Access.{key_of, active_of}
use aegs_global.Bot.Access.Calls.{Agrees, IsChanged-updated, kept-Agrees}
use aegs_global.Bot.Access.Moves.{joined}
use aegs_global.Bot.Access.Rows.{InStep-same}
use aegs_global.Bot.State.{Text, User, Store, Result, returns, raises}
use aegs_global.Bot.Sync.{has_key, compute_key_id}
use aegs_global.Bot.Users.{
  get_user, update_user, is_user, new_user, get_or_create_user, set_user_support_state, Reminder,
  in_24h, in_72h, set_warned, mark_reminder_sent,
}
use aegs_global.Crypto.{Crypto}

-- What a call that may raise leaves.
abbrev pub Leaves {ℓ} : {A : Type ℓ} → Result (Store × A) → Type 0
Leaves raises = Unit {0}
Leaves (returns (st, a)) = Agrees st

-- Other tables play no part.
pub same-Agrees :
    (st st' : Store)
    → st'.users ≡ st.users
    → st'.server_users ≡ st.server_users
    → st'.server_db ≡ st.server_db
    → Agrees st
    → Agrees st'
unfolding get_user
same-Agrees st st' users rows db (up, h) = (
  db ∙ up,
  InStep-same (key_of st) (key_of st') (active_of st) (active_of st') st.server_users
      st'.server_users (λ j. ap (λ us. Option.map (λ w. w.aegs_key_id) (find (is_user j) us)) users)
      (λ j.
        ap (λ us. elim (find (is_user j) us) as (λ x. Bool) [ none ↦ false | some w ↦ w.is_active ])
          users)
      rows h,
)

update_user-absent :
    (id : ℕ) (f : User → User) (st : Store) → get_user id st ≡ none → update_user id f st ≡ st
unfolding get_user update_user
update_user-absent id f st n =
    ap (λ us. record st { users = us }) (update_where_absent (is_user id) f st.users n)

-- A change that leaves the number, the key and the switch alone.
update_user-Agrees :
    (id : ℕ) (f : User → User) (st : Store)
    → ((w : User) → (f w).user_id ≡ w.user_id)
    → ((w : User) → (f w).aegs_key_id ≡ w.aegs_key_id)
    → ((w : User) → (f w).is_active ≡ w.is_active)
    → Agrees st
    → Agrees (update_user id f st)
unfolding update_user
update_user-Agrees id f st keeps key same h = elim (Option-cases (get_user id st)) [
  | inl n ↦ rw (update_user-absent id f st n) h
  | inr (u, y) ↦
      kept-Agrees st (update_user id f st) id u (f u) (IsChanged-updated id f st u keeps key y)
        (same u) refl refl h
]

pub set_user_support_state-Agrees :
    (id : ℕ) (b : Bool) (st : Store) → Agrees st → Agrees (set_user_support_state id b st)
unfolding set_user_support_state
set_user_support_state-Agrees id b st h =
    update_user-Agrees id (λ u. record u { waiting_support_input = b }) st (λ w. refl) (λ w. refl)
      (λ w. refl) h

pub mark_reminder_sent-Agrees :
    (id : ℕ) (flag : Reminder) (st : Store) → Agrees st → Agrees (mark_reminder_sent id flag st)
unfolding mark_reminder_sent
mark_reminder_sent-Agrees id in_24h st h =
    update_user-Agrees id (set_warned in_24h) st (λ w. refl) (λ w. refl) (λ w. refl) h
mark_reminder_sent-Agrees id in_72h st h =
    update_user-Agrees id (set_warned in_72h) st (λ w. refl) (λ w. refl) (λ w. refl) h

-- A key that neither a user nor the VPN server has.
pub record IsFresh (k : Text) (st : Store) : Type 0 where
  pub no_user : (j : ℕ) → key_of st j ≢ some k
  pub no_row : exists (has_key k) st.server_users ≡ false

abbrev met : User → Store → Store
met u st = record st { users = st.users ++ (u ∷ []) }

module _ (u : User) (st : Store) (absent : get_user u.user_id st ≡ none) where
  get_user-met :
      (j : ℕ) → get_user j (met u st) ≡ (if j == u.user_id then some u else get_user j st)
  unfolding get_user
  get_user-met =
      by_number u.user_id (some u) (λ j. get_user j st) (λ j. get_user j (met u st))
        (find-append (is_user u.user_id) st.users u absent (ground arith))
        (λ j ne. find-append_other (is_user j) st.users u (ground (arith, ne)))

  met-Agrees : IsFresh u.aegs_key_id st → u.is_active ≡ false → Agrees st → Agrees (met u st)
  met-Agrees fresh switched (up, h) = (
    up,
    InStep-same (λ j. if j == u.user_id then some u.aegs_key_id else key_of st j)
        (key_of (met u st)) (λ j. if j == u.user_id then false else active_of st j)
        (active_of (met u st)) st.server_users st.server_users
        (λ j.
          ap (Option.map (λ w. w.aegs_key_id)) (get_user-met j) ∙ keys_inside (j == u.user_id) j)
        (λ j.
          ap (λ o. elim o as (λ x. Bool) [ none ↦ false | some w ↦ w.is_active ]) (get_user-met j)
          ∙ active_inside (j == u.user_id) j)
        refl
        (joined (key_of st) (active_of st) st.server_users h u.user_id u.aegs_key_id
          (ap (Option.map (λ w. w.aegs_key_id)) absent) fresh.no_user fresh.no_row),
  )
    where
      keys_inside :
          (b : Bool) (j : ℕ)
          → Option.map (λ w. w.aegs_key_id) (if b then some u else get_user j st)
            ≡ (if b then some u.aegs_key_id else key_of st j)
      keys_inside true j = refl
      keys_inside false j = refl

      active_inside :
          (b : Bool) (j : ℕ)
          → (elim (if b then some u else get_user j st) as (λ x. Bool) [
            | none ↦ false
            | some w ↦ w.is_active
          ])
            ≡ (if b then false else active_of st j)
      active_inside true j = switched
      active_inside false j = refl

pub get_or_create_user-Agrees :
    (c : Crypto) (id : ℕ) (username : Option Text) (first_name token : Text) (st : Store)
    → IsFresh (compute_key_id c token) st
    → Agrees st
    → Agrees (get_or_create_user c id username first_name token st).0
unfolding get_or_create_user new_user
get_or_create_user-Agrees c id username first_name token st fresh h =
    elim (Option-cases (get_user id st)) [
      | inl n ↦
          rw (n, get_or_create_user)
            (met-Agrees (new_user c id username first_name token) st n fresh refl h)
      | inr (u, y) ↦
          rw (y, get_or_create_user)
            (update_user-Agrees id (λ v. record v { username = username; first_name = first_name })
              st (λ w. refl) (λ w. refl) (λ w. refl) h)
    ]
