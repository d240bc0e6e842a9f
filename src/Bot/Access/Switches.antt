-- ===== src/Bot/Access/Switches.antt =====
-- The calls of tools/telegram_bot that switch a subscription on or off, in step with the VPN server.
use aegs_global.Prelude.{
  ◌∙◌, delete_where, ℕ, ◌+◌, ◌≡◌, refl, ap, true, false, some, [], ◌∷◌, ◌++◌, exists, find,
  update_where, Bool-cases, Option-cases, inl, inr, leb,
}
use aegs_global.Bot.Access.{owner}
use aegs_global.Bot.Access.Calls.{
  Agrees, IsChanged-same, IsChanged-updated, granted-Agrees, revoked-Agrees,
}
use aegs_global.Bot.Access.Names.{owner-short, owner-server_name}
use aegs_global.Bot.Promocodes.{
  normalise, is_code, is_use, prolonged, redeem, apply_normal, apply_promocode,
}
use aegs_global.Bot.State.{Text, User, Promocode, Store, stamp}
use aegs_global.Bot.Subscriptions.{
  new_expiry, renewed, is_paid, server_name, extend_subscription, deactivate_user,
}
use aegs_global.Bot.Sync.{
  written, has_key, upsert_user, show_nat, sync_add_user_to_server, sync_remove_user_from_server,
}
use aegs_global.Bot.Users.{get_user, update_user, is_user}
use aegs_global.Crypto.Labels.{codes}
use aegs_global.Bot.Access.Kept.{Leaves}

pub deactivate_user-Agrees : (id : ℕ) (st : Store) → Agrees st → Agrees (deactivate_user id st)
unfolding deactivate_user sync_remove_user_from_server update_user
deactivate_user-Agrees id st h = elim (Option-cases (get_user id st)) [
  | inl n ↦ rw (n, deactivate_user) h
  | inr (u, y) ↦
      let off = λ (v : User). record v { is_active = false } in
      let after = sync_remove_user_from_server u.aegs_key_id (update_user id off st) in
      rw (y, deactivate_user)
        (revoked-Agrees st after id u (off u)
          (IsChanged-same st (update_user id off st) st after id u (off u) refl refl
            (IsChanged-updated id off st u (λ w. refl) (λ w. refl) y))
          refl
          (ap
            (λ db.
              written db (delete_where (has_key u.aegs_key_id) st.server_users) st.server_users)
            h.0)
          refl h)
]

-- A user who is given a new end, with a row on the server; `st'` differs from `st` in other tables.
prolonged-Agrees :
    (st st' : Store) (id : ℕ) (name : Text) (u : User) (f : User → User)
    → owner name ≡ some id
    → get_user id st ≡ some u
    → st'.users ≡ st.users
    → st'.server_users ≡ st.server_users
    → st'.server_db ≡ st.server_db
    → ((w : User) → (f w).user_id ≡ w.user_id)
    → ((w : User) → (f w).aegs_key_id ≡ w.aegs_key_id)
    → (f u).is_active ≡ true
    → Agrees st
    → Agrees (sync_add_user_to_server name u.aegs_key_id u.aegs_token (update_user id f st'))
unfolding sync_add_user_to_server update_user
prolonged-Agrees st st' id name u f own y users rows db keeps key on h =
    let after = sync_add_user_to_server name u.aegs_key_id u.aegs_token (update_user id f st') in
    granted-Agrees st after id u (f u)
      (IsChanged-same st (update_user id f st) st after id u (f u) refl
        (ap (update_where (is_user id) f) users) (IsChanged-updated id f st u keeps key y))
      name u.aegs_token own on
      (ap
          (λ d.
            written d (upsert_user name u.aegs_key_id u.aegs_token st'.server_users)
              st'.server_users)
          (db ∙ h.0)
        ∙ ap (upsert_user name u.aegs_key_id u.aegs_token) rows)
      db h

pub extend_subscription-Leaves :
    (now id days : ℕ) (plan_id payment_id : Text) (amount : ℕ) (currency provider : Text)
    (st : Store)
    → Agrees st
    → Leaves (extend_subscription now id days plan_id payment_id amount currency provider st)
unfolding extend_subscription
extend_subscription-Leaves now id days plan_id payment_id amount currency provider st h =
    elim (Option-cases (get_user id st)) [
      | inl n ↦ rw (n, extend_subscription) h
      | inr (u, y) ↦ elim (Option-cases (new_expiry now u.sub_expires_at days)) [
        | inl n ↦ rw (y, n, extend_subscription) tt
        | inr (until, e) ↦ elim (Bool-cases (exists (is_paid payment_id) st.payments)) [
          | inl old ↦ rw (y, e, old, extend_subscription) h
          | inr new ↦
              rw (y, e, new, extend_subscription)
                (prolonged-Agrees st
                  (record st {
                    payments =
                        st.payments
                        ++ (record {
                          user_id = id;
                          plan_id = plan_id;
                          days_added = days;
                          amount = amount;
                          currency = currency;
                          provider = provider;
                          payment_id = payment_id;
                        }
                            ∷ []);
                  })
                  id (server_name id u.username) u (renewed (stamp until))
                  (owner-server_name id u.username) y refl refl refl (λ w. unfold renewed in refl)
                  (λ w. unfold renewed in refl) (unfold renewed in refl) h)
        ]
      ]
    ]

redeem-Agrees :
    (now id : ℕ) (code : Text) (promo : Promocode) (u : User) (st : Store)
    → get_user id st ≡ some u
    → Agrees st
    → Agrees (redeem now id code promo u st).0
unfolding redeem
redeem-Agrees now id code promo u st y h =
    elim (Option-cases (new_expiry now u.sub_expires_at promo.days)) [
      | inl n ↦ rw (n, redeem) h
      | inr (until, e) ↦
          rw (e, redeem)
            (prolonged-Agrees st
              (record st {
                promocode_uses = st.promocode_uses ++ ((code, id) ∷ []);
                promocodes =
                    update_where (is_code code) (λ p. record p { used_count = p.used_count + 1 })
                      st.promocodes;
              })
              id (codes "tg_" ++ show_nat id) u (prolonged (stamp until)) (owner-short id) y refl
              refl refl (λ w. refl) (λ w. refl) refl h)
    ]

pub apply_promocode-Agrees :
    (now id : ℕ) (raw : Text) (st : Store) → Agrees st → Agrees (apply_promocode now id raw st).0
unfolding apply_promocode apply_normal
apply_promocode-Agrees now id raw st h =
    elim (Option-cases (find (is_code (normalise raw)) st.promocodes)) [
      | inl n ↦ rw (n, apply_normal) h
      | inr (promo, p) ↦ elim (Bool-cases (leb promo.max_uses promo.used_count)) [
        | inl full ↦ rw (p, full, apply_normal) h
        | inr room ↦ elim (Bool-cases (exists (is_use (normalise raw) id) st.promocode_uses)) [
          | inl used ↦ rw (p, room, used, apply_normal) h
          | inr unused ↦ elim (Option-cases (get_user id st)) [
            | inl n ↦ rw (p, room, unused, n, apply_normal) h
            | inr (u, y) ↦
                rw (p, room, unused, y, apply_normal)
                  (redeem-Agrees now id (normalise raw) promo u st y h)
          ]
        ]
      ]
    ]
