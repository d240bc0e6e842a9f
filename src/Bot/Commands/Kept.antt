-- ===== src/Bot/Commands/Kept.antt =====
-- The handlers of tools/telegram_bot/bot.py keep an order that is settled.
use aegs_global.Prelude.{
  true, false, ℕ, ◌≡◌, Bool, false, Option, some, List, ◌++◌, exists, Option-cases, Bool-cases, inl,
  inr,
}
use aegs_global.Crypto.{Crypto}
use aegs_global.Crypto.Labels.{codes}
use aegs_global.Bot.State.{Result, returns, raises, ManualKey, add_days, Text, Order, Store}
use aegs_global.Bot.Orders.{is_order, create_order}
use aegs_global.Bot.Promocodes.{normalise}
use aegs_global.Bot.Promocodes.Laws.{Redemption, refused, redeemed, apply_promocode_lem}
use aegs_global.Bot.Sync.{opens, sync_add_user_to_server, compute_key_id, show_nat}
use aegs_global.Bot.Users.{get_or_create_user}
use aegs_global.Bot.Commands.{
  Call, register, Env, BotState, is_owner, member, is_admin, stored_name, get_main_keyboard,
  register_owner,
}
use aegs_global.Bot.Commands.Handlers.{handle_create_manual_key, handle_start, handle_admin_panel}
use aegs_global.Bot.Commands.Words.{after_word}
use aegs_global.Bot.Commands.Callbacks.{after_approval, submit_order, admin_approve, admin_reject}
use aegs_global.Bot.Commands.Updates.{handle_broadcast, handle_promo, handle_other_text}
use aegs_global.Bot.Commands.Laws.{get_or_create-SameBooks}
use aegs_global.Bot.Orders.{get_order, approve_order}
use aegs_global.Bot.Orders.Stays.{Settled, StillThere, approve_order-stays, reject_order-stays}
use aegs_global.Bot.Support.{create_manual_key}
use aegs_global.Prelude.{find-append_found, bytes_eq, if◌then◌else◌}

-- Asking who is an administrator does not change the store.
pub is_admin-store :
    (chat : ℕ) (un : Option Text) (s : BotState) → (is_admin chat un s).1.store ≡ s.store
unfolding is_admin register
is_admin-store chat un s = elim (Bool-cases (member chat s.admin_ids)) [
  | inl y ↦ simp (y, is_admin)
  | inr n ↦ elim (Bool-cases (is_owner un)) [
    | inl y ↦ simp (n, y, is_admin, register)
    | inr m ↦ simp (n, m, is_admin)
  ]
]

pub register_owner-store :
    (chat : ℕ) (un : Option Text) (s : BotState) → (register_owner chat un s).store ≡ s.store
unfolding register_owner register
register_owner-store chat un s = elim (Bool-cases (is_owner un)) [
  | inl y ↦ elim (Bool-cases (member chat s.admin_ids)) [
    | inl m ↦ simp (y, m, register_owner, register)
    | inr m ↦ simp (y, m, register_owner, register)
  ]
  | inr n ↦ simp (n, register_owner)
]

pub get_main_keyboard-store :
    (chat : ℕ) (s : BotState) → (get_main_keyboard chat s).1.store ≡ s.store
unfolding get_main_keyboard
get_main_keyboard-store chat s = is_admin-store chat (stored_name chat s.store) s

module _ (id : Text) (o : Order) (done : Settled o) where
  -- The order is among the rows.
  abbrev pub Holds : BotState → Type 0
  Holds s = get_order id s.store ≡ some o

  -- A store with the same orders.
  same_orders :
      (s : BotState) (st : Store) → st.orders ≡ s.store.orders → Holds s → get_order id st ≡ some o
  unfolding get_order
  same_orders s st e h = rw (e) h

  module _ (c : Crypto) (env : Env) (chat : ℕ) (un : Option Text) (fn : Text) (s : BotState)
      (h : Holds s) where
    pub handle_start-Holds : Holds (handle_start c env chat un fn s).0
    unfolding handle_start
    handle_start-Holds =
        let st = (get_or_create_user c chat un fn env.token s.store).0 in
        let t = record s { store = st } in
        rw (get_main_keyboard-store chat (is_admin chat un t).1, is_admin-store chat un t)
          (same_orders s st (get_or_create-SameBooks c chat un fn env.token s.store).orders h)

    pub handle_admin_panel-Holds : (mid : Option ℕ) → Holds (handle_admin_panel env chat mid s).0
    unfolding handle_admin_panel
    handle_admin_panel-Holds mid =
        let r = is_admin chat (stored_name chat s.store) s in
        let keep : Holds r.1 = rw (is_admin-store chat (stored_name chat s.store) s) h in
        elim (Bool-cases r.0) [ inl y ↦ rw (y) keep | inr n ↦ rw (n) keep ]

    pub handle_other_text-Holds : Holds (handle_other_text chat s).0
    unfolding handle_other_text
    handle_other_text-Holds = rw (get_main_keyboard-store chat s) h

    module _ (r : Bool × BotState) (kept : r.1.store ≡ s.store) where
      pub keep : Holds r.1
      keep = rw (kept) h

      -- A handler that does one thing for an administrator and only talks to others.
      pub guarded :
          (f : BotState × List Call) (m : List Call)
          → Holds f.0
          → Holds (if r.0 then f else (r.1, m)).0
      guarded f m k = elim (Bool-cases r.0) [ inl y ↦ rw (y) k | inr n ↦ rw (n) keep ]

    pub handle_create_manual_key-Holds :
        (days speed : ℕ) (note : Text)
        → Holds (handle_create_manual_key c env chat days speed note s).0
    unfolding handle_create_manual_key create_manual_key
    handle_create_manual_key-Holds days speed note =
        let taken = λ (k : ManualKey). bytes_eq k.key_id (compute_key_id c env.token) in
        elim (Option-cases (add_days env.now days)) [
          | inl n ↦ rw (n, handle_create_manual_key, create_manual_key) h
          | inr (until, e) ↦ elim (Bool-cases (exists taken s.store.manual_keys)) [
            | inl y ↦ rw (e, y, handle_create_manual_key, create_manual_key) h
            | inr n ↦ elim (Bool-cases (opens s.store.server_db)) [
              | inl up ↦
                  rw (e, n, up, handle_create_manual_key, create_manual_key)
                    (unfold sync_add_user_to_server get_order in h)
              | inr down ↦
                  rw (e, n, down, handle_create_manual_key, create_manual_key)
                    (unfold sync_add_user_to_server get_order in h)
            ]
          ]
        ]

    pub handle_broadcast-Holds : (t : Text) → Holds (handle_broadcast env chat un t s).0
    unfolding handle_broadcast
    handle_broadcast-Holds t =
        let r = is_admin chat un s in
        guarded r (is_admin-store chat un s) (r.1, _) _ (keep r (is_admin-store chat un s))

    pub submit_order-Holds :
        (mid : ℕ) (plan : Text) → Holds (submit_order env chat mid un fn plan s).0
    unfolding submit_order create_order
    submit_order-Holds mid plan =
        elim (Bool-cases
          (exists (is_order (codes "ORD-" ++ show_nat env.order_number)) s.store.orders)) [
            | inl y ↦ rw (y, submit_order) h
            | inr n ↦
                rw (n, submit_order)
                  (unfold get_order in find-append_found (is_order id) s.store.orders _ o h)
          ]

    promo-Holds :
        (code : Text) (r : Store × Bool)
        → Redemption env.now chat code s.store r
        → Holds (get_main_keyboard chat (record s { store = r.0 })).1
    promo-Holds code _ refused = rw (get_main_keyboard-store chat s) h
    promo-Holds code _ (redeemed p u until st' _ less new g e h' now_used g' books) =
        rw (get_main_keyboard-store chat (record s { store = st' }))
          (same_orders s st' books.orders h)

    pub handle_promo-Holds : (t : Text) → Holds (handle_promo env chat t s).0
    unfolding handle_promo
    handle_promo-Holds t = elim (Option-cases (after_word t)) [
      | inl n ↦ rw (n, handle_promo) h
      | inr (code, e) ↦
          rw (e, handle_promo)
            (promo-Holds (normalise code) _ (apply_promocode_lem env.now chat code s.store))
    ]

    after_approval-Holds :
        (mid : ℕ) (id' : Text) (r : Result (Store × Bool)) (t : BotState)
        → Holds t
        → StillThere id o r
        → Holds (after_approval env chat mid id' t r).0
    unfolding after_approval
    after_approval-Holds mid id' raises t e k = e
    after_approval-Holds mid id' (returns (st, false)) t e k = k
    after_approval-Holds mid id' (returns (st, true)) t e k =
        elim (Option-cases (get_order id' t.store)) [
          | inl n ↦ rw (n, after_approval) k
          | inr (o', f) ↦ rw (f, after_approval) k
        ]

    pub admin_approve-Holds : (mid : ℕ) (id' : Text) → Holds (admin_approve env chat mid un id' s).0
    unfolding admin_approve
    admin_approve-Holds mid id' =
        let r = is_admin chat un s in
        let e = keep r (is_admin-store chat un s) in
        guarded r (is_admin-store chat un s) _ _ (
          after_approval-Holds mid id' (approve_order env.now id' chat r.1.store) r.1 e
            (approve_order-stays env.now chat id r.1.store o e done id'))

    pub admin_reject-Holds : (mid : ℕ) (id' : Text) → Holds (admin_reject env chat mid un id' s).0
    unfolding admin_reject
    admin_reject-Holds mid id' =
        let r = is_admin chat un s in
        let e = keep r (is_admin-store chat un s) in
        guarded r (is_admin-store chat un s) _ _
          (reject_order-stays env.now chat id r.1.store o e done id')
