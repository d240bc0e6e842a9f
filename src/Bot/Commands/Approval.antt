-- ===== src/Bot/Commands/Approval.antt =====
-- The way of a payment through tools/telegram_bot/bot.py: what follows the administrator's approval.
use aegs_global.Prelude.{
  ℕ, ◌≡◌, refl, ap, ◌∙◌, true, false, Option, some, ◌∷◌, ◌++◌, arith, exists, Bool-cases, inl, inr,
  ◌==◌, ltb,
}
use aegs_global.Crypto.{Crypto}
use aegs_global.Crypto.Labels.{codes}
use aegs_global.Bot.State.{
  Text, User, Order, pending, approved, writable, Store, returns, stamp, date_of,
}
use aegs_global.Bot.Orders.{get_order, settle, approve_order}
use aegs_global.Bot.Subscriptions.{new_expiry, renewed, is_paid, extend_subscription}
use aegs_global.Bot.Subscriptions.Laws.{IsExtended, extend_subscription_lem}
use aegs_global.Bot.Sync.{has_key}
use aegs_global.Bot.Users.{get_user, status_at, check_subscription_status}
use aegs_global.Bot.Commands.Callbacks.{
  after_approval, approval_calls, admin_approve, press, process_callback,
}
use aegs_global.Bot.Commands.{
  key_caption, payment_confirmed, order_confirmed, send_message, answer_callback_query, Env,
  BotState, edit_text, is_owner, member, register, is_admin, register_owner,
}
use aegs_global.Bot.Commands.Handlers.{aegs_uri, send_key, handle_get_key}

register_owner-member :
    (chat : ℕ) (un : Option Text) (s : BotState)
    → member chat s.admin_ids ≡ true
    → register_owner chat un s ≡ s
unfolding register_owner register
register_owner-member chat un s h = elim (Bool-cases (is_owner un)) [
  | inl y ↦ simp (y, h, register_owner, register)
  | inr n ↦ simp (n, register_owner)
]

is_admin-yes :
    (chat : ℕ) (un : Option Text) (s : BotState)
    → member chat s.admin_ids ≡ true
    → is_admin chat un s ≡ (true, s)
unfolding is_admin
is_admin-yes chat un s h = simp (h, is_admin)

-- A row with an end, whose subscription counts as active, is shown with that end.
expires_at-row :
    (now id e : ℕ) (st : Store) (u : User)
    → get_user id st ≡ some (renewed e u)
    → (check_subscription_status now id st).is_active ≡ true
    → (check_subscription_status now id st).expires_at ≡ some e
unfolding check_subscription_status renewed
expires_at-row now id e st u h a = elim (Bool-cases (ltb now (date_of e))) [
  | inl y ↦ simp (h, y, status_at, check_subscription_status)
  | inr n ↦ simp (h, n, status_at, check_subscription_status)
]

handle_get_key-active :
    (env : Env) (st : Store) (id e : ℕ) (u : User)
    → get_user id st ≡ some (renewed e u)
    → (check_subscription_status env.now id st).is_active ≡ true
    → let uri = aegs_uri env u.aegs_token u.aegs_key_id in
      handle_get_key env st id ≡ send_key env id uri (key_caption uri (some e))
unfolding handle_get_key renewed
handle_get_key-active env st id e u h a =
    simp (h, a, expires_at-row env.now id e st u h a, handle_get_key)

-- An order that can be approved: it waits, its buyer is there, the new end is within the calendar, and
-- no payment of it is in the books.
pub record Approvable (now : ℕ) (id : Text) (st : Store) (o : Order) (u : User) (until : ℕ)
    : Type 0 where
  pub found : get_order id st ≡ some o
  pub waits : o.status ≡ pending
  pub buyer : get_user o.user_id st ≡ some u
  pub ends : new_expiry now u.sub_expires_at 30 ≡ some until
  pub unpaid : exists (is_paid (codes "approved_" ++ id)) st.payments ≡ false

module _ (now : ℕ) (id : Text) (admin : ℕ) (st : Store) (o : Order) (u : User) (until : ℕ)
    (ok : Approvable now id st o u until) where
  approve_order-pays :
      (st1 : Store)
      → extend_subscription now o.user_id 30 o.plan_id
          (codes "approved_" ++ id)
          o.amount
          o.currency
          (codes "admin_manual")
          st
        ≡ returns (st1, true)
      → approve_order now id admin st ≡ returns (settle approved now admin id st1, true)
  unfolding approve_order
  approve_order-pays st1 h = simp (ok.found, ok.waits, h, approve_order)

  buyer_row :
      (st1 : Store)
      → IsExtended now o.user_id 30 (codes "approved_" ++ id) st st1 u until
      → get_user o.user_id (settle approved now admin id st1) ≡ some (renewed (stamp until) u)
  unfolding settle get_user
  buyer_row st1 e =
      let t : (o.user_id == o.user_id) ≡ true = ground arith in e.rows o.user_id ∙ simp (t)

  active_still :
      (st1 : Store)
      → IsExtended now o.user_id 30 (codes "approved_" ++ id) st st1 u until
      → (check_subscription_status now o.user_id (settle approved now admin id st1)).is_active
        ≡ true
  unfolding settle get_user check_subscription_status
  active_still st1 e = e.active

after_approval-found :
    (env : Env) (chat mid : ℕ) (id : Text) (s : BotState) (st : Store) (o : Order)
    → get_order id s.store ≡ some o
    → after_approval env chat mid id s (returns (st, true))
      ≡ (record s { store = st }, approval_calls env (record s { store = st }) chat mid id o)
unfolding after_approval
after_approval-found env chat mid id s st o h = rw (h, after_approval) refl

-- What the press of the button comes to, when the payment has led to the store `st1`.
module _ (c : Crypto) (env : Env) (chat mid : ℕ) (un : Option Text) (fn id : Text) (s : BotState)
    (o : Order) (u : User) (until : ℕ) (adm : member chat s.admin_ids ≡ true)
    (ok : Approvable env.now id s.store o u until) (st1 : Store)
    (pays : extend_subscription env.now o.user_id 30 o.plan_id
        (codes "approved_" ++ id)
        o.amount
        o.currency
        (codes "admin_manual")
        s.store
      ≡ returns (st1, true))
    (e : IsExtended env.now o.user_id 30 (codes "approved_" ++ id) s.store st1 u until) where
  abbrev st' : Store
  st' = settle approved env.now chat id st1

  abbrev uri : Text
  uri = aegs_uri env u.aegs_token u.aegs_key_id

  calls_for_buyer :
      approval_calls env (record s { store = st' }) chat mid id o
      ≡ edit_text env chat mid (order_confirmed id)
        ++ (send_message o.user_id (payment_confirmed id)
            ∷ send_key env o.user_id uri (key_caption uri (some (stamp until))))
  unfolding approval_calls
  calls_for_buyer =
      ap
        (λ more.
          edit_text env chat mid (order_confirmed id)
          ++ (send_message o.user_id (payment_confirmed id) ∷ more))
        (handle_get_key-active env st' o.user_id (stamp until) u
          (buyer_row env.now id chat s.store o u until ok st1 e)
          (active_still env.now id chat s.store o u until ok st1 e))

  admin_approve-pays : admin_approve env chat mid un id s ≡ (
    record s { store = st' },
    edit_text env chat mid (order_confirmed id)
        ++ (send_message o.user_id (payment_confirmed id)
            ∷ send_key env o.user_id uri (key_caption uri (some (stamp until)))),
  )
  unfolding admin_approve
  admin_approve-pays = simp (
    is_admin-yes chat un s adm,
    approve_order-pays env.now id chat s.store o u until ok st1 pays,
    after_approval-found env chat mid id s st' o ok.found,
    calls_for_buyer,
    admin_approve,
  )

-- An administrator, in a chat that is listed, presses the button under an order that waits, whose
-- buyer has a row and which no payment names. The query is answered, the administrator's message is
-- edited, the buyer gets the news and then the key: the link with the buyer's own token and key id,
-- together with the new end of the subscription. The subscription counts as active, and the VPN server
-- knows that key: its database is one that takes the bot's writes.
pub approve_button-delivers :
    (c : Crypto) (env : Env) (cb_id : Text) (chat mid : ℕ) (un : Option Text) (fn id : Text)
    (s : BotState) (o : Order) (u : User) (until : ℕ)
    → member chat s.admin_ids ≡ true
    → Approvable env.now id s.store o u until
    → s.store.server_db ≡ writable
    → let uri = aegs_uri env u.aegs_token u.aegs_key_id in
      (st' : Store) × (process_callback c env cb_id chat mid un fn (codes "admin_approve:" ++ id) s
        ≡ (
          record s { store = st' },
          answer_callback_query cb_id
              ∷ (edit_text env chat mid (order_confirmed id)
                  ++ (send_message o.user_id (payment_confirmed id)
                      ∷ send_key env o.user_id uri (key_caption uri (some (stamp until))))),
        ))
      × (exists (has_key u.aegs_key_id) st'.server_users ≡ true)
      × ((check_subscription_status env.now o.user_id st').is_active ≡ true)
unfolding process_callback press
approve_button-delivers c env cb_id chat mid un fn id s o u until adm ok takes =
    let (st1, pays, e) =
      extend_subscription_lem env.now o.user_id 30 o.plan_id (codes "approved_" ++ id) o.amount
        o.currency (codes "admin_manual") s.store u until ok.buyer ok.ends ok.unpaid (omega arith)
        takes in
    (
      settle approved env.now chat id st1,
      rw
          (
            register_owner-member chat un s adm,
            admin_approve-pays c env chat mid un fn id s o u until adm ok st1 pays e,
          )
          refl,
      unfold settle in e.known_to_server,
      active_still env.now id chat s.store o u until ok st1 e,
    )
