-- ===== src/Bot/Commands/Served.antt =====
-- The handlers of tools/telegram_bot/bot.py, as calls of its database one after the other.
use aegs_global.Prelude.{
  none, some, ℕ, ◌≡◌, refl, sym, ◌∙◌, Bool, true, false, Option, List, [], if◌then◌else◌,
  Option-cases, inl, inr,
}
use aegs_global.Bot.Access.Kept.{IsFresh}
use aegs_global.Bot.Access.Reach.{Reached, call, meets, orders, approves, redeems, hands_out}
use aegs_global.Bot.Commands.{Call, Env, BotState, is_admin, get_main_keyboard, stored_name}
use aegs_global.Bot.Commands.Callbacks.{after_approval, submit_order}
use aegs_global.Bot.Commands.Handlers.{handle_create_manual_key, handle_start, handle_admin_panel}
use aegs_global.Bot.Commands.Kept.{is_admin-store, get_main_keyboard-store}
use aegs_global.Bot.Commands.Updates.{handle_broadcast, handle_promo, handle_other_text}
use aegs_global.Bot.Commands.Words.{after_word}
use aegs_global.Bot.Orders.{create_order, get_order, approve_order}
use aegs_global.Bot.Promocodes.{apply_promocode}
use aegs_global.Bot.State.{ManualKey, Text, Store, Result, returns, raises}
use aegs_global.Bot.Support.{create_manual_key}
use aegs_global.Bot.Sync.{compute_key_id}
use aegs_global.Bot.Users.{get_or_create_user}
use aegs_global.Crypto.{Crypto}
use aegs_global.Crypto.Labels.{codes}
use mathlib.Core.Path.{subst}

module _ (c : Crypto) where
  -- The tables come about by calls of the database.
  abbrev pub IsServed : BotState → Type 0
  IsServed s = Reached c s.store

  pub kept : (s s' : BotState) → s'.store ≡ s.store → IsServed s → IsServed s'
  kept s s' e h = subst (Reached c) (sym e) h

  -- What follows a call that may raise.
  module _ (s : BotState) (h : IsServed s) where
    returned :
        {A : Type 0} (r : Result (Store × A)) (after : Store → A → BotState × List Call)
        → ((st : Store) (a : A) → r ≡ returns (st, a) → IsServed (after st a).0)
        → IsServed
            (elim r as (λ x. BotState × List Call) [
              | raises ↦ (s, [])
              | returns (st, a) ↦ after st a
            ]).0
    returned raises after k = h
    returned (returns (st, a)) after k = k st a refl

    -- The same for a key made by hand, which is kept even where an exception follows.
    returned_key :
        (r : Result (Store × Option ManualKey)) (calls : ManualKey → List Call)
        → ((st : Store) (o : Option ManualKey) → r ≡ returns (st, o) → Reached c st)
        → IsServed
            (elim r as (λ x. BotState × List Call) [
              | raises ↦ (s, [])
              | returns (st, none) ↦ (record s { store = st }, [])
              | returns (st, some k) ↦ (record s { store = st }, calls k)
            ]).0
    returned_key raises calls made = h
    returned_key (returns (st, none)) calls made = made st none refl
    returned_key (returns (st, some k)) calls made = made st (some k) refl

    -- A handler that does one thing for an administrator and only talks to others.
    pub guarded :
        (r : Bool × BotState) (f : BotState × List Call) (m : List Call)
        → r.1.store ≡ s.store
        → IsServed f.0
        → IsServed (if r.0 then f else (r.1, m)).0
    guarded (true, s') f m e k = k
    guarded (false, s') f m e k = kept s s' e h

  module _ (env : Env) (chat : ℕ) (un : Option Text) (fn : Text) (s : BotState)
      (h : IsServed s) where
    -- The state behind the question who is an administrator.
    pub asked : IsServed (is_admin chat un s).1
    asked = kept s (is_admin chat un s).1 (is_admin-store chat un s) h

    pub handle_start-IsServed :
        IsFresh (compute_key_id c env.token) s.store → IsServed (handle_start c env chat un fn s).0
    unfolding handle_start
    handle_start-IsServed fresh =
        let st = (get_or_create_user c chat un fn env.token s.store).0 in
        let t = record s { store = st } in
        kept t (get_main_keyboard chat (is_admin chat un t).1).1
          (get_main_keyboard-store chat (is_admin chat un t).1 ∙ is_admin-store chat un t)
          (call s.store st h (meets chat un fn env.token fresh))

    pub handle_admin_panel-IsServed :
        (mid : Option ℕ) → IsServed (handle_admin_panel env chat mid s).0
    unfolding handle_admin_panel
    handle_admin_panel-IsServed mid =
        let r = is_admin chat (stored_name chat s.store) s in
        let e = is_admin-store chat (stored_name chat s.store) s in
        guarded s h r (r.1, _) _ e (kept s r.1 e h)

    pub handle_create_manual_key-IsServed :
        (days speed : ℕ) (note : Text)
        → IsFresh (compute_key_id c env.token) s.store
        → IsServed (handle_create_manual_key c env chat days speed note s).0
    unfolding handle_create_manual_key
    handle_create_manual_key-IsServed days speed note fresh =
        returned_key s h (create_manual_key c env.now env.token days speed note chat s.store) _
          (λ st k e.
            call s.store st h (hands_out env.now env.token days speed note chat st k fresh e))

    pub handle_broadcast-IsServed : (t : Text) → IsServed (handle_broadcast env chat un t s).0
    unfolding handle_broadcast
    handle_broadcast-IsServed t =
        guarded s h (is_admin chat un s) ((is_admin chat un s).1, _) _ (is_admin-store chat un s)
          asked

    pub submit_order-IsServed :
        (mid : ℕ) (plan : Text) → IsServed (submit_order env chat mid un fn plan s).0
    unfolding submit_order
    submit_order-IsServed mid plan =
        let price = codes "RUB" in
        returned s h (create_order env.order_number chat un fn plan 100 price s.store) _
          (λ st id e. call s.store st h (orders env.order_number chat un fn plan 100 price st id e))

    pub handle_promo-IsServed : (t : Text) → IsServed (handle_promo env chat t s).0
    unfolding handle_promo
    handle_promo-IsServed t = elim (Option-cases (after_word t)) [
      | inl n ↦ rw (n, handle_promo) h
      | inr (code, e) ↦
          let st = (apply_promocode env.now chat code s.store).0 in
          let t = record s { store = st } in
          rw (e, handle_promo)
            (kept t (get_main_keyboard chat t).1 (get_main_keyboard-store chat t)
              (call s.store st h (redeems env.now chat code)))
    ]

    pub handle_other_text-IsServed : IsServed (handle_other_text chat s).0
    unfolding handle_other_text
    handle_other_text-IsServed =
        kept s (get_main_keyboard chat s).1 (get_main_keyboard-store chat s) h

    pub after_approval-IsServed :
        (mid : ℕ) (id : Text) (r : Result (Store × Bool))
        → approve_order env.now id chat s.store ≡ r
        → IsServed (after_approval env chat mid id s r).0
    unfolding after_approval
    after_approval-IsServed mid id raises e = h
    after_approval-IsServed mid id (returns (st, false)) e =
        call s.store st h (approves env.now id chat st false e)
    after_approval-IsServed mid id (returns (st, true)) e =
        let k : Reached c st = call s.store st h (approves env.now id chat st true e) in
        elim (Option-cases (get_order id s.store)) [
          | inl n ↦ rw (n, after_approval) k
          | inr (o, f) ↦ rw (f, after_approval) k
        ]
