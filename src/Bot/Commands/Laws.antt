-- ===== src/Bot/Commands/Laws.antt =====
-- Who is an administrator in tools/telegram_bot/bot.py, and the books that the handlers keep.
use aegs_global.Prelude.{
  ℕ, ◌≡◌, refl, false, Option, some, List, [], ◌∷◌, ◌++◌, arith, find-append, Option-cases, inl,
  inr,
}
use aegs_global.Crypto.{Crypto}
use aegs_global.Bot.State.{Text, User, Order, pending, Store}
use aegs_global.Bot.Promocodes.Laws.{SameBooks}
use aegs_global.Bot.Subscriptions.Laws.{get_user-update_user}
use aegs_global.Bot.Users.{get_user, update_user, is_user, new_user, get_or_create_user}
use aegs_global.Bot.Commands.{
  BotState, is_owner, member, is_admin, stored_name, get_main_keyboard, register_owner,
}

-- The orders of before, with at most one new order behind them, which waits.
pub data Grown (os : List Order) : List Order → Type 0 where
  same : Grown os os
  one_more : (o : Order) → o.status ≡ pending → Grown os (os ++ (o ∷ []))

-- Nobody has become an administrator, nothing is paid, no key is made by hand, and no order settled.
pub record Harmless (s s' : BotState) : Type 0 where
  pub admin_ids : s'.admin_ids ≡ s.admin_ids
  pub payments : s'.store.payments ≡ s.store.payments
  pub manual_keys : s'.store.manual_keys ≡ s.store.manual_keys
  pub orders : Grown s.store.orders s'.store.orders

pub nothing : (s : BotState) → Harmless s s
nothing s = record { admin_ids = refl; payments = refl; manual_keys = refl; orders = same }

-- The chat is not listed, the sender does not have the owner's name, and the chat's row does not hold it.
pub record Outsider (chat : ℕ) (sender : Option Text) (s : BotState) : Type 0 where
  pub not_listed : member chat s.admin_ids ≡ false
  pub not_owner : is_owner sender ≡ false
  pub not_stored : is_owner (stored_name chat s.store) ≡ false

pub is_admin-no :
    (chat : ℕ) (un : Option Text) (s : BotState)
    → member chat s.admin_ids ≡ false
    → is_owner un ≡ false
    → is_admin chat un s ≡ (false, s)
unfolding is_admin
is_admin-no chat un s a b = simp (a, b, is_admin)

pub get_main_keyboard-no :
    (chat : ℕ) (s : BotState)
    → member chat s.admin_ids ≡ false
    → is_owner (stored_name chat s.store) ≡ false
    → get_main_keyboard chat s ≡ (false, s)
unfolding get_main_keyboard
get_main_keyboard-no chat s a b = is_admin-no chat (stored_name chat s.store) s a b

pub stored_name-some :
    (chat : ℕ) (st : Store) (u : User)
    → get_user chat st ≡ some u
    → stored_name chat st ≡ u.username
unfolding stored_name
stored_name-some chat st u h = simp (h, stored_name)

pub register_owner-no :
    (chat : ℕ) (un : Option Text) (s : BotState)
    → is_owner un ≡ false
    → register_owner chat un s ≡ s
unfolding register_owner
register_owner-no chat un s h = simp (h, register_owner)

-- A change of the store that leaves the books.
pub with_books :
    (s : BotState) (st : Store) → SameBooks s.store st → Harmless s (record s { store = st })
with_books s st books = record {
  admin_ids = refl;
  payments = books.payments;
  manual_keys = books.manual_keys;
  orders = rw (books.orders) same;
}

-- The chat's row has the sender's name afterwards.
pub stored_name-get_or_create :
    (c : Crypto) (chat : ℕ) (un : Option Text) (fn token : Text) (st : Store)
    → stored_name chat (get_or_create_user c chat un fn token st).0 ≡ un
unfolding get_or_create_user get_user new_user
stored_name-get_or_create c chat un fn token st = elim (Option-cases (get_user chat st)) [
  | inl n ↦
      rw (n, get_or_create_user)
        (stored_name-some chat _ (new_user c chat un fn token)
          (find-append (is_user chat) st.users (new_user c chat un fn token) n (ground arith)))
  | inr (u, h) ↦
      let f = λ (v : User). record v { username = un; first_name = fn } in
      rw (h, get_or_create_user)
        (stored_name-some chat _ (f u) (get_user-update_user chat f (λ v. refl) st u h))
]

pub get_or_create-SameBooks :
    (c : Crypto) (chat : ℕ) (un : Option Text) (fn token : Text) (st : Store)
    → SameBooks st (get_or_create_user c chat un fn token st).0
unfolding get_or_create_user update_user
get_or_create-SameBooks c chat un fn token st = elim (Option-cases (get_user chat st)) [
  | inl n ↦
      rw (n, get_or_create_user) (record { payments = refl; manual_keys = refl; orders = refl })
  | inr (u, h) ↦
      rw (h, get_or_create_user) (record { payments = refl; manual_keys = refl; orders = refl })
]
