-- ===== src/Bot/Access/Tests.antt =====
-- A run of calls of tools/telegram_bot: a user comes and orders thirty days, which the administrator
-- approves.
use aegs_global.Prelude.{ℕ, List, update_where, ◌≡◌, refl, true, none, some, [], ◌∷◌, exists, find}
use aegs_global.Bot.Access.Kept.{IsFresh}
use aegs_global.Bot.Access.Reach.{Reached, meets, orders, approves, first, call, Reached-accepted}
use aegs_global.Bot.Commands.{Env, BotState}
use aegs_global.Bot.Commands.Handlers.{handle_start}
use aegs_global.Bot.Commands.Polled.{poll-accepted}
use aegs_global.Bot.Commands.Updates.{Update, process_message, message, process_update, poll}
use aegs_global.Bot.Orders.{settle, create_order, get_order, approve_order}
use aegs_global.Bot.State.{writable, Text, User, Store, Result, returns, raises, add_days}
use aegs_global.Bot.Subscriptions.{renewed, new_expiry, extend_subscription}
use aegs_global.Bot.Sync.{sync_add_user_to_server, has_key, compute_key_id, show_nat}
use aegs_global.Bot.Users.{update_user, get_user, new_user, get_or_create_user}
use aegs_global.Crypto.Labels.{codes}
use aegs_global.Crypto.Toy.{toy}

abbrev before_all : Store
before_all = record {
  users = [];
  payments = [];
  promocodes = [];
  promocode_uses = [];
  tickets = [];
  next_ticket = 1;
  manual_keys = [];
  orders = [];
  server_users = [];
  server_db = writable;
}

program : Unit {0}
unfolding get_user new_expiry add_days exists find get_order show_nat create_order
    get_or_create_user
program = tt

key_of_seven : IsFresh (compute_key_id toy (1 ∷ [])) before_all
unfolding get_user find exists
key_of_seven = record { no_user = λ j e. cc (e); no_row = refl }

abbrev known : Store
known = (get_or_create_user toy 7 none (65 ∷ []) (1 ∷ []) before_all).0

-- The order that the user places, and what its approval leaves.
abbrev order : Store → Result (Store × Text)
order = create_order 10000 7 none (65 ∷ []) (109 ∷ []) 149 (82 ∷ [])

ordered : Store
unfolding create_order get_or_create_user
ordered = elim (order known) [ raises ↦ known | returns (st, id) ↦ st ]

has_ordered : order known ≡ returns (ordered, codes "ORD-10000")
unfolding ordered program
has_ordered = refl

approved_store : Store
unfolding approve_order
approved_store = elim (approve_order 100000000 (codes "ORD-10000") 1 ordered) [
  | raises ↦ ordered
  | returns (st, done) ↦ st
]

has_approved :
    approve_order 100000000 (codes "ORD-10000") 1 ordered ≡ returns (approved_store, true)
unfolding approved_store program extend_subscription ordered new_user
has_approved = refl

run : Reached toy approved_store
run =
    call ordered approved_store
      (call known ordered
        (call before_all known (first before_all refl refl tt)
          (meets 7 none (65 ∷ []) (1 ∷ []) key_of_seven))
        (orders 10000 7 none (65 ∷ []) (109 ∷ []) 149 (82 ∷ []) ordered (codes "ORD-10000")
          has_ordered))
      (approves 100000000 (codes "ORD-10000") 1 approved_store true has_approved)

the_user : User
unfolding get_user
the_user = elim (get_user 7 approved_store) [ none ↦ new_user toy 7 none [] [] | some u ↦ u ]

has_user : get_user 7 approved_store ≡ some the_user
unfolding the_user program approved_store extend_subscription ordered new_user settle
    sync_add_user_to_server update_user update_where renewed
has_user = refl

is_switched_on : the_user.is_active ≡ true
unfolding the_user program approved_store extend_subscription ordered new_user settle
    sync_add_user_to_server update_user update_where renewed
is_switched_on = refl

Reached-accepted_example :
    exists (has_key the_user.aegs_key_id) approved_store.server_users ≡ the_user.is_active
Reached-accepted_example = Reached-accepted toy approved_store run 7 the_user has_user

abbrev env : Env
env = record {
  now = 100000000;
  token = 1 ∷ [];
  order_number = 10000;
  edit_ok = λ chat mid. true;
  caption_ok = λ chat mid. true;
  send_ok = λ chat. true;
  has_picture = λ t. true;
  apk = none;
  server_ip = [];
  server_port = 0;
}

abbrev new_bot : BotState
new_bot = record { store = before_all; admin_ids = [] }

-- One user writes for the first time.
abbrev first_update : List (Env × ℕ × Update)
first_update = (env, 1, message 7 none (65 ∷ []) (codes "/start")) ∷ []

abbrev greeted : User
greeted = new_user toy 7 none (65 ∷ []) (1 ∷ [])

is_greeted : get_user 7 (poll toy first_update 0 new_bot).1.store ≡ some greeted
unfolding program poll process_update process_message handle_start new_user
is_greeted = refl

poll-accepted_example :
    exists (has_key greeted.aegs_key_id) (poll toy first_update 0 new_bot).1.store.server_users
    ≡ greeted.is_active
poll-accepted_example =
    poll-accepted toy first_update 0 new_bot (first before_all refl refl tt) (key_of_seven, tt) 7
      greeted is_greeted
