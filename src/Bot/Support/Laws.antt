-- ===== src/Bot/Support/Laws.antt =====
-- The support tickets of tools/telegram_bot/database.py.
use aegs_global.Prelude.{
  by_number, ℕ, ◌+◌, ◌≡◌, refl, Option-cases, inl, inr, update_where, if◌then◌else◌, false, Option,
  none, some, arith, List, [], ◌∷◌, ◌++◌, leb, ◌==◌, exists, find, find-append, find-append_other,
  find-update_where, find-update_where_other, find-holds, update_where_absent,
}
use mathlib.Core.Option
use aegs_global.Bot.State.{Text, Ticket, open_ticket, closed, Store, stamp}
use aegs_global.Bot.Support.{is_ticket, create_support_ticket, get_ticket, reply_support_ticket}

-- No row has a number that is still to be given.
unfoldable pub IsNumbered : Store → Type 0
IsNumbered st = exists (λ t. leb st.next_ticket t.ticket_id) st.tickets ≡ false

numbers-none :
    (n : ℕ) (ts : List Ticket)
    → exists (λ t. leb n t.ticket_id) ts ≡ false
    → find (is_ticket n) ts ≡ none
unfolding exists find
numbers-none n [] h = refl
numbers-none n (t ∷ ts) h = ground (arith, numbers-none n ts, h)

numbers-append :
    (n : ℕ) (ts : List Ticket) (t : Ticket)
    → exists (λ t. leb n t.ticket_id) ts ≡ false
    → t.ticket_id ≡ n
    → exists (λ t. leb (n + 1) t.ticket_id) (ts ++ (t ∷ [])) ≡ false
unfolding exists
numbers-append n [] t h e = ground (arith, e)
numbers-append n (x ∷ ts) t h e = ground (arith, numbers-append n ts t, h, e)

-- The ticket of a question that has just been asked.
abbrev pub asked : ℕ → ℕ → Option Text → Text → Ticket
asked id user username question = record {
  ticket_id = id;
  user_id = user;
  username = username;
  question = question;
  reply = none;
  admin_id = none;
  status = open_ticket;
  answered_at = none;
}

-- Where no ticket has a number that is still to be given: a new ticket is found under the number that
-- the call returns, open and without a reply, every other number finds what it found before, and again
-- no ticket has a number that is still to be given.
create_support_ticket_lem :
    (user : ℕ) (username : Option Text) (question : Text) (st : Store)
    → IsNumbered st
    → let (st', id) = create_support_ticket user username question st in
      IsNumbered st'
      × ((j : ℕ)
          → get_ticket j st'
            ≡ (if j == id then some (asked id user username question) else get_ticket j st))
unfolding create_support_ticket get_ticket IsNumbered
create_support_ticket_lem user username question st h =
    let t = asked st.next_ticket user username question in
    (
      numbers-append st.next_ticket st.tickets t h refl,
      by_number st.next_ticket (some t) (λ j. get_ticket j st)
          (λ j. find (is_ticket j) (st.tickets ++ (t ∷ [])))
          (find-append (is_ticket st.next_ticket) st.tickets t
            (numbers-none st.next_ticket st.tickets h) (ground arith))
          (λ j ne. find-append_other (is_ticket j) st.tickets t (ground (arith, ne))),
    )

-- What a reply makes of a ticket.
abbrev replied : ℕ → ℕ → Text → Ticket → Ticket
replied now admin text t = record t {
  reply = some text;
  admin_id = some admin;
  status = closed;
  answered_at = some (stamp now);
}

-- The reply to a ticket that is there closes it with the text, the administrator and the moment, and
-- returns it so; for a number that no ticket has it returns nothing; and every other number finds what
-- it found before.
reply_support_ticket_lem :
    (now id admin : ℕ) (text : Text) (st : Store)
    → let (st', answer) = reply_support_ticket now id admin text st in
      (answer ≡ Option.map (replied now admin text) (get_ticket id st))
      × ((j : ℕ)
          → get_ticket j st' ≡ (
              if j == id
              then Option.map (replied now admin text) (get_ticket id st)
              else get_ticket j st))
unfolding reply_support_ticket get_ticket
reply_support_ticket_lem now id admin text st =
    let own = replied-row now id admin text st.tickets in
    (
      own,
      by_number id (Option.map (replied now admin text) (get_ticket id st)) (λ j. get_ticket j st)
          (λ j.
            find (is_ticket j) (update_where (is_ticket id) (replied now admin text) st.tickets))
          own
          (λ j ne.
            find-update_where_other (is_ticket j) (is_ticket id) _ st.tickets
              (λ x e. ground (arith, ne, e)) (λ x e. ground (arith, ne, e))),
    )
  where
    replied-row :
        (now id admin : ℕ) (text : Text) (ts : List Ticket)
        → find (is_ticket id) (update_where (is_ticket id) (replied now admin text) ts)
          ≡ Option.map (replied now admin text) (find (is_ticket id) ts)
    replied-row now id admin text ts = elim (Option-cases (find (is_ticket id) ts)) [
      | inl n ↦ rw (update_where_absent (is_ticket id) (replied now admin text) ts n, n) refl
      | inr (t, h) ↦
          rw
            (
              find-update_where (is_ticket id) (replied now admin text) ts t
                  (find-holds (is_ticket id) ts t h) h,
              h,
            )
            refl
    ]
