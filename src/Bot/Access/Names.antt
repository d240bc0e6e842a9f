-- ===== src/Bot/Access/Names.antt =====
-- The names under which the calls of tools/telegram_bot put rows into the VPN server's table.
use aegs_global.Prelude.{
  ℕ, suc, Option, ◌≡◌, refl, ap, ◌∙◌, true, none, some, [], ◌∷◌, ◌++◌, arith, take, select,
}
use aegs_global.Bot.Access.{owner, leading_digits}
use aegs_global.Bot.Commands.Numbers.{digits_lem, all_digits-show_nat}
use aegs_global.Bot.Commands.Words.{after_prefix, all_digits, value}
use aegs_global.Bot.State.{Text}
use aegs_global.Bot.Subscriptions.{server_name}
use aegs_global.Bot.Support.{manual_name, is_safe}
use aegs_global.Bot.Sync.{show_nat}
use aegs_global.Crypto.Labels.{codes}

leading_digits-all : (a : Text) → all_digits a ≡ true → leading_digits a ≡ a
unfolding leading_digits all_digits
leading_digits-all [] h = refl
leading_digits-all (c ∷ cs) h = ground (arith, h, leading_digits-all cs)

leading_digits-append : (a r : Text) → all_digits a ≡ true → leading_digits (a ++ (95 ∷ r)) ≡ a
unfolding leading_digits all_digits
leading_digits-append [] r h = refl
leading_digits-append (c ∷ cs) r h = ground (arith, h, leading_digits-append cs r)

value-show_nat : (n : ℕ) → value 0 (show_nat n) ≡ n
unfolding show_nat
value-show_nat n = (digits_lem (suc n) n (omega arith)).1

pub owner-short : (id : ℕ) → owner (codes "tg_" ++ show_nat id) ≡ some id
unfolding owner after_prefix
owner-short id =
    ap (λ t. some (value 0 t)) (leading_digits-all (show_nat id) (all_digits-show_nat id))
    ∙ ap (λ n. some n) (value-show_nat id)

owner-long : (id : ℕ) (r : Text) → owner (codes "tg_" ++ (show_nat id ++ (95 ∷ r))) ≡ some id
unfolding owner after_prefix
owner-long id r =
    ap (λ t. some (value 0 t)) (leading_digits-append (show_nat id) r (all_digits-show_nat id))
    ∙ ap (λ n. some n) (value-show_nat id)

pub owner-server_name :
    (id : ℕ) (username : Option Text) → owner (server_name id username) ≡ some id
unfolding server_name
owner-server_name id none = owner-long id (codes "user")
owner-server_name id (some []) = owner-long id (codes "user")
owner-server_name id (some (x ∷ xs)) = owner-long id (x ∷ xs)

pub owner-manual_name : (note key : Text) → owner (manual_name note key) ≡ none
unfolding manual_name owner after_prefix
owner-manual_name note key = named (take 16 (select is_safe note))
  where
    named :
        (w : Text)
        → owner (elim w as (λ x. Text) [
          | [] ↦ codes "manual_" ++ take 8 key
          | x ∷ xs ↦ codes "manual_" ++ ((x ∷ xs) ++ (codes "_" ++ take 6 key))
        ])
          ≡ none
    named [] = refl
    named (x ∷ xs) = refl
