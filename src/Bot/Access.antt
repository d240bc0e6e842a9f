-- ===== src/Bot/Access.antt =====
-- Which keys the VPN server accepts, beside the users of tools/telegram_bot/database.py.
pub mod Names
pub mod Rows
pub mod Moves
pub mod Calls
pub mod Kept
pub mod Switches
pub mod Rest
pub mod Passes
pub mod Reach
mod Tests
use aegs_global.Prelude.{
  ℕ, ◌≡◌, Bool, true, false, Option, none, some, List, [], ◌∷◌, bytes_eq, exists, if◌then◌else◌,
}
use mathlib.Core.Option
use aegs_global.Bot.Commands.Words.{after_prefix, is_digit, value}
use aegs_global.Bot.State.{Text, User, ServerUser, Store}
use aegs_global.Bot.Sync.{has_key}
use aegs_global.Bot.Users.{get_user}
use aegs_global.Crypto.Labels.{codes}

-- The key of a user, and whether the user is active.
abbrev pub key_of : Store → ℕ → Option Text
key_of st id = Option.map (λ u. u.aegs_key_id) (get_user id st)

abbrev pub active_of : Store → ℕ → Bool
active_of st id = elim (get_user id st) [ none ↦ false | some u ↦ u.is_active ]

unfoldable pub leading_digits : Text → Text
leading_digits [] = []
leading_digits (c ∷ cs) = let r = leading_digits cs in if is_digit c then c ∷ r else []

-- The user whose row the VPN server keeps under a name.
unfoldable pub owner : Text → Option ℕ
unfolding leading_digits after_prefix value
owner name = Option.map (λ r. value 0 (leading_digits r)) (after_prefix (codes "tg_") name)

-- A row under a user's name carries that user's key, and any other row a key that no user has.
pub record Fits (keys : ℕ → Option Text) (r : ServerUser) : Type 0 where
  pub mine : (id : ℕ) → owner r.username ≡ some id → keys id ≡ some r.aegis_key_id
  pub stray :
      owner r.username ≡ none
      → (id : ℕ) (k : Text) → keys id ≡ some k
      → bytes_eq r.aegis_key_id k ≡ false

abbrev pub AllFit : (ℕ → Option Text) → List ServerUser → Type 0
AllFit keys [] = Unit {0}
AllFit keys (r ∷ rs) = Fits keys r × AllFit keys rs

-- The keys of the users differ, every row fits, and a user's key is accepted just while the user is
-- active.
pub record InStep (keys : ℕ → Option Text) (active : ℕ → Bool) (rows : List ServerUser)
    : Type 0 where
  pub apart : (i j : ℕ) (k : Text) → keys i ≡ some k → keys j ≡ some k → i ≡ j
  pub rows_fit : AllFit keys rows
  pub accepted : (id : ℕ) (k : Text) → keys id ≡ some k → exists (has_key k) rows ≡ active id
