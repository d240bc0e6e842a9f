-- ===== src/Bot/Commands/Numbers.antt =====
-- A number that tools/telegram_bot writes into a text, and reads there.
use aegs_global.Prelude.{
  ℕ, zero, suc, ◌+◌, ◌-◌, ◌*◌, ◌/◌, ◌%◌, ◌<◌, ◌≡◌, refl, ◌∙◌, true, [], ◌∷◌, ◌++◌, arith, length,
  length-append, ltb, ltb→ge, ltb→lt, Bool-cases, inl, inr,
}
use aegs_global.Bot.State.{Text}
use aegs_global.Bot.Sync.{digits, show_nat}
use aegs_global.Bot.Commands.Words.{is_digit, all_digits, value, int_or}

all_digits-append :
    (a : Text) (c : ℕ) → all_digits a ≡ true → is_digit c ≡ true → all_digits (a ++ (c ∷ [])) ≡ true
unfolding all_digits
all_digits-append [] c h k = ground (arith, h, k)
all_digits-append (x ∷ xs) c h k = ground (arith, h, k, all_digits-append xs c)

value-append : (n : ℕ) (a : Text) (c : ℕ) → value n (a ++ (c ∷ [])) ≡ 10 * value n a + (c - 48)
unfolding value
value-append n [] c = refl
value-append n (x ∷ xs) c = value-append (10 * n + (x - 48)) xs c

is_digit-add : (n : ℕ) → n < 10 → is_digit (48 + n) ≡ true
is_digit-add n h = ground arith

-- Enough fuel gives digits only, whose value is the number.
pub digits_lem : (f n : ℕ) → n < f → (all_digits (digits f n) ≡ true) × (value 0 (digits f n) ≡ n)
unfolding digits all_digits value
digits_lem zero n h = absurd (omega (arith, h))
digits_lem (suc f) n h = elim (Bool-cases (ltb n 10)) [
  | inl y ↦ let small = ltb→lt n 10 y in rw (y) (rw (is_digit-add n small) refl, omega arith)
  | inr m ↦
      let big = ltb→ge n 10 m in
      let (all, val) = digits_lem f (n / 10) (omega (arith, big, h)) in
      rw (m) (
        all_digits-append (digits f (n / 10)) (48 + n % 10) all
            (is_digit-add (n % 10) (omega arith)),
        value-append 0 (digits f (n / 10)) (48 + n % 10) ∙ omega (arith, val),
      )
]

digits-longer : (f n : ℕ) → 0 < length (digits (suc f) n)
unfolding digits
digits-longer f n = elim (Bool-cases (ltb n 10)) [
  | inl y ↦ rw (y) (omega arith)
  | inr m ↦ rw (m) (omega (arith, length-append (digits f (n / 10)) ((48 + n % 10) ∷ [])))
]

int_or-value :
    (default n : ℕ) (t : Text)
    → 0 < length t
    → all_digits t ≡ true
    → value 0 t ≡ n
    → int_or default t ≡ n
unfolding int_or
int_or-value default n [] long a v = absurd (omega (arith, long))
int_or-value default n (c ∷ cs) long a v = rw (a) v

-- The decimal digits of a number, as the bot writes it into a name or a link, are read back as the
-- number itself, whatever the default is: the digits never run out before the number does.
pub int_or-show_nat : (default n : ℕ) → int_or default (show_nat n) ≡ n
unfolding show_nat
int_or-show_nat default n =
    let (all, val) = digits_lem (suc n) n (omega arith) in
    int_or-value default n (digits (suc n) n) (digits-longer n n) all val

pub all_digits-show_nat : (n : ℕ) → all_digits (show_nat n) ≡ true
unfolding show_nat
all_digits-show_nat n = (digits_lem (suc n) n (omega arith)).0
