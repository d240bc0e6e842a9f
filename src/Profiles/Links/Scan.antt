-- ===== src/Profiles/Links/Scan.antt =====
-- Texts searched and cut as `from_uri` of aegs_config.py does.
use aegs_global.Prelude.{
  ℕ, ◌≡◌, refl, ap, ◌∙◌, Bool, true, ◌&&◌, not, [], ◌∷◌, ◌++◌, arith, ◌==◌, Bytes,
}
use mathlib.Core.List.{reverse, reverse-append, reverse-reverse}
use aegs_global.Bot.Commands.Words.{strip}
use aegs_global.Bot.Promocodes.{is_space, lstrip}
use aegs_global.Profiles.Links.{has_char, before_char, behind_char}

-- Every character of a text passes a test.
unfoldable pub all_of : (ℕ → Bool) → Bytes → Bool
all_of p [] = true
all_of p (x ∷ xs) = p x && all_of p xs

pub all_of-append :
    (p : ℕ → Bool) (xs ys : Bytes)
    → all_of p xs ≡ true
    → all_of p ys ≡ true
    → all_of p (xs ++ ys) ≡ true
unfolding all_of
all_of-append p [] ys h k = k
all_of-append p (x ∷ xs) ys h k = ground (arith, h, all_of-append p xs ys)

pub all_of-weaken :
    (p q : ℕ → Bool)
    → ((c : ℕ) → p c ≡ true → q c ≡ true)
    → (xs : Bytes) → all_of p xs ≡ true
    → all_of q xs ≡ true
unfolding all_of
all_of-weaken p q w [] h = refl
all_of-weaken p q w (x ∷ xs) h = ground (arith, h, w x, all_of-weaken p q w xs)

pub all_of-reverse : (p : ℕ → Bool) (xs : Bytes) → all_of p xs ≡ true → all_of p (reverse xs) ≡ true
unfolding all_of
all_of-reverse p [] h = refl
all_of-reverse p (x ∷ xs) h =
    let (first, rest) = both p x xs h in
    rw (reverse-append (x ∷ []) xs)
      (all_of-append p (reverse xs) (x ∷ []) (all_of-reverse p xs rest) (rw (first) refl))
  where
    both :
        (p : ℕ → Bool) (x : ℕ) (xs : Bytes)
        → (p x && all_of p xs) ≡ true
        → (p x ≡ true) × (all_of p xs ≡ true)
    both p x xs h = ground (arith, h)

abbrev pub no_space : ℕ → Bool
no_space c = not (is_space c)

lstrip-none : (t : Bytes) → all_of no_space t ≡ true → lstrip t ≡ t
unfolding lstrip all_of
lstrip-none [] h = refl
lstrip-none (c ∷ cs) h = ground (arith, h)

-- A text without spaces is stripped to itself.
pub strip-none : (t : Bytes) → all_of no_space t ≡ true → strip t ≡ t
unfolding strip
strip-none t h =
    ap (λ u. reverse (lstrip (reverse u))) (lstrip-none t h)
    ∙ ap reverse (lstrip-none (reverse t) (all_of-reverse no_space t h))
    ∙ reverse-reverse t

pub has_char-append : (c : ℕ) (xs ys : Bytes) → has_char c (xs ++ (c ∷ ys)) ≡ true
unfolding has_char
has_char-append c [] ys = ground arith
has_char-append c (x ∷ xs) ys = ground (arith, has_char-append c xs ys)

abbrev pub other_than : ℕ → ℕ → Bool
other_than c x = not (x == c)

-- A text is cut at the first of a character that its beginning does not hold.
pub before_char-append :
    (c : ℕ) (xs ys : Bytes) → all_of (other_than c) xs ≡ true → before_char c (xs ++ (c ∷ ys)) ≡ xs
unfolding before_char all_of
before_char-append c [] ys h = ground arith
before_char-append c (x ∷ xs) ys h = ground (arith, h, before_char-append c xs ys)

pub behind_char-append :
    (c : ℕ) (xs ys : Bytes) → all_of (other_than c) xs ≡ true → behind_char c (xs ++ (c ∷ ys)) ≡ ys
unfolding behind_char all_of
behind_char-append c [] ys h = ground arith
behind_char-append c (x ∷ xs) ys h = ground (arith, h, behind_char-append c xs ys)
