-- ===== src/Prelude/Octets.antt =====
-- Byte strings as lists of numbers: equality, and the integers of Python's `struct`.
use Prim.Native.Nat.{ℕ, zero, suc, ◌+◌, ◌-◌, ◌*◌, ◌/◌, ◌%◌, ◌^◌, ◌<◌}
use mathlib.Core.Bool.{Bool, false, true, ◌&&◌}
use mathlib.Core.List.{List, [], ◌∷◌, ◌++◌}
use mathlib.Core.Path.{ap, ap₂, refl, sym, ◌≡◌, ◌∙◌}
use native.Mathlib.Nat.{pow-suc}
use native.Mathlib.Omega.{arith}
use aegs_global.Prelude.Tests.{◌==◌}
use aegs_global.Prelude.Lists.{length, take, drop, slice, take-append, drop-append}

abbrev pub Bytes : Type 0
Bytes = List ℕ

abbrev pub bytes_eq : Bytes → Bytes → Bool
bytes_eq [] [] = true
bytes_eq [] (y ∷ ys) = false
bytes_eq (x ∷ xs) [] = false
bytes_eq (x ∷ xs) (y ∷ ys) = x == y && bytes_eq xs ys

pub bytes_eq_refl : (xs : Bytes) → bytes_eq xs xs ≡ true
bytes_eq_refl [] = refl
bytes_eq_refl (x ∷ xs) = ground (arith, bytes_eq_refl xs)

pub bytes_eq→eq : (xs ys : Bytes) → bytes_eq xs ys ≡ true → xs ≡ ys
bytes_eq→eq [] [] h = refl
bytes_eq→eq [] (y ∷ ys) h = ground arith
bytes_eq→eq (x ∷ xs) [] h = ground arith
bytes_eq→eq (x ∷ xs) (y ∷ ys) h = ground (arith, bytes_eq→eq xs ys)

-- Big-endian and little-endian numbers of a byte string.
abbrev pub of_le : Bytes → ℕ
of_le [] = 0
of_le (x ∷ xs) = x + 256 * of_le xs

abbrev pub to_le : ℕ → ℕ → Bytes
to_le zero n = []
to_le (suc k) n = (n % 256) ∷ to_le k (n / 256)

pub of_le-to_le : (k n : ℕ) → n < 256 ^ k → of_le (to_le k n) ≡ n
of_le-to_le zero n h = omega arith
of_le-to_le (suc k) n h = omega (arith, of_le-to_le k (n / 256) (grind (arith, pow-suc 256 k)))

pub length-to_le : (k n : ℕ) → length (to_le k n) ≡ k
length-to_le zero n = refl
length-to_le (suc k) n = ap suc (length-to_le k (n / 256))

abbrev pub be16 : ℕ → Bytes
be16 n = (n / 256 % 256) ∷ (n % 256) ∷ []

abbrev pub of_be16 : Bytes → ℕ
of_be16 (a ∷ b ∷ _) = a * 256 + b
of_be16 _ = 0

abbrev pub be32 : ℕ → Bytes
be32 n = (n / 16777216 % 256) ∷ (n / 65536 % 256) ∷ (n / 256 % 256) ∷ (n % 256) ∷ []

abbrev pub of_be32 : Bytes → ℕ
of_be32 (a ∷ b ∷ c ∷ d ∷ _) = ((a * 256 + b) * 256 + c) * 256 + d
of_be32 _ = 0

module _ {ℓ} {A : Type ℓ} where
  pub drop-append_add : (xs ys : List A) (n : ℕ) → drop (length xs + n) (xs ++ ys) ≡ drop n ys
  drop-append_add [] ys n = ap (λ k. drop k ys) (omega arith)
  drop-append_add (x ∷ xs) ys n =
      let e : suc (length xs) + n ≡ suc (length xs + n) = omega arith in
      ap (λ k. drop k (x ∷ (xs ++ ys))) e ∙ drop-append_add xs ys n

  -- A slice that begins after a prefix of known length.
  pub slice-append_right :
      (xs ys : List A) (n a b : ℕ) → length xs ≡ n → slice (n + a) (n + b) (xs ++ ys) ≡ slice a b ys
  slice-append_right xs ys n a b h =
      ap₂ take (omega arith) (ap (λ k. drop (k + a) (xs ++ ys)) (sym h) ∙ drop-append_add xs ys a)

  pub take-append_eq : (xs ys : List A) (n : ℕ) → length xs ≡ n → take n (xs ++ ys) ≡ xs
  take-append_eq xs ys n h = ap (λ k. take k (xs ++ ys)) (sym h) ∙ take-append xs ys

  pub drop-append_eq : (xs ys : List A) (n : ℕ) → length xs ≡ n → drop n (xs ++ ys) ≡ ys
  drop-append_eq xs ys n h = ap (λ k. drop k (xs ++ ys)) (sym h) ∙ drop-append xs ys

  -- The middle of three parts.
  pub slice-middle :
      (xs ys zs : List A) (a b : ℕ)
      → length xs ≡ a
      → length ys + a ≡ b
      → slice a b (xs ++ (ys ++ zs)) ≡ ys
  slice-middle xs ys zs a b h k =
      ap (take (b - a)) (drop-append_eq xs (ys ++ zs) a h)
      ∙ take-append_eq ys zs (b - a) (omega arith)
