-- ===== src/Proxy/Bits.antt =====
-- The bits of the integers that scripts/quick_client.py keeps as a window.
use Prim.Native.Nat.{digits, bit_and-bitwise, bit_or-bitwise}
use native.Mathlib.Nat.{pow-suc, mul_assoc}
use aegs_global.Prelude.{
  ℕ, zero, suc, ◌+◌, ◌-◌, ◌*◌, ◌/◌, ◌%◌, ◌^◌, ◌≤◌, ◌<◌, min, max, bit_and, bit_or, ◌≡◌, refl, ap,
  sym, ◌∙◌, arith, ltb, ◌==◌, if◌then◌else◌,
}

-- Bit `i` of a number.
unfoldable pub bit : ℕ → ℕ → ℕ
bit zero x = x % 2
bit (suc i) x = bit i (x / 2)

-- One digit of a bitwise operation, whatever fuel the rest is given.
module _ (stop : ℕ → ℕ) (f : ℕ → ℕ → ℕ) where
  enough : (n m a b : ℕ) → a ≤ n → a ≤ m → digits stop f n a b ≡ digits stop f m a b
  enough zero zero a b p q = refl
  enough zero (suc m) zero b p q = refl
  enough (suc n) zero zero b p q = refl
  enough (suc n) (suc m) zero b p q = refl
  enough zero (suc m) (suc a) b p q = absurd (omega (arith, p))
  enough (suc n) zero (suc a) b p q = absurd (omega (arith, q))
  enough (suc n) (suc m) (suc a) b p q =
      let half = enough n m (suc a / 2) (b / 2) (omega arith) (omega arith) in
      ap (λ h. h * 2 + f (suc a % 2) (b % 2)) half

  next_digit :
      (a b : ℕ)
      → digits stop f (suc a) (suc a) b
        ≡ digits stop f (suc a / 2) (suc a / 2) (b / 2) * 2 + f (suc a % 2) (b % 2)
  next_digit a b =
      ap (λ h. h * 2 + f (suc a % 2) (b % 2))
        (enough a (suc a / 2) (suc a / 2) (b / 2) (omega arith) (omega arith))

pub bit_and-halves : (a b : ℕ) → bit_and a b ≡ bit_and (a / 2) (b / 2) * 2 + min (a % 2) (b % 2)
bit_and-halves zero b = omega (arith, bit_and-bitwise 0 b, bit_and-bitwise 0 (b / 2))
bit_and-halves (suc a) b =
    bit_and-bitwise (suc a) b
    ∙ next_digit (λ b. zero) min a b
    ∙ sym (ap (λ h. h * 2 + min (suc a % 2) (b % 2)) (bit_and-bitwise (suc a / 2) (b / 2)))

pub bit_or-halves : (a b : ℕ) → bit_or a b ≡ bit_or (a / 2) (b / 2) * 2 + max (a % 2) (b % 2)
bit_or-halves zero b = omega (arith, bit_or-bitwise 0 b, bit_or-bitwise 0 (b / 2))
bit_or-halves (suc a) b =
    bit_or-bitwise (suc a) b
    ∙ next_digit (λ b. b) max a b
    ∙ sym (ap (λ h. h * 2 + max (suc a % 2) (b % 2)) (bit_or-bitwise (suc a / 2) (b / 2)))

-- `1 << i`.
unfoldable pub one_at : ℕ → ℕ
one_at zero = 1
one_at (suc i) = one_at i * 2

-- `(1 << n) - 1`.
unfoldable pub ones : ℕ → ℕ
ones zero = 0
ones (suc n) = ones n * 2 + 1

pub one_at-pow : (i : ℕ) → one_at i ≡ 2 ^ i
unfolding one_at
one_at-pow zero = refl
one_at-pow (suc i) = omega (arith, one_at-pow i, pow-suc 2 i)

bit-lt : (i x : ℕ) → bit i x < 2
unfolding bit
bit-lt zero x = omega arith
bit-lt (suc i) x = bit-lt i (x / 2)

bit-zero : (i : ℕ) → bit i 0 ≡ 0
unfolding bit
bit-zero zero = refl
bit-zero (suc i) = bit-zero i

bit_and-zero : (x : ℕ) → (n : ℕ) → x ≤ n → bit_and x 0 ≡ 0
bit_and-zero zero n h = bit_and-bitwise 0 0
bit_and-zero (suc x) zero h = absurd (omega (arith, h))
bit_and-zero (suc x) (suc n) h =
    omega (arith, bit_and-halves (suc x) 0, bit_and-zero (suc x / 2) n (omega (arith, h)))

bit_or-zero : (x : ℕ) → (n : ℕ) → x ≤ n → bit_or x 0 ≡ x
bit_or-zero zero n h = bit_or-bitwise 0 0
bit_or-zero (suc x) zero h = absurd (omega (arith, h))
bit_or-zero (suc x) (suc n) h =
    omega (arith, bit_or-halves (suc x) 0, bit_or-zero (suc x / 2) n (omega (arith, h)))

double_half : (y : ℕ) → y * 2 / 2 ≡ y
double_half y = omega arith

double_even : (y : ℕ) → y * 2 % 2 ≡ 0
double_even y = omega arith

bit_and-double : (x y : ℕ) → bit_and x (y * 2) ≡ bit_and (x / 2) y * 2
bit_and-double x y =
    let e = bit_and-halves x (y * 2) in
    omega (arith, e, ap (bit_and (x / 2)) (double_half y), double_even y)

bit_or-half : (a b : ℕ) → bit_or a b / 2 ≡ bit_or (a / 2) (b / 2)
bit_or-half a b = omega (arith, bit_or-halves a b)

-- The test `x & (1 << i)`.
pub bit_and-one_at : (i x : ℕ) → ltb 0 (bit_and x (one_at i)) ≡ (bit i x == 1)
unfolding bit one_at
bit_and-one_at zero x =
    ground (arith, bit_and-halves x 1, bit_and-zero (x / 2) (x / 2) (omega arith))
bit_and-one_at (suc i) x = ground (arith, bit_and-double x (one_at i), bit_and-one_at i (x / 2))

-- Setting bit `i`.
pub bit-bit_or : (i j x : ℕ) → bit j (bit_or x (one_at i)) ≡ (if i == j then 1 else bit j x)
unfolding bit one_at
bit-bit_or zero zero x = ground (arith, bit_or-halves x 1)
bit-bit_or zero (suc j) x =
    let e : bit_or x 1 / 2 ≡ x / 2 = bit_or-half x 1 ∙ bit_or-zero (x / 2) (x / 2) (omega arith) in
    rw (e) (ground arith)
bit-bit_or (suc i) zero x = ground (arith, bit_or-halves x (one_at i * 2))
bit-bit_or (suc i) (suc j) x =
    let e : bit_or x (one_at i * 2) / 2 ≡ bit_or (x / 2) (one_at i) =
      bit_or-half x (one_at i * 2) ∙ ap (bit_or (x / 2)) (double_half (one_at i)) in
    rw (e) (ground (arith, bit-bit_or i j (x / 2)))

-- The mask of the lowest `n` bits.
pub bit-ones : (n j x : ℕ) → bit j (bit_and x (ones n)) ≡ (if ltb j n then bit j x else 0)
unfolding bit ones
bit-ones zero j x = rw (bit_and-zero x x (omega arith)) (ground (arith, bit-zero j))
bit-ones (suc n) zero x = ground (arith, bit_and-halves x (ones n * 2 + 1))
bit-ones (suc n) (suc j) x =
    let half : (ones n * 2 + 1) / 2 ≡ ones n = omega arith in
    let e : bit_and x (ones n * 2 + 1) / 2 ≡ bit_and (x / 2) (ones n) =
      omega (arith, bit_and-halves x (ones n * 2 + 1), ap (bit_and (x / 2)) half) in
    rw (e) (ground (arith, bit-ones n j (x / 2)))

shift_out : (x y : ℕ) → x * (y * 2) ≡ x * y * 2
shift_out x y = sym (mul_assoc x y 2)

-- `x << d`.
pub bit-shl : (d j x : ℕ) → bit j (x * one_at d) ≡ (if ltb j d then 0 else bit (j - d) x)
unfolding bit one_at
bit-shl zero j x =
    let e : x * 1 ≡ x = omega arith in let m : j - 0 ≡ j = omega arith in rw (e, m) (ground arith)
bit-shl (suc d) zero x = rw (shift_out x (one_at d), double_even (x * one_at d)) (ground arith)
bit-shl (suc d) (suc j) x =
    let m : suc j - suc d ≡ j - d = omega arith in
    rw (shift_out x (one_at d), double_half (x * one_at d), m) (ground (arith, bit-shl d j x))
