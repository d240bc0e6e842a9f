-- ===== src/Proxy/Window/Log.antt =====
-- The numbers that scripts/quick_client.py has let through, and the window that stands for them.
use aegs_global.Prelude.{
  ℕ, zero, suc, ◌+◌, ◌-◌, ◌≤◌, ◌<◌, max, ◌≡◌, refl, inl, inr, arith, Bool, true, false, ◌&&◌, ◌||◌,
  not, List, [], ◌∷◌, ltb, ◌==◌, Bool-cases,
}
use aegs_global.Proxy.Bits.{bit, ones}
use aegs_global.Proxy.Window.{ReplayWindow, no_packets}

-- The specification keeps every number that it has let through.
abbrev pub Log : Type 0
Log = List ℕ

unfoldable pub highest : Log → ℕ
highest [] = 0
highest (m ∷ log) = max m (highest log)

unfoldable pub has : ℕ → Log → Bool
has n [] = false
has n (m ∷ log) = m == n || has n log

-- A number is let through if it is not 0, is new, and is less than 64 below the highest.
unfoldable pub is_fresh : ℕ → Log → Bool
is_fresh n log = not (n == 0) && (not (has n log) && ltb (highest log) (n + 64))

unfoldable pub log_verdicts : Log → List ℕ → List Bool
log_verdicts log [] = []
log_verdicts log (n ∷ ns) = elim (is_fresh n log) [
  | true ↦ false ∷ log_verdicts (n ∷ log) ns
  | false ↦ true ∷ log_verdicts log ns
]

-- The window stands for the log.
pub record Holds (r : ReplayWindow) (log : Log) : Type 0 where
  pub last : r.last_seq ≡ highest log
  pub bits :
      (m : ℕ)
      → 0 < m
      → m ≤ r.last_seq
      → r.last_seq < m + 64
      → (bit (r.last_seq - m) r.bitmap == 1) ≡ has m log

pub no_packets-Holds : Holds no_packets []
unfolding highest
no_packets-Holds = record { last = refl; bits = λ m p q h. absurd (omega (arith, p, q)) }

le-highest : (n : ℕ) (log : Log) → has n log ≡ true → n ≤ highest log
unfolding has highest
le-highest n [] h = ground (arith, h)
le-highest n (m ∷ log) h = ground (arith, le-highest n log, h)

pub above : (n : ℕ) (log : Log) → highest log < n → has n log ≡ false
above n log h = elim (Bool-cases (has n log)) [
  | inl y ↦ absurd (omega (arith, le-highest n log y, h))
  | inr f ↦ f
]

pub bit-one : (j : ℕ) → bit (suc j) 1 ≡ 0
unfolding bit
bit-one zero = refl
bit-one (suc j) = bit_zero j
  where
    bit_zero : (j : ℕ) → bit (suc j) 0 ≡ 0
    bit_zero zero = refl
    bit_zero (suc j) = bit_zero j

pub all_ones : ones 64 ≡ 0xffffffffffffffff
unfolding ones
all_ones = refl
