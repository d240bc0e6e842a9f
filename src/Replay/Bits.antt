-- ===== src/Replay/Bits.antt =====
-- Facts about one byte of the window, each checked at every byte value by evaluation.
use aegs_global.Prelude.{
  ℕ, zero, suc, ◌+◌, ◌-◌, ◌%◌, ◌^◌, ◌<◌, bit_and, bit_or, ◌≡◌, refl, ◌≢◌, Bool, true, ◌&&◌, ◌||◌,
  arith, ltb, ◌==◌, ==_iff, ltb→lt,
}
use aegs_global.Replay.{shl, shr}

all_below : ℕ → (ℕ → Bool) → Bool
all_below zero p = true
all_below (suc n) p = p n && all_below n p

all_below_lem : (n : ℕ) (p : ℕ → Bool) (x : ℕ) → all_below n p ≡ true → x < n → p x ≡ true
unfolding all_below
all_below_lem zero p x h lt = absurd (omega arith)
all_below_lem (suc n) p x h lt = ground (arith, all_below_lem n p x)

module _ (k : ℕ) (p : ℕ → ℕ → Bool) where
  -- A table over a byte and a number below `k`.
  all_bytes_lem :
      (b i : ℕ) → all_below k (λ j. all_below 256 (p j)) ≡ true → b < 256 → i < k → p i b ≡ true
  all_bytes_lem b i h hb hi =
      all_below_lem 256 (p i) b (all_below_lem k (λ j. all_below 256 (p j)) i h hi) hb

abbrev lit : ℕ → ℕ → Bool
lit b i = ltb 0 (bit_and b (shl 1 i))

or_table :
    all_below 8 (λ i. all_below 256 λ b. lit (bit_or b (shl 1 i)) i && ltb (bit_or b (shl 1 i)) 256)
    ≡ true
unfolding all_below
or_table = refl

pub bit_or_lit : (b i : ℕ) → b < 256 → i < 8 → ltb 0 (bit_and (bit_or b (shl 1 i)) (shl 1 i)) ≡ true
bit_or_lit b i hb hi = ground (
  arith,
  all_bytes_lem 8 (λ i b. lit (bit_or b (shl 1 i)) i && ltb (bit_or b (shl 1 i)) 256) b i or_table
      hb hi,
)

pub bit_or-lt : (b i : ℕ) → b < 256 → i < 8 → bit_or b (shl 1 i) < 256
bit_or-lt b i hb hi = ground (
  arith,
  all_bytes_lem 8 (λ i b. lit (bit_or b (shl 1 i)) i && ltb (bit_or b (shl 1 i)) 256) b i or_table
      hb hi,
)

abbrev same : ℕ → ℕ → ℕ → Bool
same j i b = i == j || (bit_and (bit_or b (shl 1 i)) (shl 1 j) == bit_and b (shl 1 j))

other_table : all_below 8 (λ j. all_below 8 λ i. all_below 256 (same j i)) ≡ true
unfolding all_below
other_table = refl

-- Setting a bit leaves the others.
pub bit_or_other :
    (b i j : ℕ)
    → b < 256
    → i < 8
    → j < 8
    → i ≢ j
    → bit_and (bit_or b (shl 1 i)) (shl 1 j) ≡ bit_and b (shl 1 j)
bit_or_other b i j hb hi hj ne = ground (
  arith,
  all_bytes_lem 8 (same j) b i
      (all_below_lem 8 (λ j. all_below 8 λ i. all_below 256 (same j i)) j other_table hj) hb hi,
)

abbrev keeps : ℕ → ℕ → Bool
keeps k b = bit_and (shr b (8 - k)) 0xff == shr b (8 - k)

keeps_table : all_below 8 (λ k. all_below 256 (keeps k)) ≡ true
unfolding all_below
keeps_table = refl

pub bit_and_carry : (b k : ℕ) → b < 256 → k < 8 → bit_and (shr b (8 - k)) 0xff ≡ shr b (8 - k)
bit_and_carry b k hb hk = (==_iff _ _).0 (all_bytes_lem 8 keeps b k keeps_table hb hk)

abbrev joins : ℕ → ℕ → ℕ → Bool
joins k c b = bit_and (bit_or (shl b k) c) 0xff == (shl b k + c) % 256

joins_table : all_below 8 (λ k. all_below (2 ^ k) λ c. all_below 256 (joins k c)) ≡ true
unfolding all_below
joins_table = refl

pub bit_or_carry :
    (b c k : ℕ)
    → b < 256
    → k < 8
    → c < 2 ^ k
    → bit_and (bit_or (shl b k) c) 0xff ≡ (shl b k + c) % 256
bit_or_carry b c k hb hk hc = (==_iff _ _).0 (
    all_bytes_lem (2 ^ k) (joins k) b c
      (all_below_lem 8 (λ k. all_below (2 ^ k) λ c. all_below 256 (joins k c)) k joins_table hk) hb
      hc)

abbrev small : ℕ → ℕ → Bool
small k b = ltb (shr b (8 - k)) (2 ^ k)

small_table : all_below 8 (λ k. all_below 256 (small k)) ≡ true
unfolding all_below
small_table = refl

pub shr-lt : (b k : ℕ) → b < 256 → k < 8 → shr b (8 - k) < 2 ^ k
shr-lt b k hb hk = ltb→lt _ _ (all_bytes_lem 8 small b k small_table hb hk)
