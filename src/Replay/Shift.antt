-- ===== src/Replay/Shift.antt =====
-- The bit shift of the window (the loop over `range(len(self.window) - 1, -1, -1)` in aegs_server.py).
use aegs_global.Prelude.{
  ℕ, zero, suc, ◌+◌, ◌-◌, ◌*◌, ◌/◌, ◌%◌, ◌^◌, ◌≤◌, ◌<◌, ◌≡◌, refl, ◌∙◌, List, arith, length, get_or,
  set, take, replicate, ◌==◌, if◌then◌else◌, ltb, length-set, get_or-set_self, get_or-set_ne,
  length-append, length-replicate, length-take, get_or_of_length-le, get_or-append_left,
  get_or-append_right, get_or-take, get_or-replicate,
}
use aegs_global.Replay.{shl, shr, shift_bytes, shift_bits}
use aegs_global.Replay.Bits.{bit_and_carry, bit_or_carry, shr-lt}

abbrev pub IsBytes : List ℕ → Type 0
IsBytes w = (i : ℕ) → get_or w i 0 < 256

-- What the loop stores in byte `i` of the `n` bytes that it goes through.
abbrev pub shifted : ℕ → ℕ → ℕ → List ℕ → ℕ → ℕ
shifted n k carry w i =
    (get_or w i 0 * 2 ^ k + (if suc i == n then carry else get_or w (suc i) 0 / 2 ^ (8 - k))) % 256

pub length-shift_bits : (n k carry : ℕ) (w : List ℕ) → length (shift_bits n k carry w) ≡ length w
unfolding shift_bits
length-shift_bits zero k carry w = refl
length-shift_bits (suc n) k carry w = length-shift_bits n k _ (set w n _) ∙ length-set w n _

IsBytes-set : (w : List ℕ) (n v : ℕ) → n < length w → IsBytes w → v < 256 → IsBytes (set w n v)
IsBytes-set w n v h hw hv i = grind (arith, get_or-set_self w n v 0, get_or-set_ne w n i v 0, hw i)

module _ (k : ℕ) (hk : k < 8) where
  -- Bytes from `n` on are left alone, and byte `i` below `n` takes the high bits of byte `i + 1`.
  pub get_or-shift_bits :
      (n carry : ℕ) (w : List ℕ) (i : ℕ)
      → n ≤ length w
      → IsBytes w
      → carry < 2 ^ k
      → get_or (shift_bits n k carry w) i 0
        ≡ (if ltb i n then shifted n k carry w i else get_or w i 0)
  unfolding shift_bits
  get_or-shift_bits zero carry w i hn hw hc = ground arith
  get_or-shift_bits (suc n) carry w i hn hw hc =
      let b = get_or w n 0 in
      let v = (shl b k + carry) % 256 in
      rw (bit_and_carry b k (hw n) hk, bit_or_carry b carry k (hw n) hk hc)
        (grind (
          arith,
          get_or-shift_bits n (shr b (8 - k)) (set w n v) i (omega (arith, length-set w n v))
              (IsBytes-set w n v hn hw (omega arith)) (shr-lt b k (hw n) hk),
          get_or-set_self w n v 0 hn,
          get_or-set_ne w n i v 0,
          get_or-set_ne w n (suc i) v 0,
        ))

  pub shift_bits-IsBytes :
      (n carry : ℕ) (w : List ℕ)
      → n ≤ length w
      → IsBytes w
      → carry < 2 ^ k
      → IsBytes (shift_bits n k carry w)
  shift_bits-IsBytes n carry w hn hw hc i =
      rw (get_or-shift_bits n carry w i hn hw hc) (grind (arith, hw i))

pub length-shift_bytes : (n : ℕ) (w : List ℕ) → n ≤ length w → length (shift_bytes n w) ≡ length w
unfolding shift_bytes
length-shift_bytes n w h = omega (
  arith,
  length-append (replicate n 0) (take (length w - n) w),
  length-replicate {0} {A = ℕ} n 0,
  length-take (length w - n) w,
)

-- Shifting by whole bytes moves byte `i` to `i + n` and clears the first `n`.
pub get_or-shift_bytes :
    (n : ℕ) (w : List ℕ) (i : ℕ)
    → n ≤ length w
    → get_or (shift_bytes n w) i 0
      ≡ (if ltb i n then 0 else if ltb i (length w) then get_or w (i - n) 0 else 0)
unfolding shift_bytes
get_or-shift_bytes n w i h =
    let l = length-replicate {0} {A = ℕ} n 0 in
    let t = length-take (length w - n) w in
    grind (
      arith,
      l,
      t,
      get_or-append_left (replicate n 0) (take (length w - n) w) i 0,
      get_or-append_right (replicate n 0) (take (length w - n) w) i 0,
      get_or-replicate {0} {A = ℕ} n 0 i,
      get_or-take (length w - n) w (i - n) 0,
      get_or_of_length-le (take (length w - n) w) (i - n) 0,
    )

pub shift_bytes-IsBytes :
    (n : ℕ) (w : List ℕ) → n ≤ length w → IsBytes w → IsBytes (shift_bytes n w)
shift_bytes-IsBytes n w h hw i = rw (get_or-shift_bytes n w i h) (grind (arith, hw (i - n)))
