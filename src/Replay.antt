-- ===== src/Replay.antt =====
-- The anti-replay filter of aegs_server.py (class AntiReplayFilter): a bit window of the sequence
-- numbers behind the highest one seen. `none` is the IndexError of a read outside the window.
pub mod Bits
pub mod Shift
pub mod Window
pub mod Laws
pub mod Flaw
mod Tests
use aegs_global.Prelude.{
  ℕ, zero, suc, ◌+◌, ◌-◌, ◌*◌, ◌/◌, ◌%◌, ◌^◌, bit_and, bit_or, Bool, true, false, Option, none,
  some, List, ◌++◌, ltb, leb, ◌==◌, if◌then◌else◌, length, get_or, set, take, replicate,
}

pub record AntiReplayFilter : Type 0 where
  pub window_size : ℕ
  pub max_seq : ℕ
  pub window : List ℕ

unfoldable pub init : ℕ → AntiReplayFilter
init size = record { window_size = size; max_seq = 0; window = replicate (size / 8) 0 }

-- `x << k` and `x >> k`.
abbrev pub shl : ℕ → ℕ → ℕ
shl x k = x * 2 ^ k

abbrev pub shr : ℕ → ℕ → ℕ
shr x k = x / 2 ^ k

-- `bytearray(n) + window[:-n]`, which keeps the length while `n` is not above it.
unfoldable pub shift_bytes : ℕ → List ℕ → List ℕ
shift_bytes n w = replicate n 0 ++ take (length w - n) w

-- The loop `for i in range(len(window) - 1, -1, -1)`: `n` bytes are left, the next index is `n - 1`.
unfoldable pub shift_bits : ℕ → ℕ → ℕ → List ℕ → List ℕ
shift_bits zero bits carry w = w
shift_bits (suc i) bits carry w =
    let b = get_or w i 0 in
    shift_bits i bits (bit_and (shr b (8 - bits)) 0xff)
      (set w i (bit_and (bit_or (shl b bits) carry) 0xff))

-- The window after the highest number grows by `diff`.
unfoldable pub advance : ℕ → ℕ → List ℕ → List ℕ
unfolding shift_bytes shift_bits
advance size diff w =
    if leb size diff
    then replicate (size / 8) 0
    else (let moved = if ltb 0 (diff / 8) then shift_bytes (diff / 8) w else w in
        if ltb 0 (diff % 8) then shift_bits (length moved) (diff % 8) 0 moved else moved)

-- `window[d // 8] & (1 << (d % 8))`, and the same bit set.
abbrev pub is_marked : ℕ → List ℕ → Bool
is_marked d w = ltb 0 (bit_and (get_or w (d / 8) 0) (shl 1 (d % 8)))

abbrev pub mark : ℕ → List ℕ → List ℕ
mark d w = set w (d / 8) (bit_or (get_or w (d / 8) 0) (shl 1 (d % 8)))

-- `true` is "drop the packet", as in the source.
unfoldable pub check_and_update : AntiReplayFilter → ℕ → Option (Bool × AntiReplayFilter)
unfolding advance
check_and_update f seq =
    if seq == 0
    then some (true, f)
    else if ltb f.max_seq seq
    then (let w = advance f.window_size (seq - f.max_seq) f.window in
        if ltb 0 (length w)
        then some (false, record f { max_seq = seq; window = mark 0 w })
        else none)
    else (let diff = f.max_seq - seq in
        if leb f.window_size diff
        then some (true, f)
        else if ltb (diff / 8) (length f.window)
        then (if is_marked diff f.window
            then some (true, f)
            else some (false, record f { window = mark diff f.window }))
        else none)
