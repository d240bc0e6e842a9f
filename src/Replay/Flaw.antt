-- ===== src/Replay/Flaw.antt =====
-- A flaw of the window of aegs_server.py: the loop that shifts by bits runs from the last byte to
-- the first and hands the carry on in that order, so the high bits of a byte go down to the byte
-- before it instead of up to the byte after it, and marks are lost.
use native.Mathlib.Nat.{one-le-pow}
use aegs_global.Prelude.{
  ℕ, zero, suc, ◌+◌, ◌-◌, ◌*◌, ◌/◌, ◌%◌, ◌^◌, ◌≤◌, ◌<◌, ◌≡◌, refl, ◌∙◌, ◌⊎◌, true, false, Option,
  some, none, List, ◌∷◌, ap, arith, length, get_or, replicate, leb, le→leb, inl, inr,
  get_or-replicate,
}
use aegs_global.Replay.{AntiReplayFilter, check_and_update, shift_bits, advance, mark}
use aegs_global.Replay.Shift.{IsBytes, get_or-shift_bits}
use aegs_global.Replay.Laws.{check-newer, check-within}
use aegs_global.Replay.Window.{IsValid, marked, raised}

-- The numbers `seq, seq + 1, …, seq + n`, all offered in order; `none` if one of them is dropped.
pub feed : AntiReplayFilter → ℕ → ℕ → Option AntiReplayFilter
feed f zero seq = elim (check_and_update f seq) [ some (false, f') ↦ some f' | _ ↦ none ]
feed f (suc n) seq = elim (check_and_update f seq) [
  | some (false, f') ↦ feed f' n (suc seq)
  | _ ↦ none
]

-- One round of the shift by 1 to 7 bits sets byte `i` from itself and the high bits of byte
-- `i + 1`; above the last byte there is nothing. The high bits of byte `i` reach no higher byte.
shift_bits-low :
    (bits : ℕ) (w : List ℕ) (i : ℕ)
    → 0 < bits
    → bits < 8
    → IsBytes w
    → i + 1 < length w
    → get_or (shift_bits (length w) bits 0 w) i 0
      ≡ (get_or w i 0 * 2 ^ bits + get_or w (i + 1) 0 / 2 ^ (8 - bits)) % 256
shift_bits-low bits w i pos lt hw h = ground (
  arith,
  get_or-shift_bits bits lt (length w) 0 w i (omega arith) hw (one-le-pow bits 2 (omega arith)),
)

abbrev zeros : List ℕ
zeros = replicate 256 0

-- The window behind its first byte.
rest : List ℕ
rest = replicate 255 0

-- The default filter with `m` as the highest number and marks in its first byte alone.
row : ℕ → ℕ → AntiReplayFilter
row m b = record { window_size = 2048; max_seq = m; window = b ∷ rest }

row-IsBytes : (b : ℕ) → b < 256 → IsBytes (b ∷ rest)
unfolding rest
row-IsBytes b h zero = h
row-IsBytes b h (suc i) = ground (arith, get_or-replicate {0} {A = ℕ} 255 0 i)

row-IsValid : (m b : ℕ) → b < 256 → IsValid (row m b)
unfolding row rest
row-IsValid m b h = record { sized = refl; wide = omega arith; bytes = row-IsBytes b h }

-- One number after the other: the byte grows, and what it loses is lost.
row-next :
    (m b c : ℕ)
    → b < 256
    → mark 0 (advance 2048 1 (b ∷ rest)) ≡ c ∷ rest
    → check_and_update (row m b) (suc m) ≡ some (false, row (suc m) c)
row-next m b c h e =
    let one_up : suc m - m ≡ 1 = omega arith in
    check-newer (row m b) (suc m) (row-IsValid m b h) (unfold row in omega arith)
    ∙ unfold row raised in rw (one_up, e)

feed-zero :
    (f f' : AntiReplayFilter) (seq : ℕ)
    → check_and_update f seq ≡ some (false, f')
    → feed f 0 seq ≡ some f'
unfolding feed
feed-zero f f' seq e = rw (e, feed)

feed-suc :
    (f f' : AntiReplayFilter) (n seq : ℕ)
    → check_and_update f seq ≡ some (false, f')
    → feed f (suc n) seq ≡ feed f' n (suc seq)
unfolding feed
feed-suc f f' n seq e = rw (e, feed)

feed-row :
    (n m b c : ℕ)
    → b < 256
    → mark 0 (advance 2048 1 (b ∷ rest)) ≡ c ∷ rest
    → feed (row m b) (suc n) (suc m) ≡ feed (row (suc m) c) n (suc (suc m))
feed-row n m b c h e = feed-suc (row m b) (row (suc m) c) n (suc m) (row-next m b c h e)

feed-rows : (m : ℕ) → feed (row m 1) 7 (suc m) ≡ some (row (8 + m) 255)
unfolding advance rest
feed-rows m =
    feed-row 6 m 1 3 (omega arith) refl
    ∙ feed-row 5 _ 3 7 (omega arith) refl
    ∙ feed-row 4 _ 7 15 (omega arith) refl
    ∙ feed-row 3 _ 15 31 (omega arith) refl
    ∙ feed-row 2 _ 31 63 (omega arith) refl
    ∙ feed-row 1 _ 63 127 (omega arith) refl
    ∙ feed-row 0 _ 127 255 (omega arith) refl
    ∙ feed-zero _ _ _ (row-next _ 255 255 (omega arith) refl)
    ∙ ap (λ k. some (row k 255)) (omega arith)

-- The number that starts the run leaves one mark.
first-row :
    (f : AntiReplayFilter) (seq : ℕ)
    → IsValid f
    → f.window_size ≡ 2048
    → ((f.window ≡ zeros) × (seq ≡ suc f.max_seq)) ⊎ (f.max_seq + 2048 ≤ seq)
    → check_and_update f seq ≡ some (false, row seq 1)
first-row f seq v size (inl (clear, next)) =
    let one_up : seq - f.max_seq ≡ 1 = omega arith in
    check-newer f seq v (omega arith) ∙ unfold raised row rest advance in rw (size, one_up, clear)
first-row f seq v size (inr far) =
    let up : leb 2048 (seq - f.max_seq) ≡ true = le→leb _ _ (omega arith) in
    check-newer f seq v (omega arith) ∙ unfold raised row rest advance in rw (size, up)

-- From a clear window, or where the number is so far up that the whole window is cleared, the filter
-- of 2048 numbers takes nine numbers in a row and then takes the first of them a second time: the
-- eighth step has lost its mark.
pub replay_accepted :
    (f : AntiReplayFilter) (seq : ℕ)
    → IsValid f
    → f.window_size ≡ 2048
    → ((f.window ≡ zeros) × (seq ≡ suc f.max_seq)) ⊎ (f.max_seq + 2048 ≤ seq)
    → (g g' : AntiReplayFilter) × (feed f 8 seq ≡ some g)
      × (check_and_update g seq ≡ some (false, g'))
replay_accepted f seq v size h =
    let g = row (8 + seq) 255 in
    let eight : 8 + seq - seq ≡ 8 = omega arith in
    (
      g,
      marked g seq,
      feed-suc f (row seq 1) 7 seq (first-row f seq v size h) ∙ feed-rows seq,
      check-within g seq (row-IsValid (8 + seq) 255 (omega arith)) (omega arith)
            (unfold row in omega arith) (unfold row in omega arith)
          ∙ unfold row rest in rw eight,
    )
