-- ===== src/Proxy/Window.antt =====
-- `check_replay` of scripts/quick_client.py: a window of 64 numbers in one integer.
pub mod Log
pub mod Slots
pub mod Refine
use aegs_global.Prelude.{
  ℕ, ◌-◌, ◌*◌, ◌^◌, bit_and, bit_or, Bool, true, false, List, [], ◌∷◌, ltb, leb, ◌==◌,
  if◌then◌else◌,
}

pub record ReplayWindow : Type 0 where
  pub last_seq : ℕ
  pub bitmap : ℕ

abbrev pub no_packets : ReplayWindow
no_packets = record { last_seq = 0; bitmap = 0 }

-- `true` is "drop the packet", as in the source.
unfoldable pub check_replay : ReplayWindow → ℕ → Bool × ReplayWindow
check_replay r seq =
    if seq == 0
    then (true, r)
    else if ltb r.last_seq seq
    then (let diff = seq - r.last_seq in
        let shifted = bit_and (bit_or (r.bitmap * 2 ^ diff) 1) 0xffffffffffffffff in
        (false, record { last_seq = seq; bitmap = if ltb diff 64 then shifted else 1 }))
    else (let diff = r.last_seq - seq in
        if leb 64 diff
        then (true, r)
        else if ltb 0 (bit_and r.bitmap (2 ^ diff))
        then (true, r)
        else (false, record r { bitmap = bit_or r.bitmap (2 ^ diff) }))

-- The verdicts on the numbers that come in, in their order.
unfoldable pub verdicts : ReplayWindow → List ℕ → List Bool
unfolding check_replay
verdicts r [] = []
verdicts r (seq ∷ seqs) = let (drop, r') = check_replay r seq in drop ∷ verdicts r' seqs
