-- ===== src/Replay/Laws.antt =====
-- What the anti-replay filter of aegs_server.py promises: it never faults, it keeps its window
-- well formed, and it refuses a number that it has just accepted.
use aegs_global.Prelude.{
  ℕ, ◌+◌, ◌-◌, ◌≤◌, ◌<◌, max, ◌≡◌, refl, ◌≢◌, ◌⊎◌, inl, inr, ◌∙◌, ap, Bool, true, false, Option,
  some, none, arith, if◌then◌else◌, Bool-cases,
}
use aegs_global.Replay.{AntiReplayFilter, advance, check_and_update, is_marked}
use aegs_global.Replay.Window.{
  IsValid, raised, marked, length-advance, advance-IsBytes, raised-IsValid, marked-IsValid,
  mark-is_marked, mark-is_marked_ne,
}

pub check-newer :
    (f : AntiReplayFilter) (seq : ℕ)
    → IsValid f
    → f.max_seq < seq
    → check_and_update f seq ≡ some (false, raised f seq)
unfolding check_and_update raised
check-newer f seq v h =
    ground (arith, v.sized, v.wide, length-advance f.window_size (seq - f.max_seq) f.window v.sized)

pub check-within :
    (f : AntiReplayFilter) (seq : ℕ)
    → IsValid f
    → seq ≢ 0
    → seq ≤ f.max_seq
    → f.max_seq - seq < f.window_size
    → check_and_update f seq ≡ (
        if is_marked (f.max_seq - seq) f.window then some (true, f) else some (false, marked f seq))
unfolding check_and_update marked
check-within f seq v nz le h = ground (arith, v.sized)

pub check-dropped :
    (f : AntiReplayFilter) (seq : ℕ)
    → (seq ≡ 0) ⊎ (seq + f.window_size ≤ f.max_seq)
    → 0 < f.window_size
    → check_and_update f seq ≡ some (true, f)
unfolding check_and_update
check-dropped f seq h w = ground arith

-- What a call on a filter does: it returns, and either drops the packet and changes nothing, or
-- takes it, keeps the filter well formed and raises the highest number to cover it.
abbrev pub Outcome : AntiReplayFilter → ℕ → Type 0
Outcome f seq =
    (check_and_update f seq ≡ some (true, f))
    ⊎ ((f' : AntiReplayFilter) × (check_and_update f seq ≡ some (false, f'))
        × IsValid f'
        × (f'.max_seq ≡ max f.max_seq seq)
        × (f'.window_size ≡ f.window_size)
        × (seq ≢ 0)
        × (seq ≤ f.max_seq → f.max_seq - seq < f.window_size))

-- The three ways of a number: dropped unseen, inside the window, or above the highest.
ways :
    (m size seq : ℕ)
    → 0 < size
    → ((seq ≡ 0) ⊎ (seq + size ≤ m)) ⊎ ((seq ≢ 0) × (seq ≤ m) × (m - seq < size)) ⊎ (m < seq)
ways m size seq h = grind arith

-- A filter that is well formed never faults. It either drops the packet and stays as it was, or
-- takes it: then the number is not 0 and, if it is not above the highest, lies within the window;
-- the highest number then covers it, the size stays, and the filter is well formed again.
pub check_and_update-Outcome : (f : AntiReplayFilter) (seq : ℕ) → IsValid f → Outcome f seq
unfolding raised marked
check_and_update-Outcome f seq v = elim (ways f.max_seq f.window_size seq (omega (arith, v.wide))) [
  | inl out ↦ inl (check-dropped f seq out (omega (arith, v.wide)))
  | inr (inl (nz, le, h)) ↦ elim (Bool-cases (is_marked (f.max_seq - seq) f.window)) [
    | inl seen ↦ inl (check-within f seq v nz le h ∙ rw seen)
    | inr fresh ↦ inr (
      marked f seq,
      check-within f seq v nz le h ∙ rw fresh,
      marked-IsValid f seq h v,
      omega arith,
      refl,
      nz,
      λ _. h,
    )
  ]
  | inr (inr up) ↦ inr (
    raised f seq,
    check-newer f seq v up,
    raised-IsValid f seq v,
    omega arith,
    refl,
    omega arith,
    λ le. absurd (omega arith),
  )
]

-- What accepting a number leaves behind.
abbrev Left : AntiReplayFilter → ℕ → AntiReplayFilter → Type 0
Left f seq f' =
    ((f.max_seq < seq) × (f' ≡ raised f seq))
    ⊎ ((seq ≢ 0) × (seq ≤ f.max_seq) × (f.max_seq - seq < f.window_size) × (f' ≡ marked f seq))

accepted-Left :
    (f f' : AntiReplayFilter) (seq : ℕ)
    → IsValid f
    → check_and_update f seq ≡ some (false, f')
    → Left f seq f'
accepted-Left f f' seq v e = elim (ways f.max_seq f.window_size seq (omega (arith, v.wide))) [
  | inl out ↦ absurd (cc (check-dropped f seq out (omega (arith, v.wide))))
  | inr (inl (nz, le, h)) ↦ elim (Bool-cases (is_marked (f.max_seq - seq) f.window)) [
    | inl seen ↦ absurd (ground (arith, check-within f seq v nz le h))
    | inr fresh ↦ inr (nz, le, h, ground (arith, check-within f seq v nz le h))
  ]
  | inr (inr up) ↦ inl (up, cc (check-newer f seq v up))
]

again-raised :
    (f : AntiReplayFilter) (seq : ℕ)
    → IsValid f
    → f.max_seq < seq
    → check_and_update (raised f seq) seq ≡ some (true, raised f seq)
again-raised f seq v up =
    let w = advance f.window_size (seq - f.max_seq) f.window in
    let l = length-advance f.window_size (seq - f.max_seq) f.window v.sized in
    let m =
      mark-is_marked 0 w (advance-IsBytes f.window_size (seq - f.max_seq) f.window v.sized v.bytes)
        (omega (arith, l, v.sized, v.wide)) in
    let v' = raised-IsValid f seq v in
    check-within (raised f seq) seq v' (omega arith) (unfold raised in omega arith)
      (unfold raised in omega (arith, v.wide))
    ∙ unfold raised in ground (arith, m)

again-marked :
    (f : AntiReplayFilter) (seq : ℕ)
    → IsValid f
    → seq ≢ 0
    → seq ≤ f.max_seq
    → f.max_seq - seq < f.window_size
    → check_and_update (marked f seq) seq ≡ some (true, marked f seq)
again-marked f seq v nz le h =
    let m = mark-is_marked (f.max_seq - seq) f.window v.bytes (omega (arith, v.sized)) in
    check-within (marked f seq) seq (marked-IsValid f seq h v) nz (unfold marked in le)
      (unfold marked in h)
    ∙ unfold marked in rw m

-- A number that a well-formed filter has accepted is dropped if it comes again right away.
pub check_and_update_again :
    (f f' : AntiReplayFilter) (seq : ℕ)
    → IsValid f
    → check_and_update f seq ≡ some (false, f')
    → check_and_update f' seq ≡ some (true, f')
check_and_update_again f f' seq v e = elim (accepted-Left f f' seq v e) [
  | inl (up, p) ↦ rw p (again-raised f seq v up)
  | inr (nz, le, h, p) ↦ rw p (again-marked f seq v nz le h)
]

-- The verdict on a number.
abbrev pub verdict : Option (Bool × AntiReplayFilter) → Option Bool
verdict none = none
verdict (some (b, f)) = some b

other-out :
    (f : AntiReplayFilter) (seq t : ℕ)
    → (t ≡ 0) ⊎ (t + f.window_size ≤ f.max_seq)
    → IsValid f
    → verdict (check_and_update (marked f seq) t) ≡ verdict (check_and_update f t)
unfolding marked
other-out f seq t out v = rw (
  check-dropped f t out (omega (arith, v.wide)),
  check-dropped (marked f seq) t out (omega (arith, v.wide)),
)

other-within :
    (f : AntiReplayFilter) (seq t : ℕ)
    → IsValid f
    → f.max_seq - seq < f.window_size
    → t ≢ 0
    → t ≤ f.max_seq
    → f.max_seq - t < f.window_size
    → seq ≤ f.max_seq
    → t ≢ seq
    → verdict (check_and_update (marked f seq) t) ≡ verdict (check_and_update f t)
other-within f seq t v h tz tle th le ne =
    let m =
      mark-is_marked_ne (f.max_seq - seq) (f.max_seq - t) f.window v.bytes (omega (arith, v.sized))
        (omega arith) in
    let a = check-within f t v tz tle th in
    let b =
      check-within (marked f seq) t (marked-IsValid f seq h v) tz (unfold marked in tle)
        (unfold marked in th) in
    ap verdict b ∙ unfold marked in rw (m, a) ground arith

-- While the highest number stays, accepting one number does not change what is said of another.
verdict-check_and_update :
    (f f' : AntiReplayFilter) (seq t : ℕ)
    → IsValid f
    → check_and_update f seq ≡ some (false, f')
    → seq ≤ f.max_seq
    → t ≤ f.max_seq
    → t ≢ seq
    → verdict (check_and_update f' t) ≡ verdict (check_and_update f t)
verdict-check_and_update f f' seq t v e le tle ne = elim (accepted-Left f f' seq v e) [
  | inl (up, p) ↦ absurd (omega arith)
  | inr (nz, le', h, p) ↦ rw p (elim (ways f.max_seq f.window_size t (omega (arith, v.wide))) [
    | inl out ↦ other-out f seq t out v
    | inr (inl (tz, tle', th)) ↦ other-within f seq t v h tz tle' th le' ne
    | inr (inr up) ↦ absurd (omega arith)
  ])
]
