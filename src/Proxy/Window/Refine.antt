-- ===== src/Proxy/Window/Refine.antt =====
-- The window of scripts/quick_client.py against the set of the numbers that it has let through.
use aegs_global.Prelude.{
  ℕ, ◌-◌, ◌^◌, ◌≤◌, ◌<◌, bit_and, bit_or, ◌≡◌, ◌≢◌, refl, ap, inl, inr, arith, Bool, true, false,
  not, List, [], ◌∷◌, ltb, leb, ◌==◌, if◌then◌else◌, Bool-cases, ltb→lt, ltb→ge, leb→le, leb→gt,
  ==→eq, ==→ne,
}
use aegs_global.Proxy.Bits.{one_at-pow, bit_and-one_at}
use aegs_global.Proxy.Window.{ReplayWindow, no_packets, check_replay, verdicts}
use aegs_global.Proxy.Window.Log.{Log, is_fresh, log_verdicts, Holds, no_packets-Holds, above}
use aegs_global.Proxy.Window.Slots.{diff, shifted, moved, emptied, marked}

module _ (r : ReplayWindow) (log : Log) (h : Holds r log) (n : ℕ) where
  -- What one call and its specification make of a number.
  data Step : Bool × ReplayWindow → Bool → Type 0 where
    dropped : Step (true, r) false
    taken : (r' : ReplayWindow) → Holds r' (n ∷ log) → Step (false, r') true

  fresh_above : n ≢ 0 → r.last_seq < n → is_fresh n log ≡ true
  unfolding is_fresh
  fresh_above nz up = ground (arith, nz, up, above n log (omega (arith, h.last, up)), h.last)

  fresh_within :
      n ≢ 0
      → n ≤ r.last_seq
      → r.last_seq - n < 64
      → is_fresh n log ≡ not (ltb 0 (bit_and r.bitmap (2 ^ (r.last_seq - n))))
  unfolding is_fresh
  fresh_within nz low near =
      rw (← one_at-pow (r.last_seq - n), bit_and-one_at (r.last_seq - n) r.bitmap)
        (ground (
          arith,
          nz,
          low,
          near,
          h.bits n (omega (arith, nz)) low (omega (arith, near, low)),
          h.last,
        ))

  fresh_below : 64 ≤ r.last_seq - n → is_fresh n log ≡ false
  unfolding is_fresh
  fresh_below far = ground (arith, far, h.last)

  fresh_zero : n ≡ 0 → is_fresh n log ≡ false
  unfolding is_fresh
  fresh_zero z = ground (arith, z)

  check_replay-Step : Step (check_replay r n) (is_fresh n log)
  unfolding check_replay
  check_replay-Step = elim (Bool-cases (n == 0)) [
    | inl z ↦ rw (z, fresh_zero (==→eq n 0 z), check_replay) dropped
    | inr nz ↦ elim (Bool-cases (ltb r.last_seq n)) [
      | inl up ↦
          rw (nz, up, fresh_above (==→ne n 0 nz) (ltb→lt r.last_seq n up), check_replay)
            (above_step (ltb→lt r.last_seq n up))
      | inr low ↦ elim (Bool-cases (leb 64 (r.last_seq - n))) [
        | inl far ↦
            rw (nz, low, far, fresh_below (leb→le 64 (r.last_seq - n) far), check_replay) dropped
        | inr near ↦
            rw
              (
                nz,
                low,
                near,
                fresh_within (==→ne n 0 nz) (ltb→ge r.last_seq n low)
                    (leb→gt 64 (r.last_seq - n) near),
                check_replay,
              )
              (within_step (ltb→ge r.last_seq n low)
                (ltb 0 (bit_and r.bitmap (2 ^ (r.last_seq - n)))))
      ]
    ]
  ]
    where
      above_step :
          r.last_seq < n
          → Step
              (
                false,
                record {
                  last_seq = n;
                  bitmap = if ltb (diff r log h n) 64 then (shifted r log h n) else 1;
                },
              )
              true
      above_step up = elim (Bool-cases (ltb (diff r log h n) 64)) [
        | inl near ↦ rw (near) (taken _ (moved r log h n up (ltb→lt (diff r log h n) 64 near)))
        | inr far ↦ rw (far) (taken _ (emptied r log h n up (ltb→ge (diff r log h n) 64 far)))
      ]

      within_step :
          n ≤ r.last_seq
          → (b : Bool)
          → Step
              (if b
                then (true, r)
                else (false, record r { bitmap = bit_or r.bitmap (2 ^ (r.last_seq - n)) }))
              (not b)
      within_step low true = dropped
      within_step low false = taken _ (marked r log h n low)

Step-verdicts :
    (r : ReplayWindow) (log : Log) (h : Holds r log) (n : ℕ) (ns : List ℕ) (x : Bool × ReplayWindow)
    (b : Bool)
    → Step r log h n x b
    → ((r' : ReplayWindow) (log' : Log) → Holds r' log' → verdicts r' ns ≡ log_verdicts log' ns)
    → (x.0 ∷ verdicts x.1 ns)
      ≡ elim b [ true ↦ false ∷ log_verdicts (n ∷ log) ns | false ↦ true ∷ log_verdicts log ns ]
Step-verdicts r log h n ns (_, _) _ dropped ih = ap (λ v. true ∷ v) (ih r log h)
Step-verdicts r log h n ns (_, _) _ (taken r' h') ih = ap (λ v. false ∷ v) (ih r' (n ∷ log) h')

Holds-verdicts :
    (ns : List ℕ) (r : ReplayWindow) (log : Log) → Holds r log → verdicts r ns ≡ log_verdicts log ns
unfolding verdicts log_verdicts
Holds-verdicts [] r log h = refl
Holds-verdicts (n ∷ ns) r log h =
    Step-verdicts r log h n ns (check_replay r n) (is_fresh n log) (check_replay-Step r log h n)
      (λ r' log' h'. Holds-verdicts ns r' log' h')

-- The window in one integer refines the log of all numbers that were let through: from the start,
-- whatever numbers come in and in whatever order, the two give the same verdicts. So a number is let
-- through exactly when it is not 0, has not been let through before, and is less than 64 below the
-- highest.
pub verdicts_lem : (ns : List ℕ) → verdicts no_packets ns ≡ log_verdicts [] ns
verdicts_lem ns = Holds-verdicts ns no_packets [] no_packets-Holds
