-- ===== src/Proxy/Window/Slots.antt =====
-- What each change of the window of scripts/quick_client.py does to its slots.
use aegs_global.Prelude.{
  ℕ, suc, ◌+◌, ◌-◌, ◌*◌, ◌^◌, ◌≤◌, ◌<◌, bit_and, bit_or, ◌≡◌, sym, ap, ◌∙◌, inl, inr, arith, ◌∷◌,
  ltb, ◌==◌, if◌then◌else◌, Bool-cases, ltb→ge,
}
use aegs_global.Proxy.Bits.{bit, one_at, one_at-pow, bit-bit_or, bit-ones, bit-shl}
use aegs_global.Proxy.Window.{ReplayWindow}
use aegs_global.Proxy.Window.Log.{Log, highest, has, Holds, above, bit-one, all_ones}

module _ (r : ReplayWindow) (log : Log) (h : Holds r log) (n : ℕ) where
  abbrev pub diff : ℕ
  diff = n - r.last_seq

  abbrev pub shifted : ℕ
  shifted = bit_and (bit_or (r.bitmap * 2 ^ diff) 1) 0xffffffffffffffff

  bit-shifted :
      (j : ℕ)
      → j < 64
      → bit j shifted ≡ (if 0 == j then 1 else if ltb j diff then 0 else bit (j - diff) r.bitmap)
  unfolding one_at
  bit-shifted j small =
      ap (λ k. bit j (bit_and (bit_or (r.bitmap * 2 ^ diff) 1) k)) (sym all_ones)
      ∙ bit-ones 64 j (bit_or (r.bitmap * 2 ^ diff) 1)
      ∙ ground (arith, small)
      ∙ bit-bit_or 0 j (r.bitmap * 2 ^ diff)
      ∙ ap (λ k. if 0 == j then 1 else bit j (r.bitmap * k)) (sym (one_at-pow diff))
      ∙ ap (λ b. if 0 == j then 1 else b) (bit-shl diff j r.bitmap)

  shifted-bits :
      (m : ℕ)
      → 0 < m
      → m ≤ n
      → n < m + 64
      → r.last_seq < n
      → (bit (n - m) shifted == 1) ≡ has m (n ∷ log)
  unfolding has
  shifted-bits m p q w up =
      rw (bit-shifted (n - m) (omega (arith, w, q))) (elim (Bool-cases (ltb r.last_seq m)) [
        | inl new ↦ ground (arith, above m log, h.last, new, q)
        | inr old ↦
            let back : n - m - diff ≡ r.last_seq - m =
              omega (arith, q, up, ltb→ge r.last_seq m old) in
            rw (back)
              (ground (arith, h.bits m p (ltb→ge r.last_seq m old) (omega (arith, w, up)), old, up))
      ])

  -- The window moves to a higher number.
  pub moved :
      r.last_seq < n → diff < 64 → Holds (record { last_seq = n; bitmap = shifted }) (n ∷ log)
  unfolding highest has
  moved up near = record {
    last = omega (arith, h.last, up);
    bits = λ m p q w. shifted-bits m p q w up;
  }

  emptied-bits :
      (m : ℕ)
      → 0 < m
      → m ≤ n
      → n < m + 64
      → r.last_seq < n
      → 64 ≤ diff
      → (bit (n - m) 1 == 1) ≡ has m (n ∷ log)
  unfolding has bit
  emptied-bits m p q w up far = elim (Bool-cases (n == m)) [
    | inl same ↦ let z : n - m ≡ 0 = ground (arith, same) in rw (z) (ground (arith, same))
    | inr other ↦
        let s : n - m ≡ suc (n - m - 1) = ground (arith, other, q) in
        rw (s, bit-one (n - m - 1)) (ground (arith, above m log, h.last, far, w, other))
  ]

  -- It moves so far that nothing is left in it.
  pub emptied : r.last_seq < n → 64 ≤ diff → Holds (record { last_seq = n; bitmap = 1 }) (n ∷ log)
  unfolding highest has
  emptied up far = record {
    last = omega (arith, h.last, up);
    bits = λ m p q w. emptied-bits m p q w up far;
  }

  marked-bits :
      (m : ℕ)
      → 0 < m
      → m ≤ r.last_seq
      → r.last_seq < m + 64
      → n ≤ r.last_seq
      → (bit (r.last_seq - m) (bit_or r.bitmap (2 ^ (r.last_seq - n))) == 1) ≡ has m (n ∷ log)
  unfolding has
  marked-bits m p q w low =
      rw (← one_at-pow (r.last_seq - n), bit-bit_or (r.last_seq - n) (r.last_seq - m) r.bitmap)
        (ground (arith, h.bits m p q w, q, low))

  -- A number within the window is marked.
  pub marked :
      n ≤ r.last_seq
      → Holds (record r { bitmap = bit_or r.bitmap (2 ^ (r.last_seq - n)) }) (n ∷ log)
  unfolding highest has
  marked low = record {
    last = omega (arith, h.last, low);
    bits = λ m p q w. marked-bits m p q w low;
  }
