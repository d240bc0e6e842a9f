-- ===== src/AttackProbe/Laws.antt =====
-- What the defences of aegs_attack_probe.py depend on.
use aegs_global.Prelude.{
  some, ℕ, ◌+◌, ◌≡◌, refl, sym, ap, ◌∙◌, ◌⊎◌, inl, inr, Bool, true, false, not, List, [], ◌∷◌, ◌++◌,
  length, map, take, Bytes, ◌==◌,
}
use aegs_global.AttackProbe.{Verdict, Tester, Draws, Keys, select}
use aegs_global.AttackProbe.Attacks.{
  send_probes, send_all, probes, fuzz_packets, genuine_init, chaff_packet, iv_packet, mitm_detected,
  attack_amplification_reflection, attack_handshake_mitm, attack_malformed_fuzz, run,
}
use aegs_global.AttackProbe.Sent.{
  through, sent, forged, chaff_flipped, iv_flipped, replayed, send_all-through, run-through,
}
use aegs_global.Crypto.{Crypto}

List-cases : (xs : List Bytes) → (xs ≡ []) ⊎ ((r : Bytes) × (rs : List Bytes) × (xs ≡ r ∷ rs))
List-cases [] = inl refl
List-cases (r ∷ rs) = inr (r, rs, refl)

-- Does a list of datagrams hold one?
abbrev holds : List Bytes → Bool
holds ws = elim ws [ [] ↦ false | r ∷ rs ↦ true ]

holds-append : (ws answers : List Bytes) → holds ws ≡ true → holds (ws ++ answers) ≡ true
holds-append [] answers h = cc
holds-append (r ∷ rs) answers h = refl

-- The defences, without their numbers and names.
abbrev pub defences : {S : Type 0} → Tester S → List Bool
defences t = map (λ r. r.defended) t.results

map-added :
    (rs : List Verdict) (r : Verdict)
    → map (λ x. x.defended) (rs ++ (r ∷ [])) ≡ map (λ x. x.defended) rs ++ (r.defended ∷ [])
map-added [] r = refl
map-added (x ∷ rs) r = ap (◌∷◌ x.defended) (map-added rs r)

module _ {S : Type 0} (answer : S → Bytes → S × List Bytes) where
  send_probes-results :
      (ps : List Bytes) (n : ℕ) (t : Tester S)
      → (send_probes (through answer) ps n t).1.results ≡ t.results
  unfolding send_probes
  send_probes-results [] n t = refl
  send_probes-results (p ∷ ps) n t =
      let t' = sent answer p t in
      elim (List-cases t'.waiting) [
        | inl e ↦ rw (e, send_probes) (send_probes-results ps n t')
        | inr (r, rs, e) ↦
            rw (e, send_probes)
              (send_probes-results ps (n + length (take 4096 r)) (record t' { waiting = rs }))
      ]

  send_all-results :
      (ps : List Bytes) (crashed : Bool) (t : Tester S)
      → (send_all (through answer) ps crashed t).1.results ≡ t.results
  unfolding send_all
  send_all-results [] crashed t = refl
  send_all-results (p ∷ ps) crashed t = send_all-results ps crashed (sent answer p t)

  added_1 :
      (t : Tester S)
      → (b : Bool) × (defences (attack_amplification_reflection (through answer) t)
          ≡ defences t ++ (b ∷ []))
  unfolding attack_amplification_reflection
  added_1 t =
      let (n, t') = send_probes (through answer) probes 0 t in
      (
        n == 0,
        map-added t'.results _
            ∙ ap (λ rs. map (λ x. x.defended) rs ++ ((n == 0) ∷ []))
                (send_probes-results probes 0 t),
      )

  module _ (c : Crypto) (k : Keys) (d : Draws) where
    added_2 :
        (t : Tester S)
        → (b : Bool) × (defences (attack_handshake_mitm (through answer) c k d t)
            ≡ defences t ++ (b ∷ []))
    unfolding attack_handshake_mitm
    added_2 t =
        let t' = sent answer (genuine_init c k d) t in
        elim (List-cases t'.waiting) [
          | inl e ↦ (true, rw (e, attack_handshake_mitm) (map-added t.results _))
          | inr (r, rs, e) ↦ (
            mitm_detected c k d (take 4096 r),
            rw (e, attack_handshake_mitm) (map-added t.results _),
          )
        ]

    added_3 :
        (t : Tester S)
        → defences (forged answer c k d t)
          ≡ defences t ++ (not (select (forged answer c k d t)) ∷ [])
    added_3 t = map-added t.results _

    added_4 :
        (t : Tester S)
        → defences (chaff_flipped answer c k d t)
          ≡ defences t ++ (not (select (chaff_flipped answer c k d t)) ∷ [])
    added_4 t = map-added t.results _

    added_5 :
        (t : Tester S)
        → defences (iv_flipped answer c k d t)
          ≡ defences t ++ (not (select (iv_flipped answer c k d t)) ∷ [])
    added_5 t = map-added t.results _

    added_6 : (t : Tester S) → defences (replayed answer c k d t) ≡ defences t ++ (true ∷ [])
    added_6 t = map-added t.results _

    added_7 :
        (t : Tester S)
        → defences (attack_malformed_fuzz (through answer) c k d t) ≡ defences t ++ (true ∷ [])
    unfolding attack_malformed_fuzz
    added_7 t =
        let (crashed, t') = send_all (through answer) (fuzz_packets d) false t in
        map-added t'.results _
        ∙ ap (λ b. map (λ x. x.defended) t'.results ++ (not b ∷ []))
            (send_all-through answer (fuzz_packets d) false t)
        ∙ ap (λ rs. map (λ x. x.defended) rs ++ (true ∷ []))
            (send_all-results (fuzz_packets d) false t)

    -- What waits is not taken away by the attacks that only look.
    stays_4 : (t : Tester S) → select t ≡ true → select (chaff_flipped answer c k d t) ≡ true
    stays_4 t h = holds-append t.waiting (answer t.peer (chaff_packet c k d)).1 h

    stays_5 : (t : Tester S) → select t ≡ true → select (iv_flipped answer c k d t) ≡ true
    stays_5 t h = holds-append t.waiting (answer t.peer (iv_packet c k d)).1 h

    -- The tester after the first two, three, four and five attacks.
    after_2 : Tester S → Tester S
    after_2 t =
        attack_handshake_mitm (through answer) c k d
          (attack_amplification_reflection (through answer) t)

    after_3 : Tester S → Tester S
    after_3 t = forged answer c k d (after_2 t)

    after_4 : Tester S → Tester S
    after_4 t = chaff_flipped answer c k d (after_3 t)

    after_5 : Tester S → Tester S
    after_5 t = iv_flipped answer c k d (after_4 t)

    -- Against any other end to which every packet goes out, from no verdicts on: the run comes to its
    -- end with seven verdicts. The last two, on the replayed packet and on the noise, say that the attack
    -- was warded off, whatever the other end makes of their packets. And once the third attack counts as
    -- one that went through, because a datagram waits in the socket, so do the fourth and the fifth.
    pub run-defences :
        (t : Tester S)
        → t.results ≡ []
        → (t' : Tester S) × (run (through answer) c k d t ≡ some t')
          × (a1 a2 a3 a4 a5 : Bool) × (defences t' ≡ a1 ∷ a2 ∷ a3 ∷ a4 ∷ a5 ∷ true ∷ true ∷ [])
          × (a3 ≡ false → a4 ≡ false)
          × (a4 ≡ false → a5 ≡ false)
    unfolding after_2 after_3 after_4 after_5
    run-defences t fresh =
        let (a1, e1) = added_1 t in
        let (a2, e2) = added_2 (attack_amplification_reflection (through answer) t) in
        (
          attack_malformed_fuzz (through answer) c k d (replayed answer c k d (after_5 t)),
          run-through answer c k d t,
          a1,
          a2,
          not (select (after_3 t)),
          not (select (after_4 t)),
          not (select (after_5 t)),
          added_7 (replayed answer c k d (after_5 t))
              ∙ ap (λ l. l ++ (true ∷ []))
                  (added_6 (after_5 t)
                    ∙ ap (λ l. l ++ (true ∷ []))
                        (added_5 (after_4 t)
                          ∙ ap (λ l. l ++ (not (select (after_5 t)) ∷ []))
                              (added_4 (after_3 t)
                                ∙ ap (λ l. l ++ (not (select (after_4 t)) ∷ []))
                                    (added_3 (after_2 t)
                                      ∙ ap (λ l. l ++ (not (select (after_3 t)) ∷ []))
                                          (e2
                                            ∙ ap (λ l. l ++ (a2 ∷ []))
                                                (e1
                                                  ∙ ap (λ rs. map (λ x. x.defended) rs ++ (a1 ∷ []))
                                                      fresh)))))),
          λ h. ap not (stays_4 (after_3 t) (seen (select (after_3 t)) h)),
          λ h. ap not (stays_5 (after_4 t) (seen (select (after_4 t)) h)),
        )
      where
        seen : (b : Bool) → not b ≡ false → b ≡ true
        seen true h = refl
        seen false h = sym h
