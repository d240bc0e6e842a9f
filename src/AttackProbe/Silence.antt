-- ===== src/AttackProbe/Silence.antt =====
-- aegs_attack_probe.py against an address from which nothing comes back.
use aegs_global.Prelude.{
  some, ℕ, suc, ◌≡◌, refl, ap, ◌∙◌, Bool, true, false, not, List, [], ◌∷◌, ◌++◌, arith, length,
  Bytes, ◌==◌,
}
use aegs_global.AttackProbe.{Verdict, Tester, Draws, Keys, log_attack, select, passed, summary}
use aegs_global.AttackProbe.Attacks.{
  send_probes, send_all, probes, fuzz_packets, genuine_init, forged_init, chaff_packet, iv_packet,
  valid_packet, attack_amplification_reflection, attack_handshake_mitm, attack_malformed_fuzz, run,
}
use aegs_global.AttackProbe.Sent.{
  through, sent, forged, chaff_flipped, iv_flipped, replayed, send_all-through, run-through,
}
use aegs_global.Crypto.{Crypto}
use aegs_global.Crypto.Labels.{codes}

-- Nothing waits, and all verdicts so far, `n` of them, are good.
record AllDefended {S : Type 0} (n : ℕ) (t : Tester S) : Type 0 where
  nothing_waits : t.waiting ≡ []
  all_passed : passed t.results ≡ n
  in_all : length t.results ≡ n

passed-added :
    (rs : List Verdict) (r : Verdict)
    → r.defended ≡ true
    → passed (rs ++ (r ∷ [])) ≡ suc (passed rs)
unfolding passed
passed-added [] r h = ground (arith, h)
passed-added (x ∷ rs) r h = ground (arith, passed-added rs r h)

length-added : (rs : List Verdict) (r : Verdict) → length (rs ++ (r ∷ [])) ≡ suc (length rs)
length-added [] r = refl
length-added (x ∷ rs) r = ap suc (length-added rs r)

module _ {S : Type 0} where
  logged :
      (n num : ℕ) (name : Bytes) (b : Bool) (t : Tester S)
      → b ≡ true
      → AllDefended n t
      → AllDefended (suc n) (log_attack num name b t)
  logged n num name b t good h = record {
    nothing_waits = h.nothing_waits;
    all_passed = passed-added t.results _ good ∙ ap suc h.all_passed;
    in_all = length-added t.results _ ∙ ap suc h.in_all;
  }

  looked : (n : ℕ) (t : Tester S) → AllDefended n t → not (select t) ≡ true
  looked n t h =
      ap (λ ws. not (elim ws as (λ x. Bool) [ [] ↦ false | r ∷ rs ↦ true ])) h.nothing_waits

module _ {S : Type 0} (answer : S → Bytes → S × List Bytes)
    (quiet : (s : S) (p : Bytes) → (answer s p).1 ≡ []) where
  sent-AllDefended :
      (n : ℕ) (p : Bytes) (t : Tester S) → AllDefended n t → AllDefended n (sent answer p t)
  sent-AllDefended n p t h = record {
    nothing_waits = ap (λ ws. ws ++ (answer t.peer p).1) h.nothing_waits ∙ quiet t.peer p;
    all_passed = h.all_passed;
    in_all = h.in_all;
  }

  probed :
      (n : ℕ) (ps : List Bytes) (r : ℕ) (t : Tester S)
      → AllDefended n t
      → ((send_probes (through answer) ps r t).0 ≡ r)
        × AllDefended n (send_probes (through answer) ps r t).1
  unfolding send_probes
  probed n [] r t h = (refl, h)
  probed n (p ∷ ps) r t h =
      let next = sent-AllDefended n p t h in
      rw (next.nothing_waits, send_probes) (probed n ps r (sent answer p t) next)

  sent_all :
      (n : ℕ) (ps : List Bytes) (b : Bool) (t : Tester S)
      → AllDefended n t
      → AllDefended n (send_all (through answer) ps b t).1
  unfolding send_all
  sent_all n [] b t h = h
  sent_all n (p ∷ ps) b t h = sent_all n ps b (sent answer p t) (sent-AllDefended n p t h)

  defended_1 :
      (n : ℕ) (t : Tester S)
      → AllDefended n t
      → AllDefended (suc n) (attack_amplification_reflection (through answer) t)
  unfolding attack_amplification_reflection
  defended_1 n t h =
      let (none_back, h') = probed n probes 0 t h in
      logged n 1 (codes "UDP Reflection Amplification Attack") _ _ (ap (λ r. r == 0) none_back) h'

  module _ (c : Crypto) (k : Keys) (d : Draws) where
    defended_2 :
        (n : ℕ) (t : Tester S)
        → AllDefended n t
        → AllDefended (suc n) (attack_handshake_mitm (through answer) c k d t)
    unfolding attack_handshake_mitm
    defended_2 n t h =
        let h' = sent-AllDefended n (genuine_init c k d) t h in
        rw (h'.nothing_waits, attack_handshake_mitm)
          (logged n 2 (codes "MITM Server Ephemeral Tampering") true _ refl h')

    defended_3 :
        (n : ℕ) (t : Tester S) → AllDefended n t → AllDefended (suc n) (forged answer c k d t)
    defended_3 n t h =
        let h' = sent-AllDefended n (forged_init c k d) t h in
        logged n 3 (codes "Unauthorized Handshake MAC Forgery") _ _ (looked n _ h') h'

    defended_4 :
        (n : ℕ) (t : Tester S)
        → AllDefended n t
        → AllDefended (suc n) (chaff_flipped answer c k d t)
    defended_4 n t h =
        let h' = sent-AllDefended n (chaff_packet c k d) t h in
        logged n 4 (codes "Chaff Bit-Flipping Wire Attack (AAD Test)") _ _ (looked n _ h') h'

    defended_5 :
        (n : ℕ) (t : Tester S) → AllDefended n t → AllDefended (suc n) (iv_flipped answer c k d t)
    defended_5 n t h =
        let h' = sent-AllDefended n (iv_packet c k d) t h in
        logged n 5 (codes "HDR_IV Wire Tampering Attack") _ _ (looked n _ h') h'

    defended_6 :
        (n : ℕ) (t : Tester S) → AllDefended n t → AllDefended (suc n) (replayed answer c k d t)
    defended_6 n t h =
        let p = valid_packet c k d in
        logged n 6 (codes "Duplicate Packet Replay Attack") true _ refl
          (sent-AllDefended n p (sent answer p t) (sent-AllDefended n p t h))

    defended_7 :
        (n : ℕ) (t : Tester S)
        → AllDefended n t
        → AllDefended (suc n) (attack_malformed_fuzz (through answer) c k d t)
    unfolding attack_malformed_fuzz
    defended_7 n t h =
        logged n 7 (codes "Malformed Fuzzing & Buffer DoS Attack") _ _
          (ap not (send_all-through answer (fuzz_packets d) false t))
          (sent_all n (fuzz_packets d) false t h)

    -- Against another end to which every packet goes out and that answers nothing at all, from no verdicts
    -- and no waiting datagrams on, the run comes to its end with the summary that seven attacks of seven
    -- were warded off.
    pub run-silent :
        (t : Tester S)
        → t.waiting ≡ []
        → t.results ≡ []
        → (t' : Tester S) × (run (through answer) c k d t ≡ some t') × (summary t' ≡ (7, 7))
    unfolding passed
    run-silent t empty fresh =
        let t1 = attack_amplification_reflection (through answer) t in
        let t2 = attack_handshake_mitm (through answer) c k d t1 in
        let t3 = forged answer c k d t2 in
        let t4 = chaff_flipped answer c k d t3 in
        let t5 = iv_flipped answer c k d t4 in
        let t6 = replayed answer c k d t5 in
        let start : AllDefended 0 t = record {
          nothing_waits = empty;
          all_passed = ap passed fresh;
          in_all = ap length fresh;
        } in
        let end = defended_7 6 t6 (
          defended_6 5 t5 (
            defended_5 4 t4
              (defended_4 3 t3 (defended_3 2 t2 (defended_2 1 t1 (defended_1 0 t start)))))) in
        (
          attack_malformed_fuzz (through answer) c k d t6,
          run-through answer c k d t,
          rw (end.all_passed, end.in_all) refl,
        )
