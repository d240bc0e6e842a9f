-- ===== src/AttackProbe/Sent.antt =====
-- The attacks of aegs_attack_probe.py while every call of `sendto` goes through.
use aegs_global.Prelude.{◌≡◌, refl, Bool, true, not, Option, some, List, [], ◌∷◌, ◌++◌, Bytes}
use aegs_global.AttackProbe.{Tester, Draws, Keys, log_attack, select}
use aegs_global.AttackProbe.Attacks.{
  send_all, forged_init, chaff_packet, iv_packet, valid_packet, attack_amplification_reflection,
  attack_handshake_mitm, attack_forged_handshake, attack_chaff_bit_flip, attack_iv_bit_flip,
  attack_replay, attack_malformed_fuzz, run,
}
use aegs_global.Crypto.{Crypto}
use aegs_global.Crypto.Labels.{codes}

-- `answer` is what the other end makes of a datagram that has gone out.
module _ {S : Type 0} (answer : S → Bytes → S × List Bytes) where
  abbrev pub through : S → Bytes → Option (S × List Bytes)
  through s p = some (answer s p)

  abbrev pub sent : Bytes → Tester S → Tester S
  sent p t = record t { peer = (answer t.peer p).0; waiting = t.waiting ++ (answer t.peer p).1 }

  -- No packet has raised.
  pub send_all-through :
      (ps : List Bytes) (crashed : Bool) (t : Tester S)
      → (send_all through ps crashed t).0 ≡ crashed
  unfolding send_all
  send_all-through [] crashed t = refl
  send_all-through (p ∷ ps) crashed t = send_all-through ps crashed (sent p t)

  module _ (c : Crypto) (k : Keys) (d : Draws) where
    abbrev pub forged : Tester S → Tester S
    forged t =
        let t' = sent (forged_init c k d) t in
        log_attack 3 (codes "Unauthorized Handshake MAC Forgery") (not (select t')) t'

    abbrev pub chaff_flipped : Tester S → Tester S
    chaff_flipped t =
        let t' = sent (chaff_packet c k d) t in
        log_attack 4 (codes "Chaff Bit-Flipping Wire Attack (AAD Test)") (not (select t')) t'

    abbrev pub iv_flipped : Tester S → Tester S
    iv_flipped t =
        let t' = sent (iv_packet c k d) t in
        log_attack 5 (codes "HDR_IV Wire Tampering Attack") (not (select t')) t'

    abbrev pub replayed : Tester S → Tester S
    replayed t =
        let p = valid_packet c k d in
        log_attack 6 (codes "Duplicate Packet Replay Attack") true (sent p (sent p t))

    -- The run comes to its end.
    pub run-through :
        (t : Tester S)
        → run through c k d t
          ≡ some (
              attack_malformed_fuzz through c k d (
                replayed (
                  iv_flipped (
                    chaff_flipped (
                      forged (
                        attack_handshake_mitm through c k d
                          (attack_amplification_reflection through t)))))))
    unfolding run attack_forged_handshake attack_chaff_bit_flip attack_iv_bit_flip attack_replay
    run-through t = refl
