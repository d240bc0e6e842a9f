-- ===== src/AttackProbe/Attacks.antt =====
-- The attacks of aegs_attack_probe.py, in the order of `LiveAttackTester.run`.
use aegs_global.Prelude.{
  Option, ℕ, ◌+◌, Bool, true, false, not, none, some, List, [], ◌∷◌, ◌++◌, length, take, drop,
  slice, replicate, leb, ◌==◌, if◌then◌else◌, Bytes, to_le, be32,
}
use mathlib.Core.List.{reverse}
use aegs_global.AttackProbe.{
  Tester, Draws, Keys, log_attack, select, change_at, flip_lowest, flip_highest, flip_all,
}
use aegs_global.Crypto.{Crypto}
use aegs_global.Crypto.Labels.{codes, s2c_info}
use aegs_global.Wire.{hdr_plain, magic}

-- The header's mask, with the nonce brought to 16 bytes.
abbrev pub mask_unmask_header : Crypto → Bytes → Bytes → Bytes → Bytes
mask_unmask_header c bytes mask_key iv =
    c.chacha20 mask_key (if length iv == 12 then (0 ∷ 0 ∷ 0 ∷ 0 ∷ []) ++ iv else iv) bytes

abbrev pub hkdf_extract_and_expand : Crypto → Bytes → Bytes → Bytes → Bytes
hkdf_extract_and_expand c secret salt info = c.hkdf (some salt) info 32 secret

-- The first 56 bytes of a handshake: the type, the key id, a public key and the time.
unfoldable pub init_body : Crypto → Keys → Bytes → ℕ → Bytes
init_body c k priv now_ms =
    (1 ∷ replicate 7 0) ++ (k.raw_kid ++ (c.public_bytes priv ++ reverse (to_le 8 now_ms)))

unfoldable pub genuine_init : Crypto → Keys → Draws → Bytes
genuine_init c k d =
    let body = init_body c k d.client_priv d.init_ms in
    body ++ take 16 (c.hmac_sha256 k.master_key body)

unfoldable pub forged_init : Crypto → Keys → Draws → Bytes
forged_init c k d = init_body c k d.fake_priv d.fake_ms ++ codes "WRONG_ATTACK_MAC"

-- The nonce, the masked header and the sealed_text text of a data packet of attacks 4 to 6.
unfoldable pub data_nonce : Draws → ℕ → ℕ → Bytes
data_nonce d seq i = to_le 8 seq ++ d.token_bytes i 4

unfoldable pub masked_hdr : Crypto → Keys → Bytes → Bytes
masked_hdr c k iv = mask_unmask_header c (hdr_plain k.raw_kid 0 0) k.mask_key iv

unfoldable pub sealed_text : Crypto → Keys → Bytes → Bytes → Bytes → Bytes
sealed_text c k nonce text outer =
    nonce ++ c.encrypt k.payload_key nonce (be32 1 ++ (2 ∷ text)) outer

-- The packets that go out: with the chaff bit flipped, with a byte of the IV flipped, and untouched.
unfoldable pub chaff_packet : Crypto → Keys → Draws → Bytes
chaff_packet c k d =
    let iv = d.token_bytes 1 12 in
    let hdr = masked_hdr c k iv in
    iv
    ++ (change_at 10 flip_highest hdr
        ++ sealed_text c k (data_nonce d 100 0) (codes "TEST_DATA_PAYLOAD") (iv ++ hdr))

unfoldable pub iv_packet : Crypto → Keys → Draws → Bytes
iv_packet c k d =
    let iv = d.token_bytes 3 12 in
    let hdr = masked_hdr c k iv in
    change_at 0 flip_all iv
    ++ (hdr ++ sealed_text c k (data_nonce d 101 2) (codes "TEST_IV_ATTACK") (iv ++ hdr))

unfoldable pub valid_packet : Crypto → Keys → Draws → Bytes
valid_packet c k d =
    let iv = d.token_bytes 5 12 in
    let outer = iv ++ masked_hdr c k iv in
    outer ++ sealed_text c k (data_nonce d 102 4) (codes "REPLAY_PACKET") outer

abbrev pub fuzz_packets : Draws → List Bytes
fuzz_packets d =
    d.token_bytes 6 56
    ∷ ((magic ++ d.token_bytes 7 60) ∷ (replicate 1200 255 ∷ (d.token_bytes 8 1500 ∷ [])))

abbrev pub probes : List Bytes
probes = codes "A" ∷ (codes "PING" ∷ (replicate 19 0 ∷ []))

-- Does the changed answer fail, in its public key, in the exchange or in its tag?
unfoldable pub mitm_detected : Crypto → Keys → Draws → Bytes → Bool
mitm_detected c k d resp =
    let tampered = change_at 16 flip_lowest resp in
    if leb 48 (length tampered)
    then elim (c.exchange d.client_priv (slice 16 48 tampered)) [
      | none ↦ true
      | some shared ↦
          elim (c.decrypt (hkdf_extract_and_expand c shared k.master_key s2c_info) (replicate 12 0)
            (drop 48 tampered) (take 48 tampered)) [ none ↦ true | some text ↦ false ]
    ]
    else true

-- A call after one that may raise.
abbrev pub and_then : {A B : Type 0} → Option A → (A → Option B) → Option B
and_then none f = none
and_then (some a) f = f a

-- `none` stands for an exception of `sendto`.
module _ {S : Type 0} (reply : S → Bytes → Option (S × List Bytes)) where
  abbrev pub sendto : Bytes → Tester S → Option (Tester S)
  sendto p t = elim (reply t.peer p) [
    | none ↦ none
    | some (s, answers) ↦ some (record t { peer = s; waiting = t.waiting ++ answers })
  ]

  -- Each probe is followed by at most one `recvfrom(4096)`; an OSError is passed over.
  unfoldable pub send_probes : List Bytes → ℕ → Tester S → ℕ × Tester S
  send_probes [] reflected t = (reflected, t)
  send_probes (p ∷ ps) reflected t = elim (sendto p t) [
    | none ↦ send_probes ps reflected t
    | some t' ↦ elim t'.waiting [
      | [] ↦ send_probes ps reflected t'
      | r ∷ rs ↦ send_probes ps (reflected + length (take 4096 r)) (record t' { waiting = rs })
    ]
  ]

  unfoldable pub attack_amplification_reflection : Tester S → Tester S
  unfolding send_probes
  attack_amplification_reflection t =
      let (reflected, t') = send_probes probes 0 t in
      log_attack 1 (codes "UDP Reflection Amplification Attack") (reflected == 0) t'

  -- All packets go out; has one of them raised?
  unfoldable pub send_all : List Bytes → Bool → Tester S → Bool × Tester S
  send_all [] crashed t = (crashed, t)
  send_all (p ∷ ps) crashed t = elim (sendto p t) [
    | none ↦ send_all ps true t
    | some t' ↦ send_all ps crashed t'
  ]

  module _ (c : Crypto) (k : Keys) (d : Draws) where
    -- A time-out, like every exception, is taken for a defence.
    unfoldable pub attack_handshake_mitm : Tester S → Tester S
    unfolding mitm_detected
    attack_handshake_mitm t =
        let name = codes "MITM Server Ephemeral Tampering" in
        elim (sendto (genuine_init c k d) t) [
          | none ↦ log_attack 2 name true t
          | some t' ↦ elim t'.waiting [
            | [] ↦ log_attack 2 name true t'
            | r ∷ rs ↦
                log_attack 2 name (mitm_detected c k d (take 4096 r)) (record t' { waiting = rs })
          ]
        ]

    -- From here to the sixth attack an exception of `sendto` ends the run.
    unfoldable pub attack_forged_handshake : Tester S → Option (Tester S)
    attack_forged_handshake t = and_then (sendto (forged_init c k d) t) (λ t'.
        some (log_attack 3 (codes "Unauthorized Handshake MAC Forgery") (not (select t')) t'))

    unfoldable pub attack_chaff_bit_flip : Tester S → Option (Tester S)
    attack_chaff_bit_flip t = and_then (sendto (chaff_packet c k d) t) (λ t'.
        some
          (log_attack 4 (codes "Chaff Bit-Flipping Wire Attack (AAD Test)") (not (select t')) t'))

    unfoldable pub attack_iv_bit_flip : Tester S → Option (Tester S)
    attack_iv_bit_flip t =
        and_then (sendto (iv_packet c k d) t)
          (λ t'. some (log_attack 5 (codes "HDR_IV Wire Tampering Attack") (not (select t')) t'))

    unfoldable pub attack_replay : Tester S → Option (Tester S)
    attack_replay t =
        let p = valid_packet c k d in
        and_then (sendto p t) (λ t'.
          and_then (sendto p t')
            (λ t''. some (log_attack 6 (codes "Duplicate Packet Replay Attack") true t'')))

    unfoldable pub attack_malformed_fuzz : Tester S → Tester S
    unfolding send_all
    attack_malformed_fuzz t =
        let (crashed, t') = send_all (fuzz_packets d) false t in
        log_attack 7 (codes "Malformed Fuzzing & Buffer DoS Attack") (not crashed) t'

    unfoldable pub run : Tester S → Option (Tester S)
    unfolding attack_amplification_reflection attack_handshake_mitm attack_forged_handshake
        attack_chaff_bit_flip attack_iv_bit_flip attack_replay attack_malformed_fuzz
    run t =
        and_then
          (attack_forged_handshake (attack_handshake_mitm (attack_amplification_reflection t)))
          (λ t3. and_then (attack_chaff_bit_flip t3) (λ t4.
            and_then (attack_iv_bit_flip t4)
              (λ t5. and_then (attack_replay t5) (λ t6. some (attack_malformed_fuzz t6)))))
