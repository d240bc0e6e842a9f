-- ===== src/Server/Quiet.antt =====
-- What a packet that no key authenticates can do to the server of aegs_server.py.
use aegs_global.Prelude.{
  ℕ, ◌+◌, ◌≡◌, refl, ◌⊎◌, inl, inr, Bool, true, false, ◌&&◌, none, some, Option, List, [], ◌∷◌,
  ◌++◌, arith, length, get_or, take, drop, slice, leb, ltb, ◌==◌, ==_iff, Bool-cases, Option-cases,
  Bytes, bytes_eq, of_le,
}
use aegs_global.Crypto.{Crypto}
use aegs_global.Replay.{AntiReplayFilter, check_and_update}
use aegs_global.Server.Handshake.{tag16, handshake_key, wire_handshake, raw_handshake, resumption}
use aegs_global.Server.Packet.{stun_probe, data_frame, open_data, process_packet, or_else}
use aegs_global.Server.State.{Addr, Server, World, IsWorld, Effect, sendto}
use aegs_global.Wire.{unmask, is_ours, junk_len_of}

-- Where the parts of the packet begin: behind the IV, the masked header and the junk.
abbrev pub body_at : Crypto → Server → Bytes → ℕ
body_at c s d = 28 + junk_len_of (unmask c s.mask_key d)

-- What the cipher makes of the packet's body under some key.
abbrev pub opened : Crypto → Server → Bytes → Bytes → Option Bytes
opened c s d key =
    let n = body_at c s d in c.decrypt key (slice n (n + 12) d) (drop (n + 12) d) (take n d)

-- No key of the server authenticates the packet.
pub record IsForged (c : Crypto) (s : Server) (d : Bytes) : Type 0 where
  pub no_handshake : opened c s d (handshake_key c s.master_key) ≡ none
  pub no_raw : bytes_eq (slice 56 72 d) (tag16 c s.master_key (take 56 d)) ≡ false
  pub no_token : c.decrypt s.rkey (take 12 (slice 1 97 d)) (slice 12 64 (slice 1 97 d)) [] ≡ none
  pub no_data : (key : Bytes) → s.recv_key ≡ some key → opened c s d key ≡ none

-- The server as it was but for its window, and no answer, or one of 20 bytes to 20 bytes.
abbrev pub Unmoved : Server → Addr → Bytes → Server × List Effect → Type 0
Unmoved s addr d (s', es) =
    (s' ≡ record s { replay_filter = s'.replay_filter })
    × ((es ≡ []) ⊎ ((r : Bytes) × (es ≡ sendto r addr ∷ []) × (length r ≡ 20) × (length d ≡ 20)))

and_false : (b : Bool) → (b && false) ≡ false
and_false true = refl
and_false false = refl

and_right : (a b : Bool) → (a && b) ≡ true → b ≡ true
and_right true b h = h
and_right false b h = cc

module _ (c : Crypto) (w : World) (lw : IsWorld w) (priv : Bytes) (s : Server) (addr : Addr)
    (d : Bytes) (forged : IsForged c s d) where
  wire_handshake-forged : wire_handshake c w priv s addr d ≡ none
  unfolding wire_handshake
  wire_handshake-forged = ground (arith, forged.no_handshake)

  checked :
      (key : Bytes)
      → s.recv_key ≡ some key
      → (leb 56 (length d)
          && is_ours s.raw_kid (unmask c s.mask_key d)
          && leb (body_at c s d + 28) (length d))
        ≡ true
      → (r : Option (Bool × AntiReplayFilter))
      → check_and_update s.replay_filter (of_le (slice (body_at c s d) (body_at c s d + 8) d)) ≡ r
      → (f : AntiReplayFilter) × (data_frame c w s addr d ≡ (record s { replay_filter = f }, []))
  unfolding data_frame open_data
  checked key e room none h =
      let same : data_frame c w s addr d ≡ (s, []) = simp (e, room, h, data_frame) in
      (s.replay_filter, same)
  checked key e room (some (true, f)) h = (f, simp (e, room, h, data_frame))
  checked key e room (some (false, f)) h =
      (f, simp (e, room, h, forged.no_data key e, open_data, data_frame))

  raw_handshake-forged :
      (raw_handshake c w priv s addr d ≡ none) ⊎ (raw_handshake c w priv s addr d ≡ some (s, []))
  unfolding raw_handshake
  raw_handshake-forged = elim (Bool-cases (get_or d 0 0 == 1 && leb 72 (length d))) [
    | inl e ↦ inr (simp (e, forged.no_raw, and_false, raw_handshake))
    | inr e ↦ inl (rw (e, raw_handshake))
  ]

  resumption-forged :
      (resumption c w priv s addr d ≡ none) ⊎ (resumption c w priv s addr d ≡ some (s, []))
  unfolding resumption
  resumption-forged = elim (Bool-cases (get_or d 0 0 == 4 && leb 97 (length d))) [
    | inl e ↦ inr (simp (e, forged.no_token, resumption))
    | inr e ↦ inl (rw (e, resumption))
  ]

  -- The data part moves the window at most.
  data_frame-forged :
      (f : AntiReplayFilter) × (data_frame c w s addr d ≡ (record s { replay_filter = f }, []))
  unfolding data_frame open_data
  data_frame-forged = elim (Option-cases s.recv_key) [
    | inl e ↦
        let same : data_frame c w s addr d ≡ (s, []) = simp (e, data_frame) in
        (s.replay_filter, same)
    | inr (key, e) ↦
        elim (Bool-cases (
          leb 56 (length d)
          && is_ours s.raw_kid (unmask c s.mask_key d)
          && leb (body_at c s d + 28) (length d))) [
            | inr small ↦
                let same : data_frame c w s addr d ≡ (s, []) = simp (e, small, data_frame) in
                (s.replay_filter, same)
            | inl room ↦
                checked key e room
                  (check_and_update s.replay_filter
                    (of_le (slice (body_at c s d) (body_at c s d + 8) d)))
                  refl
          ]
  ]

  stun_probe-forged :
      (stun_probe w s addr d ≡ none)
      ⊎ ((r : Bytes) × (stun_probe w s addr d ≡ some (s, sendto r addr ∷ []))
          × (length r ≡ 20)
          × (length d ≡ 20))
  unfolding stun_probe
  stun_probe-forged = elim (Bool-cases (bytes_eq (take 2 d) (0 ∷ 1 ∷ []) && length d == 20)) [
    | inr e ↦ inl (rw (e, stun_probe))
    | inl e ↦ inr (
      (1 ∷ 1 ∷ 0 ∷ 0 ∷ 0x21 ∷ 0x12 ∷ 0xa4 ∷ 0x42 ∷ []) ++ w.token_bytes 0 12,
      rw (e, stun_probe),
      omega (arith, lw.length-token_bytes 0 12),
      (==_iff _ _).0 (and_right (bytes_eq (take 2 d) (0 ∷ 1 ∷ [])) (length d == 20) e),
    )
  ]

  behind :
      (o p : Option (Server × List Effect)) (y : Server × List Effect)
      → (o ≡ none) ⊎ (o ≡ some (s, []))
      → (p ≡ none) ⊎ (p ≡ some (s, []))
      → (f : AntiReplayFilter) × (y ≡ (record s { replay_filter = f }, []))
      → (f : AntiReplayFilter) × (or_else o (or_else p y) ≡ (record s { replay_filter = f }, []))
  behind o p y (inr a) b h = (s.replay_filter, rw a)
  behind o p y (inl a) (inr b) h = (s.replay_filter, rw (a, b))
  behind o p y (inl a) (inl b) h = (h.0, rw (a, b) h.1)

  -- A packet that no key of the server authenticates changes neither the session's keys nor the
  -- client's address, the streams, the counters or the tokens: all but the window stays. It is not
  -- answered, or it is a STUN probe of 20 bytes and the answer has 20 bytes.
  pub process_packet-forged : Unmoved s addr d (process_packet c w priv s addr d)
  unfolding process_packet
  process_packet-forged =
      let (f, h) =
        behind (raw_handshake c w priv s addr d) (resumption c w priv s addr d)
          (data_frame c w s addr d) raw_handshake-forged resumption-forged data_frame-forged in
      elim (Bool-cases (ltb (length d) 20)) [
        | inl short ↦ rw (short, process_packet) (refl, inl refl)
        | inr long ↦ elim stun_probe-forged [
          | inr (r, e, l, m) ↦ rw (long, e, process_packet) (refl, inr (r, refl, l, m))
          | inl e ↦ rw (long, e, wire_handshake-forged, h, process_packet) (refl, inl refl)
        ]
      ]
