-- ===== src/Tunnel/Opening.antt =====
-- What `process_packet` of aegs_server.py makes of a packet that the other side has sealed.
use aegs_global.Prelude.{
  eq_false, ℕ, ◌+◌, ◌^◌, ◌≤◌, ◌<◌, ◌≡◌, ◌≢◌, false, none, some, [], ◌++◌, arith, length, get_or,
  take, slice, leb, le→leb, ltb, ltb-false, Bool-cases, inl, inr, ◌⊎◌, Bytes, to_le, bytes_eq,
  length-append, length-to_le,
}
use aegs_global.Crypto.{Crypto, IsCrypto}
use aegs_global.Replay.{AntiReplayFilter, check_and_update}
use aegs_global.Server.Handshake.{handshake_key, wire_handshake, raw_handshake, resumption}
use aegs_global.Server.Packet.{stun_probe, data_frame, open_data, deliver, process_packet}
use aegs_global.Server.State.{Addr, Server, World}
use aegs_global.Wire.{outer_header, seal, hdr_plain}
use aegs_global.Wire.Seal.{slice-sealed, drop-sealed, take-sealed}
use aegs_global.Wire.Laws.{
  unmask-seal, of_le-slice-seal, hdr_plain-is_ours, junk_len_of-hdr_plain, length-seal,
  decrypt-seal, first-seal, length-outer_header,
}

-- What is sealed under one key does not open under another.
abbrev pub NotUnder : Crypto → Bytes → Bytes → Bytes → Bytes → Bytes → Type 0
NotUnder c other key nonce pt aad = c.decrypt other nonce (c.encrypt key nonce pt aad) aad ≡ none

raw_handshake-other :
    (c : Crypto) (w : World) (priv : Bytes) (s : Server) (addr : Addr) (d : Bytes)
    → get_or d 0 0 ≢ 1
    → raw_handshake c w priv s addr d ≡ none
unfolding raw_handshake
raw_handshake-other c w priv s addr d h = rw (eq_false (get_or d 0 0) 1 h, raw_handshake)

resumption-other :
    (c : Crypto) (w : World) (priv : Bytes) (s : Server) (addr : Addr) (d : Bytes)
    → get_or d 0 0 ≢ 4
    → resumption c w priv s addr d ≡ none
unfolding resumption
resumption-other c w priv s addr d h = rw (eq_false (get_or d 0 0) 4 h, resumption)

module _ (c : Crypto) (laws : IsCrypto c) (w : World) (priv : Bytes) (s : Server) (addr : Addr)
    (key : Bytes) (flag seq : ℕ) (iv junk salt pt : Bytes) (hk : length s.raw_kid ≡ 8)
    (hiv : length iv ≡ 12) (hsalt : length salt ≡ 4) (hjunk : length junk < 65536)
    (hseq : seq < 256 ^ 8) where
  -- The packet.
  abbrev pkt : Bytes
  pkt = seal c key (to_le 8 seq ++ salt) (outer_header c s.mask_key s.raw_kid flag iv junk) pt

  abbrev hdr : Bytes
  hdr = hdr_plain s.raw_kid (length junk) flag

  length-nonce : length (to_le 8 seq ++ salt) ≡ 12
  length-nonce = omega (arith, length-append (to_le 8 seq) salt, length-to_le 8 seq, hsalt)

  length-pkt : length pkt ≡ 56 + length junk + length pt
  length-pkt =
      length-seal c laws s.mask_key s.raw_kid flag iv junk hk hiv key (to_le 8 seq ++ salt) pt
        length-nonce

  open_data-seal :
      (s' : Server)
      → open_data c w s' addr pkt hdr (28 + length junk) key ≡ deliver w s' addr hdr pt
  unfolding open_data
  open_data-seal s' = rw (
    decrypt-seal c laws s.mask_key s.raw_kid flag iv junk hk hiv key (to_le 8 seq ++ salt) pt
        length-nonce,
    open_data,
  )

  -- The data part opens it, if the filter takes its number.
  pub data_frame-seal :
      (f : AntiReplayFilter)
      → s.recv_key ≡ some key
      → check_and_update s.replay_filter seq ≡ some (false, f)
      → data_frame c w s addr pkt ≡ deliver w (record s { replay_filter = f }) addr hdr pt
  unfolding data_frame
  data_frame-seal f hr hf = simp (
    hr,
    unmask-seal c laws s.mask_key s.raw_kid flag iv junk hk hiv key (to_le 8 seq ++ salt) pt,
    hdr_plain-is_ours s.raw_kid (length junk) flag hk,
    junk_len_of-hdr_plain s.raw_kid (length junk) flag hk hjunk,
    le→leb 56 (length pkt) (omega (arith, length-pkt)),
    le→leb (28 + length junk + 28) (length pkt) (omega (arith, length-pkt)),
    of_le-slice-seal c laws s.mask_key s.raw_kid flag iv junk hk hiv key salt pt seq hseq,
    hf,
    open_data-seal,
    data_frame,
  )

  abbrev IsNoHandshake : Type 0
  IsNoHandshake =
      NotUnder c (handshake_key c s.master_key) key (to_le 8 seq ++ salt) pt
        (outer_header c s.mask_key s.raw_kid flag iv junk)

  wire_handshake-seal : IsNoHandshake → wire_handshake c w priv s addr pkt ≡ none
  unfolding wire_handshake
  wire_handshake-seal h = elim (Bool-cases (leb 88 (length pkt))) [
    | inr short ↦ rw (short, wire_handshake)
    | inl long ↦ elim (Bool-cases (leb (28 + length junk + 60) (length pkt))) [
      | inr no_room ↦ simp (
        long,
        unmask-seal c laws s.mask_key s.raw_kid flag iv junk hk hiv key (to_le 8 seq ++ salt) pt,
        hdr_plain-is_ours s.raw_kid (length junk) flag hk,
        junk_len_of-hdr_plain s.raw_kid (length junk) flag hk hjunk,
        no_room,
        wire_handshake,
      )
      | inl room ↦ simp (
        long,
        unmask-seal c laws s.mask_key s.raw_kid flag iv junk hk hiv key (to_le 8 seq ++ salt) pt,
        hdr_plain-is_ours s.raw_kid (length junk) flag hk,
        junk_len_of-hdr_plain s.raw_kid (length junk) flag hk hjunk,
        room,
        slice-sealed c laws _ _
            (length-outer_header c laws s.mask_key s.raw_kid flag iv junk hk hiv) key
            (to_le 8 seq ++ salt) pt length-nonce,
        drop-sealed c laws _ _ (length-outer_header c laws s.mask_key s.raw_kid flag iv junk hk hiv)
            key (to_le 8 seq ++ salt) pt length-nonce,
        take-sealed c laws _ _ (length-outer_header c laws s.mask_key s.raw_kid flag iv junk hk hiv)
            key (to_le 8 seq ++ salt) pt,
        h,
        wire_handshake,
      )
    ]
  ]

  stun_probe-seal : stun_probe w s addr pkt ≡ none
  unfolding stun_probe
  stun_probe-seal = ground (arith, length-pkt)

  first-pkt : get_or pkt 0 0 ≡ get_or iv 0 0
  first-pkt =
      first-seal c laws s.mask_key s.raw_kid flag iv junk hk hiv key (to_le 8 seq ++ salt) pt

  long-pkt : ltb (length pkt) 20 ≡ false
  long-pkt = ltb-false _ _ (omega (arith, length-pkt))

  raw_handshake-seal : get_or iv 0 0 ≢ 1 → raw_handshake c w priv s addr pkt ≡ none
  raw_handshake-seal ne = raw_handshake-other c w priv s addr pkt (rw first-pkt ne)

  resumption-seal : get_or iv 0 0 ≢ 4 → resumption c w priv s addr pkt ≡ none
  resumption-seal ne = resumption-other c w priv s addr pkt (rw first-pkt ne)

  -- A sealed packet whose IV begins with neither 1 nor 4 reaches the client's handler.
  pub process_packet-seal :
      (f : AntiReplayFilter)
      → IsNoHandshake
      → get_or iv 0 0 ≢ 1
      → get_or iv 0 0 ≢ 4
      → s.recv_key ≡ some key
      → check_and_update s.replay_filter seq ≡ some (false, f)
      → process_packet c w priv s addr pkt ≡ deliver w (record s { replay_filter = f }) addr hdr pt
  unfolding process_packet
  process_packet-seal f quiet one four hr hf =
      rw
        (
          long-pkt,
          stun_probe-seal,
          wire_handshake-seal quiet,
          raw_handshake-seal one,
          resumption-seal four,
        )
        (data_frame-seal f hr hf)

  -- The IV is drawn at random. A packet whose IV begins with 1 is taken for a raw handshake and
  -- dropped, since its bytes 8 to 15 are not the key id; one whose IV begins with 4 is taken for a
  -- resumption token and dropped, if it is long enough and the resumption key does not open it.
  pub process_packet-lost :
      IsNoHandshake
      → ((get_or iv 0 0 ≡ 1)
          × (72 ≤ 56 + length junk + length pt)
          × (bytes_eq (slice 8 16 pkt) s.raw_kid ≡ false))
        ⊎ ((get_or iv 0 0 ≡ 4)
            × (97 ≤ 56 + length junk + length pt)
            × (c.decrypt s.rkey (take 12 (slice 1 97 pkt)) (slice 12 64 (slice 1 97 pkt)) []
                ≡ none))
      → process_packet c w priv s addr pkt ≡ (s, [])
  unfolding process_packet
  process_packet-lost quiet (inl (one, long, other)) =
      let dropped : raw_handshake c w priv s addr pkt ≡ some (s, []) =
        unfold raw_handshake in
        simp (
          first-pkt,
          one,
          le→leb 72 (length pkt) (omega (arith, length-pkt)),
          other,
          raw_handshake,
        ) in
      rw (long-pkt, stun_probe-seal, wire_handshake-seal quiet, dropped)
  process_packet-lost quiet (inr (four, long, shut)) =
      let dropped : resumption c w priv s addr pkt ≡ some (s, []) =
        unfold resumption in
        simp
          (first-pkt, four, le→leb 97 (length pkt) (omega (arith, length-pkt)), shut, resumption) in
      rw (
        long-pkt,
        stun_probe-seal,
        wire_handshake-seal quiet,
        raw_handshake-seal (omega arith),
        dropped,
      )
