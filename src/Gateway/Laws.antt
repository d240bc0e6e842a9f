-- ===== src/Gateway/Laws.antt =====
-- The numbers that the server of aegs_tunnel_gateway.py has seen.
use aegs_global.Prelude.{
  eq_false, ℕ, ◌+◌, ◌≡◌, ◌≢◌, refl, ◌∙◌, bytes_eq, Bool, true, false, ◌&&◌, some, List, [], ◌∷◌,
  arith, length, get_or, take, slice, leb, ltb, ◌==◌, Bool-cases, Option-cases, inl, inr, Bytes,
  of_le,
}
use aegs_global.Crypto.{Crypto}
use aegs_global.Gateway.Server.{
  GatewayServer, seen, gateway_handshake, gateway_body, gateway_data, gateway_datagram, gateway_run,
}
use aegs_global.Gateway.Wire.{unmasked}
use aegs_global.Server.Handshake.{tag16}
use aegs_global.Server.State.{Addr, World}
use aegs_global.Wire.{is_ours, junk_len_of}
use aegs_global.Gateway.Taken.{gateway_body-Taken}

-- Where the parts of a data packet begin, and its number.
abbrev pub data_at : Crypto → GatewayServer → Bytes → ℕ
data_at c g d = 28 + junk_len_of (unmasked c g.mask_key d)

abbrev pub data_number : Crypto → GatewayServer → Bytes → ℕ
data_number c g d = of_le (slice (data_at c g d) (data_at c g d + 8) d)

-- The later server has the same secrets, and every number that was seen is seen.
record Later (g h : GatewayServer) : Type 0 where
  kid : h.raw_kid ≡ g.raw_kid
  mask : h.mask_key ≡ g.mask_key
  kept : (j : ℕ) → seen j g.seen_seqs ≡ true → seen j h.seen_seqs ≡ true

Later-refl : (g : GatewayServer) → Later g g
Later-refl g = record { kid = refl; mask = refl; kept = λ j h. h }

Later-trans : (g h k : GatewayServer) → Later g h → Later h k → Later g k
Later-trans g h k a b = record {
  kid = b.kid ∙ a.kid;
  mask = b.mask ∙ a.mask;
  kept = λ j e. b.kept j (a.kept j e);
}

module _ (c : Crypto) (w : World) (priv : Bytes) (addr : Addr) where
  abbrev pub HasData : GatewayServer → Bytes → Type 0
  HasData g d =
      (leb 56 (length d)
        && (is_ours g.raw_kid (unmasked c g.mask_key d) && leb (data_at c g d + 28) (length d)))
      ≡ true

  -- A data packet whose number is seen does nothing.
  gateway_data-seen :
      (g : GatewayServer) (d : Bytes)
      → seen (data_number c g d) g.seen_seqs ≡ true
      → gateway_data c w priv g addr d ≡ (g, [])
  unfolding gateway_data gateway_body
  gateway_data-seen g d old = elim (Option-cases g.recv_key) [
    | inl n ↦ simp (n, gateway_data)
    | inr (key, y) ↦
        elim (Bool-cases (
          leb 56 (length d)
          && (is_ours g.raw_kid (unmasked c g.mask_key d)
              && leb (data_at c g d + 28) (length d)))) [
                | inl ours ↦ simp (y, ours, old, gateway_body, gateway_data)
                | inr other ↦ simp (y, other, gateway_data)
              ]
  ]

  pub gateway_datagram-seen :
      (g : GatewayServer) (d : Bytes)
      → get_or d 0 0 ≢ 1
      → seen (data_number c g d) g.seen_seqs ≡ true
      → gateway_datagram c w priv g addr d ≡ (g, [])
  unfolding gateway_datagram
  gateway_datagram-seen g d other old = elim (Bool-cases (ltb (length d) 20)) [
    | inl short ↦ simp (short, gateway_datagram)
    | inr long ↦
        simp (long, eq_false (get_or d 0 0) 1 other, gateway_data-seen g d old, gateway_datagram)
  ]

  gateway_data-Later : (g : GatewayServer) (d : Bytes) → Later g (gateway_data c w priv g addr d).0
  unfolding gateway_data
  gateway_data-Later g d = elim (Option-cases g.recv_key) [
    | inl n ↦
        let same : gateway_data c w priv g addr d ≡ (g, []) = simp (n, gateway_data) in
        rw (same) (Later-refl g)
    | inr (key, y) ↦
        elim (Bool-cases (
          leb 56 (length d)
          && (is_ours g.raw_kid (unmasked c g.mask_key d)
              && leb (data_at c g d + 28) (length d)))) [
                | inr other ↦
                    let same : gateway_data c w priv g addr d ≡ (g, []) =
                      simp (y, other, gateway_data) in
                    rw (same) (Later-refl g)
                | inl ours ↦
                    let t = gateway_body-Taken c w priv g addr key d (data_at c g d) in
                    let same : gateway_data c w priv g addr d
                        ≡ gateway_body c w priv g addr key d (data_at c g d) =
                      simp (y, ours, gateway_data) in
                    rw (same) (record { kid = t.kid; mask = t.mask; kept = t.kept })
              ]
  ]

  gateway_handshake-Later :
      (g : GatewayServer) (d : Bytes) → Later g (gateway_handshake c w priv g addr d).0
  unfolding gateway_handshake
  gateway_handshake-Later g d =
      elim (Bool-cases (
        bytes_eq (slice 8 16 d) g.raw_kid
        && bytes_eq (slice 56 72 d) (tag16 c g.master_key (take 56 d)))) [
          | inr other ↦ rw (other, gateway_handshake) (Later-refl g)
          | inl ours ↦ elim (Option-cases (c.exchange priv (slice 16 48 d))) [
            | inl n ↦ rw (ours, n, gateway_handshake) (Later-refl g)
            | inr (shared, y) ↦
                rw (ours, y, gateway_handshake)
                  (record { kid = refl; mask = refl; kept = λ j h. h })
          ]
        ]

  gateway_datagram-Later :
      (g : GatewayServer) (d : Bytes) → Later g (gateway_datagram c w priv g addr d).0
  unfolding gateway_datagram
  gateway_datagram-Later g d = elim (Bool-cases (ltb (length d) 20)) [
    | inl short ↦ rw (short, gateway_datagram) (Later-refl g)
    | inr long ↦ elim (Bool-cases (get_or d 0 0 == 1 && leb 72 (length d))) [
      | inl hs ↦ rw (long, hs, gateway_datagram) (gateway_handshake-Later g d)
      | inr other ↦ rw (long, other, gateway_datagram) (gateway_data-Later g d)
    ]
  ]

gateway_run-Later :
    (c : Crypto) (priv : Bytes) (g : GatewayServer) (ds : List (World × (Addr × Bytes)))
    → Later g (gateway_run c priv g ds)
unfolding gateway_run
gateway_run-Later c priv g [] = Later-refl g
gateway_run-Later c priv g ((w, (addr, d)) ∷ ds) =
    Later-trans g _ _ (gateway_datagram-Later c w priv addr g d)
      (gateway_run-Later c priv (gateway_datagram c w priv g addr d).0 ds)

-- A number that the server has seen stays taken: whatever comes in between, the handshakes of clients
-- that connect anew included, a data packet with that number is dropped and changes nothing.
pub number_stays_taken :
    (c : Crypto) (priv : Bytes) (g : GatewayServer) (ds : List (World × (Addr × Bytes))) (w : World)
    (addr : Addr) (d : Bytes)
    → get_or d 0 0 ≢ 1
    → seen (data_number c g d) g.seen_seqs ≡ true
    → gateway_datagram c w priv (gateway_run c priv g ds) addr d ≡ (gateway_run c priv g ds, [])
number_stays_taken c priv g ds w addr d other old =
    let l = gateway_run-Later c priv g ds in
    gateway_datagram-seen c w priv addr (gateway_run c priv g ds) d other
      (rw (l.mask) (l.kept (data_number c g d) old))

-- A data packet counts once: when the server has handled a packet with a header of ours and room for a
-- tag, whether or not it opened, the same packet does nothing at any later time, from any address.
pub packet_once :
    (c : Crypto) (priv : Bytes) (w : World) (g : GatewayServer) (addr : Addr) (d key : Bytes)
    → get_or d 0 0 ≢ 1
    → g.recv_key ≡ some key
    → HasData c w priv addr g d
    → (ds : List (World × (Addr × Bytes))) (w' : World) (addr' : Addr)
    → let h = gateway_run c priv (gateway_datagram c w priv g addr d).0 ds in
      gateway_datagram c w' priv h addr' d ≡ (h, [])
unfolding gateway_datagram gateway_data
packet_once c priv w g addr d key other y ours ds w' addr' =
    let t = gateway_body-Taken c w priv g addr key d (data_at c g d) in
    number_stays_taken c priv (gateway_datagram c w priv g addr d).0 ds w' addr' d other
      (rw (same) (taken (gateway_body c w priv g addr key d (data_at c g d)).0 t.mask t.number))
  where
    long : (a b : Bool) → (leb 56 (length d) && (a && b)) ≡ true → ltb (length d) 20 ≡ false
    long a b h = ground (arith, h)

    same : gateway_datagram c w priv g addr d ≡ gateway_body c w priv g addr key d (data_at c g d)
    same = simp (
      long (is_ours g.raw_kid (unmasked c g.mask_key d)) (leb (data_at c g d + 28) (length d)) ours,
      eq_false (get_or d 0 0) 1 other,
      y,
      ours,
      gateway_data,
      gateway_datagram,
    )

    taken :
        (h : GatewayServer)
        → h.mask_key ≡ g.mask_key
        → seen (data_number c g d) h.seen_seqs ≡ true
        → seen (data_number c h d) h.seen_seqs ≡ true
    taken h m n = rw (m) n
