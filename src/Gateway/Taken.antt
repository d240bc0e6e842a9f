-- ===== src/Gateway/Taken.antt =====
-- What a data packet leaves in the server of aegs_tunnel_gateway.py.
use aegs_global.Prelude.{
  ℕ, ◌+◌, ◌≡◌, refl, true, List, ◌∷◌, arith, length, get_or, take, drop, slice, ltb, ◌==◌,
  Bool-cases, Option-cases, inl, inr, Bytes, of_le,
}
use aegs_global.Crypto.{Crypto}
use aegs_global.Gateway.Server.{GatewayServer, seen, gateway_payload, gateway_body}
use aegs_global.Server.Payload.{cmd_connect, cmd_data, cmd_close}
use aegs_global.Server.State.{Addr, World}

-- The two servers differ in their streams at most.
record SameSession (g h : GatewayServer) : Type 0 where
  kid : h.raw_kid ≡ g.raw_kid
  mask : h.mask_key ≡ g.mask_key
  key : h.recv_key ≡ g.recv_key
  numbers : h.seen_seqs ≡ g.seen_seqs

same_session : (g : GatewayServer) → SameSession g g
same_session g = record { kid = refl; mask = refl; key = refl; numbers = refl }

gateway_payload-SameSession :
    (w : World) (g : GatewayServer) (pt : Bytes) → SameSession g (gateway_payload w g pt).0
unfolding gateway_payload
gateway_payload-SameSession w g pt = elim (Bool-cases (ltb (length pt) 5)) [
  | inl short ↦ rw (short, gateway_payload) (same_session g)
  | inr long ↦ elim (Bool-cases (get_or pt 4 0 == cmd_connect)) [
    | inl a ↦ rw (long, a, gateway_payload) (same_session g)
    | inr a ↦ elim (Bool-cases (get_or pt 4 0 == cmd_data)) [
      | inl b ↦ rw (long, a, b, gateway_payload) (same_session g)
      | inr b ↦ elim (Bool-cases (get_or pt 4 0 == cmd_close)) [
        | inl e ↦
            rw (long, a, b, e, gateway_payload)
              (record { kid = refl; mask = refl; key = refl; numbers = refl })
        | inr e ↦ rw (long, a, b, e, gateway_payload) (same_session g)
      ]
    ]
  ]
]

seen-head : (n : ℕ) (ns : List ℕ) → seen n (n ∷ ns) ≡ true
unfolding seen
seen-head n ns = ground arith

seen-tail : (m n : ℕ) (ns : List ℕ) → seen m ns ≡ true → seen m (n ∷ ns) ≡ true
unfolding seen
seen-tail m n ns h = ground (arith, h)

module _ (c : Crypto) (w : World) (priv : Bytes) (g : GatewayServer) (addr : Addr) where
  -- What a body leaves: the session as it was, with the packet's number seen.
  pub record Taken (m : ℕ) (ns : List ℕ) (h : GatewayServer) : Type 0 where
    pub kid : h.raw_kid ≡ g.raw_kid
    pub mask : h.mask_key ≡ g.mask_key
    pub key : h.recv_key ≡ g.recv_key
    pub number : seen m h.seen_seqs ≡ true
    pub kept : (j : ℕ) → seen j ns ≡ true → seen j h.seen_seqs ≡ true

  pub gateway_body-Taken :
      (key d : Bytes) (n : ℕ)
      → Taken (of_le (slice n (n + 8) d)) g.seen_seqs (gateway_body c w priv g addr key d n).0
  unfolding gateway_body
  gateway_body-Taken key d n =
      let seq = of_le (slice n (n + 8) d) in
      elim (Bool-cases (seen seq g.seen_seqs)) [
        | inl old ↦
            rw (old, gateway_body)
              (record { kid = refl; mask = refl; key = refl; number = old; kept = λ j h. h })
        | inr new ↦
            elim (Option-cases (c.decrypt key (slice n (n + 12) d) (drop (n + 12) d) (take n d))) [
              | inl shut ↦
                  rw (new, shut, gateway_body)
                    (record {
                      kid = refl;
                      mask = refl;
                      key = refl;
                      number = seen-head seq g.seen_seqs;
                      kept = λ j h. seen-tail j seq g.seen_seqs h;
                    })
              | inr (pt, opens) ↦ rw (new, opens, gateway_body) (delivered seq pt)
            ]
      ]
    where
      delivered :
          (seq : ℕ) (pt : Bytes)
          → Taken seq g.seen_seqs
              (gateway_payload w (record g { seen_seqs = seq ∷ g.seen_seqs }) pt).0
      delivered seq pt =
          let s = gateway_payload-SameSession w (record g { seen_seqs = seq ∷ g.seen_seqs }) pt in
          record {
            kid = s.kid;
            mask = s.mask;
            key = s.key;
            number = rw (s.numbers) (seen-head seq g.seen_seqs);
            kept = λ j h. rw (s.numbers) (seen-tail j seq g.seen_seqs h);
          }
