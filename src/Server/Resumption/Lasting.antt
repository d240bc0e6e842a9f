-- ===== src/Server/Resumption/Lasting.antt =====
-- What every datagram leaves as it is in aegs_server.py: the key of the resumption tokens, and the
-- nonces that have been taken.
use aegs_global.Prelude.{
  ℕ, ◌≡◌, Bool, true, false, ◌&&◌, Option, none, some, List, [], ◌∷◌, arith, length, get_or, ◌+◌,
  take, drop, slice, bytes_eq, of_le, leb, ltb, ◌==◌, if◌then◌else◌, Bytes,
}
use aegs_global.Crypto.{Crypto}
use aegs_global.Replay.{AntiReplayFilter, check_and_update}
use aegs_global.Wire.{unmask, is_ours, junk_len_of}
use aegs_global.Server.Handshake.{
  tag16, handshake_key, handshake_salt, seen_nonce, wire_accept, wire_handshake, raw_handshake,
  resumption,
}
use aegs_global.Server.Packet.{
  stun_probe, is_chaff, deliver, open_data, data_frame, or_else, process_packet, receive,
}
use aegs_global.Server.Payload.{handle_client_payload, handle_data, handle_close}
use aegs_global.Server.State.{Addr, Server, World, Effect, client_connected}

-- The key of the tokens is `key`, and the nonce `n` has been taken.
abbrev pub Taken : Bytes → Bytes → Server → Type 0
Taken key n s = (s.rkey ≡ key) × (seen_nonce n s.seen_resumption_nonces ≡ true)

module _ (key n : Bytes) where
  unfoldable pub Kept : Server × List Effect → Type 0
  Kept r = Taken key n r.0

  unfoldable KeptIf : Option (Server × List Effect) → Type 0
  KeptIf none = Unit {0}
  KeptIf (some r) = Kept r

  same_Kept : (s : Server) (es : List Effect) → Taken key n s → Kept (s, es)
  unfolding Kept
  same_Kept s es h = h

  some-KeptIf : (s : Server) (es : List Effect) → Taken key n s → KeptIf (some (s, es))
  unfolding Kept KeptIf
  some-KeptIf s es h = h

  none-KeptIf : KeptIf none
  unfolding KeptIf
  none-KeptIf = tt

  if_Kept : (b : Bool) (x y : Server × List Effect) → Kept x → Kept y → Kept (if b then x else y)
  if_Kept true x y hx hy = hx
  if_Kept false x y hx hy = hy

  if_KeptIf :
      (b : Bool) (x y : Option (Server × List Effect))
      → KeptIf x
      → KeptIf y
      → KeptIf (if b then x else y)
  if_KeptIf true x y hx hy = hx
  if_KeptIf false x y hx hy = hy

  opened_KeptIf :
      {A : Type 0} (o : Option A) (z : Option (Server × List Effect))
      (f : A → Option (Server × List Effect))
      → KeptIf z
      → ((a : A) → KeptIf (f a))
      → KeptIf (elim o as (λ x. Option (Server × List Effect)) [ none ↦ z | some a ↦ f a ])
  opened_KeptIf none z f hz hf = hz
  opened_KeptIf (some a) z f hz hf = hf a

  or_else-Kept :
      (o : Option (Server × List Effect)) (y : Server × List Effect)
      → KeptIf o
      → Kept y
      → Kept (or_else o y)
  unfolding KeptIf
  or_else-Kept none y ho hy = hy
  or_else-Kept (some r) y ho hy = ho

  found_Kept :
      {A : Type 0} (o : Option A) (z : Server × List Effect) (f : A → Server × List Effect)
      → Kept z
      → ((a : A) → Kept (f a))
      → Kept (elim o as (λ x. Server × List Effect) [ none ↦ z | some a ↦ f a ])
  found_Kept none z f hz hf = hz
  found_Kept (some a) z f hz hf = hf a

  -- A nonce that is added leaves the others.
  seen_more : (m : Bytes) (ms : List Bytes) → seen_nonce n ms ≡ true → seen_nonce n (m ∷ ms) ≡ true
  unfolding seen_nonce
  seen_more m ms h = ground (arith, h)

  module _ (c : Crypto) (w : World) (priv : Bytes) (s : Server) (addr : Addr)
      (h : Taken key n s) where
    wire_accept-KeptIf : (pt : Bytes) → KeptIf (wire_accept c w priv s addr pt)
    unfolding wire_accept client_connected
    wire_accept-KeptIf pt =
        let tag = tag16 c (handshake_salt c s.master_key) (take 32 pt) in
        if_KeptIf (length pt == 48) _ _
          (if_KeptIf (bytes_eq (slice 32 48 pt) tag) _ _
            (opened_KeptIf (c.exchange priv (take 32 pt)) _ _ none-KeptIf
              (λ shared. some-KeptIf _ _ h))
            (some-KeptIf _ _ h))
          none-KeptIf

    wire_handshake-KeptIf : (d : Bytes) → KeptIf (wire_handshake c w priv s addr d)
    unfolding wire_handshake
    wire_handshake-KeptIf d =
        let hdr = unmask c s.mask_key d in
        let outer_len = 28 + junk_len_of hdr in
        if_KeptIf (leb 88 (length d)) _ _
          (if_KeptIf (is_ours s.raw_kid hdr && leb (outer_len + 60) (length d)) _ _
            (opened_KeptIf
              (c.decrypt (handshake_key c s.master_key) (slice outer_len (outer_len + 12) d)
                (drop (outer_len + 12) d) (take outer_len d))
              _ _ none-KeptIf wire_accept-KeptIf)
            none-KeptIf)
          none-KeptIf

    raw_handshake-KeptIf : (d : Bytes) → KeptIf (raw_handshake c w priv s addr d)
    unfolding raw_handshake client_connected
    raw_handshake-KeptIf d =
        let tag = tag16 c s.master_key (take 56 d) in
        if_KeptIf (get_or d 0 0 == 1 && leb 72 (length d)) _ _
          (if_KeptIf (bytes_eq (slice 8 16 d) s.raw_kid && bytes_eq (slice 56 72 d) tag) _ _
            (opened_KeptIf (c.exchange priv (slice 16 48 d)) _ _ (some-KeptIf _ _ h)
              (λ shared. some-KeptIf _ _ h))
            (some-KeptIf _ _ h))
          none-KeptIf

    resumption-KeptIf : (d : Bytes) → KeptIf (resumption c w priv s addr d)
    unfolding resumption
    resumption-KeptIf d =
        let nonce = take 12 (slice 1 97 d) in
        if_KeptIf (get_or d 0 0 == 4 && leb 97 (length d)) _ _
          (opened_KeptIf (c.decrypt s.rkey nonce (slice 12 64 (slice 1 97 d)) []) _ _
            (some-KeptIf _ _ h)
            (λ dec.
              if_KeptIf (seen_nonce nonce s.seen_resumption_nonces) _ _ (some-KeptIf _ _ h)
                (some-KeptIf _ _ (h.0, seen_more nonce s.seen_resumption_nonces h.1))))
          none-KeptIf

    stun_probe-KeptIf : (d : Bytes) → KeptIf (stun_probe w s addr d)
    unfolding stun_probe
    stun_probe-KeptIf d =
        if_KeptIf (bytes_eq (take 2 d) (0 ∷ 1 ∷ []) && length d == 20) _ _ (some-KeptIf _ _ h)
          none-KeptIf

  payload-Kept :
      (w : World) (s : Server) (pt : Bytes) → Taken key n s → Kept (handle_client_payload w s pt)
  unfolding Kept handle_client_payload handle_data handle_close
  payload-Kept w s pt h = ground (arith, h.0, h.1)

  deliver-Kept :
      (w : World) (s : Server) (addr : Addr) (hdr pt : Bytes)
      → Taken key n s
      → Kept (deliver w s addr hdr pt)
  unfolding deliver
  deliver-Kept w s addr hdr pt h =
      if_Kept (is_chaff hdr) _ _ (same_Kept _ _ h)
        (payload-Kept w (record s { client_addr = some addr }) pt h)

  open_data-Kept :
      (c : Crypto) (w : World) (s : Server) (addr : Addr) (d hdr : Bytes) (off : ℕ)
      (recv_key : Bytes)
      → Taken key n s
      → Kept (open_data c w s addr d hdr off recv_key)
  unfolding open_data
  open_data-Kept c w s addr d hdr off recv_key h =
      found_Kept (c.decrypt recv_key (slice off (off + 12) d) (drop (off + 12) d) (take off d)) _ _
        (same_Kept _ _ h) (λ pt. deliver-Kept w s addr hdr pt h)

  -- The filter's answer: a copy leaves the session, a new number goes on to the opening.
  checked_Kept :
      (c : Crypto) (w : World) (s : Server) (addr : Addr) (d hdr : Bytes) (off : ℕ)
      (recv_key : Bytes) (r : Option (Bool × AntiReplayFilter))
      → Taken key n s
      → Kept (elim r as (λ x. Server × List Effect) [
        | none ↦ (s, [])
        | some (true, f) ↦ (record s { replay_filter = f }, [])
        | some (false, f) ↦ open_data c w (record s { replay_filter = f }) addr d hdr off recv_key
      ])
  checked_Kept c w s addr d hdr off recv_key none h = same_Kept _ _ h
  checked_Kept c w s addr d hdr off recv_key (some (true, f)) h = same_Kept _ _ h
  checked_Kept c w s addr d hdr off recv_key (some (false, f)) h =
      open_data-Kept c w (record s { replay_filter = f }) addr d hdr off recv_key h

  data_frame-Kept :
      (c : Crypto) (w : World) (s : Server) (addr : Addr) (d : Bytes)
      → Taken key n s
      → Kept (data_frame c w s addr d)
  unfolding data_frame
  data_frame-Kept c w s addr d h =
      let hdr = unmask c s.mask_key d in
      let off = 28 + junk_len_of hdr in
      found_Kept s.recv_key _ _ (same_Kept _ _ h) (λ recv_key.
        if_Kept (leb 56 (length d) && is_ours s.raw_kid hdr && leb (off + 28) (length d)) _ _
          (checked_Kept c w s addr d hdr off recv_key
            (check_and_update s.replay_filter (of_le (slice off (off + 8) d))) h)
          (same_Kept _ _ h))

  process_packet-Kept :
      (c : Crypto) (w : World) (priv : Bytes) (s : Server) (addr : Addr) (d : Bytes)
      → Taken key n s
      → Kept (process_packet c w priv s addr d)
  unfolding process_packet
  process_packet-Kept c w priv s addr d h = if_Kept (ltb (length d) 20) _ _ (same_Kept _ _ h) (
      or_else-Kept _ _ (stun_probe-KeptIf c w priv s addr h d) (
        or_else-Kept _ _ (wire_handshake-KeptIf c w priv s addr h d) (
          or_else-Kept _ _ (raw_handshake-KeptIf c w priv s addr h d) (
            or_else-Kept _ _ (resumption-KeptIf c w priv s addr h d)
              (data_frame-Kept c w s addr d h)))))

  pub receive-Kept :
      (c : Crypto) (w : World) (priv : Bytes) (s : Server) (addr : Addr) (d : Bytes)
      → Taken key n s
      → Kept (receive c w priv s addr d)
  unfolding receive
  receive-Kept c w priv s addr d h =
      if_Kept (length d == 0) _ _ (same_Kept _ _ h) (process_packet-Kept c w priv _ addr d h)
