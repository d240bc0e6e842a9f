-- ===== src/Server/Resumption.antt =====
-- The tokens of aegs_server.py that resume a session, over the packets that come later.
mod Lasting
use aegs_global.Prelude.{
  ◌≤◌, ◌≡◌, refl, true, false, none, some, List, [], ◌∷◌, arith, length, get_or, take, slice, leb,
  le→leb, ltb-false, Bytes, bytes_eq_refl,
}
use aegs_global.Crypto.{Crypto}
use aegs_global.Crypto.Labels.{c2s_info, s2c_info}
use aegs_global.Replay.{init}
use aegs_global.Server.Handshake.{
  hkdf_expand, seen_nonce, wire_handshake, raw_handshake, resumption,
}
use aegs_global.Server.Packet.{stun_probe, or_else, process_packet, receive}
use aegs_global.Server.State.{Addr, Server, World}
use aegs_global.Server.Resumption.Lasting.{Taken, Kept, receive-Kept}

-- The receive loop over the datagrams that come, each with the world it meets and its sender.
unfoldable pub serve : Crypto → Bytes → List (World × Addr × Bytes) → Server → Server
serve c priv [] s = s
serve c priv ((w, addr, d) ∷ later) s = serve c priv later (receive c w priv s addr d).0

serve-Taken :
    (key n : Bytes) (c : Crypto) (priv : Bytes) (later : List (World × Addr × Bytes)) (s : Server)
    → Taken key n s
    → Taken key n (serve c priv later s)
unfolding serve Kept
serve-Taken key n c priv [] s h = h
serve-Taken key n c priv ((w, addr, d) ∷ later) s h =
    serve-Taken key n c priv later _ (receive-Kept key n c w priv s addr d h)

-- A token whose nonce has been taken changes nothing.
resumption-taken :
    (c : Crypto) (w : World) (priv : Bytes) (t : Server) (addr : Addr) (d dec : Bytes)
    → get_or d 0 0 ≡ 4
    → 97 ≤ length d
    → c.decrypt t.rkey (take 12 (slice 1 97 d)) (slice 12 64 (slice 1 97 d)) [] ≡ some dec
    → seen_nonce (take 12 (slice 1 97 d)) t.seen_resumption_nonces ≡ true
    → resumption c w priv t addr d ≡ some (t, [])
unfolding resumption
resumption-taken c w priv t addr d dec four long opens taken =
    simp (four, le→leb 97 (length d) long, opens, taken, resumption)

not_stun :
    (w : World) (t : Server) (addr : Addr) (d : Bytes)
    → get_or d 0 0 ≡ 4
    → stun_probe w t addr d ≡ none
unfolding stun_probe
not_stun w t addr [] four = absurd (omega (arith, four))
not_stun w t addr (b ∷ d) four = simp (four)

not_raw :
    (c : Crypto) (w : World) (priv : Bytes) (t : Server) (addr : Addr) (d : Bytes)
    → get_or d 0 0 ≡ 4
    → raw_handshake c w priv t addr d ≡ none
unfolding raw_handshake
not_raw c w priv t addr d four = simp (four, raw_handshake)

-- A packet with a token goes past the probe and the raw handshake.
dispatch-token :
    (c : Crypto) (w : World) (priv : Bytes) (t : Server) (addr : Addr) (d : Bytes)
    → get_or d 0 0 ≡ 4
    → 97 ≤ length d
    → resumption c w priv t addr d ≡ some (t, [])
    → process_packet c w priv t addr d ≡ or_else (wire_handshake c w priv t addr d) (t, [])
unfolding process_packet
dispatch-token c w priv t addr d four long answered = simp (
  ltb-false (length d) 20 (omega (arith, long)),
  not_stun w t addr d four,
  not_raw c w priv t addr d four,
  answered,
  process_packet,
)

-- A packet of 97 bytes or more begins with 4, its token opens under the server's key and the token's
-- nonce has not been taken. Then the session resumes: both keys come from the master key alone, the sender
-- becomes the client, the window is empty and nothing is sent. The token is used up: after any
-- datagrams whatever, from any senders, the same packet finds its nonce taken and changes nothing,
-- and `process_packet` does with it what the masked handshake does, or nothing if it is none.
pub resumption_once :
    (c : Crypto) (w : World) (priv : Bytes) (s : Server) (addr : Addr) (d dec : Bytes)
    (later : List (World × Addr × Bytes)) (w' : World) (addr' : Addr)
    → get_or d 0 0 ≡ 4
    → 97 ≤ length d
    → c.decrypt s.rkey (take 12 (slice 1 97 d)) (slice 12 64 (slice 1 97 d)) [] ≡ some dec
    → seen_nonce (take 12 (slice 1 97 d)) s.seen_resumption_nonces ≡ false
    → (s' : Server) × (resumption c w priv s addr d ≡ some (s', []))
      × (s'.recv_key ≡ some (hkdf_expand c s.master_key c2s_info))
      × (s'.send_key ≡ some (hkdf_expand c s.master_key s2c_info))
      × (s'.client_addr ≡ some addr)
      × (s'.replay_filter ≡ init 2048)
      × (let t = serve c priv later s' in
          (resumption c w' priv t addr' d ≡ some (t, []))
          × (process_packet c w' priv t addr' d
              ≡ or_else (wire_handshake c w' priv t addr' d) (t, [])))
unfolding resumption seen_nonce
resumption_once c w priv s addr d dec later w' addr' four long opens fresh =
    let nonce = take 12 (slice 1 97 d) in
    let roomy = le→leb 97 (length d) long in
    let s' : Server = record s {
      seen_resumption_nonces = nonce ∷ s.seen_resumption_nonces;
      recv_key = some (hkdf_expand c s.master_key c2s_info);
      send_key = some (hkdf_expand c s.master_key s2c_info);
      client_addr = some addr;
      replay_filter = init 2048;
    } in
    let (same, taken) =
      serve-Taken s.rkey nonce c priv later s' (refl, simp (bytes_eq_refl, seen_nonce)) in
    let answered = resumption-taken c w' priv _ addr' d dec four long (rw (same) opens) taken in
    (
      s',
      simp (four, roomy, opens, fresh, resumption),
      refl,
      refl,
      refl,
      refl,
      (answered, dispatch-token c w' priv _ addr' d four long answered),
    )
