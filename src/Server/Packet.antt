-- ===== src/Server/Packet.antt =====
-- `process_packet` of aegs_server.py and the part of `start` that counts and passes packets on.
use aegs_global.Prelude.{
  ◌%◌, ℕ, ◌+◌, Bool, true, false, ◌&&◌, Option, none, some, List, [], ◌∷◌, ◌++◌, length, take, drop,
  slice, get_or, ltb, leb, ◌==◌, if◌then◌else◌, Bytes, bytes_eq, of_le,
}
use aegs_global.Crypto.{Crypto}
use aegs_global.Replay.{check_and_update}
use aegs_global.Server.State.{Addr, Server, World, Effect, sendto}
use aegs_global.Server.Handshake.{wire_handshake, raw_handshake, resumption}
use aegs_global.Server.Payload.{handle_client_payload}
use aegs_global.Wire.{unmask, is_ours, junk_len_of}

-- Part 2: a STUN probe of 20 bytes is answered with a decoy of 20 bytes.
unfoldable pub stun_probe : World → Server → Addr → Bytes → Option (Server × List Effect)
stun_probe w s addr d =
    if bytes_eq (take 2 d) (0 ∷ 1 ∷ []) && length d == 20
    then some (
      s,
      sendto ((1 ∷ 1 ∷ 0 ∷ 0 ∷ 0x21 ∷ 0x12 ∷ 0xa4 ∷ 0x42 ∷ []) ++ w.token_bytes 0 12) addr ∷ [],
    )
    else none

-- `unmasked_hdr[10] & 0x80`
abbrev pub is_chaff : Bytes → Bool
is_chaff hdr = leb 128 (get_or hdr 10 0 % 256)

-- After the tag has been checked: the client may have moved, and chaff is thrown away.
unfoldable pub deliver : World → Server → Addr → Bytes → Bytes → Server × List Effect
deliver w s addr hdr pt =
    let s' = record s { client_addr = some addr } in
    if is_chaff hdr then (s', []) else handle_client_payload w s' pt

-- The opening of a data packet whose number the filter has taken.
unfoldable pub open_data :
    Crypto → World → Server → Addr → Bytes → Bytes → ℕ → Bytes → Server × List Effect
open_data c w s addr d hdr off recv_key =
    elim (c.decrypt recv_key (slice off (off + 12) d) (drop (off + 12) d) (take off d)) [
      | none ↦ (s, [])
      | some pt ↦ deliver w s addr hdr pt
    ]

-- Part 6: an encrypted data packet. The filter is asked, and moved, before the tag is checked.
unfoldable pub data_frame : Crypto → World → Server → Addr → Bytes → Server × List Effect
data_frame c w s addr d = elim s.recv_key [
  | none ↦ (s, [])
  | some recv_key ↦
      (let hdr = unmask c s.mask_key d in
        let off = 28 + junk_len_of hdr in
        if leb 56 (length d) && is_ours s.raw_kid hdr && leb (off + 28) (length d)
        then elim (check_and_update s.replay_filter (of_le (slice off (off + 8) d))) [
          | none ↦ (s, [])
          | some (true, f) ↦ (record s { replay_filter = f }, [])
          | some (false, f) ↦ open_data c w (record s { replay_filter = f }) addr d hdr off recv_key
        ]
        else (s, []))
]

abbrev pub or_else {ℓ} : {A : Type ℓ} → Option A → A → A
or_else none y = y
or_else (some x) y = x

unfoldable pub process_packet :
    Crypto → World → Bytes → Server → Addr → Bytes → Server × List Effect
process_packet c w server_priv s addr d =
    if ltb (length d) 20
    then (s, [])
    else or_else (stun_probe w s addr d) (
        or_else (wire_handshake c w server_priv s addr d) (
          or_else (raw_handshake c w server_priv s addr d)
            (or_else (resumption c w server_priv s addr d) (data_frame c w s addr d))))

-- The body of the receive loop for one datagram.
unfoldable pub receive : Crypto → World → Bytes → Server → Addr → Bytes → Server × List Effect
receive c w server_priv s addr d =
    if length d == 0
    then (s, [])
    else process_packet c w server_priv
        (record s {
          total_packets_rx = s.total_packets_rx + 1;
          total_bytes_rx = s.total_bytes_rx + length d;
        })
        addr d
