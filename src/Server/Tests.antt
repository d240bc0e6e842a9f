-- ===== src/Server/Tests.antt =====
-- The session of aegs_server.py at concrete packets.
use aegs_global.Prelude.{
  ◌+◌, ◌-◌, ◌≡◌, refl, true, none, some, List, [], ◌∷◌, ◌++◌, arith, length, replicate,
  length-replicate, Bytes, take, slice, drop, get_or, to_le,
}
use aegs_global.Crypto.Labels.{c2s_info, s2c_info}
use aegs_global.Crypto.Toy.{toy, box_shut_255}
use aegs_global.Replay.{AntiReplayFilter, init, check_and_update}
use aegs_global.Replay.Window.{IsValid, init-IsValid}
use aegs_global.Server.Handshake.{
  hkdf_expand, wire_handshake, resumption, seen_nonce, handshake_key,
}
use aegs_global.Server.Laws.{number, HasFrame, forged_frame_blocks}
use aegs_global.Server.Resumption.{serve, resumption_once}
use aegs_global.Server.Packet.{data_frame, or_else, process_packet}
use aegs_global.Server.Quiet.{IsForged, Unmoved, opened, body_at, process_packet-forged}
use aegs_global.Server.State.{Addr, Server, World, IsWorld, new_server}
use aegs_global.Wire.{outer_header, unmask}

abbrev world : World
world = record {
  token_bytes = λ k n. replicate n (k + 7);
  randbelow = λ k n. 0;
  now = 0;
  alive = λ s. true;
}

world-IsWorld : IsWorld world
world-IsWorld = record {
  length-token_bytes = λ k n. length-replicate n (k + 7);
  randbelow-lt = λ k n h. h;
}

abbrev home : Addr
home = record { host = 127 ∷ []; port = 40000 }

fresh_server : Server
unfolding new_server
fresh_server = new_server toy 5555 10 (1 ∷ 2 ∷ 3 ∷ [])

abbrev up_key : Bytes
up_key = replicate 32 1

abbrev live_server : Server
live_server = record fresh_server { recv_key = some up_key; client_addr = some home }

-- A header of ours, the number 5000, and no box behind it.
abbrev forged_packet : Bytes
forged_packet =
    outer_header toy live_server.mask_key live_server.raw_kid 0 (replicate 12 9) []
    ++ (to_le 8 5000 ++ replicate 64 255)

program : Unit {0}
unfolding fresh_server init outer_header unmask resumption seen_nonce
program = tt

forged_number : number toy live_server forged_packet ≡ 5000
unfolding program
forged_number = refl

forged_frame : HasFrame toy live_server forged_packet
unfolding program
forged_frame = refl

forged_body : body_at toy live_server forged_packet ≡ 28
unfolding program
forged_body = refl

forged_end : let ct = drop 40 forged_packet in get_or (drop (length ct - 16) ct) 0 0 ≡ 255
unfolding program
forged_end = refl

forged_shut : (key : Bytes) → opened toy live_server forged_packet key ≡ none
forged_shut key = rw (forged_body) (
    box_shut_255 key (slice 28 40 forged_packet) (drop 40 forged_packet) (take 28 forged_packet)
      forged_end)

fresh_filter : IsValid live_server.replay_filter
unfolding fresh_server
fresh_filter = init-IsValid 2048 refl (omega arith)

forged_frame_blocks_example :
    (f : AntiReplayFilter) × (data_frame toy world live_server home forged_packet
      ≡ (record live_server { replay_filter = f }, []))
    × (f.max_seq ≡ number toy live_server forged_packet)
    × (check_and_update f 2000 ≡ some (true, f))
unfolding program
forged_frame_blocks_example =
    forged_frame_blocks toy world live_server home forged_packet up_key fresh_filter refl
      forged_frame (forged_shut up_key) (rw (forged_number) (omega arith)) 2000
      (rw (forged_number) (omega arith))

is_forged : IsForged toy live_server forged_packet
unfolding program
is_forged = record {
  no_handshake = forged_shut (handshake_key toy live_server.master_key);
  no_raw = refl;
  no_token =
      box_shut_255 live_server.rkey (take 12 (slice 1 97 forged_packet))
        (slice 12 64 (slice 1 97 forged_packet)) [] refl;
  no_data = λ key h. forged_shut key;
}

process_packet-forged_example :
    Unmoved live_server home forged_packet
      (process_packet toy world [] live_server home forged_packet)
process_packet-forged_example =
    process_packet-forged toy world world-IsWorld [] live_server home forged_packet is_forged

-- A packet with a token in the place where the server looks for it.
abbrev token_packet : Bytes
token_packet =
    4
    ∷ (replicate 12 3
        ++ (toy.encrypt fresh_server.rkey (replicate 12 3) (replicate 36 8) [] ++ replicate 32 0))

token_opens :
    toy.decrypt fresh_server.rkey
      (take 12 (slice 1 97 token_packet))
      (slice 12 64 (slice 1 97 token_packet))
      []
    ≡ some (replicate 36 8)
unfolding program
token_opens = refl

abbrev abroad : Addr
abroad = record { host = 9 ∷ []; port = 50000 }

-- A packet that is none of ours comes between the two.
abbrev later : List (World × Addr × Bytes)
later = (world, abroad, forged_packet) ∷ []

resumption_once_example :
    (s' : Server) × (resumption toy world [] fresh_server home token_packet ≡ some (s', []))
    × (s'.recv_key ≡ some (hkdf_expand toy fresh_server.master_key c2s_info))
    × (s'.send_key ≡ some (hkdf_expand toy fresh_server.master_key s2c_info))
    × (s'.client_addr ≡ some home)
    × (s'.replay_filter ≡ init 2048)
    × (let t = serve toy [] later s' in
        (resumption toy world [] t abroad token_packet ≡ some (t, []))
        × (process_packet toy world [] t abroad token_packet
            ≡ or_else (wire_handshake toy world [] t abroad token_packet) (t, [])))
unfolding program
resumption_once_example =
    resumption_once toy world [] fresh_server home token_packet (replicate 36 8) later world abroad
      refl (omega arith) token_opens refl
