-- ===== src/Proxy/Tests.antt =====
-- The proxy of scripts/quick_client.py at concrete datagrams.
use aegs_global.Prelude.{
  ◌-◌, ◌+◌, ◌≡◌, ◌≤◌, refl, true, false, none, some, [], ◌∷◌, arith, replicate, length-replicate,
}
use aegs_global.Crypto.Toy.{toy, toy-IsCrypto}
use aegs_global.Proxy.Packets.{Proxy, receive, out_pkt}
use aegs_global.Proxy.Packets.Arrival.{Mirrors, server_at, datagram_arrives}
use aegs_global.Proxy.Packets.Laws.{frame_size, lowest, highest, frame_size-bounds}
use aegs_global.Proxy.Window.{ReplayWindow, no_packets, verdicts, check_replay}
use aegs_global.Proxy.Window.Log.{log_verdicts}
use aegs_global.Proxy.Window.Refine.{verdicts_lem}
use aegs_global.Server.State.{Addr, World, IsWorld, sendto}

abbrev world : World
world = record {
  token_bytes = λ k n. replicate n (k + 7);
  randbelow = λ k n. n - 1;
  now = 0;
  alive = λ s. true;
}

world-IsWorld : IsWorld world
world-IsWorld = record {
  length-token_bytes = λ k n. length-replicate n (k + 7);
  randbelow-lt = λ k n h. omega (arith, h);
}

abbrev wireguard : Addr
wireguard = record { host = 127 ∷ []; port = 51820 }

abbrev near : Proxy
near = record {
  server_ip = 5 ∷ 6 ∷ 7 ∷ 8 ∷ [];
  port_count = 10;
  hop_interval = 30;
  raw_kid = replicate 8 3;
  mask_key = replicate 32 4;
  send_key = replicate 32 1;
  recv_key = replicate 32 2;
  wg_client_addr = none;
  client_tx_seq = 6;
  replay = no_packets;
  last_real_packet = 0;
  next_chaff_time = 0;
}

abbrev far : Proxy
far = record near {
  send_key = replicate 32 2;
  recv_key = replicate 32 1;
  wg_client_addr = some wireguard;
}

far-Mirrors : Mirrors far near wireguard
far-Mirrors = record { mask = refl; kid = refl; length_kid = refl; key = refl; listener = refl }

abbrev seven : ReplayWindow
seven = record { last_seq = 7; bitmap = 1 }

fresh : check_replay far.replay 7 ≡ (false, seven)
unfolding check_replay
fresh = refl

datagram_arrives_example :
    receive toy world 0 far
      (server_at toy (replicate 32 2) far 100)
      (out_pkt toy world near (1 ∷ 2 ∷ 3 ∷ []))
    ≡ (record far { replay = seven }, sendto (1 ∷ 2 ∷ 3 ∷ []) wireguard ∷ [])
datagram_arrives_example =
    datagram_arrives toy toy-IsCrypto world world near far wireguard (1 ∷ 2 ∷ 3 ∷ [])
      (replicate 32 2) seven 100 0 world-IsWorld far-Mirrors (omega arith) (omega arith)
      (omega arith) fresh

frame_size-bounds_example :
    (lowest 1400 ≤ frame_size world 1400) × (frame_size world 1400 ≤ highest 1400)
frame_size-bounds_example = frame_size-bounds world 1400 world-IsWorld (omega arith)

verdicts_lem_example :
    verdicts no_packets (1 ∷ 80 ∷ 80 ∷ 17 ∷ 16 ∷ []) ≡ log_verdicts [] (1 ∷ 80 ∷ 80 ∷ 17 ∷ 16 ∷ [])
verdicts_lem_example = verdicts_lem (1 ∷ 80 ∷ 80 ∷ 17 ∷ 16 ∷ [])
