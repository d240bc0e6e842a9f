-- ===== src/Tunnel/Tests.antt =====
-- Two concrete ends of a tunnel over one token: aegs_client.py and aegs_server.py.
use aegs_global.Prelude.{
  ℕ, ◌+◌, ◌-◌, ◌<◌, ◌≤◌, ◌≡◌, get_or, take, drop, refl, true, false, none, some, [], ◌∷◌, ◌++◌,
  arith, length, replicate, length-replicate, Bytes, bytes_eq, inl, to_le, slice,
}
use aegs_global.Client.Handshake.{handshake_init, perform_handshake}
use aegs_global.Client.Packets.{send_raw_packet, udp_receive}
use aegs_global.Client.State.{Client, server_addr}
use aegs_global.Crypto.Labels.{client_write_info}
use aegs_global.Crypto.Toy.{toy, toy-IsCrypto, box_shut, box_shut_255}
use aegs_global.Replay.{init}
use aegs_global.Server.Handshake.{hkdf_expand, handshake_key}
use aegs_global.Server.Packet.{process_packet}
use aegs_global.Server.Payload.{cmd_data}
use aegs_global.Server.State.{Server, sendto, sendall, lookup}
use aegs_global.Server.Streams.{frame, aegs_packet, send_aegs_frame}
use aegs_global.Tunnel.Accept.{SameToken}
use aegs_global.Tunnel.Handshake.{handshake_agrees}
use aegs_global.Tunnel.Opening.{process_packet-lost}
use aegs_global.Tunnel.Uplink.{uplink_data}
use aegs_global.Tunnel.Downlink.{Linked, downlink_data, downlink_cut}
use aegs_global.Wire.{seal, outer_header, unmask, junk_len_of}
use aegs_global.Tunnel.Ends.{
  world, world-IsWorld, home, server_priv, shared, fresh_server, fresh_client, up_key, down_key,
  live_server, live_client, keys_apart, program, one_taken, paired, sendable,
}

same_token : SameToken toy fresh_client fresh_server server_priv shared
unfolding fresh_server fresh_client
same_token = record { master = refl; mask = refl; kid = refl; length_kid = refl; secret = refl }

handshake_agrees_example :
    (s' : Server) × (r : Bytes) × (k' : Client) × (process_packet toy world server_priv fresh_server
        home
        (handshake_init toy world fresh_client)
      ≡ (s', sendto r home ∷ []))
    × (perform_handshake toy fresh_client (r ∷ []) ≡ (true, k'))
    × (k'.send_key ≡ s'.recv_key)
    × (s'.send_key ≡ k'.recv_key)
    × (k'.send_key ≡ some (hkdf_expand toy shared client_write_info))
    × (s'.client_addr ≡ some home)
    × (s'.replay_filter ≡ init 2048)
    × (k'.session_resumption_token ≡ some (world.token_bytes 0 32))
handshake_agrees_example =
    handshake_agrees toy toy-IsCrypto world world world-IsWorld world-IsWorld server_priv shared
      fresh_client fresh_server home same_token []

abbrev lost_iv : Bytes
lost_iv = 1 ∷ replicate 11 0

abbrev lost_packet : Bytes
lost_packet =
    seal toy up_key (to_le 8 1 ++ replicate 4 0)
      (outer_header toy live_server.mask_key live_server.raw_kid 0 lost_iv []) (replicate 20 3)

not_the_kid : bytes_eq (slice 8 16 lost_packet) live_server.raw_kid ≡ false
unfolding program
not_the_kid = refl

process_packet-lost_example :
    process_packet toy world server_priv live_server home lost_packet ≡ (live_server, [])
unfolding program
process_packet-lost_example =
    process_packet-lost toy toy-IsCrypto world server_priv live_server home up_key 0 1 lost_iv []
      (replicate 4 0) (replicate 20 3) refl refl refl (omega arith) (omega arith)
      (box_shut up_key (handshake_key toy fresh_server.master_key) (to_le 8 1 ++ replicate 4 0)
        (replicate 20 3) (outer_header toy live_server.mask_key live_server.raw_kid 0 lost_iv [])
        keys_apart)
      (inl (refl, omega arith, not_the_kid))

abbrev greeting : Bytes
greeting = 65 ∷ 66 ∷ []

uplink_data_example :
    (p pad : Bytes) × (send_raw_packet toy world live_client 9 cmd_data greeting false ≡ (
      record live_client { tx_seq = live_client.tx_seq + 1 },
      sendto p (server_addr live_client 0) ∷ [],
    ))
    × (16 ≤ length pad)
    × (process_packet toy world server_priv live_server home p ≡ (
      record live_server {
        replay_filter = one_taken;
        client_addr = some home;
        total_bytes_tx = live_server.total_bytes_tx + length (greeting ++ pad);
      },
      sendall 77 (greeting ++ pad) ∷ [],
    ))
uplink_data_example =
    uplink_data toy toy-IsCrypto world world server_priv live_client live_server home up_key
      one_taken 9 77 greeting paired (sendable (frame 9 cmd_data greeting)) (omega arith) known refl
  where
    known : lookup 9 live_server.streams ≡ some 77
    known = unfold lookup in refl

linked : Linked live_client live_server down_key home
unfolding program
linked = record {
  mask = refl;
  kid = refl;
  length_kid = refl;
  sends = refl;
  receives = refl;
  knows = refl;
}

downlink_data_example :
    (p pad : Bytes) × (send_aegs_frame toy world live_server 9 cmd_data greeting ≡ (
      record live_server {
        tx_seq = live_server.tx_seq + 1;
        total_packets_tx = live_server.total_packets_tx + 1;
      },
      sendto p home ∷ [],
    ))
    × (16 ≤ length pad)
    × (udp_receive toy world live_client p ≡ (live_client, sendall 88 (greeting ++ pad) ∷ []))
downlink_data_example =
    downlink_data toy toy-IsCrypto world world world-IsWorld live_client live_server home down_key 9
      88 greeting linked (omega arith) (omega arith) (omega arith) known refl
  where
    known : lookup 9 live_client.streams ≡ some 88
    known = unfold lookup in refl

abbrev chunk : Bytes
chunk = replicate 4043 255

abbrev cut_packet : Bytes
cut_packet =
    take 4096
      (aegs_packet toy world live_server down_key (live_server.tx_seq + 1) (frame 9 cmd_data chunk))

chunk_long : 4012 ≤ length chunk
chunk_long = let size = length-replicate {A = ℕ} 4043 255 in omega (arith, size)

cut_header : junk_len_of (unmask toy live_client.mask_key cut_packet) ≡ 8
unfolding program aegs_packet
cut_header = refl

cut_end : get_or (drop (length (drop 48 cut_packet) - 16) (drop 48 cut_packet)) 0 0 ≡ 255
unfolding program aegs_packet
cut_end = refl

cut_shut :
    let n = 28 + junk_len_of (unmask toy live_client.mask_key cut_packet) in
    toy.decrypt down_key
      (slice n (n + 12) cut_packet)
      (drop (n + 12) cut_packet)
      (take n cut_packet)
    ≡ none
cut_shut = rw (cut_header) (
    box_shut_255 down_key (slice 36 48 cut_packet) (drop 48 cut_packet) (take 36 cut_packet)
      cut_end)

downlink_cut_example :
    (p : Bytes) × (send_aegs_frame toy world live_server 9 cmd_data chunk ≡ (
      record live_server {
        tx_seq = live_server.tx_seq + 1;
        total_packets_tx = live_server.total_packets_tx + 1;
      },
      sendto p home ∷ [],
    ))
    × (4096 < length p)
    × (udp_receive toy world live_client p ≡ (live_client, []))
unfolding fresh_server
downlink_cut_example =
    downlink_cut toy toy-IsCrypto world world world-IsWorld live_client live_server home down_key 9
      chunk linked chunk_long cut_shut
