-- ===== src/Proxy/Packets.antt =====
-- The proxy of scripts/quick_client.py: its keys, and what it does with a datagram.
pub mod Laws
pub mod Arrival
use aegs_global.Prelude.{
  ℕ, ◌+◌, ◌-◌, ◌*◌, ◌/◌, ◌%◌, Bool, true, false, ◌&&◌, ◌||◌, Option, none, some, List, [], ◌∷◌,
  ◌++◌, length, take, drop, slice, ltb, leb, ◌==◌, not, if◌then◌else◌, Bytes, bytes_eq, be16,
  of_be16, of_le, to_le,
}
use mathlib.Core.List.{reverse}
use aegs_global.Bot.Sync.{hexdigest}
use aegs_global.Crypto.{Crypto}
use aegs_global.Crypto.Labels.{gateway_mask_info, proxy_payload_info, resumption_salt}
use aegs_global.Gateway.Wire.{mask_with_zeros, unmasked}
use aegs_global.Proxy.Window.{ReplayWindow, no_packets, check_replay}
use aegs_global.Server.State.{Addr, World, Effect, sendto}
use aegs_global.Wire.{hdr_plain, seal, is_ours, junk_len_of}

-- The raw key id and its hexadecimal form.
unfoldable pub compute_key_id : Crypto → Bytes → Bytes × Bytes
unfolding hexdigest
compute_key_id c token = let raw_kid = take 8 (c.sha256 token) in (raw_kid, hexdigest raw_kid)

-- The master key, the mask key and the payload key, which no one uses.
unfoldable pub derive_keys : Crypto → Bytes → Bytes → Bytes × Bytes × Bytes
derive_keys c token kid_hex =
    let master_key = c.pbkdf2_sha256 token kid_hex 200000 in
    (
      master_key,
      c.hkdf (some resumption_salt) gateway_mask_info 32 master_key,
      c.hkdf (some resumption_salt) proxy_payload_info 32 master_key,
    )

-- Small datagrams are padded towards 256 bytes and large ones towards 1350, one in twenty to
-- between 512 and 768. Each branch draws twice.
unfoldable pub semantic_pad : World → ℕ → ℕ
semantic_pad w payload_len =
    let needed = 2 + payload_len in
    if ltb (w.randbelow 0 100) 5
    then (512 + w.randbelow 1 257) - needed
    else if leb payload_len 200
    then (256 + w.randbelow 1 33 - 16) - needed
    else if leb 1350 needed
    then w.randbelow 1 33
    else (1350 + w.randbelow 1 65 - 32) - needed

-- The port of the period in which the second `wall` lies.
unfoldable pub compute_hopper_port : Crypto → Bytes → ℕ → ℕ → ℕ → ℕ → ℕ
compute_hopper_port c key base_port count interval wall =
    let epoch = wall / (if ltb 0 interval then interval else 30) in
    let val = of_le (take 4 (c.hmac_sha256 key (reverse (to_le 8 epoch)))) in
    base_port + val % (if ltb 0 count then count else 1)

abbrev pub default_server_port : ℕ
default_server_port = 50001

-- The variables of `run_python_proxy`; times are in milliseconds.
pub record Proxy : Type 0 where
  pub server_ip : Bytes
  pub port_count : ℕ
  pub hop_interval : ℕ
  pub raw_kid : Bytes
  pub mask_key : Bytes
  pub send_key : Bytes
  pub recv_key : Bytes
  pub wg_client_addr : Option Addr
  pub client_tx_seq : ℕ
  pub replay : ReplayWindow
  pub last_real_packet : ℕ
  pub next_chaff_time : ℕ

-- The state in which the loop begins: keys and replies come from the handshake.
unfoldable pub new_proxy : Crypto → World → Bytes → Bytes → ℕ → ℕ → Bytes → Bytes → Proxy
unfolding compute_key_id derive_keys
new_proxy c w server_ip token port_count hop_interval send_key recv_key =
    let (raw_kid, kid_hex) = compute_key_id c token in
    let (master_key, mask_key, payload_key) = derive_keys c token kid_hex in
    record {
      server_ip = server_ip;
      port_count = port_count;
      hop_interval = hop_interval;
      raw_kid = raw_kid;
      mask_key = mask_key;
      send_key = send_key;
      recv_key = recv_key;
      wg_client_addr = none;
      client_tx_seq = 0;
      replay = no_packets;
      last_real_packet = w.now;
      next_chaff_time = w.now + 50 + 10 * w.randbelow 0 10;
    }

abbrev hop_addr : Crypto → Proxy → ℕ → Addr
unfolding compute_hopper_port
hop_addr c k wall = record {
  host = k.server_ip;
  port = compute_hopper_port c k.send_key default_server_port k.port_count k.hop_interval wall;
}

-- The IV, the masked header and the junk: the part that the tag authenticates.
unfoldable pub out_hdr : Crypto → Bytes → Bytes → ℕ → Bytes → Bytes → Bytes
unfolding mask_with_zeros hdr_plain
out_hdr c mask_key raw_kid flag iv junk =
    iv ++ (mask_with_zeros c (hdr_plain raw_kid (length junk) flag) mask_key iv ++ junk)

-- After half a second without a datagram of WireGuard dummy packets go out, at random times.
unfoldable pub chaff : Crypto → World → ℕ → Proxy → Proxy × List Effect
unfolding out_hdr compute_hopper_port
chaff c w wall k =
    let pad = w.token_bytes 4 (64 + w.randbelow 5 65) in
    let nonce = to_le 8 (k.client_tx_seq + 1) ++ w.token_bytes 5 4 in
    let hdr = out_hdr c k.mask_key k.raw_kid 0x80 (w.token_bytes 6 12) [] in
    if ltb (k.last_real_packet + 500) w.now && leb k.next_chaff_time w.now
    then (
      record k {
        next_chaff_time = w.now + 50 + 10 * w.randbelow 4 15;
        client_tx_seq = k.client_tx_seq + 1;
      },
      sendto (seal c k.send_key nonce hdr (0 ∷ 0 ∷ pad)) (hop_addr c k wall) ∷ [],
    )
    else (k, [])

-- One packet in five carries 16 to 64 bytes of junk.
unfoldable pub junk_len : World → ℕ
junk_len w = if ltb (w.randbelow 2 100) 20 then 16 + w.randbelow 3 49 else 0

-- The packet that carries a datagram of WireGuard.
unfoldable pub out_pkt : Crypto → World → Proxy → Bytes → Bytes
unfolding out_hdr semantic_pad junk_len
out_pkt c w k d =
    let frame = be16 (length d) ++ (d ++ w.token_bytes 0 (semantic_pad w (length d))) in
    let nonce = to_le 8 (k.client_tx_seq + 1) ++ w.token_bytes 1 4 in
    let hdr =
      out_hdr c k.mask_key k.raw_kid 0 (w.token_bytes 2 12) (w.token_bytes 3 (junk_len w)) in
    seal c k.send_key nonce hdr frame

-- A datagram of the local WireGuard goes to the server.
unfoldable pub outbound : Crypto → World → ℕ → Proxy → Addr → Bytes → Proxy × List Effect
unfolding out_pkt compute_hopper_port
outbound c w wall k addr d = (
  record k {
    wg_client_addr = some addr;
    last_real_packet = w.now;
    next_chaff_time = w.now + 100;
    client_tx_seq = k.client_tx_seq + 1;
  },
  sendto (out_pkt c w k d) (hop_addr c k wall) ∷ [],
)

-- The opened text of a packet from the server.
unfoldable pub hand_over : Proxy → Bytes → List Effect
hand_over k pt =
    let plen = of_be16 (take 2 pt) in
    elim k.wg_client_addr [
      | none ↦ []
      | some addr ↦
          if ltb (length pt) 2 || ltb (length pt - 2) plen
          then []
          else sendto (slice 2 (2 + plen) pt) addr ∷ []
    ]

-- A packet from the server: the number is taken before the tag is looked at.
unfoldable pub inbound : Crypto → Proxy → Bytes → Proxy × List Effect
unfolding unmasked check_replay hand_over
inbound c k d =
    let hdr = unmasked c k.mask_key d in
    let n = 28 + junk_len_of hdr in
    if leb 56 (length d) && (is_ours k.raw_kid hdr && leb (n + 28) (length d))
    then (let (drop_it, replay) = check_replay k.replay (of_le (slice n (n + 8) d)) in
        let k' = record k { replay = replay } in
        if drop_it
        then (k', [])
        else elim (c.decrypt k.recv_key (slice n (n + 12) d) (drop (n + 12) d) (take n d)) [
          | none ↦ (k', [])
          | some pt ↦ (k', hand_over k' pt)
        ])
    else (k, [])

unfoldable pub is_server : Proxy → Addr → Bool
is_server k addr =
    bytes_eq addr.host k.server_ip
    && (leb default_server_port addr.port && ltb addr.port (default_server_port + k.port_count))

-- What `recvfrom(65535)` gives goes one way or the other by where it comes from.
unfoldable pub receive : Crypto → World → ℕ → Proxy → Addr → Bytes → Proxy × List Effect
receive c w wall k addr datagram =
    let d = take 65535 datagram in
    if length d == 0
    then (k, [])
    else if is_server k addr
    then inbound c k d
    else outbound c w wall k addr d

-- One round of the loop. `none` is a wait of a tenth of a second that brings nothing.
unfoldable pub round : Crypto → World → ℕ → Proxy → Option (Addr × Bytes) → Proxy × List Effect
unfolding chaff receive
round c w wall k input =
    let (k', es) = chaff c w wall k in
    elim input [
      | none ↦ (k', es)
      | some (addr, d) ↦ (let (k'', es') = receive c w wall k' addr d in (k'', es ++ es'))
    ]
