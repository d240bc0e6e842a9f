-- ===== src/Tunnel/Connect.antt =====
-- The target of a local connection of aegs_client.py, as aegs_server.py gets it.
use aegs_global.Prelude.{
  true, is_ascii, encode-ascii, decode_replace-ascii, List, ℕ, ◌+◌, ◌^◌, ◌≤◌, ◌<◌, ◌≡◌, ◌∙◌, refl,
  sym, ap, false, some, [], ◌∷◌, ◌++◌, arith, length, slice, le→leb, Bytes, be16, be32,
  length-append, slice-middle,
}
use mathlib.Core.List.{append_assoc}
use aegs_global.Client.Packets.{raw_packet, send_raw_packet}
use aegs_global.Client.Socks.{connect_payload, socks_connect, socks_ready}
use aegs_global.Client.Http.{read_head, connect_target, handle_http_connect, established}
use aegs_global.Client.State.{Client, server_addr}
use aegs_global.Crypto.{Crypto, IsCrypto}
use aegs_global.Replay.{AntiReplayFilter}
use aegs_global.Server.Packet.{process_packet}
use aegs_global.Server.Payload.{cmd_connect, handle_connect, handle_client_payload}
use aegs_global.Server.State.{sendall, Addr, Server, World, sendto, spawn_proxy_worker}
use aegs_global.Server.Streams.{frame}
use aegs_global.Wire.Laws.{be16_round}
use aegs_global.Tunnel.Uplink.{
  Paired, Sendable, padding, process_packet-raw, send_raw_packet-paired, of_be32-be32, long_frame,
}

-- The payload that names a host and a port.
abbrev named : Bytes → ℕ → Bytes
named host port = length host ∷ (host ++ be16 port)

connect_payload-named :
    (host : Bytes) (port : ℕ)
    → is_ascii host ≡ true
    → length host ≤ 255
    → port ≤ 65535
    → connect_payload host port ≡ some (named host port)
unfolding connect_payload
connect_payload-named host port plain a b =
    rw (le→leb _ _ a, le→leb _ _ b, encode-ascii host plain) refl

-- The server reads the host and the port off the frame.
handle_connect-frame :
    (sid : ℕ) (host pad : Bytes) (port : ℕ)
    → is_ascii host ≡ true
    → port ≤ 65535
    → handle_connect sid (frame sid cmd_connect ((length host ∷ (host ++ be16 port)) ++ pad))
      ≡ spawn_proxy_worker sid host port ∷ []
unfolding handle_connect
handle_connect-frame sid host pad port plain h =
    let head = be32 sid ++ (cmd_connect ∷ length host ∷ []) in
    let cut : slice 6 (6 + length host) (head ++ (host ++ (be16 port ++ pad))) ≡ host =
      slice-middle head host (be16 port ++ pad) 6 (6 + length host) refl (omega arith) in
    let port_cut : slice (6 + length host) (8 + length host) (head ++ (host ++ (be16 port ++ pad)))
        ≡ be16 port =
      ap (slice (6 + length host) (8 + length host))
        (sym (append_assoc head host (be16 port ++ pad)))
      ∙ slice-middle (head ++ host) (be16 port) pad (6 + length host) (8 + length host)
          (omega (arith, length-append head host)) (omega arith) in
    rw (append_assoc host (be16 port) pad, cut, port_cut, decode_replace-ascii host plain)
      (ap (λ n. spawn_proxy_worker sid host n ∷ []) (be16_round port (omega arith)))

module _ (c : Crypto) (laws : IsCrypto c) (wk ws : World) (priv : Bytes) (k : Client) (s : Server)
    (addr : Addr) (key : Bytes) (f : AntiReplayFilter) (sid : ℕ) (host : Bytes) (port : ℕ)
    (pair : Paired k s key) (ok : Sendable c wk k s key (frame sid cmd_connect (named host port)) f)
    (small : sid < 256 ^ 4) (short : length host ≤ 255) (valid : port ≤ 65535)
    (plain : is_ascii host ≡ true) where
  abbrev pub connect_pkt : Bytes
  connect_pkt = raw_packet c wk k key (k.tx_seq + 1) 0 (frame sid cmd_connect (named host port))

  -- The server starts a connection to the host and the port.
  process_packet-connect : process_packet c ws priv s addr connect_pkt ≡ (
    record s { replay_filter = f; client_addr = some addr },
    spawn_proxy_worker sid host port ∷ [],
  )
  unfolding handle_client_payload
  process_packet-connect =
      let pad = padding wk (frame sid cmd_connect (named host port)) in
      process_packet-raw c laws wk ws priv k s addr key f sid cmd_connect (named host port) pair ok
      ∙ simp (
        long_frame sid cmd_connect (named host port ++ pad),
        of_be32-be32 sid (cmd_connect ∷ (named host port ++ pad)) small,
        handle_connect-frame sid host pad port plain valid,
        handle_client_payload,
      )

  sent :
      send_raw_packet c wk k sid cmd_connect (named host port) false
      ≡ (record k { tx_seq = k.tx_seq + 1 }, sendto connect_pkt (server_addr k wk.now) ∷ [])
  sent =
      send_raw_packet-paired c laws wk ws priv k s addr key f sid cmd_connect (named host port) pair
        ok

  socks_connect-named :
      (conn : ℕ) (rest : Bytes)
      → (socks_connect c wk k sid conn (record { host = host; port = port; rest = rest })).effects
        ≡ sendto connect_pkt (server_addr k wk.now) ∷ sendall conn socks_ready ∷ []
  unfolding socks_connect
  socks_connect-named conn rest =
      simp (connect_payload-named host port plain short valid, sent, socks_connect)

  handle_http_connect-named :
      (conn : ℕ) (input : List Bytes)
      → connect_target (read_head [] input).0 ≡ some (host, port)
      → (handle_http_connect c wk k sid conn input).effects
        ≡ sendto connect_pkt (server_addr k wk.now) ∷ sendall conn established ∷ []
  unfolding handle_http_connect
  handle_http_connect-named conn input h =
      simp (h, connect_payload-named host port plain short valid, sent, handle_http_connect)

-- A local program asks for a host of at most 255 ASCII characters and a port of 16 bits: by SOCKS5, from
-- where its request has been read, or by the head of an HTTP CONNECT request from which the host and the
-- port are read. Client and server share the key of the client's direction. The client sends one packet
-- and tells the program that it is connected. If the packet's random IV begins with neither 1 nor 4, if
-- the server's window takes its number and if it does not open as a handshake, the server that gets it
-- starts a connection to exactly that host and port, under the client's stream number.
pub connect_agrees :
    (c : Crypto) (laws : IsCrypto c) (wk ws : World) (priv : Bytes) (k : Client) (s : Server)
    (addr : Addr) (key : Bytes) (f : AntiReplayFilter) (sid conn : ℕ) (host : Bytes) (port : ℕ)
    (rest : Bytes) (input : List Bytes)
    → Paired k s key
    → Sendable c wk k s key (frame sid cmd_connect (length host ∷ (host ++ be16 port))) f
    → sid < 256 ^ 4
    → length host ≤ 255
    → port ≤ 65535
    → is_ascii host ≡ true
    → connect_target (read_head [] input).0 ≡ some (host, port)
    → (pkt : Bytes) × ((socks_connect c wk k sid conn
          (record { host = host; port = port; rest = rest })).effects
        ≡ sendto pkt (server_addr k wk.now) ∷ sendall conn socks_ready ∷ [])
      × ((handle_http_connect c wk k sid conn input).effects
          ≡ sendto pkt (server_addr k wk.now) ∷ sendall conn established ∷ [])
      × (process_packet c ws priv s addr pkt ≡ (
        record s { replay_filter = f; client_addr = some addr },
        spawn_proxy_worker sid host port ∷ [],
      ))
connect_agrees c laws wk ws priv k s addr key f sid conn host port rest input pair ok small short
      valid plain h =
    (
      connect_pkt c laws wk ws priv k s addr key f sid host port pair ok small short valid plain,
      socks_connect-named c laws wk ws priv k s addr key f sid host port pair ok small short valid
          plain conn rest,
      handle_http_connect-named c laws wk ws priv k s addr key f sid host port pair ok small short
          valid plain conn input h,
      process_packet-connect c laws wk ws priv k s addr key f sid host port pair ok small short
          valid plain,
    )
