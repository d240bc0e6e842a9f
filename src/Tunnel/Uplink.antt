-- ===== src/Tunnel/Uplink.antt =====
-- From `send_raw_packet` of aegs_client.py to `process_packet` of aegs_server.py.
use aegs_global.Prelude.{
  ℕ, ◌+◌, ◌^◌, ◌≤◌, ◌<◌, ◌≡◌, ◌≢◌, ap, ◌∙◌, true, false, some, [], ◌∷◌, ◌++◌, arith, length, get_or,
  take, ltb, ltb-false, Bytes, be32, of_be32, to_le,
}
use aegs_global.Client.Packets.{pad_len, junk_len, raw_packet, send_raw_packet}
use aegs_global.Client.State.{Client, server_addr}
use aegs_global.Crypto.{Crypto, IsCrypto}
use aegs_global.Replay.{AntiReplayFilter, check_and_update}
use aegs_global.Server.Handshake.{handshake_key}
use aegs_global.Server.Packet.{deliver, process_packet}
use aegs_global.Server.Payload.{cmd_data, handle_client_payload, handle_data}
use aegs_global.Server.State.{Addr, Server, World, IsWorld, sendto, sendall, lookup}
use aegs_global.Server.Streams.{frame}
use aegs_global.Tunnel.Opening.{NotUnder, process_packet-seal}
use aegs_global.Wire.{outer_header, hdr_plain, seal}
use aegs_global.Wire.Laws.{flag_of-hdr_plain}

-- The two ends hold the same secrets, a session key of the client's direction among them.
pub record Paired (k : Client) (s : Server) (key : Bytes) : Type 0 where
  pub mask : k.mask_key ≡ s.mask_key
  pub kid : k.raw_kid ≡ s.raw_kid
  pub length_kid : length s.raw_kid ≡ 8
  pub sends : k.send_key ≡ some key
  pub receives : s.recv_key ≡ some key

-- What the client draws for a packet: the number, the IV and the padding.
pub record Sendable (c : Crypto) (w : World) (k : Client) (s : Server) (key fr : Bytes)
    (f : AntiReplayFilter) : Type 0 where
  pub world : IsWorld w
  pub in_range : k.tx_seq + 1 < 256 ^ 8
  pub fresh : check_and_update s.replay_filter (k.tx_seq + 1) ≡ some (false, f)
  pub iv_not_one : get_or (w.token_bytes 2 12) 0 0 ≢ 1
  pub iv_not_four : get_or (w.token_bytes 2 12) 0 0 ≢ 4
  pub apart :
      NotUnder c
        (handshake_key c s.master_key)
        key
        (to_le 8 (k.tx_seq + 1) ++ w.token_bytes 1 4)
        (fr ++ w.token_bytes 0 (pad_len w (length fr)))
        (outer_header c s.mask_key s.raw_kid 0 (w.token_bytes 2 12) (w.token_bytes 3 (junk_len w)))

-- The padding that goes behind a frame.
abbrev pub padding : World → Bytes → Bytes
padding w fr = w.token_bytes 0 (pad_len w (length fr))

pub length-padding : (w : World) (fr : Bytes) → IsWorld w → 16 ≤ length (padding w fr)
unfolding pad_len
length-padding w fr laws = omega (arith, laws.length-token_bytes 0 (pad_len w (length fr)))

pub junk_len-lt : (w : World) → IsWorld w → junk_len w < 65536
unfolding junk_len
junk_len-lt w laws = ground (arith, laws.randbelow-lt 2 17)

pub of_be32-be32 : (n : ℕ) (r : Bytes) → n < 256 ^ 4 → of_be32 (take 4 (be32 n ++ r)) ≡ n
of_be32-be32 n r h = omega arith

pub long_frame : (sid cmd : ℕ) (r : Bytes) → ltb (length (frame sid cmd r)) 5 ≡ false
long_frame sid cmd r = ltb-false _ _ (omega arith)

module _ (c : Crypto) (laws : IsCrypto c) (wk ws : World) (priv : Bytes) (k : Client) (s : Server)
    (addr : Addr) (key : Bytes) (f : AntiReplayFilter) (sid cmd : ℕ) (payload : Bytes)
    (pair : Paired k s key) (ok : Sendable c wk k s key (frame sid cmd payload) f) where
  -- The server, with the packet's number taken and the client's address kept.
  abbrev pub advanced : Server
  advanced = record s { replay_filter = f; client_addr = some addr }

  abbrev pkt : Bytes
  pkt = raw_packet c wk k key (k.tx_seq + 1) 0 (frame sid cmd payload)

  -- The client sends one packet and takes the next number.
  pub send_raw_packet-paired :
      send_raw_packet c wk k sid cmd payload false
      ≡ (record k { tx_seq = k.tx_seq + 1 }, sendto pkt (server_addr k wk.now) ∷ [])
  unfolding send_raw_packet
  send_raw_packet-paired = simp (pair.sends, send_raw_packet)

  deliver-plain :
      (pt : Bytes)
      → deliver ws
          (record s { replay_filter = f })
          addr
          (hdr_plain s.raw_kid (length (wk.token_bytes 3 (junk_len wk))) 0)
          pt
        ≡ handle_client_payload ws advanced pt
  unfolding deliver
  deliver-plain pt =
      rw (flag_of-hdr_plain s.raw_kid (length (wk.token_bytes 3 (junk_len wk))) 0 pair.length_kid)

  pkt-sealed :
      pkt
      ≡ seal c key
          (to_le 8 (k.tx_seq + 1) ++ wk.token_bytes 1 4)
          (outer_header c s.mask_key s.raw_kid 0
            (wk.token_bytes 2 12)
            (wk.token_bytes 3 (junk_len wk)))
          (frame sid cmd payload ++ padding wk (frame sid cmd payload))
  unfolding raw_packet
  pkt-sealed = simp (pair.mask, pair.kid)

  -- The server's handler of frames gets the frame with the padding behind it.
  pub process_packet-raw :
      process_packet c ws priv s addr pkt
      ≡ handle_client_payload ws advanced
          (frame sid cmd payload ++ padding wk (frame sid cmd payload))
  process_packet-raw =
      let n = junk_len wk in
      let junk = ok.world.length-token_bytes 3 n in
      ap (λ p. (process_packet c ws priv s addr p)) pkt-sealed
      ∙ process_packet-seal c laws ws priv s addr key 0 (k.tx_seq + 1) (wk.token_bytes 2 12)
          (wk.token_bytes 3 n) (wk.token_bytes 1 4)
          (frame sid cmd payload ++ padding wk (frame sid cmd payload)) pair.length_kid
          (ok.world.length-token_bytes 2 12) (ok.world.length-token_bytes 1 4)
          (omega (arith, junk, junk_len-lt wk ok.world)) ok.in_range f ok.apart ok.iv_not_one
          ok.iv_not_four pair.receives ok.fresh
      ∙ deliver-plain _

-- A chunk of a stream that the client sends is written to the stream's socket, with the packet's
-- padding behind it, 16 bytes or more: nothing in the frame says where the chunk ends. This holds
-- where the two ends share the key, the mask's key and a key id of 8 bytes; the packet's number fits 64 bits and
-- the server's window takes it; the packet's random IV begins with neither 1 nor 4, and the packet
-- does not open as a handshake; the stream's id fits 32 bits, and the server knows the stream and
-- its socket is alive.
pub uplink_data :
    (c : Crypto) (laws : IsCrypto c) (wk ws : World) (priv : Bytes) (k : Client) (s : Server)
    (addr : Addr) (key : Bytes) (f : AntiReplayFilter) (sid sock : ℕ) (payload : Bytes)
    → Paired k s key
    → Sendable c wk k s key (frame sid cmd_data payload) f
    → sid < 256 ^ 4
    → lookup sid s.streams ≡ some sock
    → ws.alive sock ≡ true
    → (p pad : Bytes) × (send_raw_packet c wk k sid cmd_data payload false
        ≡ (record k { tx_seq = k.tx_seq + 1 }, sendto p (server_addr k wk.now) ∷ []))
      × (16 ≤ length pad)
      × (process_packet c ws priv s addr p ≡ (
        record s {
          replay_filter = f;
          client_addr = some addr;
          total_bytes_tx = s.total_bytes_tx + length (payload ++ pad);
        },
        sendall sock (payload ++ pad) ∷ [],
      ))
uplink_data c laws wk ws priv k s addr key f sid sock payload pair ok h known alive = (
  raw_packet c wk k key (k.tx_seq + 1) 0 (frame sid cmd_data payload),
  padding wk (frame sid cmd_data payload),
  send_raw_packet-paired c laws wk ws priv k s addr key f sid cmd_data payload pair ok,
  length-padding wk (frame sid cmd_data payload) ok.world,
  process_packet-raw c laws wk ws priv k s addr key f sid cmd_data payload pair ok
      ∙ unfold handle_client_payload handle_data in
        simp (
          long_frame sid cmd_data (payload ++ padding wk (frame sid cmd_data payload)),
          of_be32-be32 sid (cmd_data ∷ (payload ++ padding wk (frame sid cmd_data payload))) h,
          known,
          alive,
          handle_client_payload,
          handle_data,
        ),
)
