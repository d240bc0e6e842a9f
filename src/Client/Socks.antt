-- ===== src/Client/Socks.antt =====
-- The local gateway of aegs_client.py: `start_gateway_server` and the SOCKS5 part, the forwarding loop and
-- the end of `handle_client_conn`. `recv(n)` takes the next n bytes of what the local program sends; a
-- read that finds fewer raises further on, and every exception ends in the `finally` block.
use aegs_global.Prelude.{
  encode, decode, ℕ, ◌+◌, ◌/◌, ◌%◌, false, Option, none, some, List, [], ◌∷◌, ◌++◌, length, take,
  drop, ltb, leb, ◌==◌, if◌then◌else◌, Bytes, be16, of_be16,
}
use aegs_global.Crypto.{Crypto}
use aegs_global.Client.Packets.{send_raw_packet}
use aegs_global.Client.State.{Client}
use aegs_global.Server.Payload.{cmd_connect, cmd_data, cmd_close}
use aegs_global.Server.State.{World, Effect, sendall, close, insert, remove}

-- A byte in decimal digits.
unfoldable pub decimal : ℕ → Bytes
decimal n =
    if ltb n 10
    then (48 + n) ∷ []
    else if ltb n 100
    then (48 + n / 10) ∷ (48 + n % 10) ∷ []
    else (48 + n / 100) ∷ (48 + n / 10 % 10) ∷ (48 + n % 10) ∷ []

-- `socket.inet_ntoa` of four bytes.
unfoldable pub inet_ntoa : Bytes → Option Bytes
unfolding decimal
inet_ntoa (a ∷ b ∷ c ∷ d ∷ []) =
    some (decimal a ++ (46 ∷ (decimal b ++ (46 ∷ (decimal c ++ (46 ∷ decimal d))))))
inet_ntoa _ = none

-- A target, its port, and what the local program sends next.
pub record Target : Type 0 where
  pub host : Bytes
  pub port : ℕ
  pub rest : Bytes

with_port : Bytes → Bytes → Option Target
with_port host (a ∷ b ∷ rest) =
    some (record { host = host; port = of_be16 (a ∷ b ∷ []); rest = rest })
with_port host _ = none

-- The address of a request, by its type: an IPv4 address or a name in UTF-8 with its length.
unfoldable pub socks_address : ℕ → Bytes → Option Target
unfolding with_port inet_ntoa
socks_address atyp input =
    if atyp == 1
    then elim (inet_ntoa (take 4 input)) [ none ↦ none | some host ↦ with_port host (drop 4 input) ]
    else if atyp == 3
    then elim input [
      | [] ↦ none
      | n ∷ more ↦
          if leb n (length more)
          then elim (decode (take n more)) [
            | none ↦ none
            | some host ↦ with_port host (drop n more)
          ]
          else none
    ]
    else none

-- The request: version, command, a zero, the address type. Only CONNECT is served.
unfoldable pub socks_request : Bytes → Option Target
unfolding socks_address
socks_request (ver ∷ cmd ∷ rsv ∷ atyp ∷ input) = if cmd == 1 then socks_address atyp input else none
socks_request _ = none

-- The greeting names a number of methods, which are skipped.
unfoldable pub socks_greeting : Bytes → Option Bytes
socks_greeting (ver ∷ nmethods ∷ input) = some (drop nmethods input)
socks_greeting _ = none

-- `pack(">B", len(dest)) + dest.encode() + pack(">H", port)`; the length is that of
-- the text, in characters. A length above 255 or a port above 65535 raises.
unfoldable pub connect_payload : Bytes → ℕ → Option Bytes
connect_payload host port =
    if leb (length host) 255
    then (if leb port 65535 then some (length host ∷ (encode host ++ be16 port)) else none)
    else none

abbrev pub socks_ready : Bytes
socks_ready = 5 ∷ 0 ∷ 0 ∷ 1 ∷ 0 ∷ 0 ∷ 0 ∷ 0 ∷ 0 ∷ 0 ∷ []

-- A new local connection gets the next stream number.
unfoldable pub accept_conn : Client → ℕ → Client × ℕ
accept_conn k conn =
    let sid = k.stream_counter + 1 in
    (record k { stream_counter = sid; streams = insert sid conn k.streams }, sid)

-- What a step of the SOCKS5 part leaves: the client, the effects, and what is still unread, if the
-- forwarding loop is entered.
pub record Served : Type 0 where
  pub client : Client
  pub effects : List Effect
  pub unread : Option Bytes

unfoldable pub socks_connect : Crypto → World → Client → ℕ → ℕ → Target → Served
unfolding connect_payload
socks_connect c w k sid conn t = elim (connect_payload t.host t.port) [
  | none ↦ record { client = k; effects = []; unread = none }
  | some payload ↦
      let (k', es) = send_raw_packet c w k sid cmd_connect payload false in
      record {
        client = record k' { last_real_traffic = w.now };
        effects = es ++ (sendall conn socks_ready ∷ []);
        unread = some t.rest;
      }
]

unfoldable pub handle_socks : Crypto → World → Client → ℕ → ℕ → Bytes → Served
unfolding socks_connect socks_request socks_greeting
handle_socks c w k sid conn input = elim (socks_greeting input) [
  | none ↦ record { client = k; effects = []; unread = none }
  | some more ↦ elim (socks_request more) [
    | none ↦ record { client = k; effects = sendall conn (5 ∷ 0 ∷ []) ∷ []; unread = none }
    | some t ↦
        let r = socks_connect c w k sid conn t in
        record r { effects = sendall conn (5 ∷ 0 ∷ []) ∷ r.effects }
  ]
]

-- One chunk of the forwarding loop.
unfoldable pub forward_chunk : Crypto → World → Client → ℕ → Bytes → Client × List Effect
forward_chunk c w k sid chunk =
    let (k', es) = send_raw_packet c w k sid cmd_data chunk false in
    (record k' { last_real_traffic = w.now }, es)

-- The `finally` block.
unfoldable pub conn_end : Crypto → World → Client → ℕ → ℕ → Client × List Effect
conn_end c w k sid conn =
    let (k', es) =
      send_raw_packet c w (record k { streams = remove sid k.streams }) sid cmd_close [] false in
    (k', es ++ (close conn ∷ []))
