-- ===== src/Client/Http.antt =====
-- The HTTP parts of `handle_client_conn` of aegs_client.py. What the local program sends comes in the
-- pieces that `recv(1024)` gives; the texts are Latin-1. Every exception ends in the `finally` block.
use aegs_global.Prelude.{
  ℕ, ◌+◌, ◌-◌, ◌*◌, Bool, true, false, ◌&&◌, ◌||◌, Option, none, some, List, [], ◌∷◌, ◌++◌,
  get_elem?, get_or, drop, leb, ◌==◌, map, if◌then◌else◌, Bytes, bytes_eq,
}
use mathlib.Core.List.{reverse}
use aegs_global.Crypto.{Crypto}
use aegs_global.Crypto.Labels.{codes}
use aegs_global.Client.Packets.{send_raw_packet}
use aegs_global.Client.State.{Client}
use aegs_global.Client.Socks.{connect_payload}
use aegs_global.Server.Payload.{cmd_connect, cmd_data}
use aegs_global.Server.State.{World, Effect, sendall}

-- `b"\r\n\r\n" in request`
unfoldable pub has_blank_line : Bytes → Bool
has_blank_line (a ∷ b ∷ c ∷ d ∷ r) =
    bytes_eq (a ∷ b ∷ c ∷ d ∷ []) (13 ∷ 10 ∷ 13 ∷ 10 ∷ []) || has_blank_line (b ∷ c ∷ d ∷ r)
has_blank_line _ = false

-- The loop that reads the head: it ends with the blank line or with the stream. What follows is still
-- to be read.
unfoldable pub read_head : Bytes → List Bytes → Bytes × List Bytes
unfolding has_blank_line
read_head req [] = (req, [])
read_head req (chunk ∷ chunks) =
    let rest = read_head (req ++ chunk) chunks in
    if has_blank_line req then (req, chunk ∷ chunks) else rest

-- `request.split(b"\r\n")`: the first line, and the others.
split_lines : Bytes → Bytes × List Bytes
split_lines [] = ([], [])
split_lines (c ∷ r) =
    let (l, ls) = split_lines r in
    if c == 13 && get_or l 0 0 == 10 then ([], drop 1 l ∷ ls) else (c ∷ l, ls)

unfoldable pub lines : Bytes → List Bytes
unfolding split_lines
lines req = let (l, ls) = split_lines req in l ∷ ls

-- The spaces of Latin-1.
abbrev pub is_space : ℕ → Bool
is_space c = (c == 32 || (leb 9 c && leb c 13 || leb 28 c && leb c 31)) || (c == 133 || c == 160)

abbrev flush : Bytes → List Bytes → List Bytes
flush [] ws = ws
flush (c ∷ cs) ws = (c ∷ cs) ∷ ws

split_words : Bytes → Bytes × List Bytes
split_words [] = ([], [])
split_words (c ∷ cs) =
    let (w, ws) = split_words cs in if is_space c then ([], flush w ws) else (c ∷ w, ws)

-- `line.split()`
unfoldable pub words : Bytes → List Bytes
unfolding split_words
words t = let (w, ws) = split_words t in flush w ws

-- `t.split(":")`
split_colons : Bytes → Bytes × List Bytes
split_colons [] = ([], [])
split_colons (c ∷ cs) =
    let (w, ws) = split_colons cs in if c == 58 then ([], w ∷ ws) else (c ∷ w, ws)

lstrip : Bytes → Bytes
lstrip [] = []
lstrip (c ∷ cs) = let r = lstrip cs in if is_space c then r else c ∷ cs

-- The digits of a number, with single underscores between them.
int_digits : ℕ → Bool → Bytes → Option ℕ
int_digits n after_digit [] = if after_digit then some n else none
int_digits n after_digit (c ∷ cs) =
    let next = int_digits (10 * n + (c - 48)) true cs in
    let skip = int_digits n false cs in
    if leb 48 c && leb c 57 then next else if c == 95 && after_digit then skip else none

-- `int(t)`, for a port: a text that is no number raises, and so does a number below 0 later on.
unfoldable pub port_of : Bytes → Option ℕ
unfolding lstrip int_digits
port_of t = elim (reverse (lstrip (reverse (lstrip t)))) [
  | [] ↦ none
  | c ∷ cs ↦
      if c == 43
      then int_digits 0 false cs
      else if c == 45
      then elim (int_digits 0 false cs) [ none ↦ none | some n ↦ if n == 0 then some 0 else none ]
      else int_digits 0 false (c ∷ cs)
]

-- A host and a port. Where there is a colon there must be one only.
unfoldable pub address_of : ℕ → Bytes → Option (Bytes × ℕ)
unfolding split_colons port_of
address_of default t =
    let (host, ports) = split_colons t in
    elim ports [
      | [] ↦ some (host, default)
      | p ∷ [] ↦ elim (port_of p) [ none ↦ none | some port ↦ some (host, port) ]
      | p ∷ q ∷ ps ↦ none
    ]

-- The second word of the first line, with the port 443.
unfoldable pub connect_target : Bytes → Option (Bytes × ℕ)
unfolding lines words address_of
connect_target req = elim (lines req) [
  | [] ↦ none
  | first ∷ others ↦ elim (get_elem? (words first) 1) [
    | none ↦ none
    | some target ↦ address_of 443 target
  ]
]

-- `bytes.lower` and `bytes.strip`.
abbrev lower_char : ℕ → ℕ
lower_char c = if leb 65 c && leb c 90 then c + 32 else c

strip_left : Bytes → Bytes
strip_left [] = []
strip_left (c ∷ cs) = let r = strip_left cs in if c == 32 || leb 9 c && leb c 13 then r else c ∷ cs

-- `line[5:].strip()` if `line.lower().startswith(b"host:")`.
host_value : Bytes → Option Bytes
unfolding strip_left
host_value (a ∷ b ∷ c ∷ d ∷ e ∷ r) =
    if bytes_eq (map lower_char (a ∷ b ∷ c ∷ d ∷ e ∷ [])) (codes "host:")
    then some (reverse (strip_left (reverse (strip_left r))))
    else none
host_value _ = none

first_host : List Bytes → Option Bytes
unfolding host_value
first_host [] = none
first_host (l ∷ ls) =
    let rest = first_host ls in elim (host_value l) [ none ↦ rest | some v ↦ some v ]

-- The first line of that name, with the port 80; an empty value ends the connection.
unfoldable pub host_target : Bytes → Option (Bytes × ℕ)
unfolding lines first_host address_of
host_target req = elim (first_host (lines req)) [
  | none ↦ none
  | some [] ↦ none
  | some (x ∷ xs) ↦ address_of 80 (x ∷ xs)
]

-- What is left: the client, the effects, and what is still unread, if the forwarding loop is entered.
pub record HttpServed : Type 0 where
  pub client : Client
  pub effects : List Effect
  pub unread : Option (List Bytes)

abbrev not_served : Client → HttpServed
not_served k = record { client = k; effects = []; unread = none }

abbrev pub established : Bytes
established = codes "HTTP/1.1 200 Connection Established\r\n\r\n"

-- Bytes that came with the head of the request, behind its blank line, are dropped.
unfoldable pub handle_http_connect : Crypto → World → Client → ℕ → ℕ → List Bytes → HttpServed
unfolding read_head connect_target connect_payload
handle_http_connect c w k sid conn input =
    let (req, unread) = read_head [] input in
    elim (connect_target req) [
      | none ↦ not_served k
      | some (host, port) ↦ elim (connect_payload host port) [
        | none ↦ not_served k
        | some payload ↦
            let (k', es) = send_raw_packet c w k sid cmd_connect payload false in
            record {
              client = record k' { last_real_traffic = w.now };
              effects = es ++ (sendall conn established ∷ []);
              unread = some unread;
            }
      ]
    ]

-- A plain request is passed on whole: `w'` is what the second packet draws.
unfoldable pub handle_http : Crypto → World → World → Client → ℕ → List Bytes → HttpServed
unfolding read_head host_target connect_payload
handle_http c w w' k sid input =
    let (req, unread) = read_head [] input in
    elim (host_target req) [
      | none ↦ not_served k
      | some (host, port) ↦ elim (connect_payload host port) [
        | none ↦ not_served k
        | some payload ↦
            let (k1, es) = send_raw_packet c w k sid cmd_connect payload false in
            let (k2, es') =
              send_raw_packet c w' (record k1 { last_real_traffic = w.now }) sid cmd_data req
                false in
            record { client = k2; effects = es ++ es'; unread = some unread }
      ]
    ]
