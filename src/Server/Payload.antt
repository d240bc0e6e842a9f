-- ===== src/Server/Payload.antt =====
-- `handle_client_payload` of aegs_server.py: the frame inside an opened data packet.
-- An exception that leaves a handler ends the packet in the receive loop (`except Exception: pass`);
-- here the handler returns the state that it has reached.
use aegs_global.Prelude.{
  decode_replace, ℕ, ◌+◌, none, some, List, [], ◌∷◌, length, take, drop, slice, get_elem?, get_or,
  ltb, ◌==◌, if◌then◌else◌, Bytes, of_be16, of_be32,
}
use aegs_global.Server.State.{
  Server, World, Effect, sendall, close, spawn_proxy_worker, lookup, remove,
}

abbrev pub cmd_connect : ℕ
cmd_connect = 1

abbrev pub cmd_data : ℕ
cmd_data = 2

abbrev pub cmd_close : ℕ
cmd_close = 3

abbrev pub cmd_chaff : ℕ
cmd_chaff = 4

-- CMD_CONNECT: a length byte, the host in UTF-8, and the port in two bytes. A frame without the length byte
-- or with fewer than two bytes for the port raises.
unfoldable pub handle_connect : ℕ → Bytes → List Effect
handle_connect stream_id pt = elim (get_elem? pt 5) [
  | none ↦ []
  | some host_len ↦
      let host = decode_replace (slice 6 (6 + host_len) pt) in
      let port = slice (6 + host_len) (8 + host_len) pt in
      if length port == 2 then spawn_proxy_worker stream_id host (of_be16 port) ∷ [] else []
]

-- CMD_DATA: the bytes after the frame's head go to the stream's socket.
unfoldable pub handle_data : World → Server → ℕ → Bytes → Server × List Effect
handle_data w s stream_id pt = elim (lookup stream_id s.streams) [
  | none ↦ (s, [])
  | some sock ↦
      (if w.alive sock
        then (
          record s { total_bytes_tx = s.total_bytes_tx + length (drop 5 pt) },
          sendall sock (drop 5 pt) ∷ [],
        )
        else (s, []))
]

-- CMD_CLOSE: the stream is forgotten and its socket closed.
unfoldable pub handle_close : Server → ℕ → Server × List Effect
handle_close s stream_id = (
  record s { streams = remove stream_id s.streams },
  elim (lookup stream_id s.streams) [ none ↦ [] | some sock ↦ close sock ∷ [] ],
)

unfoldable pub handle_client_payload : World → Server → Bytes → Server × List Effect
handle_client_payload w s pt =
    if ltb (length pt) 5
    then (s, [])
    else (let stream_id = of_be32 (take 4 pt) in
        let cmd = get_or pt 4 0 in
        if cmd == cmd_connect
        then (s, handle_connect stream_id pt)
        else if cmd == cmd_data
        then handle_data w s stream_id pt
        else if cmd == cmd_close
        then handle_close s stream_id
        else (s, []))
