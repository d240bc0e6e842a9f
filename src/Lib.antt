-- ===== src/Lib.antt =====
-- AEGS: a tunnel over UDP between a local gateway and a server, and the Telegram bot that sells its
-- keys. This is a model of the Python programs, and of what makes them correct.
--
-- Parts, and the files that model them:
-- - Crypto, Crypto/Labels: what the programs call of hashlib, hmac and the package `cryptography`.
--   The operations are a record that every definition takes, and their documented facts a record of
--   laws: lengths, a stream cipher that undoes itself, a box that opens under its key, an exchange
--   that both sides agree on. Nothing is assumed about what cannot be guessed; where a proof needs
--   that something does not open, it is a hypothesis. Crypto/Toy holds stand-ins for the tests.
-- - Wire: the packet that both ends build, an IV of 12 bytes, a masked header of 16, junk, a nonce of
--   12 and a sealed body (aegs_server.py `send_aegs_frame`, aegs_client.py `send_raw_packet`).
-- - Replay: `AntiReplayFilter` of aegs_server.py, with its window byte by byte. A packet's number has
--   64 bits where it is read from the nonce.
-- - Prelude/Utf8: `str.encode` and `bytes.decode`, strict and with `errors="replace"`, for the names of
--   hosts, which are lists of characters at both ends and bytes on the wire.
-- - Server: `AegsServer` of aegs_server.py. State is the object, Handshake the three ways to a
--   session, Packet `process_packet` and the receive loop's body, Payload `handle_client_payload`,
--   Streams `proxy_worker` and `send_aegs_frame`, Resumption the tokens over all datagrams that
--   come later. A handler takes the state and gives the new state with the list of what it does to
--   sockets. What it draws (random bytes, the clock, whether a socket takes data) is a parameter,
--   `World`, numbered by the order of the draws.
-- - Client: `AegsClient` of aegs_client.py. Handshake is `perform_handshake` over the datagrams that
--   arrive in its three seconds (the list may be any), Packets sending, receiving and cover traffic,
--   Socks and Http the three parts of `handle_client_conn`, over the pieces that the local program
--   sends. SystemProxy is `WindowsSystemProxy`, over a registry given by its operations and laws.
-- - Gateway: both ends of aegs_tunnel_gateway.py, in Wire, Server, Client and Socks; Greeting and
--   Meet put its two halves of the handshake together, Carry sending and receiving.
-- - Profiles: `ProfileStorage` of aegs_config.py, the list of profiles with one that is active. Load
--   is its first contents, Reach its calls as a step relation, Links a profile's link read back, with
--   urllib, int, base64 and json as a parameter.
-- - Desktop: `AegsApp` of aegs_app.py. Servers is the list of servers and the exceptions, Connect the
--   button, its thread and the telemetry, Steps what can happen in any order. A label is a value for
--   each text that it can show. A round of the telemetry and the end of a thread's sleep are one step
--   each; a disabled button does not call its command, and what other threads hand over by `after` is
--   run in its order.
-- - Proxy: scripts/quick_client.py. Window is `check_replay` and, in Log, the log of numbers that
--   it stands for, which Slots and Refine relate to it; Packets the loop of `run_python_proxy`, with
--   the keys, the padding and the ports; Handshake `perform_v3_handshake`, Decoys
--   `send_illusion_sequence`, Firewall the commands of the kill switch and the DNS shield. Sending on
--   the socket goes through. Times are in milliseconds.
-- - AttackProbe: the tester of aegs_attack_probe.py. Attacks holds its packets and its seven attacks,
--   over any other end, a state with what it makes of a datagram; what waits in the socket is a list.
--   An end may also refuse a datagram, an exception of `sendto`; Sent is the runs in which none does.
-- - Tunnel: the two ends together, packet for packet.
-- - Bot: tools/telegram_bot. State holds the tables of database.py, Users, Subscriptions, Orders,
--   Promocodes and Support its operations, Sync aegs_sync.py, Worker `_check_expirations` of
--   subscription_worker.py. A table is a list of rows in the order of insertion. What a call does
--   to the bot's own tables is one transaction; the VPN server's table lies in a second database
--   and is written after it. `server_db` says what that database does during a run: it takes
--   writes, it refuses them (the call answers `False`, which its callers ignore), or it cannot be
--   opened (an exception, with the bot's tables written already). Subscriptions/Unsynced and
--   Orders/Stuck look at the last two. Commands is bot.py: Handlers what commands and buttons
--   share, Callbacks and Updates the two halves of `process_update` and the loop of `run_polling`.
--   Access sets the users beside the table of the VPN server, over all calls of database.py and the
--   passes of the worker; a row's name there tells whose it is. Served and Polled take an update
--   apart into such calls. A handler takes both databases with the list of administrators, and
--   gives them back with the calls of the Telegram interface. Where an exception leaves a handler,
--   what has been done before it stays done. The clock is read once for an update.
--
-- Bounds: a byte is a natural number and a list of bytes is what a `bytes` object holds; 16, 32 and 64
-- bit fields are written and read with their widths, and a proof states the range it needs. Only
-- `show_nat` runs on fuel: the number itself plus one, which has at least as many units as digits.
--
-- Not modelled: printing, threads and locks (handlers run one at a time), the loops that wait on
-- sockets, the texts of the bot's messages, the search for a native program, the printed configuration
-- and the command line of scripts/quick_client.py, the layout of the windows, the window of
-- aegs_server_gui.py, the other test programs, the programs in C++, Java and C#, and the copies of the
-- root's files under tools.
pub mod Prelude
pub mod Crypto
pub mod Wire
pub mod Replay
pub mod Server
pub mod Client
pub mod Tunnel
pub mod Bot
pub mod Gateway
pub mod Profiles
pub mod Proxy
pub mod Desktop
pub mod AttackProbe
