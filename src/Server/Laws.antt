-- ===== src/Server/Laws.antt =====
-- The session of the server in aegs_server.py: what the order of its checks lets through, and the
-- tokens by which a session is resumed.
use aegs_global.Prelude.{
  ℕ, ◌+◌, ◌≤◌, ◌<◌, ◌≡◌, refl, inr, true, ◌&&◌, none, some, [], arith, length, slice, leb, Bytes,
  of_le,
}
use aegs_global.Crypto.{Crypto}
use aegs_global.Replay.{AntiReplayFilter, check_and_update}
use aegs_global.Replay.Laws.{check-newer, check-dropped}
use aegs_global.Replay.Window.{IsValid, raised}
use aegs_global.Server.Packet.{data_frame, open_data}
use aegs_global.Server.Quiet.{body_at, opened}
use aegs_global.Server.State.{Addr, Server, World}
use aegs_global.Wire.{unmask, is_ours}

-- The number that a data packet carries.
abbrev pub number : Crypto → Server → Bytes → ℕ
number c s d = of_le (slice (body_at c s d) (body_at c s d + 8) d)

-- A data packet with a header of ours and room for a tag.
abbrev pub HasFrame : Crypto → Server → Bytes → Type 0
HasFrame c s d =
    (leb 56 (length d)
      && is_ours s.raw_kid (unmask c s.mask_key d)
      && leb (body_at c s d + 28) (length d))
    ≡ true

-- The window is moved before the tag is checked: a packet with a number above the highest, whose
-- header is ours (a copy of one seen on the wire will do) but which no key opens, is dropped, and
-- yet the window has moved to its number. A number that is as far below as the window is wide is
-- refused after that, though it may never have been seen.
pub forged_frame_blocks :
    (c : Crypto) (w : World) (s : Server) (addr : Addr) (d key : Bytes)
    → IsValid s.replay_filter
    → s.recv_key ≡ some key
    → HasFrame c s d
    → opened c s d key ≡ none
    → s.replay_filter.max_seq < number c s d
    → (t : ℕ) → t + s.replay_filter.window_size ≤ number c s d
    → (f : AntiReplayFilter) × (data_frame c w s addr d ≡ (record s { replay_filter = f }, []))
      × (f.max_seq ≡ number c s d)
      × (check_and_update f t ≡ some (true, f))
unfolding data_frame open_data raised
forged_frame_blocks c w s addr d key v receives ours shut above t far =
    let taken = check-newer s.replay_filter (number c s d) v above in
    let wide = v.wide in
    (
      raised s.replay_filter (number c s d),
      simp (receives, ours, taken, shut, open_data, data_frame),
      refl,
      check-dropped (raised s.replay_filter (number c s d)) t (inr far) (omega (arith, wide)),
    )
