-- ===== src/Desktop/Phases.antt =====
-- The button, the label and the thread behind them in aegs_app.py.
use aegs_global.Prelude.{
  ℕ, suc, ◌+◌, ◌*◌, ◌≡◌, refl, Bool, true, false, Option, none, some, List, [], ◌∷◌, ◌++◌, arith,
}
use aegs_global.Desktop.{
  App, StatusText, Caption, Callback, on_connected, telemetry, disconnected, connecting, protected,
  connect, busy, disconnect,
}
use aegs_global.Desktop.Connect.{
  cut_off, toggle_connect, click, run_connection, telemetry_round, run_callback, run_next,
}
use aegs_global.Profiles.{Profile, get_active}

-- What the connecting side of the window is made of.
pub record Wires : Type 0 where
  pub threads : ℕ
  pub after_queue : List Callback
  pub is_connected : Bool
  pub lbl_status : StatusText
  pub btn_caption : Caption
  pub btn_enabled : Bool
  pub lbl_ping : Option ℕ
  pub lbl_speed : Option (ℕ × ℕ × ℕ)

abbrev pub wires : App → Wires
wires a = record {
  threads = a.threads;
  after_queue = a.after_queue;
  is_connected = a.is_connected;
  lbl_status = a.lbl_status;
  btn_caption = a.btn_caption;
  btn_enabled = a.btn_enabled;
  lbl_ping = a.lbl_ping;
  lbl_speed = a.lbl_speed;
}

-- How often `_on_connected` waits to be run.
abbrev pub arrivals : List Callback → ℕ
arrivals [] = 0
arrivals (on_connected ∷ fs) = suc (arrivals fs)
arrivals (telemetry speed ping ∷ fs) = arrivals fs

-- The state of the thread and of the flag, with what is shown.
pub record Looks (w : Wires) (threads waiting : ℕ) (connected : Bool) (status : StatusText)
    (caption : Caption) (enabled : Bool) : Type 0 where
  pub running : w.threads ≡ threads
  pub arriving : arrivals w.after_queue ≡ waiting
  pub flag : w.is_connected ≡ connected
  pub status_shown : w.lbl_status ≡ status
  pub caption_shown : w.btn_caption ≡ caption
  pub enabled_shown : w.btn_enabled ≡ enabled

pub record Quiet (w : Wires) : Type 0 where
  pub no_ping : w.lbl_ping ≡ none
  pub no_speed : w.lbl_speed ≡ none

pub data Phase (w : Wires) : Type 0 where
  off : Looks w 0 0 false disconnected connect true → Quiet w → Phase w
  asleep : Looks w 1 0 false connecting busy false → Quiet w → Phase w
  arrived : Looks w 0 1 true connecting busy false → Phase w
  on : Looks w 0 0 true protected disconnect true → Phase w

arrivals-append : (fs gs : List Callback) → arrivals (fs ++ gs) ≡ arrivals fs + arrivals gs
arrivals-append [] gs = omega arith
arrivals-append (on_connected ∷ fs) gs = omega (arith, arrivals-append fs gs)
arrivals-append (telemetry speed ping ∷ fs) gs = arrivals-append fs gs

pub click-Phase :
    (a : App) (p : Profile)
    → get_active a.storage ≡ some p
    → Phase (wires a)
    → Phase (wires (click a))
unfolding click toggle_connect cut_off
click-Phase a p e (off l q) = asleep (ground arith) (ground arith)
click-Phase a p e (asleep l q) = asleep (ground arith) (ground arith)
click-Phase a p e (arrived l) = arrived (ground arith)
click-Phase a p e (on l) = off (ground arith) (ground arith)

pub run_connection-Phase : (a : App) → Phase (wires a) → Phase (wires (run_connection a))
unfolding run_connection
run_connection-Phase a (off l q) = off (ground arith) (ground arith)
run_connection-Phase a (asleep l q) =
    arrived (ground (arith, arrivals-append a.after_queue (on_connected ∷ [])))
run_connection-Phase a (arrived l) = arrived (ground arith)
run_connection-Phase a (on l) = on (ground arith)

pub telemetry_round-Phase :
    (rx tx ping : ℕ) (a : App) → Phase (wires a) → Phase (wires (telemetry_round rx tx ping a))
unfolding telemetry_round
telemetry_round-Phase rx tx ping a (off l q) = off (ground arith) (ground arith)
telemetry_round-Phase rx tx ping a (asleep l q) = asleep (ground arith) (ground arith)
telemetry_round-Phase rx tx ping a (arrived l) =
    arrived (ground (arith, arrivals-append a.after_queue (telemetry (rx * 8) ping ∷ [])))
telemetry_round-Phase rx tx ping a (on l) =
    on (ground (arith, arrivals-append a.after_queue (telemetry (rx * 8) ping ∷ [])))

run_next-arrived :
    (a : App) (q : List Callback)
    → a.after_queue ≡ q
    → Looks (wires a) 0 1 true connecting busy false
    → Phase (wires (run_next a))
unfolding run_next run_callback
run_next-arrived a [] e l = absurd (ground (arith, e, l.arriving))
run_next-arrived a (on_connected ∷ fs) e l = on (ground (arith, e))
run_next-arrived a (telemetry speed ping ∷ fs) e l = arrived (ground (arith, e))

pub run_next-Phase : (a : App) → Phase (wires a) → Phase (wires (run_next a))
unfolding run_next run_callback
run_next-Phase a (off l q) = off (ground arith) (ground arith)
run_next-Phase a (asleep l q) = asleep (ground arith) (ground arith)
run_next-Phase a (arrived l) = run_next-arrived a a.after_queue refl l
run_next-Phase a (on l) = on (ground arith)

-- Where the wires are the same, so is the phase.
pub Phase-same : (a b : App) → wires b ≡ wires a → Phase (wires a) → Phase (wires b)
Phase-same a b e h = rw (e) h
