-- ===== src/Desktop/Connect.antt =====
-- The button of aegs_app.py that connects, the thread behind it and the figures that are shown.
use aegs_global.Prelude.{
  ℕ, zero, suc, ◌+◌, ◌*◌, true, false, none, some, [], ◌∷◌, ◌++◌, if◌then◌else◌,
}
use aegs_global.Desktop.{
  App, disconnected, connecting, protected, connect, busy, disconnect, Callback, on_connected,
  telemetry,
}
use aegs_global.Profiles.{get_active}

-- `_disconnect`.
unfoldable pub cut_off : App → App
cut_off a = record a {
  is_connected = false;
  lbl_status = disconnected;
  btn_caption = connect;
  lbl_ping = none;
  lbl_speed = none;
}

unfoldable pub toggle_connect : App → App
unfolding cut_off
toggle_connect a = if a.is_connected then cut_off a else (elim (get_active a.storage) [
  | none ↦ a
  | some p ↦ record a {
    lbl_status = connecting;
    btn_caption = busy;
    btn_enabled = false;
    threads = a.threads + 1;
  }
])

-- A click: a button that is disabled does not call its command.
unfoldable pub click : App → App
unfolding toggle_connect
click a = if a.btn_enabled then toggle_connect a else a

-- The end of one thread of `_run_connection`, after its sleep.
unfoldable pub run_connection : App → App
run_connection a = elim a.threads [
  | zero ↦ a
  | suc n ↦ record a {
    threads = n;
    is_connected = true;
    after_queue = a.after_queue ++ (on_connected ∷ []);
  }
]

-- One round of `telemetry_loop` with the numbers that it draws.
unfoldable pub telemetry_round : ℕ → ℕ → ℕ → App → App
telemetry_round rx_inc tx_inc ping a =
    if a.is_connected
    then record a {
      bytes_rx = a.bytes_rx + rx_inc;
      bytes_tx = a.bytes_tx + tx_inc;
      after_queue = a.after_queue ++ (telemetry (rx_inc * 8) ping ∷ []);
    }
    else a

unfoldable pub run_callback : Callback → App → App
run_callback on_connected a = record a {
  lbl_status = protected;
  btn_caption = disconnect;
  btn_enabled = true;
  lbl_ping = some 22;
}
run_callback (telemetry speed ping) a =
    if a.is_connected
    then record a { lbl_speed = some (speed, a.bytes_rx, a.bytes_tx); lbl_ping = some ping }
    else a

-- The window runs what waits first.
unfoldable pub run_next : App → App
unfolding run_callback
run_next a = elim a.after_queue [ [] ↦ a | f ∷ fs ↦ run_callback f (record a { after_queue = fs }) ]
