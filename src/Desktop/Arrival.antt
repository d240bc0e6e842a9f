-- ===== src/Desktop/Arrival.antt =====
-- A connection that has been asked for in aegs_app.py.
use aegs_global.Prelude.{ℕ, zero, suc, ◌≡◌, refl, ap, ◌∙◌, true, List, [], ◌∷◌, arith, length}
use aegs_global.Desktop.{App, Callback, on_connected, telemetry, connecting, protected}
use aegs_global.Desktop.Connect.{run_connection, run_callback, run_next}
use aegs_global.Desktop.Laws.{Reached-IsConsistent}
use aegs_global.Desktop.Phases.{
  wires, Phase, off, asleep, arrived, on, run_connection-Phase, run_next-Phase,
}
use aegs_global.Desktop.Steps.{Reached}
use aegs_global.Profiles.Links.{Library}

-- The window runs so many callbacks.
unfoldable pub run_times : ℕ → App → App
unfolding run_next
run_times zero a = a
run_times (suc n) a = run_times n (run_next a)

-- It runs what waits.
unfoldable pub run_waiting : App → App
unfolding run_times
run_waiting a = run_times (length a.after_queue) a

callback-queue : (f : Callback) (a : App) → (run_callback f a).after_queue ≡ a.after_queue
unfolding run_callback
callback-queue on_connected a = refl
callback-queue (telemetry speed ping) a = ground arith

callback-flag : (f : Callback) (a : App) → (run_callback f a).is_connected ≡ a.is_connected
unfolding run_callback
callback-flag on_connected a = refl
callback-flag (telemetry speed ping) a = ground arith

next-queue :
    (a : App) (f : Callback) (fs : List Callback)
    → a.after_queue ≡ f ∷ fs
    → (run_next a).after_queue ≡ fs
unfolding run_next
next-queue a f fs e =
    ap
      (λ q.
        (elim q as (λ x. App) [
          | [] ↦ a
          | g ∷ gs ↦ run_callback g (record a { after_queue = gs })
        ]).after_queue)
      e
    ∙ callback-queue f (record a { after_queue = fs })

next-flag : (a : App) → (run_next a).is_connected ≡ a.is_connected
unfolding run_next
next-flag a = waiting a a.after_queue
  where
    waiting :
        (b : App) (q : List Callback)
        → (elim q as (λ x. App) [
          | [] ↦ b
          | f ∷ fs ↦ run_callback f (record b { after_queue = fs })
        ]).is_connected
          ≡ b.is_connected
    waiting b [] = refl
    waiting b (f ∷ fs) = callback-flag f (record b { after_queue = fs })

-- What a connection that has come through looks like.
pub record IsThrough (a : App) : Type 0 where
  pub status : a.lbl_status ≡ protected
  pub enabled : a.btn_enabled ≡ true
  pub flag : a.is_connected ≡ true
  pub nothing_waits : a.after_queue ≡ []

through : (a : App) → a.after_queue ≡ [] → a.is_connected ≡ true → Phase (wires a) → IsThrough a
through a e c (off l q) = absurd (ground (arith, e, c, l.flag))
through a e c (asleep l q) = absurd (ground (arith, e, c, l.flag))
through a e c (arrived l) = absurd (ground (arith, e, l.arriving))
through a e c (on l) = record {
  status = l.status_shown;
  enabled = l.enabled_shown;
  flag = l.flag;
  nothing_waits = e;
}

run_times-IsThrough :
    (q : List Callback) (a : App)
    → a.after_queue ≡ q
    → a.is_connected ≡ true
    → Phase (wires a)
    → IsThrough (run_times (length q) a)
unfolding run_times
run_times-IsThrough [] a e c h = through a e c h
run_times-IsThrough (f ∷ fs) a e c h =
    run_times-IsThrough fs (run_next a) (next-queue a f fs e) (next-flag a ∙ c) (run_next-Phase a h)

woken :
    (a : App) → a.lbl_status ≡ connecting → Phase (wires a) → (run_connection a).is_connected ≡ true
unfolding run_connection
woken a e (off l q) = absurd (ground (arith, e, l.status_shown))
woken a e (asleep l q) = ground (arith, l.running)
woken a e (arrived l) = ground (arith, l.running, l.flag)
woken a e (on l) = absurd (ground (arith, e, l.status_shown))

-- A connection that is asked for always comes through: when the window says that it connects, the end of
-- the thread's sleep and the callbacks that wait then are enough for it to say that it is protected,
-- with the button enabled and nothing left to run.
pub connecting_ends :
    (lib : Library) (a : App)
    → Reached lib a
    → a.lbl_status ≡ connecting
    → IsThrough (run_waiting (run_connection a))
unfolding run_waiting
connecting_ends lib a reached e =
    let phase = (Reached-IsConsistent lib a reached).phase in
    run_times-IsThrough (run_connection a).after_queue (run_connection a) refl (woken a e phase)
      (run_connection-Phase a phase)
