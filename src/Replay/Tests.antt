-- ===== src/Replay/Tests.antt =====
-- The filter of aegs_server.py at concrete numbers.
use aegs_global.Prelude.{◌≡◌, refl, inl, some, true, false, [], ◌∷◌, arith}
use aegs_global.Replay.{AntiReplayFilter, init, check_and_update}
use aegs_global.Replay.Laws.{Outcome, check_and_update-Outcome, check_and_update_again}
use aegs_global.Replay.Shift.{IsBytes}
use aegs_global.Replay.Window.{IsValid, init-IsValid}
use aegs_global.Replay.Flaw.{feed, replay_accepted}

abbrev seen_five : AntiReplayFilter
seen_five = record { window_size = 16; max_seq = 5; window = 1 ∷ 0 ∷ [] }

five-IsBytes : IsBytes seen_five.window
five-IsBytes = grind arith

seen_five-IsValid : IsValid seen_five
seen_five-IsValid = record { sized = refl; wide = omega arith; bytes = five-IsBytes }

program : Unit {0}
unfolding init check_and_update
program = tt

accepts_three :
    check_and_update seen_five 3 ≡ some (false, record seen_five { window = 5 ∷ 0 ∷ [] })
unfolding program
accepts_three = refl

check_and_update-Outcome_example : Outcome seen_five 3
check_and_update-Outcome_example = check_and_update-Outcome seen_five 3 seen_five-IsValid

check_and_update_again_example :
    check_and_update (record seen_five { window = 5 ∷ 0 ∷ [] }) 3
    ≡ some (true, record seen_five { window = 5 ∷ 0 ∷ [] })
check_and_update_again_example =
    check_and_update_again seen_five (record seen_five { window = 5 ∷ 0 ∷ [] }) 3 seen_five-IsValid
      accepts_three

fresh : IsValid (init 2048)
fresh = init-IsValid 2048 refl (omega arith)

replay_accepted_example :
    (g g' : AntiReplayFilter) × (feed (init 2048) 8 1 ≡ some g)
    × (check_and_update g 1 ≡ some (false, g'))
unfolding init
replay_accepted_example = replay_accepted (init 2048) 1 fresh refl (inl (refl, refl))
