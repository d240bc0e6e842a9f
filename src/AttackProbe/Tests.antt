-- ===== src/AttackProbe/Tests.antt =====
-- The tester against an end that sends everything back, and against one that is not there.
use mathlib.Core.Option
use aegs_global.AttackProbe.Sent.{through}
use aegs_global.Prelude.{
  none, some, ℕ, ◌+◌, ◌≡◌, refl, Bool, true, false, List, [], ◌∷◌, replicate, Bytes,
}
use aegs_global.AttackProbe.{Tester, Draws, Keys, change_at, keys_of, summary}
use aegs_global.AttackProbe.Attacks.{genuine_init, init_body, run}
use aegs_global.AttackProbe.Laws.{defences, run-defences}
use aegs_global.AttackProbe.Silence.{run-silent}
use aegs_global.Crypto.Labels.{codes}
use aegs_global.Crypto.Toy.{toy}

abbrev draws : Draws
draws = record {
  client_priv = 5 ∷ [];
  fake_priv = 6 ∷ [];
  init_ms = 1000;
  fake_ms = 2000;
  token_bytes = λ k n. replicate n k;
}

abbrev keys : Keys
keys = keys_of toy (codes "token")

-- The other end counts the packets.
abbrev new_tester : Tester ℕ
new_tester = record { peer = 0; waiting = []; results = [] }

abbrev echo : ℕ → Bytes → ℕ × List Bytes
echo n p = (n + 1, p ∷ [])

abbrev swallow : ℕ → Bytes → ℕ × List Bytes
swallow n p = (n + 1, [])

run-defences_example :
    (t' : Tester ℕ) × (run (through echo) toy keys draws new_tester ≡ some t')
    × (a1 a2 a3 a4 a5 : Bool) × (defences t' ≡ a1 ∷ a2 ∷ a3 ∷ a4 ∷ a5 ∷ true ∷ true ∷ [])
    × (a3 ≡ false → a4 ≡ false)
    × (a4 ≡ false → a5 ≡ false)
run-defences_example = run-defences echo toy keys draws new_tester refl

run-silent_example :
    (t' : Tester ℕ) × (run (through swallow) toy keys draws new_tester ≡ some t')
    × (summary t' ≡ (7, 7))
run-silent_example = run-silent swallow (λ s p. refl) toy keys draws new_tester refl refl

-- The end that sends everything back reflects the first probes, answers the forged handshake, and
-- so loses the two attacks behind it too.
run-echo :
    Option.map defences (run (through echo) toy keys draws new_tester)
    ≡ some (false ∷ true ∷ false ∷ false ∷ false ∷ true ∷ true ∷ [])
unfolding run keys_of change_at genuine_init init_body
run-echo = refl

-- A socket whose calls raise: the first two attacks are passed over, and the third ends the run.
run-closed : run {S = ℕ} (λ n p. none) toy keys draws new_tester ≡ none
unfolding run
run-closed = refl
