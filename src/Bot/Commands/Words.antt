-- ===== src/Bot/Commands/Words.antt =====
-- The operations on text that tools/telegram_bot/bot.py uses, on ASCII and Russian text.
use aegs_global.Prelude.{
  ℕ, ◌+◌, ◌-◌, ◌*◌, Bool, true, false, ◌&&◌, Option, none, some, List, [], ◌∷◌, ◌++◌, leb, ◌==◌,
  if◌then◌else◌,
}
use mathlib.Core.List.{reverse}
use aegs_global.Bot.State.{Text}
use aegs_global.Bot.Promocodes.{is_space, lstrip}

unfoldable pub strip : Text → Text
unfolding lstrip
strip t = reverse (lstrip (reverse (lstrip t)))

-- `t[len(p):]` if `t.startswith(p)`.
unfoldable pub after_prefix : Text → Text → Option Text
after_prefix [] t = some t
after_prefix (p ∷ ps) [] = none
after_prefix (p ∷ ps) (c ∷ cs) = if p == c then after_prefix ps cs else none

unfoldable pub starts_with : Text → Text → Bool
unfolding after_prefix
starts_with p t = elim (after_prefix p t) [ none ↦ false | some r ↦ true ]

abbrev flush : Text → List Text → List Text
flush [] ws = ws
flush (c ∷ cs) ws = (c ∷ cs) ∷ ws

-- The word at the beginning and the words after it.
split_words : Text → Text × List Text
split_words [] = ([], [])
split_words (c ∷ cs) =
    let (w, ws) = split_words cs in if is_space c then ([], flush w ws) else (c ∷ w, ws)

-- `t.split()`
unfoldable pub words : Text → List Text
unfolding split_words
words t = let (w, ws) = split_words t in flush w ws

-- `t.split(maxsplit=1)[1]` of a stripped text, if there is a second part.
unfoldable pub after_word : Text → Option Text
after_word [] = none
after_word (c ∷ cs) =
    let r = after_word cs in
    if is_space c then elim (lstrip cs) [ [] ↦ none | x ∷ xs ↦ some (x ∷ xs) ] else r

abbrev pub is_digit : ℕ → Bool
is_digit c = leb 48 c && leb c 57

unfoldable pub all_digits : Text → Bool
all_digits [] = true
all_digits (c ∷ cs) = is_digit c && all_digits cs

unfoldable pub value : ℕ → Text → ℕ
value n [] = n
value n (c ∷ cs) = value (10 * n + (c - 48)) cs

-- `int(t) if t.isdigit() else default`
unfoldable pub int_or : ℕ → Text → ℕ
unfolding all_digits value
int_or default [] = default
int_or default (c ∷ cs) = if all_digits (c ∷ cs) then value 0 (c ∷ cs) else default

-- `" ".join(ws)`
unfoldable pub join : List Text → Text
join [] = []
join (w ∷ []) = w
join (w ∷ v ∷ ws) = w ++ (32 ∷ join (v ∷ ws))
