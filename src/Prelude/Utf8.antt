-- ===== src/Prelude/Utf8.antt =====
-- `str.encode`, `bytes.decode` and `bytes.decode(errors="replace")` of Python, for UTF-8. A text is the
-- list of its code points, none of them a surrogate.
use Prim.Native.Nat.{ℕ, ◌+◌, ◌-◌, ◌*◌, ◌/◌, ◌%◌}
use mathlib.Core.Path.{◌≡◌, refl, ap, ◌∙◌}
use mathlib.Core.Bool.{Bool, true, false, ◌&&◌}
use mathlib.Core.Option.{Option, none, some}
use mathlib.Core.List.{List, [], ◌∷◌, ◌++◌, map}
use native.Mathlib.Omega.{arith}
use aegs_global.Prelude.Tests.{ltb, leb, if◌then◌else◌}

unfoldable pub encode_char : ℕ → List ℕ
encode_char c =
    if ltb c 128
    then c ∷ []
    else if ltb c 2048
    then (192 + c / 64) ∷ ((128 + c % 64) ∷ [])
    else if ltb c 65536
    then (224 + c / 4096) ∷ ((128 + c / 64 % 64) ∷ ((128 + c % 64) ∷ []))
    else (240 + c / 262144)
      ∷ ((128 + c / 4096 % 64) ∷ ((128 + c / 64 % 64) ∷ ((128 + c % 64) ∷ [])))

unfoldable pub encode : List ℕ → List ℕ
unfolding encode_char
encode [] = []
encode (c ∷ cs) = encode_char c ++ encode cs

-- A sequence that has begun: the bytes that are missing, the range of the next, and the bits so far.
pub record Begun : Type 0 where
  pub missing : ℕ
  pub lower : ℕ
  pub upper : ℕ
  pub bits : ℕ

-- What a byte at the start of a character is.
pub data Lead : Type 0 where
  character : ℕ → Lead
  begins : Begun → Lead
  misplaced : Lead

begun : ℕ → ℕ → ℕ → ℕ → Lead
begun missing lower upper bits =
    begins (record { missing = missing; lower = lower; upper = upper; bits = bits })

unfoldable pub lead_of : ℕ → Lead
unfolding begun
lead_of c =
    if ltb c 128
    then character c
    else if ltb c 194
    then misplaced
    else if ltb c 224
    then begun 1 128 191 (c - 192)
    else if ltb c 225
    then begun 2 160 191 0
    else if ltb c 237
    then begun 2 128 191 (c - 224)
    else if ltb c 238
    then begun 2 128 159 13
    else if ltb c 240
    then begun 2 128 191 (c - 224)
    else if ltb c 241
    then begun 3 144 191 0
    else if ltb c 244
    then begun 3 128 191 (c - 240)
    else if ltb c 245
    then begun 3 128 143 4
    else misplaced

-- The characters, with `none` for each longest part of a sequence that does not go on.
unfoldable pub decode_from : Option Begun → List ℕ → List (Option ℕ)
unfolding lead_of
decode_from none [] = []
decode_from (some q) [] = none ∷ []
decode_from none (c ∷ cs) = elim (lead_of c) [
  | character x ↦ some x ∷ decode_from none cs
  | begins q ↦ decode_from (some q) cs
  | misplaced ↦ none ∷ decode_from none cs
]
decode_from (some q) (c ∷ cs) =
    let bits = q.bits * 64 + (c - 128) in
    elim (leb q.lower c && leb c q.upper) [
      | true ↦ elim (leb q.missing 1) [
        | true ↦ some bits ∷ decode_from none cs
        | false ↦
            decode_from
              (some (record { missing = q.missing - 1; lower = 128; upper = 191; bits = bits })) cs
      ]
      | false ↦ none ∷ (elim (lead_of c) [
        | character x ↦ some x ∷ decode_from none cs
        | begins r ↦ decode_from (some r) cs
        | misplaced ↦ none ∷ decode_from none cs
      ])
    ]

all_there : List (Option ℕ) → Option (List ℕ)
all_there [] = some []
all_there (none ∷ os) = none
all_there (some x ∷ os) = elim (all_there os) [ none ↦ none | some xs ↦ some (x ∷ xs) ]

-- `none` stands for UnicodeDecodeError.
unfoldable pub decode : List ℕ → Option (List ℕ)
unfolding decode_from all_there
decode bs = all_there (decode_from none bs)

replaced : Option ℕ → ℕ
replaced none = 0xfffd
replaced (some x) = x

unfoldable pub decode_replace : List ℕ → List ℕ
unfolding decode_from replaced
decode_replace bs = map replaced (decode_from none bs)

unfoldable pub is_ascii : List ℕ → Bool
is_ascii [] = true
is_ascii (c ∷ cs) = ltb c 128 && is_ascii cs

pub encode-ascii : (t : List ℕ) → is_ascii t ≡ true → encode t ≡ t
unfolding encode encode_char is_ascii
encode-ascii [] h = refl
encode-ascii (c ∷ cs) h = ground (arith, h, encode-ascii cs)

decode_from-ascii : (t : List ℕ) → is_ascii t ≡ true → decode_from none t ≡ map (λ x. some x) t
unfolding decode_from lead_of is_ascii
decode_from-ascii [] h = refl
decode_from-ascii (c ∷ cs) h = ground (arith, h, decode_from-ascii cs)

map-replaced : (t : List ℕ) → map replaced (map (λ x. some x) t) ≡ t
unfolding replaced
map-replaced [] = refl
map-replaced (c ∷ cs) = ap (◌∷◌ c) (map-replaced cs)

pub decode_replace-ascii : (t : List ℕ) → is_ascii t ≡ true → decode_replace t ≡ t
unfolding decode_replace
decode_replace-ascii t h = ap (map replaced) (decode_from-ascii t h) ∙ map-replaced t

-- The euro sign, a lone continuation byte, and a sequence that breaks off before an A.
decode_replace-mixed :
    decode_replace (0xe2 ∷ 0x82 ∷ 0xac ∷ 0x80 ∷ 0xe2 ∷ 0x82 ∷ 65 ∷ [])
    ≡ 0x20ac ∷ 0xfffd ∷ 0xfffd ∷ 65 ∷ []
unfolding decode_replace
decode_replace-mixed = refl
