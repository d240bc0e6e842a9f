-- ===== src/Replay/Window.antt =====
-- The window of the anti-replay filter of aegs_server.py: its shape under a shift and a mark.
use mathlib.Core.Logic.{◌≢◌}
use aegs_global.Prelude.{
  ℕ, ◌-◌, ◌*◌, ◌/◌, ◌%◌, ◌≤◌, ◌<◌, bit_or, ◌≡◌, refl, inl, inr, Bool, true, false, List, arith,
  length, get_or, replicate, ltb, leb, if◌then◌else◌, length-set, length-replicate,
  get_or-replicate, get_or-set_self, get_or-set_ne, Bool-cases,
}
use native.Mathlib.Nat.{one-le-pow}
use native.Mathlib.Decide.{ℕ_discrete}
use aegs_global.Replay.{
  shl, AntiReplayFilter, init, advance, is_marked, mark, shift_bytes, shift_bits,
}
use aegs_global.Replay.Bits.{bit_or_lit, bit_or-lt, bit_or_other}
use aegs_global.Replay.Shift.{
  IsBytes, length-shift_bits, length-shift_bytes, shift_bits-IsBytes, shift_bytes-IsBytes,
}

pub record IsValid (f : AntiReplayFilter) : Type 0 where
  pub sized : length f.window * 8 ≡ f.window_size
  pub wide : 8 ≤ f.window_size
  pub bytes : IsBytes f.window

replicate-IsBytes : (n : ℕ) → IsBytes (replicate n 0)
replicate-IsBytes n i = ground (arith, get_or-replicate {0} {A = ℕ} n 0 i)

pub length-advance :
    (size d : ℕ) (w : List ℕ) → length w * 8 ≡ size → length (advance size d w) ≡ length w
unfolding advance
length-advance size d w h = ground (
  arith,
  length-replicate {0} {A = ℕ} (size / 8) 0,
  length-shift_bytes (d / 8) w,
  length-shift_bits (length (shift_bytes (d / 8) w)) (d % 8) 0 (shift_bytes (d / 8) w),
  length-shift_bits (length w) (d % 8) 0 w,
)

if-IsBytes : (b : Bool) (v w : List ℕ) → IsBytes v → IsBytes w → IsBytes (if b then v else w)
if-IsBytes true v w hv hw = hv
if-IsBytes false v w hv hw = hw

rotated-IsBytes :
    (k : ℕ) (w : List ℕ)
    → k < 8
    → IsBytes w
    → IsBytes (if ltb 0 k then shift_bits (length w) k 0 w else w)
rotated-IsBytes k w hk hw =
    if-IsBytes (ltb 0 k) _ w
      (shift_bits-IsBytes k hk (length w) 0 w (omega arith) hw (grind (arith, one-le-pow k 2))) hw

pub advance-IsBytes :
    (size d : ℕ) (w : List ℕ) → length w * 8 ≡ size → IsBytes w → IsBytes (advance size d w)
unfolding advance
advance-IsBytes size d w h hw = elim (Bool-cases (leb size d)) [
  | inl far ↦ rw far (replicate-IsBytes (size / 8))
  | inr near ↦ rw near (
      rotated-IsBytes (d % 8) _ (omega arith)
        (if-IsBytes (ltb 0 (d / 8)) _ w (shift_bytes-IsBytes (d / 8) w (ground arith) hw) hw))
]

mark-IsBytes : (d : ℕ) (w : List ℕ) → IsBytes w → d / 8 < length w → IsBytes (mark d w)
mark-IsBytes d w hw h i =
    let v = bit_or (get_or w (d / 8) 0) (shl 1 (d % 8)) in
    grind (
      arith,
      get_or-set_self w (d / 8) v 0,
      get_or-set_ne w (d / 8) i v 0,
      bit_or-lt (get_or w (d / 8) 0) (d % 8) (hw (d / 8)),
      hw i,
    )

pub mark-is_marked :
    (d : ℕ) (w : List ℕ) → IsBytes w → d / 8 < length w → is_marked d (mark d w) ≡ true
mark-is_marked d w hw h =
    rw (get_or-set_self w (d / 8) _ 0 h)
      (bit_or_lit (get_or w (d / 8) 0) (d % 8) (hw (d / 8)) (omega arith))

-- Marking one place leaves every other place as it was.
pub mark-is_marked_ne :
    (d e : ℕ) (w : List ℕ)
    → IsBytes w
    → d / 8 < length w
    → d ≢ e
    → is_marked e (mark d w) ≡ is_marked e w
mark-is_marked_ne d e w hw h ne = elim (ℕ_discrete (d / 8) (e / 8)) [
  | yes p ↦
      rw (← p, get_or-set_self w (d / 8) _ 0 h)
        (rw
          (bit_or_other (get_or w (d / 8) 0) (d % 8) (e % 8) (hw (d / 8)) (omega arith)
            (omega arith) (λ q. ne (omega arith)))
          refl)
  | no p ↦ rw (get_or-set_ne w (d / 8) (e / 8) _ 0 p) refl
]

-- A fresh filter of at least one whole byte is well formed.
pub init-IsValid : (size : ℕ) → size % 8 ≡ 0 → 8 ≤ size → IsValid (init size)
unfolding init
init-IsValid size whole wide = record {
  sized = omega (arith, length-replicate {0} {A = ℕ} (size / 8) 0);
  wide = wide;
  bytes = replicate-IsBytes (size / 8);
}

unfoldable pub raised : AntiReplayFilter → ℕ → AntiReplayFilter
raised f seq = record f {
  max_seq = seq;
  window = mark 0 (advance f.window_size (seq - f.max_seq) f.window);
}

unfoldable pub marked : AntiReplayFilter → ℕ → AntiReplayFilter
marked f seq = record f { window = mark (f.max_seq - seq) f.window }

pub raised-IsValid : (f : AntiReplayFilter) (seq : ℕ) → IsValid f → IsValid (raised f seq)
unfolding raised
raised-IsValid f seq v =
    let w = advance f.window_size (seq - f.max_seq) f.window in
    let l = length-advance f.window_size (seq - f.max_seq) f.window v.sized in
    record {
      sized = ground (arith, l, v.sized, length-set w 0 (bit_or (get_or w 0 0) 1));
      wide = v.wide;
      bytes =
          mark-IsBytes 0 w
            (advance-IsBytes f.window_size (seq - f.max_seq) f.window v.sized v.bytes)
            (omega (arith, l, v.sized, v.wide));
    }

pub marked-IsValid :
    (f : AntiReplayFilter) (seq : ℕ)
    → f.max_seq - seq < f.window_size
    → IsValid f
    → IsValid (marked f seq)
unfolding marked
marked-IsValid f seq h v = record {
  sized = rw length-set v.sized;
  wide = v.wide;
  bytes = mark-IsBytes (f.max_seq - seq) f.window v.bytes (omega (arith, v.sized));
}
