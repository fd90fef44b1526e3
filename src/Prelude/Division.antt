-- ===== src/Prelude/Division.antt =====
-- Quotients of native numbers by the bounds that they lie in.
use Prim.Native.Nat.{ℕ, ◌+◌, ◌*◌, ◌/◌, ◌≤◌, ◌<◌}
use mathlib.Core.Path.{◌≡◌}
use native.Mathlib.Omega.{arith}
use native.Mathlib.Nat.{div-add-mod}
use native.Mathlib.Decide.{dec_lt}

pub mul_mono : (a b t : ℕ) → a ≤ b → a * t ≤ b * t
mul_mono a b t h = grind arith

pub div_bounds : (i t : ℕ) → 0 < t → (i / t * t ≤ i) × (i < (i / t + 1) * t)
div_bounds i t pos = (grind (arith, div-add-mod), grind (arith, div-add-mod))

pub div_unique : (i t s : ℕ) → 0 < t → s * t ≤ i → i < (s + 1) * t → i / t ≡ s
div_unique i t s pos low high =
    let (from, below) = div_bounds i t pos in
    elim (dec_lt s (i / t)) [
      | yes later ↦ absurd (omega (arith, mul_mono (s + 1) (i / t) t (omega arith)))
      | no not_later ↦ elim (dec_lt (i / t) s) [
        | yes earlier ↦ absurd (omega (arith, mul_mono (i / t + 1) s t (omega arith)))
        | no not_earlier ↦ omega arith
      ]
    ]
