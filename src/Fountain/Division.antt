-- ===== src/Fountain/Division.antt =====
-- Quotients that are rounded up, as in picomint-fountain/src/fountain.rs.
use picomint.Prelude.{
  ℕ, ◌+◌, ◌*◌, ◌/◌, ◌%◌, ◌≤◌, ◌<◌, ◌≡◌, ap, ltb, arith, Bool-cases, inl, inr, mul_mono,
}
use native.Mathlib.Nat.{div-add-mod, mod-lt}
use native.Mathlib.Decide.{dec_lt}
use picomint.Fountain.Encoder.{div_ceil, fragment_length}

-- The least number of times that `b` covers `a`.
pub div_ceil_covers : (a b : ℕ) → 0 < b → a ≤ div_ceil a b * b
div_ceil_covers a b pos =
    let split = div-add-mod a b in
    let small = mod-lt a {m = b} pos in
    elim (Bool-cases (ltb 0 (a % b))) [
      | inl more ↦ grind (arith, more, split, small)
      | inr whole ↦ grind (arith, whole, split)
    ]

pub div_ceil_least : (a b c : ℕ) → 0 < b → a ≤ c * b → div_ceil a b ≤ c
div_ceil_least a b c pos h =
    let split = div-add-mod a b in
    elim (dec_lt c (div_ceil a b)) [
      | no fits ↦ omega arith
      | yes above ↦ elim (Bool-cases (ltb 0 (a % b))) [
        | inl more ↦
            let under : c ≤ a / b = ground arith in
            absurd (grind (arith, mul_mono c (a / b) b under))
        | inr whole ↦
            let under : c + 1 ≤ a / b = ground arith in
            absurd (grind (arith, mul_mono (c + 1) (a / b) b under))
      ]
    ]

pub div_ceil_pos : (a b : ℕ) → 0 < a → 0 < b → 0 < div_ceil a b
div_ceil_pos a b some_a some_b =
    let covers = div_ceil_covers a b some_b in
    elim (dec_lt 0 (div_ceil a b)) [
      | yes pos ↦ pos
      | no gone ↦
          let none_at_all : div_ceil a b ≡ 0 = omega arith in
          absurd (omega (arith, ap (λ z. z * b) none_at_all))
    ]

mul_mono_left : (a b c : ℕ) → b ≤ c → a * b ≤ a * c
mul_mono_left a b c h = grind arith

-- As many fragments of `fragment_length` cover the data as fragments of the greatest length would.
pub div_ceil-fragment_length :
    (data_length most : ℕ)
    → 0 < data_length
    → 0 < most
    → div_ceil data_length (fragment_length data_length most) ≡ div_ceil data_length most
div_ceil-fragment_length data_length most some_data some_most =
    let count = div_ceil data_length most in
    let size = fragment_length data_length most in
    let count_pos = div_ceil_pos data_length most some_data some_most in
    let size_pos = div_ceil_pos data_length count some_data count_pos in
    let covers = div_ceil_covers data_length most some_most in
    let size_covers = div_ceil_covers data_length count count_pos in
    let swapped : data_length ≤ most * count = grind arith in
    let size_swapped : data_length ≤ count * size = grind arith in
    let short = div_ceil_least data_length count most count_pos swapped in
    let few = div_ceil_least data_length size count size_pos size_swapped in
    let again = div_ceil_covers data_length size size_pos in
    let stretch : div_ceil data_length size * size ≤ div_ceil data_length size * most =
      mul_mono_left (div_ceil data_length size) size most short in
    let many =
      div_ceil_least data_length most (div_ceil data_length size) some_most (omega arith) in
    omega arith

pub div_ceil_le : (a b : ℕ) → 0 < b → div_ceil a b ≤ a
div_ceil_le a b pos = div_ceil_least a b a pos (grind arith)
