-- ===== src/Collections/PairMap.antt =====
-- A map whose keys are pairs of numbers. No code reads such a map in order, so it is an
-- association list with the newest entry first.
use picomint.Prelude.{
  ℕ, ◌≡◌, refl, ◌&&◌, Option, none, some, List, [], ◌∷◌, arith, ◌==◌, if◌then◌else◌,
}

abbrev pub PairMap {ℓ} : Type ℓ → Type ℓ
PairMap V = List (ℕ × ℕ × V)

module _ {ℓ} {V : Type ℓ} where
  unfoldable pub get : ℕ → ℕ → PairMap V → Option V
  get a b [] = none
  get a b ((c, d, v) ∷ m) = if c == a && d == b then some v else get a b m

  unfoldable pub insert : ℕ → ℕ → V → PairMap V → PairMap V
  insert a b v m = (a, b, v) ∷ m

  unfoldable pub remove : ℕ → ℕ → PairMap V → PairMap V
  remove a b [] = []
  remove a b ((c, d, v) ∷ m) = if c == a && d == b then remove a b m else (c, d, v) ∷ remove a b m

  pub get-insert :
      (a b c d : ℕ) (v : V) (m : PairMap V)
      → get c d (insert a b v m) ≡ (if a == c && b == d then some v else get c d m)
  unfolding get insert
  get-insert a b c d v m = refl

  pub get-remove :
      (a b c d : ℕ) (m : PairMap V)
      → get c d (remove a b m) ≡ (if a == c && b == d then none else get c d m)
  unfolding get remove
  get-remove a b c d [] = ground arith
  get-remove a b c d ((i, j, v) ∷ m) = ground (arith, get-remove a b c d m)
