-- ===== src/Nodes/Sizes.antt =====
-- `NumNodes` and its derived sizes.
use picomint.Prelude.{
  ℕ, ◌+◌, ◌*◌, ◌/◌, ◌≤◌, ◌<◌, ◌≡◌, Bool, Option, none, some, List, [], ◌∷◌, arith, ltb, ◌==◌,
  if◌then◌else◌, false, ◌||◌,
}

-- `ALLOWED_MINT_SIZES`
abbrev pub allowed_mint_sizes : List ℕ
allowed_mint_sizes = 4 ∷ 7 ∷ 10 ∷ 13 ∷ 16 ∷ 19 ∷ 22 ∷ []

abbrev elem : ℕ → List ℕ → Bool
elem a [] = false
elem a (x ∷ xs) = x == a || elem a xs

-- The number `f` of faulty nodes that the mint tolerates.
pub record NumNodes : Type 0 where
  pub evil : ℕ

abbrev pub total : NumNodes → ℕ
total n = 3 * n.evil + 1

abbrev pub max_evil : NumNodes → ℕ
max_evil n = n.evil

abbrev pub one_honest : NumNodes → ℕ
one_honest n = n.evil + 1

abbrev pub threshold : NumNodes → ℕ
threshold n = 2 * n.evil + 1

-- `NumNodes::from`; `none` is the failed assertion.
unfoldable pub from_total : ℕ → Option NumNodes
from_total t = if elem t allowed_mint_sizes then some (record { evil = t / 3 }) else none

-- `node_ids().any(|x| x == id)`: the ids are `0 .. total() as u8`.
abbrev pub in_mint : NumNodes → ℕ → Bool
in_mint n id = ltb id (total n)

-- A mint size that is admitted is `3f + 1` for a positive `f`, its node ids fit a byte, and its
-- sizes are ordered: two thresholds together exceed the mint by `f + 1`.
pub from_total_sizes :
    (t : ℕ) (n : NumNodes)
    → from_total t ≡ some n
    → (total n ≡ t)
      × (1 ≤ max_evil n)
      × (total n < 256)
      × (threshold n + threshold n ≡ total n + one_honest n)
unfolding from_total
from_total_sizes t n h = ground arith
