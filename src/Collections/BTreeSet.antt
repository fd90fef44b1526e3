-- ===== src/Collections/BTreeSet.antt =====
-- `BTreeSet` of numbers: the members in ascending order.
use picomint.Prelude.{
  ℕ, suc, ◌≤◌, ◌≡◌, refl, Bool, true, false, List, [], ◌∷◌, arith, ltb, ◌==◌, if◌then◌else◌,
}

abbrev pub BTreeSet : Type 0
BTreeSet = List ℕ

unfoldable pub contains : ℕ → BTreeSet → Bool
contains k [] = false
contains k (j ∷ s) = if j == k then true else contains k s

unfoldable pub insert : ℕ → BTreeSet → BTreeSet
insert k [] = k ∷ []
insert k (j ∷ s) = if j == k then j ∷ s else if ltb k j then k ∷ j ∷ s else j ∷ insert k s

unfoldable pub remove : ℕ → BTreeSet → BTreeSet
remove k [] = []
remove k (j ∷ s) = if j == k then remove k s else j ∷ remove k s

abbrev pub SortedFrom : ℕ → BTreeSet → Type 0
SortedFrom lo [] = Unit
SortedFrom lo (k ∷ s) = (lo ≤ k) × SortedFrom (suc k) s

pub contains-insert :
    (k j : ℕ) (s : BTreeSet) → contains j (insert k s) ≡ (if k == j then true else contains j s)
unfolding contains insert
contains-insert k j [] = refl
contains-insert k j (i ∷ s) = ground (arith, contains-insert k j s)

pub contains-remove :
    (k j : ℕ) (s : BTreeSet) → contains j (remove k s) ≡ (if k == j then false else contains j s)
unfolding contains remove
contains-remove k j [] = ground arith
contains-remove k j (i ∷ s) = ground (arith, contains-remove k j s)

pub insert-SortedFrom :
    (lo k : ℕ) (s : BTreeSet) → lo ≤ k → SortedFrom lo s → SortedFrom lo (insert k s)
unfolding insert
insert-SortedFrom lo k [] h o = (h, tt)
insert-SortedFrom lo k (j ∷ s) h o = ground (arith, insert-SortedFrom (suc j) k s)
