-- ===== src/Bft/Dag.antt =====
-- What the extension rule of picomint-bft/src/engine.rs gives of a set of extended units, and what
-- the fault assumption adds. A set is a lookup by hash.
pub mod Shared
use picomint.Prelude.{ℕ, ◌+◌, ◌≤◌, ◌<◌, ◌^◌, ◌≡◌, Bool, true, not, Option, some, [], All, length}
use picomint.Collections.BTreeMap.{BTreeMap, SortedFrom}
use picomint.Nodes.{NumNodes, total, max_evil, threshold, tally}
use picomint.Bft.Units.{BftUnit}

-- The parent entry `(creator, hash)` of a unit of round `r` names a unit of that creator one
-- round down.
abbrev pub IsParent : NumNodes → (ℕ → Option BftUnit) → ℕ → ℕ × ℕ → Type 0
IsParent n look r e =
    (e.0 < total n) × (q : BftUnit) × (look e.1 ≡ some q) × (q.creator ≡ e.0) × (q.round + 1 ≡ r)

pub record WellParented (n : NumNodes) (look : ℕ → Option BftUnit) (u : BftUnit) : Type 0 where
  pub member : u.creator < total n
  pub low : u.round + 4 < 2 ^ 32
  pub sorted : SortedFrom 0 u.parents
  pub root : u.round ≡ 0 → u.parents ≡ []
  pub quorum : 0 < u.round → length u.parents ≡ threshold n
  pub parents : All (IsParent n look u.round) u.parents

-- A set of units that is closed under parents, each with a quorum of parents one round down.
pub record IsClosed (n : NumNodes) (look : ℕ → Option BftUnit) : Type 0 where
  pub closed : (h : ℕ) (u : BftUnit) → look h ≡ some u → WellParented n look u

-- At most `f` nodes are faulty, and an honest node signs one unit in each round.
pub record Faults (n : NumNodes) (honest : ℕ → Bool) (look : ℕ → Option BftUnit) : Type 0 where
  pub few : tally (total n) (λ i. not (honest i)) ≤ max_evil n
  pub single :
      (g h : ℕ) (u w : BftUnit)
      → look g ≡ some u
      → look h ≡ some w
      → u.round ≡ w.round
      → u.creator ≡ w.creator
      → honest u.creator ≡ true
      → g ≡ h

-- One set of units lies in another.
abbrev pub Within : (ℕ → Option BftUnit) → (ℕ → Option BftUnit) → Type 0
Within look look' = (h : ℕ) (u : BftUnit) → look h ≡ some u → look' h ≡ some u
