-- ===== src/Bft/Ballot.antt =====
-- The votes of picomint-bft/src/extender.rs as a function of the graph alone, without the cache
-- and without fuel: the reference for `vote` and `decide`.
pub mod Aggregate
pub mod Propagation
pub mod Memo
pub mod Within
pub mod Coverage
use picomint.Prelude.{
  ℕ, zero, suc, ◌+◌, ◌≤◌, ◌≡◌, Bool, true, not, Option, none, some, [], map, count, iff,
}
use picomint.Collections.BTreeMap
use picomint.Collections.BTreeMap.{BTreeMap, values}
use picomint.Nodes.{NumNodes, threshold}
use picomint.Bft.Units.{BftUnit}
use picomint.Bft.Vote.{common_vote, is_hash, unanimous}

abbrev pub parents_of : Option BftUnit → BTreeMap ℕ
parents_of none = []
parents_of (some u) = u.parents

module _ (hash_byte : ℕ → ℕ → ℕ) (look : ℕ → Option BftUnit) (c : ℕ) (cand : BftUnit) where
  -- The common vote `k` rounds above the candidate.
  abbrev pub coin : ℕ → Bool
  coin k = common_vote hash_byte c cand.round (cand.round + k)

  -- The vote of the unit `u`, which stands `d + 1` rounds above the candidate.
  unfoldable pub ballot : ℕ → ℕ → Bool
  ballot zero u = is_hash (BTreeMap.get cand.creator (parents_of (look u))) c
  ballot (suc d) u = unanimous (map (ballot d) (values (parents_of (look u)))) (coin (d + 2))

  -- The unit `u`, `d + 2` rounds above the candidate, decides `v`.
  pub record Certificate (n : NumNodes) (d : ℕ) (v : Bool) : Type 0 where
    pub hash : ℕ
    pub unit : BftUnit
    pub known : look hash ≡ some unit
    pub above : unit.round ≡ cand.round + 2 + d
    pub common : coin (d + 2) ≡ v
    pub enough : threshold n ≤ count (λ p. iff (ballot d p) v) (values unit.parents)

  -- All units `d + 1` rounds above the candidate vote `v`.
  abbrev pub Uniform : ℕ → Bool → Type 0
  Uniform d v =
      (u : ℕ) (w : BftUnit) → look u ≡ some w → w.round ≡ cand.round + 1 + d → ballot d u ≡ v
