-- ===== src/Bft/Extender/Inv.antt =====
-- What picomint-bft/src/extender.rs keeps true of its caches.
use picomint.Prelude.{ℕ, ◌<◌, ◌≡◌, Bool, Option, some, All, In}
use picomint.Collections.BTreeMap
use picomint.Collections.BTreeMap.{BTreeMap}
use picomint.Collections.BTreeSet.{SortedFrom}
use picomint.Nodes.{NumNodes}
use picomint.Bft.Units.{BftUnit}
use picomint.Bft.Dag.{IsClosed}
use picomint.Bft.Ballot.{Certificate}
use picomint.Bft.Ballot.Memo.{IsSound}
use picomint.Bft.State.{Engine, Crypto, extended_at}

abbrev pub look : BTreeMap BftUnit → ℕ → Option BftUnit
look extended h = BTreeMap.get h extended

-- A unit that decides `v` on the candidate `c` stands in the graph.
pub record Decision (hash_byte : ℕ → ℕ → ℕ) (lk : ℕ → Option BftUnit) (n : NumNodes) (c : ℕ)
    (v : Bool) : Type 0 where
  pub cand : BftUnit
  pub known : lk c ≡ some cand
  pub depth : ℕ
  pub certificate : Certificate hash_byte lk c cand n depth v

-- A hash that stands for an extended unit of round `r`.
abbrev pub IsAt : (ℕ → Option BftUnit) → ℕ → ℕ → Type 0
IsAt lk r h = (u : BftUnit) × (lk h ≡ some u) × (u.round ≡ r)

-- `top` is above every extended round.
abbrev pub Below : (ℕ → Option BftUnit) → ℕ → Type 0
Below lk top = (h : ℕ) (u : BftUnit) → lk h ≡ some u → u.round < top

module _ {D : Type 0} (crypto : Crypto D) where
  pub record IsValid (e : Engine D) : Type 0 where
    pub closed : IsClosed e.n (look e.extended)
    pub sound : IsSound crypto.hash_byte (look e.extended) e.votes
    pub decisions :
        (c : ℕ) (v : Bool) (r : ℕ)
        → BTreeMap.get c e.decided ≡ some (v, r)
        → Decision crypto.hash_byte (look e.extended) e.n c v
    pub indexed : (r : ℕ) → All (IsAt (look e.extended) r) (extended_at e.rounds e.extended r)
    -- Every extended unit stands in its round's row, and a row ascends.
    pub listed :
        (h : ℕ) (u : BftUnit)
        → look e.extended h ≡ some u
        → In h (extended_at e.rounds e.extended u.round)
    pub ascending : (r : ℕ) → SortedFrom 0 (extended_at e.rounds e.extended r)
