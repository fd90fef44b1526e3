-- ===== src/Bft/Engine/Inv.antt =====
-- What picomint-bft/src/engine.rs keeps true of its tables, its index and its caches.
use picomint.Prelude.{
  ℕ, ◌+◌, ◌<◌, ◌≤◌, ◌^◌, ◌≡◌, Bool, true, some, List, [], All, length, some_unique, ap, ◌∙◌,
}
use picomint.Collections.BTreeMap
use picomint.Collections.BTreeMap.{BTreeMap, contains_key}
use picomint.Collections.BTreeSet
use picomint.Nodes.{NumNodes, total, max_evil, threshold}
use picomint.Bft.Units.{BftUnit}
use picomint.Bft.Dag.{IsClosed}
use picomint.Bft.Ballot.Memo.{IsSound}
use picomint.Bft.State.{Engine, Crypto, round_units, extended_at}
use picomint.Bft.Engine.Rows.{keep-In, keep-All, keep-SortedFrom}
use picomint.Bft.Extender.Inv.{look, Decision, IsAt, Below, IsValid}

-- What `validate_unit` checks of a unit by itself. That its parents ascend is `BTreeMap`'s, and
-- that its round is far from `u32::MAX` is what the length of a session gives.
pub record Admitted (n : NumNodes) (u : BftUnit) : Type 0 where
  pub member : u.creator < total n
  pub low : u.round + 4 < 2 ^ 32
  pub sorted : BTreeMap.SortedFrom 0 u.parents
  pub root : u.round ≡ 0 → u.parents ≡ []
  pub quorum : 0 < u.round → length u.parents ≡ threshold n
  pub members : All (λ e. e.0 < total n) u.parents

module _ {D : Type 0} where
  pub record Tables (e : Engine D) : Type 0 where
    pub mint : 1 ≤ max_evil e.n
    pub admitted : (h : ℕ) (u : BftUnit) → BTreeMap.get h e.unit_table ≡ some u → Admitted e.n u
    pub stored :
        (r h : ℕ)
        → BTreeSet.contains h (round_units r e.rounds) ≡ true
        → (u : BftUnit) × (BTreeMap.get h e.unit_table ≡ some u) × (u.round ≡ r)
    pub indexed :
        (h : ℕ) (u : BftUnit)
        → BTreeMap.get h e.unit_table ≡ some u
        → BTreeSet.contains h (round_units u.round e.rounds) ≡ true
    pub ascending : (r : ℕ) → BTreeSet.SortedFrom 0 (round_units r e.rounds)
    pub known :
        (h : ℕ) (u : BftUnit)
        → BTreeMap.get h e.extended ≡ some u
        → BTreeMap.get h e.unit_table ≡ some u
    -- Every payload row belongs to a stored unit.
    pub paid :
        (h : ℕ) (items : List D)
        → BTreeMap.get h e.unit_data_table ≡ some items
        → (u : BftUnit) × (BTreeMap.get h e.unit_table ≡ some u)

  pub record Caches (crypto : Crypto D) (e : Engine D) : Type 0 where
    pub closed : IsClosed e.n (look e.extended)
    pub sound : IsSound crypto.hash_byte (look e.extended) e.votes
    pub decisions :
        (c : ℕ) (v : Bool) (r : ℕ)
        → BTreeMap.get c e.decided ≡ some (v, r)
        → Decision crypto.hash_byte (look e.extended) e.n c v
    pub cursor : e.next_decide_round + 3 < 2 ^ 32

  -- `top` is above the round of every stored unit, by two where the unit is not our own.
  abbrev pub Tall : Engine D → ℕ → Type 0
  Tall e top =
      (h : ℕ) (u : BftUnit)
      → BTreeMap.get h e.unit_table ≡ some u
      → (u.round < top) × ((u.creator ≡ e.id → ⊥) → u.round + 1 < top)

  pub Tall-Below : (e : Engine D) (top : ℕ) → Tables e → Tall e top → Below (look e.extended) top
  Tall-Below e top t tall h u k = (tall h u (t.known h u k)).0

  pub record Inv (crypto : Crypto D) (e : Engine D) : Type 0 where
    pub tables : Tables e
    pub caches : Caches crypto e

  -- What the extender relies on.
  pub Inv-IsValid : (crypto : Crypto D) (e : Engine D) → Inv crypto e → IsValid crypto e
  unfolding extended_at
  Inv-IsValid crypto e inv =
      let t = inv.tables in
      record {
        closed = inv.caches.closed;
        sound = inv.caches.sound;
        decisions = inv.caches.decisions;
        indexed = λ r.
            keep-All e.extended (IsAt (look e.extended) r) (round_units r e.rounds) (λ h m k.
              let (u, known) = BTreeMap.contains_key→get h e.extended k in
              let (w, stored, row) = t.stored r h m in
              let same = some_unique u w (t.known h u known) stored in
              (u, known, ap (λ (x : BftUnit). x.round) same ∙ row));
        listed = λ h u known.
            keep-In e.extended h (round_units u.round e.rounds) (t.indexed h u (t.known h u known))
              (BTreeMap.get→contains_key h u e.extended known);
        ascending = λ r. keep-SortedFrom e.extended 0 (round_units r e.rounds) (t.ascending r);
      }
