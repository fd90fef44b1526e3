-- ===== src/Bft/Engine/Parents.antt =====
-- `parents_for` of picomint-bft/src/engine.rs: what it picks are the parents that the network asks of
-- a unit.
use picomint.Prelude.{
  ℕ, zero, suc, ◌+◌, ◌*◌, ◌≡◌, refl, some, List, [], ◌∷◌, All, take, length, arith, inl, inr,
  Bool-cases, >>=-eq-some,
}
use mathlib.Core.Path.{subst}
use picomint.Collections.BTreeMap
use picomint.Collections.BTreeMap.{BTreeMap, contains_key}
use picomint.Nodes.{NumNodes, threshold}
use picomint.Bft.Units.{BftUnit}
use picomint.Bft.Dag.{IsParent, IsClosed}
use picomint.Bft.State.{Engine, Crypto, extended_at}
use picomint.Bft.Extender.Inv.{look, IsAt, IsValid}
use picomint.Bft.Engine.{first_branches, without, collect, parents_for}

module _ (P : ℕ × ℕ → Type 0) where
  All-insert : (k v : ℕ) (m : BTreeMap ℕ) → P (k, v) → All P m → All P (BTreeMap.insert k v m)
  unfolding BTreeMap.insert
  All-insert k v [] p h = (p, tt)
  All-insert k v ((j, w) ∷ m) p h = ground (arith, All-insert k v m)

  All-without : (id : ℕ) (m : BTreeMap ℕ) → All P m → All P (without id m)
  All-without id [] h = tt
  All-without id ((c, x) ∷ m) h = ground (arith, All-without id m)

  All-take : (t : ℕ) (m : BTreeMap ℕ) → All P m → All P (take t m)
  All-take zero m h = tt
  All-take (suc t) [] h = tt
  All-take (suc t) (x ∷ m) h = (h.0, All-take t m h.1)

  All-collect : (m : BTreeMap ℕ) → All P m → All P (collect m)
  All-collect [] h = tt
  All-collect ((c, x) ∷ m) h = All-insert c x (collect m) h.0 (All-collect m h.1)

collect-SortedFrom : (m : BTreeMap ℕ) → BTreeMap.SortedFrom 0 (collect m)
collect-SortedFrom [] = tt
collect-SortedFrom ((c, x) ∷ m) =
    BTreeMap.insert-SortedFrom 0 c x (collect m) (omega arith) (collect-SortedFrom m)

collect_own :
    (f id own : ℕ) (row : BTreeMap ℕ)
    → BTreeMap.get id (collect (take (2 * f + 1) ((id, own) ∷ row))) ≡ some own
collect_own f id own row =
    let one_more : 2 * f + 1 ≡ suc (2 * f) = omega arith in
    rw one_more (ground (arith, BTreeMap.get-insert id id own (collect (take (2 * f) row))))

module _ (extended : BTreeMap BftUnit) (n : NumNodes) (closed : IsClosed n (look extended))
    (r : ℕ) where
  abbrev Entry : ℕ × ℕ → Type 0
  Entry = IsParent n (look extended) (r + 1)

  first_branches-All :
      (hashes : List ℕ) (row : BTreeMap ℕ)
      → All (IsAt (look extended) r) hashes
      → All Entry row
      → All Entry (first_branches extended hashes row)
  unfolding first_branches
  first_branches-All [] row at h = h
  first_branches-All (x ∷ hashes) row at h =
      let (u, known, low) = at.0 in
      let entry : Entry (u.creator, x) =
        ((closed.closed x u known).member, u, known, refl, omega arith) in
      rw known (elim (Bool-cases (contains_key u.creator row)) [
        | inl taken ↦ rw taken (first_branches-All hashes row at.1 h)
        | inr free ↦ rw free (
            first_branches-All hashes (BTreeMap.insert u.creator x row) at.1
              (All-insert Entry u.creator x row entry h))
      ])

module _ {D : Type 0} (crypto : Crypto D) where
  -- The parents of a unit of round `r + 1` that may be sent: a quorum of extended units of round `r`,
  -- by distinct creators, our own among them.
  pub record Fits (e : Engine D) (r : ℕ) (parents : BTreeMap ℕ) : Type 0 where
    pub sorted : BTreeMap.SortedFrom 0 parents
    pub quorum : length parents ≡ threshold e.n
    pub entries : All (IsParent e.n (look e.extended) (r + 1)) parents
    pub own : ℕ
    pub chained : BTreeMap.get e.id parents ≡ some own

  -- What `parents_for` returns for a round above 0, in a state whose index is right, are parents that may
  -- be sent.
  pub parents_for-Fits :
      (e : Engine D) (r : ℕ) (parents : BTreeMap ℕ)
      → IsValid crypto e
      → parents_for e (suc r) ≡ some parents
      → Fits e r parents
  unfolding parents_for
  parents_for-Fits e r parents valid p =
      let row = first_branches e.extended (extended_at e.rounds e.extended r) [] in
      let good =
        first_branches-All e.extended e.n valid.closed r (extended_at e.rounds e.extended r) []
          (valid.indexed r) tt in
      let Entry_r : ℕ × ℕ → Type 0 = IsParent e.n (look e.extended) (r + 1) in
      let (own, there, p') = >>=-eq-some (BTreeMap.get e.id row) _ p in
      let pick = collect (take (threshold e.n) ((e.id, own) ∷ without e.id row)) in
      let own_entry : Entry_r (e.id, own) = BTreeMap.All-get Entry_r e.id own row good there in
      let same : pick ≡ parents = ground arith in
      subst (Fits e r) same (record {
        sorted = collect-SortedFrom (take (threshold e.n) ((e.id, own) ∷ without e.id row));
        quorum = ground arith;
        entries = All-collect Entry_r (take (threshold e.n) ((e.id, own) ∷ without e.id row)) (
            All-take Entry_r (threshold e.n) ((e.id, own) ∷ without e.id row)
              (own_entry, All-without Entry_r e.id row good));
        own = own;
        chained = collect_own e.n.evil e.id own (without e.id row);
      })
