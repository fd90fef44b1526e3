-- ===== src/Bft/Dag/Shared.antt =====
-- Two units of one round share a parent.
use picomint.Prelude.{ℕ, ◌+◌, ◌≤◌, ◌<◌, ◌≡◌, Bool, Option, some, [], ◌∷◌, All, arith, sym, ◌∙◌}
use picomint.Collections.BTreeMap
use picomint.Collections.BTreeMap.{BTreeMap, contains_key}
use picomint.Nodes.{NumNodes, total, threshold, tally, tally-Sorted, quorums_meet}
use picomint.Bft.Units.{BftUnit}
use picomint.Bft.Dag.{IsParent, WellParented, IsClosed, Faults}

All-below :
    (n : NumNodes) (look : ℕ → Option BftUnit) (r : ℕ) (m : BTreeMap ℕ)
    → All (IsParent n look r) m
    → All (λ e. e.0 < total n) m
All-below n look r [] h = tt
All-below n look r (e ∷ m) h = (h.0.0, All-below n look r m h.1)

-- An entry that both units have.
pub record Common (look : ℕ → Option BftUnit) (u w : BftUnit) : Type 0 where
  pub creator : ℕ
  pub hash : ℕ
  pub parent : BftUnit
  pub of_left : BTreeMap.get creator u.parents ≡ some hash
  pub of_right : BTreeMap.get creator w.parents ≡ some hash
  pub known : look hash ≡ some parent
  pub below : parent.round + 1 ≡ u.round

module _ {n : NumNodes} {look : ℕ → Option BftUnit} where
  pub quorum-tally :
      (u : BftUnit)
      → WellParented n look u
      → 0 < u.round
      → threshold n ≤ tally (total n) (λ i. contains_key i u.parents)
  quorum-tally u w pos = omega (
    arith,
    w.quorum pos,
    tally-Sorted (total n) 0 u.parents w.sorted (All-below n look u.round u.parents w.parents),
  )

  module _ {honest : ℕ → Bool} (closed : IsClosed n look) (faults : Faults n honest look) where
    -- In a closed graph with at most `f` faulty creators two units of one round above 0 name a common
    -- parent.
    pub shared_parent :
        (g h : ℕ) (u w : BftUnit)
        → look g ≡ some u
        → look h ≡ some w
        → u.round ≡ w.round
        → 0 < u.round
        → Common look u w
    shared_parent g h u w eg eh same pos =
        let wu = closed.closed g u eg in
        let ww = closed.closed h w eh in
        let (c, in_u, in_w, hon) =
          quorums_meet n.evil (λ i. contains_key i u.parents) (λ i. contains_key i w.parents) honest
            (quorum-tally u wu pos) (quorum-tally w ww (omega arith)) faults.few in
        let (p, ep) = BTreeMap.contains_key→get c u.parents in_u in
        let (q, eq) = BTreeMap.contains_key→get c w.parents in_w in
        let (_, x, ex, cx, rx) =
          BTreeMap.All-get (IsParent n look u.round) c p u.parents wu.parents ep in
        let (_, y, ey, cy, ry) =
          BTreeMap.All-get (IsParent n look w.round) c q w.parents ww.parents eq in
        let e = faults.single p q x y ex ey (omega arith) (cx ∙ sym cy) (rw cx hon) in
        record {
          creator = c;
          hash = p;
          parent = x;
          of_left = ep;
          of_right = rw e eq;
          known = ex;
          below = rx;
        }
