-- ===== src/Bft/Ballot/Coverage.antt =====
-- The coverage lemma of picomint-bft/src/extender.rs: a candidate outside the ancestry of a unit
-- three rounds up is never decided in.
use picomint.Prelude.{
  ℕ, zero, suc, ◌+◌, ◌≤◌, ◌≡◌, refl, Bool, true, false, Option, none, some, [], ◌∷◌, All, arith,
  Option-cases, inl, inr, Bool-cases, ◌==◌, ==_iff,
}
use picomint.Collections.BTreeMap
use picomint.Collections.BTreeMap.{BTreeMap, values}
use picomint.Nodes.{NumNodes}
use picomint.Bft.Units.{BftUnit}
use picomint.Bft.Dag.{IsParent, IsClosed, Faults, Within}
use picomint.Bft.Dag.Shared.{shared_parent}
use picomint.Bft.Vote.{common_vote}
use picomint.Bft.Ballot.{parents_of, ballot, Certificate, Uniform}
use picomint.Bft.Ballot.Aggregate.{unanimous_all, unanimous_one}
use picomint.Bft.Ballot.Propagation.{
  Uniform-up, Certificate-Uniform, Certificate-parents, Certificate-parent,
}

-- Two rounds above a candidate the common vote is 1, three rounds above it is 0.
pub common_vote_two : (hash_byte : ℕ → ℕ → ℕ) (c r : ℕ) → common_vote hash_byte c r (r + 2) ≡ true
unfolding common_vote
common_vote_two hash_byte c r = ground arith

pub common_vote_three :
    (hash_byte : ℕ → ℕ → ℕ) (c r : ℕ) → common_vote hash_byte c r (r + 3) ≡ false
unfolding common_vote
common_vote_three hash_byte c r = ground arith

module _ {n : NumNodes} {part whole : ℕ → Option BftUnit} (hash_byte : ℕ → ℕ → ℕ) (c : ℕ)
    (cand : BftUnit) (closed_part : IsClosed n part) (within : Within part whole)
    (absent : part c ≡ none) where
  -- No unit of the part names the candidate as a parent.
  unseen_one : (p : ℕ) (x : BftUnit) → part p ≡ some x → ballot hash_byte whole c cand 0 p ≡ false
  unfolding ballot
  unseen_one p x e =
      rw (within p x e, parents_of)
        (elim (Option-cases (BTreeMap.get cand.creator x.parents)) [
          | inl missing ↦ rw missing
          | inr (q, found) ↦
              let (_, y, known, _, _) =
                BTreeMap.All-get (IsParent n part x.round) cand.creator q x.parents
                  (closed_part.closed p x e).parents found in
              rw found (elim (Bool-cases (q == c)) [
                | inl same ↦ cc ((==_iff q c).0 same)
                | inr other ↦ other
              ])
        ])

  All-unseen :
      (r : ℕ) (m : BTreeMap ℕ)
      → All (IsParent n part r) m
      → All (λ e. ballot hash_byte whole c cand 0 e.1 ≡ false) m
  All-unseen r [] h = tt
  All-unseen r (e ∷ m) h = (unseen_one e.1 h.0.1 h.0.2, All-unseen r m h.1)

  unseen_two :
      (p : ℕ) (x : BftUnit)
      → part p ≡ some x
      → x.round ≡ cand.round + 2
      → ballot hash_byte whole c cand 1 p ≡ false
  unfolding ballot
  unseen_two p x e r =
      let wf = closed_part.closed p x e in
      rw (within p x e, parents_of)
        (unanimous_all (ballot hash_byte whole c cand 0) x.parents false _
          (omega (arith, wf.quorum (omega arith))) (All-unseen x.round x.parents wf.parents))

  module _ {honest : ℕ → Bool} (closed : IsClosed n whole) (faults : Faults n honest whole) (w : ℕ)
      (top : BftUnit) (held : part w ≡ some top) (three_up : top.round ≡ cand.round + 3) where
    -- Every unit two rounds up that has a parent of the part's top unit for a sibling votes 0.
    unseen_three : Uniform hash_byte whole c cand 2 false
    unfolding ballot
    unseen_three u x e r =
        let s =
          shared_parent closed faults w u top x (within w top held) e (omega arith) (omega arith) in
        let (_, y, known, _, below) =
          BTreeMap.All-get (IsParent n part top.round) s.creator s.hash top.parents
            (closed_part.closed w top held).parents s.of_left in
        rw (e, parents_of, common_vote_three hash_byte c cand.round)
          (unanimous_one (ballot hash_byte whole c cand 1) x.parents false s.creator s.hash
            s.of_right (unseen_two s.hash y known (omega arith)))

    not_two_up : Certificate hash_byte whole c cand n 0 true → ⊥
    not_two_up x =
        let s =
          shared_parent closed faults w w top top (within w top held) (within w top held) refl
            (omega arith) in
        let (_, y, known, _, below) =
          BTreeMap.All-get (IsParent n part top.round) s.creator s.hash top.parents
            (closed_part.closed w top held).parents s.of_left in
        let no_vote = unseen_two s.hash y known (omega arith) in
        let vote =
          Certificate-Uniform closed hash_byte c cand faults 0 true x s.hash y
            (within s.hash y known) (omega arith) in
        cc (no_vote, vote)

    not_above : (d : ℕ) → 2 ≤ d → Certificate hash_byte whole c cand n d true → ⊥
    not_above d l x =
        let (j, p, e) = Certificate-parent closed hash_byte c cand d true x in
        let (_, q, known, _, below) =
          BTreeMap.All-get (IsParent n whole x.unit.round) j p x.unit.parents
            (closed.closed x.hash x.unit x.known).parents e in
        let vote = Certificate-parents closed hash_byte c cand d true x j p e in
        let no_vote =
          Uniform-up closed hash_byte c cand 2 d false unseen_three l p q known
            (omega (arith, x.above)) in
        cc (vote, no_vote)

    -- No unit of the whole graph decides the candidate in.
    pub unseen-Certificate : (d : ℕ) → Certificate hash_byte whole c cand n d true → ⊥
    unseen-Certificate zero x = not_two_up x
    unseen-Certificate (suc zero) x = cc (x.common, common_vote_three hash_byte c cand.round)
    unseen-Certificate (suc (suc d)) x = not_above (suc (suc d)) (omega arith) x
