-- ===== src/Bft/Ballot/Propagation.antt =====
-- One deciding unit fixes the votes of its round and of every round above.
use picomint.Prelude.{
  ℕ, zero, suc, ◌+◌, ◌≤◌, ◌<◌, ◌≡◌, Bool, Option, some, [], ◌∷◌, iff, iff→eq, ap, All, arith, sym,
  ◌∙◌,
}
use mathlib.Core.Path.{subst}
use native.Mathlib.Decide.{dec_le, dec_lt}
use picomint.Collections.BTreeMap
use picomint.Collections.BTreeMap.{BTreeMap, values}
use picomint.Nodes.{NumNodes}
use picomint.Bft.Units.{BftUnit}
use picomint.Bft.Dag.{IsParent, IsClosed, Faults}
use picomint.Bft.Dag.Shared.{shared_parent}
use picomint.Bft.Ballot.{parents_of, coin, ballot, Certificate, Uniform}
use picomint.Bft.Ballot.Aggregate.{unanimous_all, unanimous_one, count-full, first_entry}

module _ {n : NumNodes} {look : ℕ → Option BftUnit} (closed : IsClosed n look) where
  module _ (hash_byte : ℕ → ℕ → ℕ) (c : ℕ) (cand : BftUnit) where
    All-ballot :
        (d r : ℕ) (v : Bool) (m : BTreeMap ℕ)
        → Uniform hash_byte look c cand d v
        → r ≡ cand.round + 2 + d
        → All (IsParent n look r) m
        → All (λ e. ballot hash_byte look c cand d e.1 ≡ v) m
    All-ballot d r v [] h er ps = tt
    All-ballot d r v (e ∷ m) h er ps =
        let (_, q, known, _, below) = ps.0 in
        (h e.1 q known (omega arith), All-ballot d r v m h er ps.1)

    -- A round that votes as one is followed by a round that votes so.
    pub Uniform-step :
        (d : ℕ) (v : Bool)
        → Uniform hash_byte look c cand d v
        → Uniform hash_byte look c cand (suc d) v
    unfolding ballot
    Uniform-step d v h u w e r =
        let wf = closed.closed u w e in
        rw (e, parents_of)
          (unanimous_all (ballot hash_byte look c cand d) w.parents v _
            (omega (arith, wf.quorum (omega arith)))
            (All-ballot d w.round v w.parents h (omega arith) wf.parents))

    pub Uniform-up :
        (d k : ℕ) (v : Bool)
        → Uniform hash_byte look c cand d v
        → d ≤ k
        → Uniform hash_byte look c cand k v
    Uniform-up d zero v h le = subst (λ j. Uniform hash_byte look c cand j v) (omega arith) h
    Uniform-up d (suc k) v h le = elim (dec_le d k) [
      | yes l ↦ Uniform-step k v (Uniform-up d k v h l)
      | no l ↦ subst (λ j. Uniform hash_byte look c cand j v) (omega arith) h
    ]

    -- A certificate for `v` counts every parent of its unit.
    pub Certificate-parents :
        (d : ℕ) (v : Bool) (x : Certificate hash_byte look c cand n d v) (k p : ℕ)
        → BTreeMap.get k x.unit.parents ≡ some p
        → ballot hash_byte look c cand d p ≡ v
    Certificate-parents d v x k p e =
        let wf = closed.closed x.hash x.unit x.known in
        iff→eq _ v (
          count-full (λ q. iff (ballot hash_byte look c cand d q) v) x.unit.parents k p
            (omega (arith, wf.quorum (omega (arith, x.above)), x.enough)) e)

    pub Certificate-parent :
        (d : ℕ) (v : Bool) (x : Certificate hash_byte look c cand n d v)
        → (k : ℕ) × (p : ℕ) × (BTreeMap.get k x.unit.parents ≡ some p)
    Certificate-parent d v x =
        let wf = closed.closed x.hash x.unit x.known in
        first_entry x.unit.parents (omega (arith, wf.quorum (omega (arith, x.above))))

    module _ {honest : ℕ → Bool} (faults : Faults n honest look) where
      -- A certificate makes its whole round vote its value.
      pub Certificate-Uniform :
          (d : ℕ) (v : Bool)
          → Certificate hash_byte look c cand n d v
          → Uniform hash_byte look c cand (suc d) v
      unfolding ballot
      Certificate-Uniform d v x u w e r =
          let s =
            shared_parent closed faults x.hash u x.unit w x.known e (omega (arith, x.above))
              (omega (arith, x.above)) in
          rw (e, parents_of, x.common)
            (unanimous_one (ballot hash_byte look c cand d) w.parents v s.creator s.hash s.of_right
              (Certificate-parents d v x s.creator s.hash s.of_left))

      -- A later certificate, or one of the same round, has the same value.
      later_agrees :
          (d k : ℕ) (v v' : Bool)
          → Certificate hash_byte look c cand n d v
          → Certificate hash_byte look c cand n k v'
          → d < k
          → v ≡ v'
      later_agrees d k v v' x y l =
          let (j, p, e) = Certificate-parent k v' y in
          let (_, q, known, _, below) =
            BTreeMap.All-get (IsParent n look y.unit.round) j p y.unit.parents
              (closed.closed y.hash y.unit y.known).parents e in
          sym (
            Uniform-up (suc d) k v (Certificate-Uniform d v x) l p q known (omega (arith, y.above)))
          ∙ Certificate-parents k v' y j p e

      -- Two deciding units, of whatever rounds, decide one value.
      pub Certificate-agree :
          (d k : ℕ) (v v' : Bool)
          → Certificate hash_byte look c cand n d v
          → Certificate hash_byte look c cand n k v'
          → v ≡ v'
      Certificate-agree d k v v' x y = elim (dec_lt d k) [
        | yes l ↦ later_agrees d k v v' x y l
        | no l ↦ elim (dec_lt k d) [
          | yes g ↦ sym (later_agrees k d v' v y x g)
          | no g ↦
              sym x.common ∙ ap (λ j. coin hash_byte look c cand (j + 2)) (omega arith) ∙ y.common
        ]
      ]
