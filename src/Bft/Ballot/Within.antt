-- ===== src/Bft/Ballot/Within.antt =====
-- A node that holds part of a graph, closed under parents, sees the votes of the whole graph.
use picomint.Prelude.{
  ℕ, zero, suc, ◌+◌, ◌≡◌, refl, Bool, Option, some, [], ◌∷◌, map, count, iff, All, arith,
}
use picomint.Collections.BTreeMap.{BTreeMap, values}
use picomint.Nodes.{NumNodes}
use picomint.Bft.Units.{BftUnit}
use picomint.Bft.Dag.{IsParent, IsClosed, Within}
use picomint.Bft.Ballot.{parents_of, ballot, Certificate}

map_same :
    (f g : ℕ → Bool) (m : BTreeMap ℕ)
    → All (λ e. f e.1 ≡ g e.1) m
    → map f (values m) ≡ map g (values m)
map_same f g [] h = refl
map_same f g (e ∷ m) h = rw (h.0, map_same f g m h.1)

count_same :
    (f g : ℕ → Bool) (v : Bool) (m : BTreeMap ℕ)
    → All (λ e. f e.1 ≡ g e.1) m
    → count (λ p. iff (f p) v) (values m) ≡ count (λ p. iff (g p) v) (values m)
count_same f g v [] h = refl
count_same f g v (e ∷ m) h = ground (arith, count_same f g v m h.1)

module _ {n : NumNodes} {part whole : ℕ → Option BftUnit} (closed : IsClosed n part)
    (within : Within part whole) (hash_byte : ℕ → ℕ → ℕ) (c : ℕ) (cand : BftUnit) where
  abbrev Same : ℕ → ℕ → Type 0
  Same d u = ballot hash_byte part c cand d u ≡ ballot hash_byte whole c cand d u

  abbrev SameAt : ℕ → Type 0
  SameAt d = (u : ℕ) (x : BftUnit) → part u ≡ some x → x.round ≡ cand.round + 1 + d → Same d u

  All-Same :
      (d r : ℕ) (m : BTreeMap ℕ)
      → SameAt d
      → r ≡ cand.round + 2 + d
      → All (IsParent n part r) m
      → All (λ e. Same d e.1) m
  All-Same d r [] h er ps = tt
  All-Same d r (e ∷ m) h er ps =
      let (_, q, known, _, below) = ps.0 in (h e.1 q known (omega arith), All-Same d r m h er ps.1)

  pub ballot-Within : (d : ℕ) → SameAt d
  unfolding ballot
  ballot-Within zero u x eu er = rw (eu, within u x eu)
  ballot-Within (suc d) u x eu er =
      let wf = closed.closed u x eu in
      rw (eu, within u x eu, parents_of)
        (rw
          (map_same (ballot hash_byte part c cand d) (ballot hash_byte whole c cand d) x.parents
            (All-Same d x.round x.parents (ballot-Within d) (omega arith) wf.parents))
          refl)

  -- A certificate in the part is one in the whole.
  pub Certificate-Within :
      {d : ℕ} {v : Bool}
      → Certificate hash_byte part c cand n d v
      → Certificate hash_byte whole c cand n d v
  Certificate-Within {d} {v} x =
      let wf = closed.closed x.hash x.unit x.known in
      record {
        hash = x.hash;
        unit = x.unit;
        known = within x.hash x.unit x.known;
        above = x.above;
        common = x.common;
        enough = omega (
          arith,
          x.enough,
          count_same (ballot hash_byte part c cand d) (ballot hash_byte whole c cand d) v
              x.unit.parents
              (All-Same d x.unit.round x.unit.parents (ballot-Within d) (omega (arith, x.above))
                wf.parents),
        );
      }
