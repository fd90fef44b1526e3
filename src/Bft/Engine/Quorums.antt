-- ===== src/Bft/Engine/Quorums.antt =====
-- What two units that `validate_unit` of picomint-bft/src/engine.rs accepts have in common.
use picomint.Prelude.{ℕ, ◌≤◌, ◌<◌, ◌≡◌, Bool, true, not, arith}
use picomint.Collections.BTreeMap
use picomint.Collections.BTreeMap.{contains_key}
use picomint.Nodes.{total, max_evil, threshold, tally, tally-Sorted, quorums_meet}
use picomint.Bft.Units.{UnitEnvelope}
use picomint.Bft.State.{Engine, Crypto}
use picomint.Bft.Engine.Messages.{accepted}
use picomint.Bft.Engine.Handlers.{validate_unit}
use picomint.Bft.Engine.Store.{in_mint-All}

module _ {D : Type 0} (crypto : Crypto D) (e : Engine D) where
  accepted-tally :
      (ev : UnitEnvelope D)
      → BTreeMap.SortedFrom 0 ev.unit.parents
      → 0 < ev.unit.round
      → validate_unit crypto e ev ≡ accepted
      → threshold e.n ≤ tally (total e.n) (λ i. contains_key i ev.unit.parents)
  unfolding validate_unit
  accepted-tally ev asc later h =
      let members = in_mint-All e.n ev.unit.parents (ground arith) in
      let full = tally-Sorted (total e.n) 0 ev.unit.parents asc members in ground (arith, full)

  -- At most `f` of the nodes are not honest. Any two units above round 0 that `validate_unit` accepts, with
  -- parents in a map that ascends, of whatever rounds and creators, both name a parent of one honest node.
  pub validate_unit-overlap :
      (honest : ℕ → Bool) (u w : UnitEnvelope D)
      → tally (total e.n) (λ i. not (honest i)) ≤ max_evil e.n
      → BTreeMap.SortedFrom 0 u.unit.parents
      → BTreeMap.SortedFrom 0 w.unit.parents
      → 0 < u.unit.round
      → 0 < w.unit.round
      → validate_unit crypto e u ≡ accepted
      → validate_unit crypto e w ≡ accepted
      → (i : ℕ) × (honest i ≡ true)
        × (contains_key i u.unit.parents ≡ true)
        × (contains_key i w.unit.parents ≡ true)
  validate_unit-overlap honest u w few asc_u asc_w later_u later_w h k =
      let (i, in_u, in_w, good) =
        quorums_meet e.n.evil (λ i. contains_key i u.unit.parents)
          (λ i. contains_key i w.unit.parents) honest (accepted-tally u asc_u later_u h)
          (accepted-tally w asc_w later_w k) few in
      (i, good, in_u, in_w)
