-- ===== src/Bft/Engine/Preserve.antt =====
-- `handle_unit` of picomint-bft/src/engine.rs keeps the invariant.
use picomint.Prelude.{
  ℕ, ◌+◌, ◌≤◌, ◌<◌, ◌^◌, ◌≡◌, Option, none, some, arith, inl, inr, Bool-cases, >>=-eq-some, ◌>>=◌,
  ◌==◌, sym, ap, ◌∙◌, refl, some_unique,
}
use mathlib.Core.Path.{subst}
use picomint.Collections.BTreeMap
use picomint.Collections.BTreeMap.{BTreeMap, contains_key, values}
use picomint.Collections.BTreeSet
use picomint.Collections.BTreeSet.{BTreeSet}
use picomint.Bft.Units.{BftUnit, UnitEnvelope}
use picomint.Bft.State.{Engine, Crypto, round_units}
use picomint.Bft.Extender.{run_extender}
use picomint.Bft.Engine.{try_extend}
use picomint.Bft.Engine.Messages.{
  Verdict, accepted, rejected, already_stored, store_unit, roll_back, cascade_parents,
}
use picomint.Bft.Engine.Handlers.{validate_unit, admit_unit, handle_unit}
use picomint.Bft.Engine.Inv.{Admitted, Tall}
use picomint.Bft.Engine.Sweep.{try_extend-Inv}
use picomint.Bft.Engine.Advance.{run_extender-Inv}
use picomint.Bft.Engine.Store.{
  roll_back-store_unit, placed, store_unit-cases, placed-Inv, validate_unit-Admitted,
}
use picomint.Bft.Engine.Quiet.{quiet, quiet-Inv, Verdict-cases, cascade_parents-quiet}
use picomint.Bft.Engine.Kept.{Kept, Carried}

module _ {D : Type 0} (crypto : Crypto D) (limit now top : ℕ) {X : Engine D → Type 0}
    (c : Carried crypto limit top X) where
  pub quiet-Kept : (e e' : Engine D) → Kept crypto top X e → e' ≡ quiet e e' → Kept crypto top X e'
  quiet-Kept e e' (inv, tall, x) same =
      let (inv', tall') = quiet-Inv crypto top e e' inv tall same in
      (inv', tall', c.quiets e e' same x)

  -- The extension and the ordering that follow a stored unit.
  pub settle-Kept :
      (e x y : Engine D) (hash : ℕ)
      → Kept crypto top X e
      → top ≤ limit
      → try_extend limit e hash ≡ some x
      → run_extender crypto limit limit x ≡ some y
      → Kept crypto top X y
  settle-Kept e x y hash (inv, tall, xe) big p q =
      let (inv', grows) = try_extend-Inv crypto limit e hash x p inv in
      let tall' : Tall x top = rw grows.rest tall in
      let (inv'', same) = run_extender-Inv crypto limit limit top x y inv' tall' big q in
      (inv'', rw same tall', c.orders limit x y inv' tall' q (c.grows e x grows xe))

  pub placed-Kept :
      (e : Engine D) (ev : UnitEnvelope D) (hash : ℕ)
      → BTreeMap.get hash e.unit_table ≡ none
      → Admitted e.n ev.unit
      → ev.unit.round < top
      → ((ev.unit.creator ≡ e.id → ⊥) → ev.unit.round + 1 < top)
      → Kept crypto top X e
      → Kept crypto top X (placed e ev hash)
  placed-Kept e ev hash absent a low other (inv, tall, xe) = (
    placed-Inv crypto e ev hash absent a inv,
    λ h u k. elim (Bool-cases (hash == h)) [
      | inl same ↦
          let same_unit : ev.unit ≡ u =
            ground (arith, BTreeMap.get-insert hash h ev.unit e.unit_table) in
          subst (λ (w : BftUnit). (w.round < top) × ((w.creator ≡ e.id → ⊥) → w.round + 1 < top))
            same_unit (low, other)
      | inr apart ↦ tall h u (ground (arith, BTreeMap.get-insert hash h ev.unit e.unit_table))
    ],
    c.stores e ev hash absent inv.tables xe,
  )

  -- What `handle_unit` does with a unit that is valid, once its ancestors are asked for.
  admit_unit-Kept :
      (e : Engine D) (ev : UnitEnvelope D) (v : Verdict) (e' : Engine D)
      → Kept crypto top X e
      → top ≤ limit
      → Admitted e.n ev.unit
      → ev.unit.round + 1 < top
      → admit_unit crypto limit e ev ≡ some (v, e')
      → Kept crypto top X e'
  unfolding admit_unit
  admit_unit-Kept e ev v e' steady big a low p =
      let hash = crypto.hash_unit ev.unit in
      elim (Bool-cases (BTreeSet.contains hash (round_units ev.unit.round e.rounds))) [
        | inl seen ↦ let same : e ≡ e' = ground arith in subst (Kept crypto top X) same steady
        | inr fresh ↦ elim (store_unit-cases e ev hash) [
          | inl twice ↦
              let back = roll_back-store_unit e ev hash already_stored twice in
              let answer : some (rejected already_stored, roll_back e (store_unit e ev hash).1)
                  ≡ some (v, e') =
                ground arith in
              let same : e ≡ e' =
                sym back ∙ ap (λ (z : Verdict × Engine D). z.1) (some_unique _ _ refl answer) in
              subst (Kept crypto top X) same steady
          | inr (absent, stored) ↦
              let done : Engine D → Option (Verdict × Engine D) = λ y. some (accepted, y) in
              let go : (try_extend limit (placed e ev hash) hash >>= λ x.
              run_extender crypto limit limit x >>= done)
                  ≡ some (v, e') =
                ground (arith, stored) in
              let (x, ex, p') = >>=-eq-some (try_extend limit (placed e ev hash) hash) _ go in
              let (y, ey, p'') = >>=-eq-some (run_extender crypto limit limit x) _ p' in
              let same : y ≡ e' = ground arith in
              subst (Kept crypto top X) same (
                settle-Kept (placed e ev hash) x y hash
                  (placed-Kept e ev hash absent a (omega arith) (λ _. low) steady) big ex ey)
        ]
      ]

  -- Whatever a peer sends, what the handler leaves behind is in order.
  pub handle_unit-Kept :
      (e : Engine D) (sender : ℕ) (ev : UnitEnvelope D) (v : Verdict) (e' : Engine D)
      → Kept crypto top X e
      → top ≤ limit
      → top + 4 ≤ 2 ^ 32
      → BTreeMap.SortedFrom 0 ev.unit.parents
      → ev.unit.round + 1 < top
      → handle_unit crypto limit now e sender ev ≡ some (v, e')
      → Kept crypto top X e'
  unfolding handle_unit
  handle_unit-Kept e sender ev v e' steady big small asc low p =
      elim (Verdict-cases (validate_unit crypto e ev)) [
        | inr (r, bad) ↦ let same : e ≡ e' = ground arith in subst (Kept crypto top X) same steady
        | inl good ↦
            let a = validate_unit-Admitted crypto e ev asc (omega arith) good in
            let go : (cascade_parents limit now e sender ev.unit >>= λ x.
            admit_unit crypto limit x ev)
                ≡ some (v, e') =
              ground arith in
            let (x, walked, p') = >>=-eq-some (cascade_parents limit now e sender ev.unit) _ go in
            let same = cascade_parents-quiet limit now e sender ev.unit x walked in
            let steady' = quiet-Kept e x steady same in
            admit_unit-Kept x ev v e' steady' big (rw same a) low p'
      ]
