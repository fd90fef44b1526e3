-- ===== src/Bft/Engine/Create.antt =====
-- `create_units` of picomint-bft/src/engine.rs keeps the invariant.
use picomint.Prelude.{
  ℕ, zero, suc, ◌+◌, ◌≤◌, ◌<◌, ◌^◌, ◌≡◌, refl, Bool, true, Option, none, some, List, [], ◌∷◌, All,
  length, arith, inl, inr, Option-cases, Bool-cases, >>=-eq-some, ◌>>=◌, ◌&&◌, not, ◌==◌,
  if◌then◌else◌,
}
use mathlib.Core.Path.{subst}
use picomint.Collections.BTreeMap
use picomint.Collections.BTreeMap.{BTreeMap, contains_key, values}
use picomint.Collections.BTreeSet
use picomint.Collections.BTreeSet.{BTreeSet}
use picomint.Nodes.{NumNodes}
use picomint.Bft.Units.{BftUnit, UnitEnvelope, unit, everyone}
use picomint.Bft.Dag.{IsParent}
use picomint.Bft.State.{Engine, Crypto}
use picomint.Bft.Extender.{run_extender}
use picomint.Bft.Extender.Inv.{look}
use picomint.Bft.Engine.{try_extend, parents_for}
use picomint.Bft.Engine.Messages.{accepted, send}
use picomint.Bft.Engine.Handlers.{
  validate_unit, insert_unit, next_own_round, own_envelope, is_empty, has_unordered_own_data,
  try_create_unit, create_units, next_draw, later_draws,
}
use picomint.Bft.Engine.Inv.{Admitted, Inv-IsValid}
use picomint.Bft.Engine.Store.{placed, store_unit-cases, validate_unit-Admitted}
use picomint.Bft.Engine.Parents.{parents_for-Fits}
use picomint.Bft.Engine.Quiet.{Verdict-cases}
use picomint.Bft.Engine.Kept.{Kept, Carried}
use picomint.Bft.Engine.Preserve.{settle-Kept, placed-Kept, quiet-Kept}

-- Of two entries with different creators one is not ours.
other_parent :
    (n : NumNodes) (lk : ℕ → Option BftUnit) (r id : ℕ) (parents : BTreeMap ℕ)
    → BTreeMap.SortedFrom 0 parents
    → 2 ≤ length parents
    → All (IsParent n lk (r + 1)) parents
    → (h : ℕ) × (u : BftUnit) × (lk h ≡ some u) × (u.round ≡ r) × (u.creator ≡ id → ⊥)
other_parent n lk r id [] asc two ps = absurd (omega arith)
other_parent n lk r id (x ∷ []) asc two ps = absurd (omega arith)
other_parent n lk r id ((c, g) ∷ (d, h) ∷ parents) asc two
      ((lc, u, ku, cu, ru), ((ld, w, kw, cw, rr), ps)) =
    elim (Bool-cases (c == id)) [
      | inr apart ↦ (g, u, ku, omega arith, λ e. ground arith)
      | inl own ↦ (h, w, kw, omega arith, λ e. ground arith)
    ]

module _ {D : Type 0} (crypto : Crypto D) (limit top : ℕ) {X : Engine D → Type 0}
    (c : Carried crypto limit top X) where
  -- What `parents_for` gives for our next round, with the round below the top.
  own_parents :
      (e : Engine D) (round : ℕ) (parents : BTreeMap ℕ)
      → Kept crypto top X e
      → 1 < top
      → parents_for e round ≡ some parents
      → BTreeMap.SortedFrom 0 parents × (round < top)
  own_parents e zero parents steady big p =
      let none_yet : parents ≡ [] = unfold parents_for in ground arith in
      (rw none_yet tt, omega arith)
  own_parents e (suc r) parents (inv, tall, _) big p =
      let x = parents_for-Fits crypto e r parents (Inv-IsValid crypto e inv) p in
      let mint = inv.tables.mint in
      let (h, u, known, row, apart) =
        other_parent e.n (look e.extended) r e.id parents x.sorted (omega (arith, x.quorum))
          x.entries in
      (x.sorted, omega (arith, (tall h u (inv.tables.known h u known)).1 apart))

  -- What follows a unit of ours that is admitted.
  own_unit-Kept :
      (e : Engine D) (ev : UnitEnvelope D) (rounds : BTreeSet) (x y : Engine D)
      → Kept crypto top X e
      → top ≤ limit
      → BTreeMap.get (crypto.hash_unit ev.unit) e.unit_table ≡ none
      → Admitted e.n ev.unit
      → ev.unit.creator ≡ e.id
      → ev.unit.round < top
      → try_extend limit
          (record (placed e ev (crypto.hash_unit ev.unit)) { unordered_own_data = rounds })
          (crypto.hash_unit ev.unit)
        ≡ some x
      → run_extender crypto limit limit x ≡ some y
      → Kept crypto top X y
  own_unit-Kept e ev rounds x y steady big absent a own low p q =
      let hash = crypto.hash_unit ev.unit in
      let z : Engine D = record (placed e ev hash) { unordered_own_data = rounds } in
      let (inv, tall, x0) =
        placed-Kept crypto limit 0 top c e ev hash absent a low (λ other. absurd (other own))
          steady in
      let t = inv.tables in
      let k = inv.caches in
      let good : Kept crypto top X z = (
        record {
          tables = record {
            mint = t.mint;
            admitted = t.admitted;
            stored = t.stored;
            indexed = t.indexed;
            ascending = t.ascending;
            known = t.known;
            paid = t.paid;
          };
          caches = record {
            closed = k.closed;
            sound = k.sound;
            decisions = k.decisions;
            cursor = k.cursor;
          };
        },
        tall,
        c.marks (placed e ev hash) rounds x0,
      ) in
      settle-Kept crypto limit 0 top c z x y hash good big p q

  insert_unit-cases :
      (e : Engine D) (ev : UnitEnvelope D) (hash : ℕ)
      → ((insert_unit crypto e ev hash).0 ≡ accepted)
      → (validate_unit crypto e ev ≡ accepted)
        × (BTreeMap.get hash e.unit_table ≡ none)
        × (insert_unit crypto e ev hash ≡ (accepted, placed e ev hash))
  unfolding insert_unit
  insert_unit-cases e ev hash h = elim (Verdict-cases (validate_unit crypto e ev)) [
    | inr (r, bad) ↦ absurd (ground arith)
    | inl good ↦ elim (store_unit-cases e ev hash) [
      | inl twice ↦ absurd (ground arith)
      | inr (absent, stored) ↦ (good, absent, ground arith)
    ]
  ]

  -- The unit that `try_create_unit` installs.
  create_own :
      (e : Engine D) (items : List D) (parents : BTreeMap ℕ) (more : Bool) (e' : Engine D)
      → Kept crypto top X e
      → top ≤ limit
      → top + 4 ≤ 2 ^ 32
      → BTreeMap.SortedFrom 0 parents
      → next_own_round crypto e < top
      → parents_for e (next_own_round crypto e) ≡ some parents
      → try_create_unit crypto limit e items ≡ some (more, e')
      → Kept crypto top X e'
  unfolding try_create_unit
  create_own e items parents more e' steady big small asc low ps p =
      let ev = own_envelope crypto e parents items in
      let hash = crypto.hash_unit ev.unit in
      elim (Bool-cases (is_empty crypto items && not (has_unordered_own_data crypto e))) [
        | inl idle ↦ let same : e ≡ e' = ground arith in subst (Kept crypto top X) same steady
        | inr busy ↦ elim (Verdict-cases (insert_unit crypto e ev hash).0) [
          | inr (r, bad) ↦ absurd (ground arith)
          | inl good ↦
              let (valid, absent, stored) = insert_unit-cases e ev hash good in
              let a = validate_unit-Admitted crypto e ev asc (omega arith) valid in
              let rounds : BTreeSet =
                if is_empty crypto items
                then e.unordered_own_data
                else BTreeSet.insert ev.unit.round e.unordered_own_data in
              let z : Engine D = record (placed e ev hash) { unordered_own_data = rounds } in
              let done : Engine D → Option (Bool × Engine D) =
                λ y. some (true, send y everyone (unit ev)) in
              let go : (try_extend limit z hash >>= λ x. run_extender crypto limit limit x >>= done)
                  ≡ some (more, e') =
                ground (arith, stored) in
              let (x, ex, p') = >>=-eq-some (try_extend limit z hash) _ go in
              let (y, ey, p'') = >>=-eq-some (run_extender crypto limit limit x) _ p' in
              let done_y = own_unit-Kept e ev rounds x y steady big absent a refl low ex ey in
              quiet-Kept crypto limit 0 top c y e' done_y (ground arith)
        ]
      ]

  try_create_unit-Kept :
      (e : Engine D) (items : List D) (more : Bool) (e' : Engine D)
      → Kept crypto top X e
      → 1 < top
      → top ≤ limit
      → top + 4 ≤ 2 ^ 32
      → try_create_unit crypto limit e items ≡ some (more, e')
      → Kept crypto top X e'
  try_create_unit-Kept e items more e' steady two big small p =
      elim (Option-cases (parents_for e (next_own_round crypto e))) [
        | inl early ↦
            let same : e ≡ e' = unfold try_create_unit in ground arith in
            subst (Kept crypto top X) same steady
        | inr (parents, ps) ↦
            let (asc, low) = own_parents e (next_own_round crypto e) parents steady two ps in
            create_own e items parents more e' steady big small asc low ps p
      ]

  pub create_units-Kept :
      (fuel : ℕ) (e : Engine D) (draws : List (List D)) (e' : Engine D)
      → Kept crypto top X e
      → 1 < top
      → top ≤ limit
      → top + 4 ≤ 2 ^ 32
      → create_units crypto limit fuel e draws ≡ some e'
      → Kept crypto top X e'
  unfolding create_units
  create_units-Kept zero e draws e' steady two big small p = absurd (ground arith)
  create_units-Kept (suc fuel) e draws e' steady two big small p =
      let ((more, x), ex, p') =
        >>=-eq-some (try_create_unit crypto limit e (next_draw crypto draws)) _ p in
      let steady' =
        try_create_unit-Kept e (next_draw crypto draws) more x steady two big small ex in
      elim (Bool-cases more) [
        | inl on ↦
            create_units-Kept fuel x (later_draws crypto draws) e' steady' two big small
              (ground arith)
        | inr off ↦ let same : x ≡ e' = ground arith in subst (Kept crypto top X) same steady'
      ]
