-- ===== src/Bft/Engine/Refusals.antt =====
-- What a unit that is refused, or that is already held, leaves behind in picomint-bft/src/engine.rs.
use picomint.Prelude.{
  ℕ, ◌≡◌, true, Option, some, arith, inl, inr, Bool-cases, >>=-eq-some, ◌>>=◌, sym, ap, ◌∙◌, refl,
  some_unique,
}
use picomint.Collections.BTreeSet
use picomint.Bft.Units.{UnitEnvelope}
use picomint.Bft.State.{Engine, Crypto, round_units}
use picomint.Bft.Extender.{run_extender}
use picomint.Bft.Engine.{try_extend}
use picomint.Bft.Engine.Messages.{
  store_unit, roll_back, Rejection, Verdict, accepted, rejected, cascade_parents,
}
use picomint.Bft.Engine.Handlers.{validate_unit, admit_unit, handle_unit}
use picomint.Bft.Engine.Store.{roll_back-store_unit}
use picomint.Bft.Engine.Quiet.{quiet, cascade_parents-quiet, Verdict-cases}

module _ {D : Type 0} (crypto : Crypto D) (limit now : ℕ) where
  admit_unit-rejected :
      (x : Engine D) (ev : UnitEnvelope D) (r : Rejection) (e' : Engine D)
      → admit_unit crypto limit x ev ≡ some (rejected r, e')
      → x ≡ e'
  unfolding admit_unit
  admit_unit-rejected x ev r e' p =
      let hash = crypto.hash_unit ev.unit in
      elim (Bool-cases (BTreeSet.contains hash (round_units ev.unit.round x.rounds))) [
        | inl seen ↦ absurd (ground arith)
        | inr fresh ↦ elim (Verdict-cases (store_unit x ev hash).0) [
          | inr (r', twice) ↦
              let back = roll_back-store_unit x ev hash r' twice in
              let answer : some (rejected r', roll_back x (store_unit x ev hash).1)
                  ≡ some (rejected r, e') =
                ground arith in
              sym back ∙ ap (λ (z : Verdict × Engine D). z.1) (some_unique _ _ refl answer)
          | inl stored ↦
              let done : Engine D → Option (Verdict × Engine D) = λ y. some (accepted, y) in
              let go : (try_extend limit (store_unit x ev hash).1 hash >>= λ z.
              run_extender crypto limit limit z >>= done)
                  ≡ some (rejected r, e') =
                ground arith in
              let (z, _, q) = >>=-eq-some (try_extend limit (store_unit x ev hash).1 hash) _ go in
              let (y, _, q') = >>=-eq-some (run_extender crypto limit limit z) done q in
              absurd (ground arith)
        ]
      ]

  admit_unit-duplicate :
      (x : Engine D) (ev : UnitEnvelope D) (v : Verdict) (e' : Engine D)
      → BTreeSet.contains (crypto.hash_unit ev.unit) (round_units ev.unit.round x.rounds) ≡ true
      → admit_unit crypto limit x ev ≡ some (v, e')
      → (v ≡ accepted) × (x ≡ e')
  unfolding admit_unit
  admit_unit-duplicate x ev v e' held p = ground arith

  -- A unit that is refused, by `validate_unit` or by `store_unit`, leaves everything but the record of what
  -- was asked for and sent as it was, though only the tables are rolled back: no table, no index, no cache
  -- and no item of the log changes.
  pub handle_unit-rejected :
      (e : Engine D) (sender : ℕ) (ev : UnitEnvelope D) (r : Rejection) (e' : Engine D)
      → handle_unit crypto limit now e sender ev ≡ some (rejected r, e')
      → e' ≡ quiet e e'
  unfolding handle_unit
  handle_unit-rejected e sender ev r e' p = elim (Verdict-cases (validate_unit crypto e ev)) [
    | inr (r', bad) ↦ ground arith
    | inl good ↦
        let go : (cascade_parents limit now e sender ev.unit >>= λ x. admit_unit crypto limit x ev)
            ≡ some (rejected r, e') =
          ground arith in
        let (x, walked, p') = >>=-eq-some (cascade_parents limit now e sender ev.unit) _ go in
        let same = cascade_parents-quiet limit now e sender ev.unit x walked in
        rw (← (admit_unit-rejected x ev r e' p')) same
  ]

  -- A unit that the index holds is taken without an error, and leaves everything but the record of what
  -- was asked for and sent as it was.
  pub handle_unit-duplicate :
      (e : Engine D) (sender : ℕ) (ev : UnitEnvelope D) (e' : Engine D) (v : Verdict)
      → validate_unit crypto e ev ≡ accepted
      → BTreeSet.contains (crypto.hash_unit ev.unit) (round_units ev.unit.round e.rounds) ≡ true
      → handle_unit crypto limit now e sender ev ≡ some (v, e')
      → (v ≡ accepted) × (e' ≡ quiet e e')
  unfolding handle_unit
  handle_unit-duplicate e sender ev e' v good held p =
      let go : (cascade_parents limit now e sender ev.unit >>= λ x. admit_unit crypto limit x ev)
          ≡ some (v, e') =
        ground arith in
      let (x, walked, p') = >>=-eq-some (cascade_parents limit now e sender ev.unit) _ go in
      let same = cascade_parents-quiet limit now e sender ev.unit x walked in
      let held' : BTreeSet.contains (crypto.hash_unit ev.unit) (round_units ev.unit.round x.rounds)
          ≡ true =
        rw same held in
      let (taken, last) = admit_unit-duplicate x ev v e' held' p' in (taken, rw (← last) same)
