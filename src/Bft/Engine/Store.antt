-- ===== src/Bft/Engine/Store.antt =====
-- `insert_unit` of picomint-bft/src/engine.rs keeps the tables and the row index in step.
use picomint.Prelude.{
  ℕ, ◌+◌, ◌<◌, ◌^◌, ◌≡◌, refl, true, none, [], ◌∷◌, All, all, arith, ◌⊎◌, inl, inr, Option-cases,
  Bool-cases, length, ◌==◌, ◌&&◌, if◌then◌else◌,
}
use mathlib.Core.Path.{subst}
use picomint.Collections.BTreeMap
use picomint.Collections.BTreeMap.{BTreeMap, contains_key, keys}
use picomint.Collections.BTreeSet
use picomint.Collections.BTreeSet.{BTreeSet}
use picomint.Nodes.{NumNodes, total, in_mint}
use picomint.Bft.Units.{UnitEnvelope}
use picomint.Bft.State.{Engine, Crypto, round_units}
use picomint.Bft.Engine.Inv.{Admitted, Tables, Inv}
use picomint.Bft.Engine.Handlers.{validate_unit}
use picomint.Bft.Engine.Messages.{
  Rejection, accepted, rejected, already_stored, store_unit, roll_back,
}

-- What the row index of round `r` holds after `hash` has gone into the row of `round`.
round_units-insert :
    (round r hash : ℕ) (rounds : BTreeMap BTreeSet)
    → round_units r (BTreeMap.insert round (BTreeSet.insert hash (round_units round rounds)) rounds)
      ≡ (if round == r then BTreeSet.insert hash (round_units r rounds) else round_units r rounds)
round_units-insert round r hash rounds = elim (Bool-cases (round == r)) [
  | inl same ↦
      let e : round ≡ r = ground arith in
      ground (
        arith,
        BTreeMap.get-insert round r (BTreeSet.insert hash (round_units round rounds)) rounds,
      )
  | inr other ↦
      ground (
        arith,
        BTreeMap.get-insert round r (BTreeSet.insert hash (round_units round rounds)) rounds,
      )
]

pub row-contains :
    (round r hash h : ℕ) (rounds : BTreeMap BTreeSet)
    → BTreeSet.contains h (
        round_units r
          (BTreeMap.insert round (BTreeSet.insert hash (round_units round rounds)) rounds))
      ≡ (if round == r && hash == h then true else BTreeSet.contains h (round_units r rounds))
row-contains round r hash h rounds =
    rw (round_units-insert round r hash rounds) (elim (Bool-cases (round == r)) [
      | inl same ↦ rw same (BTreeSet.contains-insert hash h (round_units r rounds))
      | inr other ↦ rw other refl
    ])

pub row-SortedFrom :
    (round r hash : ℕ) (rounds : BTreeMap BTreeSet)
    → BTreeSet.SortedFrom 0 (round_units r rounds)
    → BTreeSet.SortedFrom 0 (
        round_units r
          (BTreeMap.insert round (BTreeSet.insert hash (round_units round rounds)) rounds))
row-SortedFrom round r hash rounds asc =
    rw (round_units-insert round r hash rounds) (elim (Bool-cases (round == r)) [
      | inl same ↦
          rw same (BTreeSet.insert-SortedFrom 0 hash (round_units r rounds) (omega arith) asc)
      | inr other ↦ rw other asc
    ])

length-zero : (m : BTreeMap ℕ) → length m ≡ 0 → m ≡ []
length-zero [] e = refl
length-zero (x ∷ m) e = absurd (omega arith)

pub in_mint-All :
    (n : NumNodes) (m : BTreeMap ℕ)
    → all (in_mint n) (keys m) ≡ true
    → All (λ (e : ℕ × ℕ). e.0 < total n) m
in_mint-All n [] h = tt
in_mint-All n (e ∷ m) h = (ground arith, in_mint-All n m (ground arith))

module _ {D : Type 0} where
  -- The state after `store_unit` has accepted.
  abbrev pub placed : Engine D → UnitEnvelope D → ℕ → Engine D
  placed e ev hash =
      let u = ev.unit in
      record e {
        unit_table = BTreeMap.insert hash u e.unit_table;
        unit_data_table = BTreeMap.insert hash ev.items e.unit_data_table;
        unit_signature_table = BTreeMap.insert hash ev.signature e.unit_signature_table;
        rounds =
            BTreeMap.insert u.round (BTreeSet.insert hash (round_units u.round e.rounds)) e.rounds;
        own_top = (store_unit e ev hash).1.own_top;
      }

  -- A unit that `store_unit` rejects has changed nothing in memory, so that dropping the transaction undoes
  -- all that it did.
  pub roll_back-store_unit :
      (e : Engine D) (ev : UnitEnvelope D) (hash : ℕ) (r : Rejection)
      → (store_unit e ev hash).0 ≡ rejected r
      → roll_back e (store_unit e ev hash).1 ≡ e
  unfolding store_unit
  roll_back-store_unit e ev hash r h = elim (Option-cases (BTreeMap.get hash e.unit_table)) [
    | inl absent ↦ absurd (ground arith)
    | inr (u, k) ↦ rw (k, contains_key) refl
  ]

  pub store_unit-cases :
      (e : Engine D) (ev : UnitEnvelope D) (hash : ℕ)
      → ((store_unit e ev hash).0 ≡ rejected already_stored)
        ⊎ ((BTreeMap.get hash e.unit_table ≡ none)
            × (store_unit e ev hash ≡ (accepted, placed e ev hash)))
  unfolding store_unit
  store_unit-cases e ev hash = elim (Option-cases (BTreeMap.get hash e.unit_table)) [
    | inl absent ↦ inr (absent, ground arith)
    | inr (u, k) ↦ inl (ground arith)
  ]

  placed-Tables :
      (e : Engine D) (ev : UnitEnvelope D) (hash : ℕ)
      → BTreeMap.get hash e.unit_table ≡ none
      → Admitted e.n ev.unit
      → Tables e
      → Tables (placed e ev hash)
  placed-Tables e ev hash absent a t =
      let u = ev.unit in
      let row = round_units-insert u.round in
      record {
        paid = λ h items k. elim (Bool-cases (hash == h)) [
          | inl same ↦ (u, ground (arith, BTreeMap.get-insert hash h u e.unit_table))
          | inr apart ↦
              let (w, stored) =
                t.paid h items
                  (ground (arith, BTreeMap.get-insert hash h ev.items e.unit_data_table)) in
              (w, ground (arith, BTreeMap.get-insert hash h u e.unit_table))
        ];
        mint = t.mint;
        admitted = λ h w k. elim (Bool-cases (hash == h)) [
          | inl same ↦
              subst (Admitted e.n) (ground (arith, BTreeMap.get-insert hash h u e.unit_table)) a
          | inr other ↦ t.admitted h w (ground (arith, BTreeMap.get-insert hash h u e.unit_table))
        ];
        stored = λ r h k. elim (Bool-cases (u.round == r && hash == h)) [
          | inl same ↦ (u, ground (arith, BTreeMap.get-insert hash h u e.unit_table), ground arith)
          | inr other ↦
              let (w, k', row) =
                t.stored r h (ground (arith, row-contains u.round r hash h e.rounds)) in
              (w, ground (arith, BTreeMap.get-insert hash h u e.unit_table), row)
        ];
        indexed = λ h w k. ground (
          arith,
          BTreeMap.get-insert hash h u e.unit_table,
          row-contains u.round w.round hash h e.rounds,
          t.indexed h w,
        );
        ascending = λ r. row-SortedFrom u.round r hash e.rounds (t.ascending r);
        known = λ h w k. ground (arith, BTreeMap.get-insert hash h u e.unit_table, t.known h w k);
      }

  pub placed-Inv :
      (crypto : Crypto D) (e : Engine D) (ev : UnitEnvelope D) (hash : ℕ)
      → BTreeMap.get hash e.unit_table ≡ none
      → Admitted e.n ev.unit
      → Inv crypto e
      → Inv crypto (placed e ev hash)
  placed-Inv crypto e ev hash absent a inv =
      let c = inv.caches in
      record {
        tables = placed-Tables e ev hash absent a inv.tables;
        caches = record {
          closed = c.closed;
          sound = c.sound;
          decisions = c.decisions;
          cursor = c.cursor;
        };
      }

  -- A unit that passes `validate_unit` is one that the tables may hold.
  pub validate_unit-Admitted :
      (crypto : Crypto D) (e : Engine D) (ev : UnitEnvelope D)
      → BTreeMap.SortedFrom 0 ev.unit.parents
      → ev.unit.round + 4 < 2 ^ 32
      → validate_unit crypto e ev ≡ accepted
      → Admitted e.n ev.unit
  unfolding validate_unit
  validate_unit-Admitted crypto e ev asc low h = record {
    member = ground arith;
    low = low;
    sorted = asc;
    root = λ first. length-zero ev.unit.parents (ground arith);
    quorum = λ later. ground arith;
    members = elim (Bool-cases (ev.unit.round == 0)) [
      | inl first ↦ rw (length-zero ev.unit.parents (ground arith)) tt
      | inr later ↦ in_mint-All e.n ev.unit.parents (ground arith)
    ];
  }
