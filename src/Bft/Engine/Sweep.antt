-- ===== src/Bft/Engine/Sweep.antt =====
-- `try_extend` of picomint-bft/src/engine.rs keeps the invariant and only adds to `extended`.
use picomint.Prelude.{
  ℕ, zero, suc, ◌≡◌, some, List, [], ◌∷◌, arith, inl, inr, Option-cases, Bool-cases,
}
use mathlib.Core.Path.{subst}
use picomint.Bft.State.{Engine, Crypto, round_units}
use picomint.Bft.Engine.{maybe_extend, sweep, extend_rounds, try_extend, saturating_suc}
use picomint.Bft.Engine.Inv.{Inv}
use picomint.Bft.Engine.Extend.{
  Grows, Grows-refl, Grows-trans, maybe_extend-cases, Inserts-Grows, Inserts-Inv,
}

module _ {D : Type 0} where
  maybe_extend-Inv :
      (crypto : Crypto D) (e : Engine D) (hash : ℕ)
      → Inv crypto e
      → Inv crypto (maybe_extend e hash).1
  maybe_extend-Inv crypto e hash inv = elim (maybe_extend-cases e hash) [
    | inl same ↦ rw same inv
    | inr x ↦ Inserts-Inv crypto e hash (maybe_extend e hash).1 x inv
  ]

  maybe_extend-Grows : (e : Engine D) (hash : ℕ) → Grows e (maybe_extend e hash).1
  maybe_extend-Grows e hash = elim (maybe_extend-cases e hash) [
    | inl same ↦ rw same (Grows-refl e)
    | inr x ↦ Inserts-Grows e hash (maybe_extend e hash).1 x
  ]

  pub sweep-Inv :
      (crypto : Crypto D) (hashes : List ℕ) (e : Engine D)
      → Inv crypto e
      → Inv crypto (sweep hashes e).1 × Grows e (sweep hashes e).1
  unfolding sweep
  sweep-Inv crypto [] e inv = (inv, Grows-refl e)
  sweep-Inv crypto (h ∷ hashes) e inv =
      let e' = (maybe_extend e h).1 in
      let (inv', grows) = sweep-Inv crypto hashes e' (maybe_extend-Inv crypto e h inv) in
      (inv', Grows-trans e e' (sweep hashes e').1 (maybe_extend-Grows e h) grows)

  pub extend_rounds-Inv :
      (crypto : Crypto D) (fuel : ℕ) (e : Engine D) (round : ℕ) (e' : Engine D)
      → extend_rounds fuel e round ≡ some e'
      → Inv crypto e
      → Inv crypto e' × Grows e e'
  unfolding extend_rounds
  extend_rounds-Inv crypto zero e round e' p inv = absurd (ground arith)
  extend_rounds-Inv crypto (suc fuel) e round e' p inv =
      let s = sweep (round_units round e.rounds) e in
      let (inv', grows) = sweep-Inv crypto (round_units round e.rounds) e inv in
      elim (Bool-cases s.0) [
        | inl more ↦
            let (inv'', grows') =
              extend_rounds-Inv crypto fuel s.1 (saturating_suc round) e' (ground arith) inv' in
            (inv'', Grows-trans e s.1 e' grows grows')
        | inr last ↦
            let same : s.1 ≡ e' = ground arith in
            subst (λ (z : Engine D). Inv crypto z × Grows e z) same (inv', grows)
      ]

  pub try_extend-Inv :
      (crypto : Crypto D) (limit : ℕ) (e : Engine D) (hash : ℕ) (e' : Engine D)
      → try_extend limit e hash ≡ some e'
      → Inv crypto e
      → Inv crypto e' × Grows e e'
  unfolding try_extend
  try_extend-Inv crypto limit e hash e' p inv =
      let r = maybe_extend e hash in
      let inv1 = maybe_extend-Inv crypto e hash inv in
      elim (Option-cases r.0) [
        | inl stuck ↦
            let same : r.1 ≡ e' = ground arith in
            subst (λ (z : Engine D). Inv crypto z × Grows e z) same
              (inv1, maybe_extend-Grows e hash)
        | inr (round, fed) ↦
            let (inv2, grows) =
              extend_rounds-Inv crypto limit r.1 (saturating_suc round) e' (ground arith) inv1 in
            (inv2, Grows-trans e r.1 e' (maybe_extend-Grows e hash) grows)
      ]
