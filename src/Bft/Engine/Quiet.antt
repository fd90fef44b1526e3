-- ===== src/Bft/Engine/Quiet.antt =====
-- What the messages and requests of picomint-bft/src/engine.rs leave alone.
use picomint.Prelude.{
  ℕ, zero, suc, ◌≡◌, refl, some, List, [], ◌∷◌, arith, sym, ◌∙◌, ap, ◌⊎◌, inl, inr, Option-cases,
  Bool-cases, ◌||◌,
}
use mathlib.Core.Path.{subst}
use mathlib.Core.List.{reverse}
use picomint.Collections.BTreeMap
use picomint.Collections.BTreeMap.{BTreeMap, contains_key, values}
use picomint.Collections.BTreeSet
use picomint.Collections.BTreeSet.{BTreeSet}
use picomint.Bft.Units.{BftUnit}
use picomint.Bft.State.{Engine, Crypto}
use picomint.Bft.Engine.Messages.{
  Rejection, Verdict, accepted, rejected, try_send_request, cascade_loop, cascade_parents,
}
use picomint.Bft.Engine.Inv.{Tall, Inv}

pub Verdict-cases : (v : Verdict) → (v ≡ accepted) ⊎ ((r : Rejection) × (v ≡ rejected r))
Verdict-cases accepted = inl refl
Verdict-cases (rejected r) = inr (r, refl)

module _ {D : Type 0} where
  -- Only what has been asked for and sent changes.
  abbrev pub quiet : Engine D → Engine D → Engine D
  quiet e e' = record e { request_sent_at = e'.request_sent_at; sent = e'.sent }

  try_send_request-quiet :
      (now : ℕ) (e : Engine D) (peer hash : ℕ)
      → try_send_request now e peer hash ≡ quiet e (try_send_request now e peer hash)
  unfolding try_send_request
  try_send_request-quiet now e peer hash = ground arith

  cascade_loop-quiet :
      (fuel now : ℕ) (e : Engine D) (sender : ℕ) (visited : BTreeSet) (stack : List ℕ)
      (e' : Engine D)
      → cascade_loop fuel now e sender visited stack ≡ some e'
      → e' ≡ quiet e e'
  unfolding cascade_loop
  cascade_loop-quiet zero now e sender visited [] e' p = ground arith
  cascade_loop-quiet (suc fuel) now e sender visited [] e' p = ground arith
  cascade_loop-quiet zero now e sender visited (h ∷ stack) e' p = absurd (ground arith)
  cascade_loop-quiet (suc fuel) now e sender visited (h ∷ stack) e' p =
      elim (Bool-cases (BTreeSet.contains h visited || contains_key h e.extended)) [
        | inl skip ↦
            cascade_loop-quiet fuel now e sender (BTreeSet.insert h visited) stack e' (ground arith)
        | inr walk ↦ elim (Option-cases (BTreeMap.get h e.unit_table)) [
          | inl missing ↦
              let x = try_send_request now e sender h in
              cascade_loop-quiet fuel now x sender (BTreeSet.insert h visited) stack e'
                (ground arith)
              ∙ ap (λ z. quiet z e') (try_send_request-quiet now e sender h)
          | inr (u, there) ↦
              cascade_loop-quiet fuel now e sender (BTreeSet.insert h visited) _ e'
                (rw (walk, there) at p)
        ]
      ]

  pub cascade_parents-quiet :
      (limit now : ℕ) (e : Engine D) (sender : ℕ) (unit : BftUnit) (e' : Engine D)
      → cascade_parents limit now e sender unit ≡ some e'
      → e' ≡ quiet e e'
  unfolding cascade_parents
  cascade_parents-quiet limit now e sender unit e' p =
      cascade_loop-quiet limit now e sender [] (reverse (values unit.parents)) e' p

  pub quiet-Inv :
      (crypto : Crypto D) (top : ℕ) (e e' : Engine D)
      → Inv crypto e
      → Tall e top
      → e' ≡ quiet e e'
      → Inv crypto e' × Tall e' top
  quiet-Inv crypto top e e' inv tall same =
      let t = inv.tables in
      let c = inv.caches in
      subst (λ (z : Engine D). Inv crypto z × Tall z top) (sym same)
        (
          record {
            tables = record {
              mint = t.mint;
              admitted = t.admitted;
              stored = t.stored;
              indexed = t.indexed;
              ascending = t.ascending;
              known = t.known;
              paid = t.paid;
            };
            caches = record {
              closed = c.closed;
              sound = c.sound;
              decisions = c.decisions;
              cursor = c.cursor;
            };
          },
          tall,
        )
