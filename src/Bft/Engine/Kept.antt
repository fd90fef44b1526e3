-- ===== src/Bft/Engine/Kept.antt =====
-- The invariant of a running engine, and what a property must bear to be kept beside it.
use picomint.Prelude.{ℕ, ◌≡◌, none, some}
use picomint.Collections.BTreeMap
use picomint.Collections.BTreeSet.{BTreeSet}
use picomint.Bft.Units.{UnitEnvelope}
use picomint.Bft.State.{Engine, Crypto}
use picomint.Bft.Extender.{run_extender}
use picomint.Bft.Engine.Inv.{Tables, Tall, Inv}
use picomint.Bft.Engine.Extend.{Grows}
use picomint.Bft.Engine.Store.{placed}
use picomint.Bft.Engine.Quiet.{quiet}

-- The invariant, with every stored round below `top`.
abbrev pub Steady : {D : Type 0} → Crypto D → ℕ → Engine D → Type 0
Steady crypto top e = Inv crypto e × Tall e top

-- The invariant beside a property of the engine.
abbrev pub Kept : {D : Type 0} → Crypto D → ℕ → (Engine D → Type 0) → Engine D → Type 0
Kept crypto top X e = Inv crypto e × Tall e top × X e

-- A property that every step of the engine carries over.
pub record Carried {D : Type 0} (crypto : Crypto D) (limit top : ℕ) (X : Engine D → Type 0)
    : Type 0 where
  pub quiets : (e e' : Engine D) → e' ≡ quiet e e' → X e → X e'
  pub grows : (e e' : Engine D) → Grows e e' → X e → X e'
  pub stores :
      (e : Engine D) (ev : UnitEnvelope D) (hash : ℕ)
      → BTreeMap.get hash e.unit_table ≡ none
      → Tables e
      → X e
      → X (placed e ev hash)
  pub marks :
      (e : Engine D) (rounds : BTreeSet) → X e → X (record e { unordered_own_data = rounds })
  pub orders :
      (fuel : ℕ) (e e' : Engine D)
      → Inv crypto e
      → Tall e top
      → run_extender crypto limit fuel e ≡ some e'
      → X e
      → X e'

-- Where nothing but the invariant is wanted.
pub any_property :
    {D : Type 0} (crypto : Crypto D) (limit top : ℕ)
    → Carried crypto limit top (λ (e : Engine D). Unit)
any_property crypto limit top = record {
  quiets = λ e e' same x. tt;
  grows = λ e e' more x. tt;
  stores = λ e ev hash absent t x. tt;
  marks = λ e rounds x. tt;
  orders = λ fuel e e' inv tall p x. tt;
}
