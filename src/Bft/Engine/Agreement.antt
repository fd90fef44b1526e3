-- ===== src/Bft/Engine/Agreement.antt =====
-- The histories of nodes that run picomint-bft/src/engine.rs on one graph.
use picomint.Prelude.{
  ℕ, zero, suc, ◌+◌, ◌≤◌, ◌<◌, ◌^◌, ◌≡◌, refl, ◌∙◌, none, Bool, true, false, Option, some, List,
  arith, sym, ap, inl, inr, Bool-cases, >>=-eq-some, ◌==◌,
}
use mathlib.Core.Path.{subst}
use picomint.Collections.BTreeMap
use picomint.Collections.BTreeMap.{BTreeMap}
use picomint.Nodes.{NumNodes}
use picomint.Bft.Units.{BftUnit, UnitEnvelope}
use picomint.Bft.Dag.{IsClosed, Faults, Within}
use picomint.Bft.State.{Engine, Crypto, new}
use picomint.Bft.Extender.{extend_round, run_extender}
use picomint.Bft.Extender.Inv.{look}
use picomint.Bft.Extender.Batch.{Stores}
use picomint.Bft.Extender.Order.{Sane, SameLog, History, start, grow, commits, History_agree}
use picomint.Bft.Engine.Inv.{Tables, Tall, Tall-Below, Inv, Inv-IsValid}
use picomint.Bft.Engine.Store.{placed}
use picomint.Bft.Engine.Advance.{extend_round-cases, extend_round-Inv}
use picomint.Bft.Engine.Kept.{Carried}
use picomint.Bft.Engine.Run.{index_units}
use picomint.Bft.Engine.Replay.{index_units-indexed}
use picomint.Bft.Engine.Turns.{Runs, Runs-Kept}

module _ {D : Type 0} (crypto : Crypto D) (limit top : ℕ) (whole : ℕ → Option BftUnit)
    (payload : ℕ → List D) (n : NumNodes) where
  -- The node is one of the `n`, what it has extended is in the graph, and its payload rows are those of
  -- the hashes.
  abbrev pub InGraph : Engine D → Type 0
  InGraph e = (e.n ≡ n) × Within (look e.extended) whole × Stores crypto limit payload e

  abbrev Logs : Engine D → Type 0
  Logs e = InGraph e → History crypto limit whole payload n e

  InGraph-Sane :
      (e : Engine D)
      → top ≤ limit
      → Inv crypto e
      → Tall e top
      → InGraph e
      → Sane crypto limit whole payload n e
  InGraph-Sane e big inv tall (size, within, stores) = record {
    node = record { valid = Inv-IsValid crypto e inv; size = size; within = within };
    stores = stores;
    top = top;
    below = Tall-Below e top inv.tables tall;
    fuel = big;
  }

  -- A round of the extender continues the history.
  round-Logs :
      (e e' : Engine D) (more : Bool)
      → top ≤ limit
      → Inv crypto e
      → Tall e top
      → extend_round crypto limit e ≡ some (more, e')
      → Logs e
      → Logs e'
  round-Logs e e' true big inv tall p logs q =
      let (_, same) = extend_round-Inv crypto limit top e e' true inv tall big p in
      let q0 : InGraph e = subst InGraph same q in
      commits e e' (logs q0) (InGraph-Sane e big inv tall q0) inv.caches.cursor p
  round-Logs e e' false big inv tall p logs q =
      let (_, same) = extend_round-Inv crypto limit top e e' false inv tall big p in
      let q0 : InGraph e = subst InGraph same q in
      elim (extend_round-cases crypto limit top e e' false inv tall big p) [
        | inl (on, _) ↦ absurd (ground arith)
        | inr (_, x) ↦ grow e e' (logs q0) (record {
          emitted = sym (ap (λ (z : Engine D). z.emitted) x.result);
          ordered = sym (ap (λ (z : Engine D). z.ordered) x.result);
          cursor = sym (ap (λ (z : Engine D). z.next_decide_round) x.result);
        })
      ]

  run_extender-Logs :
      (fuel : ℕ) (e e' : Engine D)
      → top ≤ limit
      → Inv crypto e
      → Tall e top
      → run_extender crypto limit fuel e ≡ some e'
      → Logs e
      → Logs e'
  unfolding run_extender
  run_extender-Logs zero e e' big inv tall p logs = absurd (ground arith)
  run_extender-Logs (suc fuel) e e' big inv tall p logs =
      let ((more, x), ex, p') = >>=-eq-some (extend_round crypto limit e) _ p in
      let (inv', same) = extend_round-Inv crypto limit top e x more inv tall big ex in
      let logs' = round-Logs e x more big inv tall ex logs in
      elim (Bool-cases more) [
        | inl on ↦
            let tall' : Tall x top = rw same tall in
            run_extender-Logs fuel x e' big inv' tall' (ground arith) logs'
        | inr off ↦ let last : x ≡ e' = ground arith in subst Logs last logs'
      ]

  -- A payload row that is there before a unit is stored is there after.
  placed-Stores :
      (e : Engine D) (ev : UnitEnvelope D) (hash : ℕ)
      → BTreeMap.get hash e.unit_table ≡ none
      → Tables e
      → Stores crypto limit payload (placed e ev hash)
      → Stores crypto limit payload e
  placed-Stores e ev hash absent t stores h items k =
      let (u, row) = t.paid h items k in
      elim (Bool-cases (hash == h)) [
        | inl same ↦ absurd (ground arith)
        | inr apart ↦
            stores h items (ground (arith, BTreeMap.get-insert hash h ev.items e.unit_data_table))
      ]

  Logs-Carried : top ≤ limit → Carried crypto limit top Logs
  Logs-Carried big = record {
    quiets = λ e e' same logs q. grow e e' (logs (subst InGraph same q)) (record {
      emitted = sym (ap (λ (z : Engine D). z.emitted) same);
      ordered = sym (ap (λ (z : Engine D). z.ordered) same);
      cursor = sym (ap (λ (z : Engine D). z.next_decide_round) same);
    });
    grows = λ e e' more logs q.
        let inside : Within (look e.extended) whole = λ h u k. q.1 h u (more.kept h u k) in
        let size : e.n ≡ n = sym (ap (λ (z : Engine D). z.n) more.rest) ∙ q.0 in
        let stores : Stores crypto limit payload e =
          subst (Stores crypto limit payload) more.rest q.2 in
        grow e e' (logs (size, inside, stores)) (record {
          emitted = sym (ap (λ (z : Engine D). z.emitted) more.rest);
          ordered = sym (ap (λ (z : Engine D). z.ordered) more.rest);
          cursor = sym (ap (λ (z : Engine D). z.next_decide_round) more.rest);
        });
    stores = λ e ev hash absent t logs q.
        grow e (placed e ev hash) (logs (q.0, q.1, placed-Stores e ev hash absent t q.2))
          (record { emitted = refl; ordered = refl; cursor = refl });
    marks = λ e rounds logs q.
        grow e (record e { unordered_own_data = rounds }) (logs q)
          (record { emitted = refl; ordered = refl; cursor = refl });
    orders = λ fuel e e' inv tall p logs. run_extender-Logs fuel e e' big inv tall p logs;
  }

  Runs-History :
      (e : Engine D)
      → 1 < top
      → top ≤ limit
      → top + 4 ≤ 2 ^ 32
      → Runs crypto limit top e
      → InGraph e
      → History crypto limit whole payload n e
  Runs-History e two big small run =
      let kept =
        Runs-Kept crypto limit top (Logs-Carried big) e
          (λ id session m keychain units payloads signatures q.
            let from = new id session m keychain units payloads signatures in
            let same = index_units-indexed units from in
            start (index_units units from) (ap (λ (z : Engine D). z.emitted) same)
              (ap (λ (z : Engine D). z.ordered) same)
              (ap (λ (z : Engine D). z.next_decide_round) same))
          two big small run in
      kept.2

  -- The total order. What all nodes extend lies in one closed graph, with at most `f` faulty creators,
  -- where an honest creator has one unit a round. Two nodes that have run the event loop, each from its
  -- own tables and with whatever messages, timers and data, whose extended units lie in that graph when
  -- they are compared and whose payload rows agree with the hashes, and which have committed the same
  -- number of rounds, have one emitted set and have sent the same items in the same order. The rounds of
  -- stored units at the start and of units received are below `top - 1`, the fuel is at least `top`,
  -- `top` is at most `u32::MAX - 3`, and the parents of a received unit ascend by creator.
  pub Runs-SameLog :
      {honest : ℕ → Bool} (closed : IsClosed n whole) (faults : Faults n honest whole)
      (a b : Engine D)
      → 1 < top
      → top ≤ limit
      → top + 4 ≤ 2 ^ 32
      → Runs crypto limit top a
      → Runs crypto limit top b
      → InGraph a
      → InGraph b
      → a.next_decide_round ≡ b.next_decide_round
      → SameLog crypto limit whole payload n a b
  Runs-SameLog closed faults a b two big small ra rb ga gb same =
      History_agree crypto limit closed faults a b (Runs-History a two big small ra ga)
        (Runs-History b two big small rb gb) same
