-- ===== src/Bft/Engine/Advance.antt =====
-- `run_extender` of picomint-bft/src/extender.rs keeps the engine's invariant.
use picomint.Prelude.{
  ℕ, zero, suc, ◌+◌, ◌≤◌, ◌<◌, ◌^◌, ◌≡◌, refl, Bool, true, false, some, arith, sym, ◌∙◌, ap, ◌⊎◌,
  inl, inr, Option-cases, Bool-cases, >>=-eq-some,
}
use mathlib.Core.Path.{subst}
use picomint.Collections.BTreeMap.{BTreeMap}
use picomint.Bft.Vote.{Votes}
use picomint.Bft.Units.{u32}
use picomint.Bft.State.{Engine, Crypto}
use picomint.Bft.Extender.{extend_round, run_extender}
use picomint.Bft.Extender.Inv.{look, Below, IsValid}
use picomint.Bft.Extender.Decide.{cached}
use picomint.Bft.Extender.Head.{choose_head-Chooses}
use picomint.Bft.Extender.Batch.{emit_all-emitting}
use picomint.Bft.Extender.Order.{Parts, Commits, extend_round-Commits}
use picomint.Bft.Engine.Inv.{Tables, Tall, Tall-Below, Inv, Inv-IsValid}

module _ {D : Type 0} (crypto : Crypto D) (limit : ℕ) where
  -- What a round of the extender leaves alone.
  abbrev pub advanced : Engine D → Engine D → Engine D
  advanced e e' = record e {
    emitted = e'.emitted;
    ordered = e'.ordered;
    unordered_own_data = e'.unordered_own_data;
    next_decide_round = e'.next_decide_round;
    votes = e'.votes;
    decided = e'.decided;
  }

  -- The extender stops: only the caches change.
  pub record Stops (e e' : Engine D) : Type 0 where
    pub votes : Votes
    pub decided : BTreeMap (Bool × ℕ)
    pub result : e' ≡ cached e votes decided
    pub valid : IsValid crypto (cached e votes decided)

  extend_round-Stops :
      (top : ℕ) (e e' : Engine D)
      → IsValid crypto e
      → Below (look e.extended) top
      → top ≤ limit
      → e.next_decide_round + 3 < 2 ^ 32
      → extend_round crypto limit e ≡ some (false, e')
      → Stops e e'
  unfolding extend_round
  extend_round-Stops top e e' valid below big small p =
      let x = choose_head-Chooses crypto limit top e.next_decide_round e valid below big small in
      elim (Option-cases x.head) [
        | inl missing ↦ record {
          votes = x.votes;
          decided = x.decided;
          result = ground (arith, x.answer);
          valid = x.valid;
        }
        | inr (head, elected) ↦ absurd (ground (arith, x.answer))
      ]

  Parts-advanced : (e e' : Engine D) (head : ℕ) → Parts crypto limit e head e' → e' ≡ advanced e e'
  Parts-advanced e e' head x = ground (
    arith,
    x.result,
    emit_all-emitting crypto limit x.batch (record e { emitted = x.marked }) x.last x.sent,
  )

  advanced-Inv :
      (e e' : Engine D)
      → Tables e
      → IsValid crypto (cached e e'.votes e'.decided)
      → e'.next_decide_round + 3 < 2 ^ 32
      → e' ≡ advanced e e'
      → Inv crypto e'
  advanced-Inv e e' t valid small same = subst (Inv crypto) (sym same) (record {
    tables = record {
      mint = t.mint;
      admitted = t.admitted;
      stored = t.stored;
      indexed = t.indexed;
      ascending = t.ascending;
      known = t.known;
      paid = t.paid;
    };
    caches = record {
      closed = valid.closed;
      sound = valid.sound;
      decisions = valid.decisions;
      cursor = small;
    };
  })

  Commits-fields :
      (e e' : Engine D)
      → (x : Commits crypto limit e e')
      → (e' ≡ advanced e e')
        × (e'.votes ≡ x.votes)
        × (e'.decided ≡ x.decided)
        × (e'.next_decide_round ≡ u32 (e.next_decide_round + 1))
  Commits-fields e e' x =
      let from = cached e x.votes x.decided in
      let same =
        emit_all-emitting crypto limit x.parts.batch (record from { emitted = x.parts.marked })
          x.parts.last x.parts.sent in
      ground (arith, x.parts.result, same)

  Commits-Inv : (e e' : Engine D) → Inv crypto e → Commits crypto limit e e' → Inv crypto e'
  Commits-Inv e e' inv x =
      let (same, v, d, r) = Commits-fields e e' x in
      let (w, known, row) = x.chosen.tall in
      let low = (inv.caches.closed.closed x.chosen.witness w known).low in
      advanced-Inv e e' inv.tables (rw (v, d) x.valid) (omega arith) same

  -- The extender stops or commits.
  pub extend_round-cases :
      (top : ℕ) (e e' : Engine D) (more : Bool)
      → Inv crypto e
      → Tall e top
      → top ≤ limit
      → extend_round crypto limit e ≡ some (more, e')
      → ((more ≡ true) × Commits crypto limit e e') ⊎ ((more ≡ false) × Stops e e')
  extend_round-cases top e e' true inv tall big p = inl (
    refl,
    extend_round-Commits crypto limit top e e' (Inv-IsValid crypto e inv)
        (Tall-Below e top inv.tables tall) big inv.caches.cursor p,
  )
  extend_round-cases top e e' false inv tall big p = inr (
    refl,
    extend_round-Stops top e e' (Inv-IsValid crypto e inv) (Tall-Below e top inv.tables tall) big
        inv.caches.cursor p,
  )

  pub extend_round-Inv :
      (top : ℕ) (e e' : Engine D) (more : Bool)
      → Inv crypto e
      → Tall e top
      → top ≤ limit
      → extend_round crypto limit e ≡ some (more, e')
      → Inv crypto e' × (e' ≡ advanced e e')
  extend_round-Inv top e e' more inv tall big p =
      elim (extend_round-cases top e e' more inv tall big p) [
        | inl (_, x) ↦ (Commits-Inv e e' inv x, (Commits-fields e e' x).0)
        | inr (_, x) ↦
            let same : e' ≡ advanced e e' = ground (arith, x.result) in
            (
              advanced-Inv e e' inv.tables (ground (arith, x.result, x.valid))
                  (ground (arith, x.result, inv.caches.cursor)) same,
              same,
            )
      ]

  pub run_extender-Inv :
      (fuel top : ℕ) (e e' : Engine D)
      → Inv crypto e
      → Tall e top
      → top ≤ limit
      → run_extender crypto limit fuel e ≡ some e'
      → Inv crypto e' × (e' ≡ advanced e e')
  unfolding run_extender
  run_extender-Inv zero top e e' inv tall big p = absurd (ground arith)
  run_extender-Inv (suc fuel) top e e' inv tall big p =
      let ((more, x), ex, p') = >>=-eq-some (extend_round crypto limit e) _ p in
      let (inv', same) = extend_round-Inv top e x more inv tall big ex in
      elim (Bool-cases more) [
        | inl on ↦
            let tall' : Tall x top = rw same tall in
            let (inv'', same') = run_extender-Inv fuel top x e' inv' tall' big (ground arith) in
            (inv'', same' ∙ ap (λ z. advanced z e') same)
        | inr off ↦
            let last : x ≡ e' = ground arith in
            subst (λ (z : Engine D). Inv crypto z × (z ≡ advanced e z)) last (inv', same)
      ]
