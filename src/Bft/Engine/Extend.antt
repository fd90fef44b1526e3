-- ===== src/Bft/Engine/Extend.antt =====
-- `maybe_extend` and `try_extend` of picomint-bft/src/engine.rs keep the invariant.
use picomint.Prelude.{
  ℕ, ◌<◌, ◌≡◌, refl, true, none, some, [], ◌∷◌, All, all, arith, sym, ◌∙◌, ap, ◌⊎◌, inl, inr,
  Option-cases, Bool-cases, ◌==◌,
}
use mathlib.Core.Path.{subst}
use picomint.Collections.BTreeMap
use picomint.Collections.BTreeMap.{BTreeMap, contains_key}
use picomint.Nodes.{NumNodes, total}
use picomint.Bft.Units.{BftUnit}
use picomint.Bft.Dag.{IsParent, WellParented, IsClosed, Within}
use picomint.Bft.State.{Engine, Crypto}
use picomint.Bft.Extender.Inv.{look}
use picomint.Bft.Extender.Growth.{WellParented-Within, IsSound-Within, Decision-Within}
use picomint.Bft.Engine.{parent_fed, parents_fed, maybe_extend}
use picomint.Bft.Engine.Inv.{Admitted, Tables, Inv}

insert-Within :
    (h : ℕ) (u : BftUnit) (m : BTreeMap BftUnit)
    → BTreeMap.get h m ≡ none
    → Within (look m) (look (BTreeMap.insert h u m))
insert-Within h u m absent k w e = ground (arith, BTreeMap.get-insert h k u m)

-- A parent entry that passes the test names a unit of its creator one round down.
parent_fed-IsParent :
    (n : NumNodes) (extended : BTreeMap BftUnit) (r : ℕ) (e : ℕ × ℕ)
    → IsClosed n (look extended)
    → 0 < r
    → e.0 < total n
    → parent_fed extended r e ≡ true
    → IsParent n (look extended) r e
parent_fed-IsParent n extended r e closed pos l h =
    elim (Option-cases (BTreeMap.get e.1 extended)) [
      | inl gone ↦ absurd (ground arith)
      | inr (q, known) ↦
          let low = (closed.closed e.1 q known).low in (l, q, known, ground arith, ground arith)
    ]

parents_fed-All :
    (n : NumNodes) (extended : BTreeMap BftUnit) (r : ℕ) (m : BTreeMap ℕ)
    → IsClosed n (look extended)
    → 0 < r
    → All (λ e. e.0 < total n) m
    → all (parent_fed extended r) m ≡ true
    → All (IsParent n (look extended) r) m
parents_fed-All n extended r [] closed pos l h = tt
parents_fed-All n extended r (e ∷ m) closed pos l h = (
  parent_fed-IsParent n extended r e closed pos l.0 (ground arith),
  parents_fed-All n extended r m closed pos l.1 (ground arith),
)

Admitted-WellParented :
    (n : NumNodes) (extended : BTreeMap BftUnit) (u : BftUnit)
    → IsClosed n (look extended)
    → Admitted n u
    → parents_fed extended u ≡ true
    → WellParented n (look extended) u
Admitted-WellParented n extended u closed a h = record {
  member = a.member;
  low = a.low;
  sorted = a.sorted;
  root = a.root;
  quorum = a.quorum;
  parents = elim (Bool-cases (u.round == 0)) [
    | inl first ↦ rw (a.root (ground arith)) tt
    | inr later ↦ parents_fed-All n extended u.round u.parents closed (ground arith) a.members h
  ];
}

insert-IsClosed :
    (hash : ℕ) (u : BftUnit) (n : NumNodes) (extended : BTreeMap BftUnit)
    → BTreeMap.get hash extended ≡ none
    → Admitted n u
    → parents_fed extended u ≡ true
    → IsClosed n (look extended)
    → IsClosed n (look (BTreeMap.insert hash u extended))
insert-IsClosed hash u n extended absent a fed c =
    let grown = insert-Within hash u extended absent in
    record {
      closed = λ h w k. elim (Bool-cases (hash == h)) [
        | inl same ↦
            subst (WellParented n (look (BTreeMap.insert hash u extended)))
              (ground (arith, BTreeMap.get-insert hash h u extended))
              (WellParented-Within n grown u (Admitted-WellParented n extended u c a fed))
        | inr other ↦
            WellParented-Within n grown w
              (c.closed h w (ground (arith, BTreeMap.get-insert hash h u extended)))
      ];
    }

module _ {D : Type 0} where
  -- `maybe_extend` that extends, taken apart.
  pub record Inserts (e : Engine D) (hash : ℕ) (e' : Engine D) : Type 0 where
    pub u : BftUnit
    pub absent : BTreeMap.get hash e.extended ≡ none
    pub stored : BTreeMap.get hash e.unit_table ≡ some u
    pub fed : parents_fed e.extended u ≡ true
    pub result : e' ≡ record e { extended = BTreeMap.insert hash u e.extended }

  pub maybe_extend-cases :
      (e : Engine D) (hash : ℕ)
      → (maybe_extend e hash ≡ (none, e)) ⊎ (Inserts e hash (maybe_extend e hash).1)
  unfolding maybe_extend
  maybe_extend-cases e hash = elim (Option-cases (BTreeMap.get hash e.unit_table)) [
    | inl gone ↦ inl (ground arith)
    | inr (u, stored) ↦ elim (Option-cases (BTreeMap.get hash e.extended)) [
      | inr (w, k) ↦ inl (ground arith)
      | inl k ↦ elim (Bool-cases (parents_fed e.extended u)) [
        | inr f ↦ inl (ground arith)
        | inl f ↦
            inr (record { u = u; absent = k; stored = stored; fed = f; result = ground arith })
      ]
    ]
  ]

  -- What `try_extend` leaves alone, and that nothing extended is lost.
  pub record Grows (e e' : Engine D) : Type 0 where
    pub rest : e' ≡ record e { extended = e'.extended }
    pub kept : Within (look e.extended) (look e'.extended)

  pub Grows-refl : (e : Engine D) → Grows e e
  Grows-refl e = record { rest = refl; kept = λ h u k. k }

  pub Grows-trans : (a b c : Engine D) → Grows a b → Grows b c → Grows a c
  Grows-trans a b c p q = record {
    rest = q.rest ∙ ap (λ (z : Engine D). record z { extended = c.extended }) p.rest;
    kept = λ h u k. q.kept h u (p.kept h u k);
  }

  pub Inserts-Grows : (e : Engine D) (hash : ℕ) (e' : Engine D) → Inserts e hash e' → Grows e e'
  Inserts-Grows e hash e' x = record {
    rest = x.result ∙ ap (λ (z : Engine D). record e { extended = z.extended }) (sym x.result);
    kept =
        subst (λ (z : Engine D). Within (look e.extended) (look z.extended)) (sym x.result)
          (insert-Within hash x.u e.extended x.absent);
  }

  insert-known :
      (hash : ℕ) (u : BftUnit) (e : Engine D)
      → BTreeMap.get hash e.unit_table ≡ some u
      → Tables e
      → Tables (record e { extended = BTreeMap.insert hash u e.extended })
  insert-known hash u e stored t = record {
    paid = t.paid;
    mint = t.mint;
    admitted = t.admitted;
    stored = t.stored;
    indexed = t.indexed;
    ascending = t.ascending;
    known = λ h w k. elim (Bool-cases (hash == h)) [
      | inl same ↦ ground (arith, BTreeMap.get-insert hash h u e.extended)
      | inr other ↦ t.known h w (ground (arith, BTreeMap.get-insert hash h u e.extended))
    ];
  }

  pub Inserts-Inv :
      (crypto : Crypto D) (e : Engine D) (hash : ℕ) (e' : Engine D)
      → Inserts e hash e'
      → Inv crypto e
      → Inv crypto e'
  Inserts-Inv crypto e hash e' x inv =
      let t = inv.tables in
      let c = inv.caches in
      let grown = insert-Within hash x.u e.extended x.absent in
      subst (Inv crypto) (sym x.result) (record {
        tables = insert-known hash x.u e x.stored t;
        caches = record {
          closed =
              insert-IsClosed hash x.u e.n e.extended x.absent (t.admitted hash x.u x.stored) x.fed
                c.closed;
          sound = IsSound-Within e.n grown c.closed crypto.hash_byte e.votes c.sound;
          decisions = λ k v r d.
              Decision-Within e.n grown c.closed crypto.hash_byte k v (c.decisions k v r d);
          cursor = c.cursor;
        };
      })
