-- ===== src/Bft/Extender/Batch.antt =====
-- The batches of `bfs_batch` and the emission of picomint-bft/src/extender.rs are functions of the
-- graph: nodes that hold parts of one graph emit alike.
use picomint.Prelude.{
  ℕ, zero, suc, ◌≡◌, refl, Option, none, some, List, [], ◌∷◌, ◌++◌, arith, inl, inr, sym, ◌∙◌, ap,
  some_unique, Bool-cases, >>=-eq-some,
}
use mathlib.Core.List.{append_assoc, append-nil}
use picomint.Collections.BTreeMap
use picomint.Collections.BTreeMap.{BTreeMap, values}
use picomint.Collections.BTreeSet
use picomint.Collections.BTreeSet.{BTreeSet}
use picomint.Bft.Units.{BftUnit}
use picomint.Bft.Dag.{Within}
use picomint.Bft.State.{Engine, Crypto}
use picomint.Bft.Extender.{enqueue, bfs_loop, bfs_batch, tagged, emit, emit_all}
use picomint.Bft.Extender.Inv.{look}

module _ {whole : ℕ → Option BftUnit} (a b : BTreeMap BftUnit) (in_a : Within (look a) whole)
    (in_b : Within (look b) whole) where
  bfs_loop_agree :
      (f g : ℕ) (emitted : BTreeSet) (queue batch : List ℕ) (x y : BTreeSet × List ℕ)
      → bfs_loop f a emitted queue batch ≡ some x
      → bfs_loop g b emitted queue batch ≡ some y
      → x ≡ y
  unfolding bfs_loop
  bfs_loop_agree zero zero emitted [] batch x y p q = some_unique x y p q
  bfs_loop_agree zero (suc g) emitted [] batch x y p q = some_unique x y p q
  bfs_loop_agree (suc f) zero emitted [] batch x y p q = some_unique x y p q
  bfs_loop_agree (suc f) (suc g) emitted [] batch x y p q = some_unique x y p q
  bfs_loop_agree zero g emitted (h ∷ queue) batch x y p q = cc
  bfs_loop_agree (suc f) zero emitted (h ∷ queue) batch x y p q = cc
  bfs_loop_agree (suc f) (suc g) emitted (h ∷ queue) batch x y p q =
      let (u, eu, p') = >>=-eq-some (BTreeMap.get h a) _ p in
      let (w, ew, q') = >>=-eq-some (BTreeMap.get h b) _ q in
      let same : u ≡ w = some_unique u w (in_a h u eu) (in_b h w ew) in
      let r : BTreeSet × List ℕ = enqueue (values u.parents) emitted queue in
      bfs_loop_agree f g r.0 r.1 (batch ++ (h ∷ [])) x y p' (rw same q')

  -- Where two nodes that hold parts of one graph both find the batch of a head, it is the same batch.
  pub bfs_batch_agree :
      (f g : ℕ) (emitted : BTreeSet) (head : ℕ) (x y : BTreeSet × List ℕ)
      → bfs_batch f a emitted head ≡ some x
      → bfs_batch g b emitted head ≡ some y
      → x ≡ y
  unfolding bfs_batch
  bfs_batch_agree f g emitted head x y p q = elim (Bool-cases (BTreeSet.contains head emitted)) [
    | inl seen ↦ ground arith
    | inr fresh ↦
        bfs_loop_agree f g (BTreeSet.insert head emitted) (head ∷ []) [] x y (ground arith)
          (ground arith)
  ]

module _ {D : Type 0} (crypto : Crypto D) (limit : ℕ) where
  -- Emission changes the log and the set of own rounds alone.
  abbrev pub emitting : Engine D → Engine D → Engine D
  emitting e e' = record e { ordered = e'.ordered; unordered_own_data = e'.unordered_own_data }

  emit-emitting : (h : ℕ) (e e' : Engine D) → emit crypto limit e h ≡ some e' → e' ≡ emitting e e'
  unfolding emit
  emit-emitting h e e' p = ground arith

  pub emit_all-emitting :
      (hs : List ℕ) (e e' : Engine D) → emit_all crypto limit hs e ≡ some e' → e' ≡ emitting e e'
  unfolding emit_all
  emit_all-emitting [] e e' p = ground arith
  emit_all-emitting (h ∷ hs) e e' p =
      let (x, ex, q) = >>=-eq-some (emit crypto limit e h) _ p in
      let one = emit-emitting h e x ex in
      let rest = emit_all-emitting hs x e' q in rest ∙ ap (λ z. emitting z e') one

  -- What emitting a list of units sends, as a function of the graph and of the payloads.
  abbrev pub entry : Option BftUnit → List D → List (ℕ × ℕ × D)
  entry none items = []
  entry (some u) items = tagged u items

  abbrev pub transcript : (ℕ → Option BftUnit) → (ℕ → List D) → List ℕ → List (ℕ × ℕ × D)
  transcript whole payload [] = []
  transcript whole payload (h ∷ hs) = entry (whole h) (payload h) ++ transcript whole payload hs

  -- The rows of the payload table agree with what the hashes stand for.
  abbrev pub Stores : (ℕ → List D) → Engine D → Type 0
  Stores payload e =
      (h : ℕ) (items : List D) → BTreeMap.get h e.unit_data_table ≡ some items → payload h ≡ items

  module _ {whole : ℕ → Option BftUnit} {payload : ℕ → List D} where
    emit-ordered :
        (h : ℕ) (e e' : Engine D)
        → Within (look e.extended) whole
        → Stores payload e
        → emit crypto limit e h ≡ some e'
        → e'.ordered ≡ e.ordered ++ entry (whole h) (payload h)
    unfolding emit
    emit-ordered h e e' inside stores p =
        let (u, eu, p') = >>=-eq-some (BTreeMap.get h e.extended) _ p in
        let (items, ei, p'') = >>=-eq-some (BTreeMap.get h e.unit_data_table) _ p' in
        rw (inside h u eu, stores h items ei) (ground arith)

    -- The whole batch is sent in order.
    pub emit_all-ordered :
        (hs : List ℕ) (e e' : Engine D)
        → Within (look e.extended) whole
        → Stores payload e
        → emit_all crypto limit hs e ≡ some e'
        → e'.ordered ≡ e.ordered ++ transcript whole payload hs
    unfolding emit_all
    emit_all-ordered [] e e' inside stores p =
        ap (λ (z : Engine D). z.ordered) (sym (some_unique e e' refl p))
        ∙ sym (append-nil e.ordered)
    emit_all-ordered (h ∷ hs) e e' inside stores p =
        let (x, ex, q) = >>=-eq-some (emit crypto limit e h) _ p in
        let one = emit-ordered h e x inside stores ex in
        let same = emit-emitting h e x ex in
        let rest = emit_all-ordered hs x e' (rw same inside) (rw same stores) q in
        rest
        ∙ ap (λ l. l ++ transcript whole payload hs) one
        ∙ append_assoc e.ordered (entry (whole h) (payload h)) (transcript whole payload hs)
