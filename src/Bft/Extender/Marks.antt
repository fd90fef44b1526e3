-- ===== src/Bft/Extender/Marks.antt =====
-- What `bfs_batch` of picomint-bft/src/extender.rs marks and emits.
use picomint.Prelude.{
  ℕ, zero, suc, ◌+◌, ◌≡◌, refl, false, some, List, [], ◌∷◌, ◌++◌, count, arith, inl, inr, ◌∙◌, ap,
  sym, Bool-cases, >>=-eq-some, some_unique, ◌==◌, if◌then◌else◌,
}
use mathlib.Core.List.{reverse, reverse-cons, append_assoc, append-nil}
use picomint.Collections.BTreeMap
use picomint.Collections.BTreeMap.{BTreeMap, values}
use picomint.Collections.BTreeSet
use picomint.Collections.BTreeSet.{BTreeSet}
use picomint.Bft.Units.{BftUnit}
use picomint.Bft.Extender.{enqueue, bfs_loop, bfs_batch}

-- How often a hash is in a list.
abbrev pub times : ℕ → List ℕ → ℕ
times h xs = count (λ x. x == h) xs

-- 1 if the set has the hash.
abbrev pub marks : ℕ → BTreeSet → ℕ
marks h set = if BTreeSet.contains h set then 1 else 0

times-append : (h : ℕ) (xs ys : List ℕ) → times h (xs ++ ys) ≡ times h xs + times h ys
times-append h [] ys = omega arith
times-append h (x ∷ xs) ys = ground (arith, times-append h xs ys)

times-reverse : (h : ℕ) (xs : List ℕ) → times h (reverse xs) ≡ times h xs
times-reverse h [] = refl
times-reverse h (x ∷ xs) =
    ap (times h) (reverse-cons x xs)
    ∙ times-append h (reverse xs) (x ∷ [])
    ∙ ground (arith, times-reverse h xs)

marks-insert :
    (h p : ℕ) (set : BTreeSet)
    → BTreeSet.contains p set ≡ false
    → marks h (BTreeSet.insert p set) ≡ times h (p ∷ []) + marks h set
marks-insert h p set fresh = elim (Bool-cases (p == h)) [
  | inl same ↦ let own : p ≡ h = ground arith in ground (arith, BTreeSet.contains-insert p h set)
  | inr other ↦ ground (arith, BTreeSet.contains-insert p h set)
]

-- What is queued is what is newly marked.
enqueue-times :
    (h : ℕ) (ps : List ℕ) (emitted : BTreeSet) (queue : List ℕ)
    → times h (enqueue ps emitted queue).1 + marks h emitted
      ≡ times h queue + marks h (enqueue ps emitted queue).0
unfolding enqueue
enqueue-times h [] emitted queue = refl
enqueue-times h (p ∷ ps) emitted queue = elim (Bool-cases (BTreeSet.contains p emitted)) [
  | inl seen ↦ rw seen (enqueue-times h ps emitted queue)
  | inr fresh ↦
      let rest = enqueue-times h ps (BTreeSet.insert p emitted) (queue ++ (p ∷ [])) in
      rw fresh (omega (arith, rest, marks-insert h p emitted fresh, times-append h queue (p ∷ [])))
]

finished :
    (h : ℕ) (emitted : BTreeSet) (batch : List ℕ) (marked : BTreeSet) (out : List ℕ)
    → ◌≡◌ {A = BTreeSet × List ℕ} (emitted, reverse batch) (marked, out)
    → times h batch + 0 + marks h marked ≡ times h out + marks h emitted
finished h emitted batch marked out e =
    let same : emitted ≡ marked = ap (λ (r : BTreeSet × List ℕ). r.0) e in
    let order : reverse batch ≡ out = ap (λ (r : BTreeSet × List ℕ). r.1) e in
    rw (← same, ← order, times-reverse h batch) (omega arith)

all_taken :
    (emitted : BTreeSet) (batch : List ℕ) (marked : BTreeSet) (out : List ℕ)
    → ◌≡◌ {A = BTreeSet × List ℕ} (emitted, reverse batch) (marked, out)
    → out ≡ reverse (batch ++ [])
all_taken emitted batch marked out e =
    ap (λ (r : BTreeSet × List ℕ). r.1) (sym e) ∙ ap reverse (sym (append-nil batch))

bfs_loop-times :
    (h fuel : ℕ) (extended : BTreeMap BftUnit) (emitted : BTreeSet) (queue batch : List ℕ)
    (marked : BTreeSet) (out : List ℕ)
    → bfs_loop fuel extended emitted queue batch ≡ some (marked, out)
    → times h batch + times h queue + marks h marked ≡ times h out + marks h emitted
unfolding bfs_loop
bfs_loop-times h zero extended emitted [] batch marked out p =
    finished h emitted batch marked out (some_unique _ _ refl p)
bfs_loop-times h (suc fuel) extended emitted [] batch marked out p =
    finished h emitted batch marked out (some_unique _ _ refl p)
bfs_loop-times h zero extended emitted (x ∷ queue) batch marked out p = absurd (ground arith)
bfs_loop-times h (suc fuel) extended emitted (x ∷ queue) batch marked out p =
    let (u, eu, q) = >>=-eq-some (BTreeMap.get x extended) _ p in
    let r : BTreeSet × List ℕ = enqueue (values u.parents) emitted queue in
    let rest = bfs_loop-times h fuel extended r.0 r.1 (batch ++ (x ∷ [])) marked out q in
    omega (
      arith,
      rest,
      enqueue-times h (values u.parents) emitted queue,
      times-append h batch (x ∷ []),
      times-append h (x ∷ []) queue,
    )

-- What the loop emits is what it has taken from the queue, the last first.
bfs_loop-reverse :
    (fuel : ℕ) (extended : BTreeMap BftUnit) (emitted : BTreeSet) (queue batch : List ℕ)
    (marked : BTreeSet) (out : List ℕ)
    → bfs_loop fuel extended emitted queue batch ≡ some (marked, out)
    → (more : List ℕ) × (out ≡ reverse (batch ++ more))
unfolding bfs_loop
bfs_loop-reverse zero extended emitted [] batch marked out p =
    ([], all_taken emitted batch marked out (some_unique _ _ refl p))
bfs_loop-reverse (suc fuel) extended emitted [] batch marked out p =
    ([], all_taken emitted batch marked out (some_unique _ _ refl p))
bfs_loop-reverse zero extended emitted (x ∷ queue) batch marked out p = absurd (ground arith)
bfs_loop-reverse (suc fuel) extended emitted (x ∷ queue) batch marked out p =
    let (u, eu, q) = >>=-eq-some (BTreeMap.get x extended) _ p in
    let r : BTreeSet × List ℕ = enqueue (values u.parents) emitted queue in
    let (more, e) = bfs_loop-reverse fuel extended r.0 r.1 (batch ++ (x ∷ [])) marked out q in
    (x ∷ more, e ∙ ap reverse (append_assoc batch (x ∷ []) more))

head_last :
    (fuel : ℕ) (extended : BTreeMap BftUnit) (emitted : BTreeSet) (head : ℕ) (marked : BTreeSet)
    (out : List ℕ)
    → bfs_loop fuel extended emitted (head ∷ []) [] ≡ some (marked, out)
    → (older : List ℕ) × (out ≡ older ++ (head ∷ []))
unfolding bfs_loop
head_last zero extended emitted head marked out p = absurd (ground arith)
head_last (suc fuel) extended emitted head marked out p =
    let (u, eu, q) = >>=-eq-some (BTreeMap.get head extended) _ p in
    let r : BTreeSet × List ℕ = enqueue (values u.parents) emitted [] in
    let (more, e) = bfs_loop-reverse fuel extended r.0 r.1 (head ∷ []) marked out q in
    (reverse more, e ∙ reverse-cons head more)

-- Where `bfs_batch` returns, a unit is in the batch once if it is marked now and was not before, and else
-- not at all, and the head is the last of the batch.
pub bfs_batch-once :
    (limit : ℕ) (extended : BTreeMap BftUnit) (emitted : BTreeSet) (head : ℕ) (marked : BTreeSet)
    (batch : List ℕ)
    → bfs_batch limit extended emitted head ≡ some (marked, batch)
    → ((h : ℕ) → times h batch + marks h emitted ≡ marks h marked)
      × (older : List ℕ) × (batch ≡ older ++ (head ∷ []))
unfolding bfs_batch
bfs_batch-once limit extended emitted head marked batch p =
    elim (Bool-cases (BTreeSet.contains head emitted)) [
      | inl seen ↦ absurd (ground arith)
      | inr fresh ↦
          let run : bfs_loop limit extended (BTreeSet.insert head emitted) (head ∷ []) []
              ≡ some (marked, batch) =
            ground arith in
          let (older, ends) =
            head_last limit extended (BTreeSet.insert head emitted) head marked batch run in
          (
            λ h.
                let rest =
                  bfs_loop-times h limit extended (BTreeSet.insert head emitted) (head ∷ []) []
                    marked batch run in
                omega (arith, rest, marks-insert h head emitted fresh),
            older,
            ends,
          )
    ]
