-- ===== src/Bft/Engine/Rows.antt =====
-- The rows of extended units that the extender walks: members, order.
use picomint.Prelude.{
  ℕ, suc, ◌≤◌, ◌≡◌, refl, true, some, none, List, [], ◌∷◌, All, In, arith, inl, inr, ◌⊎◌,
  Option-cases,
}
use picomint.Collections.BTreeMap
use picomint.Collections.BTreeMap.{BTreeMap, contains_key}
use picomint.Collections.BTreeSet
use picomint.Bft.Units.{BftUnit}
use picomint.Bft.State.{keep_extended}

contains-cons :
    (h x : ℕ) (s : List ℕ)
    → BTreeSet.contains h (x ∷ s) ≡ true
    → (h ≡ x) ⊎ (BTreeSet.contains h s ≡ true)
unfolding BTreeSet.contains
contains-cons h x s m = ground arith

contains-head : (x : ℕ) (s : List ℕ) → BTreeSet.contains x (x ∷ s) ≡ true
unfolding BTreeSet.contains
contains-head x s = ground arith

contains-tail :
    (h x : ℕ) (s : List ℕ) → BTreeSet.contains h s ≡ true → BTreeSet.contains h (x ∷ s) ≡ true
unfolding BTreeSet.contains
contains-tail h x s m = ground arith

module _ (extended : BTreeMap BftUnit) where
  keep-gone :
      (x : ℕ) (s : List ℕ)
      → BTreeMap.get x extended ≡ none
      → keep_extended extended (x ∷ s) ≡ keep_extended extended s
  unfolding keep_extended
  keep-gone x s e = ground arith

  keep-there :
      (x : ℕ) (s : List ℕ) {u : BftUnit}
      → BTreeMap.get x extended ≡ some u
      → keep_extended extended (x ∷ s) ≡ x ∷ keep_extended extended s
  unfolding keep_extended
  keep-there x s e = ground arith

  keep_nil : keep_extended extended [] ≡ []
  unfolding keep_extended
  keep_nil = refl

  pub keep-In :
      (h : ℕ) (s : List ℕ)
      → BTreeSet.contains h s ≡ true
      → contains_key h extended ≡ true
      → In h (keep_extended extended s)
  keep-In h [] m k = unfold BTreeSet.contains in cc
  keep-In h (x ∷ s) m k = elim (contains-cons h x s m) [
    | inl e ↦
        let (u, there) = BTreeMap.contains_key→get x extended (rw e at k) in
        rw (keep-there x s there) (inl e)
    | inr m' ↦ elim (Option-cases (BTreeMap.get x extended)) [
      | inl gone ↦ rw (keep-gone x s gone) (keep-In h s m' k)
      | inr (u, there) ↦ rw (keep-there x s there) (inr (keep-In h s m' k))
    ]
  ]

  pub keep-All :
      (P : ℕ → Type 0) (s : List ℕ)
      → ((h : ℕ) → BTreeSet.contains h s ≡ true → contains_key h extended ≡ true → P h)
      → All P (keep_extended extended s)
  keep-All P [] f = rw keep_nil tt
  keep-All P (x ∷ s) f =
      let rest = keep-All P s (λ h m k. f h (contains-tail h x s m) k) in
      elim (Option-cases (BTreeMap.get x extended)) [
        | inl gone ↦ rw (keep-gone x s gone) rest
        | inr (u, there) ↦
            rw (keep-there x s there)
              (f x (contains-head x s) (BTreeMap.get→contains_key x u extended there), rest)
      ]

  raise : (lo hi : ℕ) (s : List ℕ) → lo ≤ hi → BTreeSet.SortedFrom hi s → BTreeSet.SortedFrom lo s
  raise lo hi [] l h = tt
  raise lo hi (x ∷ s) l h = (omega arith, h.1)

  pub keep-SortedFrom :
      (lo : ℕ) (s : List ℕ)
      → BTreeSet.SortedFrom lo s
      → BTreeSet.SortedFrom lo (keep_extended extended s)
  keep-SortedFrom lo [] h = rw keep_nil tt
  keep-SortedFrom lo (x ∷ s) h =
      let rest = keep-SortedFrom (suc x) s h.1 in
      elim (Option-cases (BTreeMap.get x extended)) [
        | inl gone ↦
            rw (keep-gone x s gone) (raise lo (suc x) (keep_extended extended s) (omega arith) rest)
        | inr (u, there) ↦ rw (keep-there x s there) (h.0, rest)
      ]
