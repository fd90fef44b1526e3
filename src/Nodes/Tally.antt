-- ===== src/Nodes/Tally.antt =====
-- How many of the node ids below a bound satisfy a test.
use picomint.Prelude.{
  ℕ, zero, suc, ◌+◌, ◌*◌, ◌≤◌, ◌<◌, ◌≡◌, refl, Bool, true, false, ◌||◌, [], ◌∷◌, arith, ◌==◌, All,
  length, not, ◌&&◌, Bool-cases, inl, inr,
}
use picomint.Collections.BTreeMap
use picomint.Collections.BTreeMap.{BTreeMap, contains_key, SortedFrom}

unfoldable pub tally : ℕ → (ℕ → Bool) → ℕ
tally zero p = 0
tally (suc n) p = elim (p n) [ true ↦ suc (tally n p) | false ↦ tally n p ]

pub tally_grows :
    (n : ℕ) (p q : ℕ → Bool) → ((i : ℕ) → p i ≡ true → q i ≡ true) → tally n p ≤ tally n q
unfolding tally
tally_grows zero p q h = omega arith
tally_grows (suc n) p q h = ground (arith, tally_grows n p q h, h n)

tally_same : (n : ℕ) (p q : ℕ → Bool) → ((i : ℕ) → i < n → p i ≡ q i) → tally n p ≡ tally n q
unfolding tally
tally_same zero p q h = refl
tally_same (suc n) p q h =
    ground (arith, tally_same n p q (λ i l. h i (omega arith)), h n (omega arith))

tally-add :
    (n k : ℕ) (p : ℕ → Bool) → k < n → p k ≡ false → tally n (λ i. k == i || p i) ≡ suc (tally n p)
unfolding tally
tally-add zero k p l e = absurd (omega arith)
tally-add (suc n) k p l e = elim (Bool-cases (k == n)) [
  | inl h ↦ ground (arith, tally_same n (λ i. k == i || p i) p (λ i l'. ground arith))
  | inr h ↦ ground (arith, tally-add n k p)
]

contains_key-cons {ℓ} :
    {V : Type ℓ} (k i : ℕ) (v : V) (m : BTreeMap V)
    → (k == i || contains_key i m) ≡ contains_key i ((k, v) ∷ m)
unfolding BTreeMap.get
contains_key-cons k i v m = ground arith

fresh-contains_key {ℓ} :
    {V : Type ℓ} (k : ℕ) (v : V) (m : BTreeMap V) → SortedFrom (suc k) m → contains_key k m ≡ false
fresh-contains_key k v m s = rw (BTreeMap.get-eq_none (suc k) k m (omega arith) s, contains_key)

-- A map with keys below `n` has at most as many entries as there are keys below `n`.
pub tally-Sorted {ℓ} :
    {V : Type ℓ} (n lo : ℕ) (m : BTreeMap V)
    → SortedFrom lo m
    → All (λ e. e.0 < n) m
    → length m ≤ tally n (λ i. contains_key i m)
tally-Sorted n lo [] s h = omega arith
tally-Sorted n lo ((k, v) ∷ m) s h = omega (
  arith,
  tally-Sorted n (suc k) m s.1 h.1,
  tally-add n k (λ i. contains_key i m) h.0 (fresh-contains_key k v m s.1),
  tally_same n (λ i. k == i || contains_key i m) (λ i. contains_key i ((k, v) ∷ m))
      (λ i l. contains_key-cons k i v m),
)

tally-split :
    (n : ℕ) (p q h : ℕ → Bool)
    → tally n p + tally n q ≤ n + tally n (λ i. p i && q i && h i) + tally n (λ i. not (h i))
unfolding tally
tally-split zero p q h = omega arith
tally-split (suc n) p q h = ground (arith, tally-split n p q h)

tally_find : (n : ℕ) (p : ℕ → Bool) → 0 < tally n p → (i : ℕ) × (i < n) × (p i ≡ true)
unfolding tally
tally_find zero p h = absurd (omega arith)
tally_find (suc n) p h = elim (Bool-cases (p n)) [
  | inl e ↦ (n, omega arith, e)
  | inr e ↦ let (i, l, e') = tally_find n p (ground arith) in (i, omega arith, e')
]

-- Two quorums of `2f + 1` out of `3f + 1` nodes share an honest node, if at most `f` are not.
pub quorums_meet :
    (f : ℕ) (p q honest : ℕ → Bool)
    → 2 * f + 1 ≤ tally (3 * f + 1) p
    → 2 * f + 1 ≤ tally (3 * f + 1) q
    → tally (3 * f + 1) (λ i. not (honest i)) ≤ f
    → (i : ℕ) × (p i ≡ true) × (q i ≡ true) × (honest i ≡ true)
quorums_meet f p q honest hp hq few =
    let n : ℕ = 3 * f + 1 in
    let (i, l, e) =
      tally_find n (λ i. p i && q i && honest i) (omega (arith, tally-split n p q honest)) in
    (i, ground arith, ground arith, ground arith)
