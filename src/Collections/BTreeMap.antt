-- ===== src/Collections/BTreeMap.antt =====
-- `BTreeMap` with keys that are numbers: entries in ascending order of their keys.
use picomint.Prelude.{
  ℕ, suc, ◌≤◌, ◌<◌, ◌≡◌, refl, Bool, true, false, Option, none, some, List, [], ◌∷◌, arith, ltb,
  leb, ◌&&◌, ◌==◌, if◌then◌else◌, All, Option-cases, ◌⊎◌, inl, inr,
}
use mathlib.Core.Path.{subst₂}

abbrev pub BTreeMap {ℓ} : Type ℓ → Type ℓ
BTreeMap V = List (ℕ × V)

module _ {ℓ} {V : Type ℓ} where
  unfoldable pub get : ℕ → BTreeMap V → Option V
  get k [] = none
  get k ((j, v) ∷ m) = if j == k then some v else get k m

  unfoldable pub insert : ℕ → V → BTreeMap V → BTreeMap V
  insert k v [] = (k, v) ∷ []
  insert k v ((j, w) ∷ m) =
      if j == k then (k, v) ∷ m else if ltb k j then (k, v) ∷ (j, w) ∷ m else (j, w) ∷ insert k v m

  unfoldable pub remove : ℕ → BTreeMap V → BTreeMap V
  remove k [] = []
  remove k ((j, v) ∷ m) = if j == k then remove k m else (j, v) ∷ remove k m

  -- `range(lo..hi)`
  unfoldable pub range : ℕ → ℕ → BTreeMap V → BTreeMap V
  range lo hi [] = []
  range lo hi ((k, v) ∷ m) = if leb lo k && ltb k hi then (k, v) ∷ range lo hi m else range lo hi m

  abbrev pub keys : BTreeMap V → List ℕ
  keys [] = []
  keys ((k, v) ∷ m) = k ∷ keys m

  abbrev pub values : BTreeMap V → List V
  values [] = []
  values ((k, v) ∷ m) = v ∷ values m

  abbrev pub contains_key : ℕ → BTreeMap V → Bool
  contains_key k m = elim (get k m) [ some v ↦ true | none ↦ false ]

  -- The keys ascend strictly from `lo` on, which every map of the standard library keeps.
  abbrev pub SortedFrom : ℕ → BTreeMap V → Type 0
  SortedFrom lo [] = Unit
  SortedFrom lo ((k, v) ∷ m) = (lo ≤ k) × SortedFrom (suc k) m

  pub get-insert :
      (k j : ℕ) (v : V) (m : BTreeMap V)
      → get j (insert k v m) ≡ (if k == j then some v else get j m)
  unfolding get insert
  get-insert k j v [] = refl
  get-insert k j v ((i, w) ∷ m) = ground (arith, get-insert k j v m)

  pub get-remove :
      (k j : ℕ) (m : BTreeMap V) → get j (remove k m) ≡ (if k == j then none else get j m)
  unfolding get remove
  get-remove k j [] = ground arith
  get-remove k j ((i, w) ∷ m) = ground (arith, get-remove k j m)

  pub SortedFrom-mono :
      (lo lo' : ℕ) (m : BTreeMap V) → lo' ≤ lo → SortedFrom lo m → SortedFrom lo' m
  SortedFrom-mono lo lo' [] h s = tt
  SortedFrom-mono lo lo' ((k, v) ∷ m) h s = (omega arith, s.1)

  pub insert-SortedFrom :
      (lo k : ℕ) (v : V) (m : BTreeMap V) → lo ≤ k → SortedFrom lo m → SortedFrom lo (insert k v m)
  unfolding insert
  insert-SortedFrom lo k v [] h s = (h, tt)
  insert-SortedFrom lo k v ((j, w) ∷ m) h s =
      ground (arith, SortedFrom-mono (suc j) (suc k) m, insert-SortedFrom (suc j) k v m)

  -- A key below all others is not there.
  pub get-eq_none : (lo k : ℕ) (m : BTreeMap V) → k < lo → SortedFrom lo m → get k m ≡ none
  unfolding get
  get-eq_none lo k [] h s = refl
  get-eq_none lo k ((j, w) ∷ m) h s = ground (arith, get-eq_none (suc j) k m)

  get-cons :
      (k j : ℕ) (v w : V) (m : BTreeMap V)
      → get k ((j, w) ∷ m) ≡ some v
      → ((j ≡ k) × (w ≡ v)) ⊎ (get k m ≡ some v)
  unfolding get
  get-cons k j v w m e = ground arith

  -- What holds of all entries holds of the one that `get` finds.
  pub All-get {κ} :
      (P : ℕ × V → Type κ) (k : ℕ) (v : V) (m : BTreeMap V) → All P m → get k m ≡ some v → P (k, v)
  All-get P k v [] h e = unfold get in cc
  All-get P k v ((j, w) ∷ m) h e = elim (get-cons k j v w m e) [
    | inl (p, q) ↦ subst₂ (λ i x. P (i, x)) p q h.0
    | inr r ↦ All-get P k v m h.1 r
  ]

  -- The entry of a key that is there, and what then holds of it.
  pub contains_key→get :
      (k : ℕ) (m : BTreeMap V) → contains_key k m ≡ true → (v : V) × (get k m ≡ some v)
  contains_key→get k m h = elim (Option-cases (get k m)) [
    | inl e ↦ absurd (ground arith)
    | inr (v, e) ↦ (v, e)
  ]

  pub get→contains_key :
      (k : ℕ) (v : V) (m : BTreeMap V) → get k m ≡ some v → contains_key k m ≡ true
  get→contains_key k v m e = rw (e, contains_key)
