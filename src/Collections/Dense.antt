-- ===== src/Collections/Dense.antt =====
-- Maps whose keys are consecutive: tables that rows are appended to.
use picomint.Prelude.{
  ℕ, zero, suc, false, if◌then◌else◌, ◌+◌, ◌-◌, ◌≤◌, ◌<◌, ◌≡◌, refl, none, [], ◌∷◌, ◌++◌, length,
  get_elem?, All, leb, ltb, ◌&&◌, arith, ap, inl, inr, Bool-cases,
}
use mathlib.Core.Path.{subst}
use picomint.Collections.BTreeMap
use picomint.Collections.BTreeMap.{BTreeMap, values}

-- The positions are `k`, `k + 1` and so on.
abbrev pub Dense : {A : Type 0} → ℕ → BTreeMap A → Type 0
Dense k [] = Unit
Dense k ((j, v) ∷ m) = (j ≡ k) × Dense (k + 1) m

-- A row at the next position comes last.
pub insert_next :
    {A : Type 0} (k at : ℕ) (m : BTreeMap A) (v : A)
    → Dense k m
    → at ≡ k + length m
    → Dense k (BTreeMap.insert at v m)
      × (values (BTreeMap.insert at v m) ≡ values m ++ (v ∷ []))
      × (length (BTreeMap.insert at v m) ≡ length m + 1)
unfolding BTreeMap.insert
insert_next k at [] v d e = ((omega arith, tt), refl, refl)
insert_next k at ((j, w) ∷ m) v d e =
    let (dense, vals, len) = insert_next (k + 1) at m v d.1 (omega arith) in
    let later : BTreeMap.insert at v ((j, w) ∷ m) ≡ (j, w) ∷ BTreeMap.insert at v m =
      ground (arith, d.0) in
    rw later ((d.0, dense), ap (λ l. w ∷ l) vals, omega (arith, len))

pub insert-append :
    {A : Type 0} (k at : ℕ) (m : BTreeMap A) (v : A)
    → Dense k m
    → at ≡ k + length m
    → BTreeMap.insert at v m ≡ m ++ ((at, v) ∷ [])
unfolding BTreeMap.insert
insert-append k at [] v d e = refl
insert-append k at ((j, w) ∷ m) v d e =
    ground (arith, d.0, insert-append (k + 1) at m v d.1 (omega arith))

pub length-values : {A : Type 0} (m : BTreeMap A) → length (values m) ≡ length m
length-values [] = refl
length-values (e ∷ m) = ap suc (length-values m)

length-range-le :
    {A : Type 0} (lo hi : ℕ) (m : BTreeMap A) → length (BTreeMap.range lo hi m) ≤ length m
unfolding BTreeMap.range
length-range-le lo hi [] = omega arith
length-range-le lo hi ((j, v) ∷ m) =
    let rest = length-range-le lo hi m in
    elim (Bool-cases (leb lo j && ltb j hi)) [
      | inl inside ↦ rw inside (omega arith)
      | inr outside ↦ rw outside (omega arith)
    ]

-- A range of consecutive keys that is full ends within the map.
pub length-range :
    {A : Type 0} (k lo hi : ℕ) (m : BTreeMap A)
    → Dense k m
    → length (BTreeMap.range lo hi m) ≤ k + length m - lo
unfolding BTreeMap.range
length-range k lo hi [] d = omega arith
length-range k lo hi ((j, v) ∷ m) d =
    let rest = length-range (k + 1) lo hi m d.1 in
    let short = length-range-le lo hi m in
    elim (Bool-cases (leb lo j && ltb j hi)) [
      | inl inside ↦ rw inside (let low : lo ≤ j = ground arith in omega (arith, d.0))
      | inr outside ↦ rw outside (omega arith)
    ]

-- What holds of all rows holds of those in a range, whose keys lie in it.
pub All-range {κ} :
    {A : Type 0} (P : ℕ × A → Type κ) (lo hi : ℕ) (m : BTreeMap A)
    → All P m
    → All (λ (e : ℕ × A). P e × (lo ≤ e.0) × (e.0 < hi)) (BTreeMap.range lo hi m)
unfolding BTreeMap.range
All-range P lo hi [] h = tt
All-range P lo hi ((j, v) ∷ m) h = elim (Bool-cases (leb lo j && ltb j hi)) [
  | inl inside ↦ rw inside ((h.0, ground arith, ground arith), All-range P lo hi m h.1)
  | inr outside ↦ rw outside (All-range P lo hi m h.1)
]

pub Dense-get :
    {A : Type 0} (k i : ℕ) (m : BTreeMap A)
    → Dense k m
    → BTreeMap.get (k + i) m ≡ get_elem? (values m) i
unfolding BTreeMap.get
Dense-get k i [] d = refl
Dense-get k zero ((j, v) ∷ m) d = ground (arith, d.0)
Dense-get k (suc i) ((j, v) ∷ m) d = ground (arith, d.0, Dense-get (k + 1) i m d.1)

pub range-append :
    {A : Type 0} (lo hi : ℕ) (m n : BTreeMap A)
    → BTreeMap.range lo hi (m ++ n) ≡ BTreeMap.range lo hi m ++ BTreeMap.range lo hi n
unfolding BTreeMap.range
range-append lo hi [] n = refl
range-append lo hi ((j, v) ∷ m) n =
    let rest = range-append lo hi m n in
    elim (Bool-cases (leb lo j && ltb j hi)) [
      | inl inside ↦ rw inside (ap (λ l. (j, v) ∷ l) rest)
      | inr outside ↦ rw outside rest
    ]

-- Rows from `hi` on are outside of a range.
pub range-above :
    {A : Type 0} (k lo hi : ℕ) (m : BTreeMap A) → Dense k m → hi ≤ k → BTreeMap.range lo hi m ≡ []
unfolding BTreeMap.range
range-above k lo hi [] d h = refl
range-above k lo hi ((j, v) ∷ m) d h =
    let outside : (leb lo j && ltb j hi) ≡ false = ground (arith, d.0) in
    rw outside (range-above (k + 1) lo hi m d.1 (omega arith))

pub get-range :
    {A : Type 0} (lo hi i : ℕ) (m : BTreeMap A)
    → BTreeMap.get i (BTreeMap.range lo hi m)
      ≡ (if leb lo i && ltb i hi then BTreeMap.get i m else none)
unfolding BTreeMap.range BTreeMap.get
get-range lo hi i [] = ground arith
get-range lo hi i ((j, v) ∷ m) =
    let rest = get-range lo hi i m in
    elim (Bool-cases (leb lo j && ltb j hi)) [
      | inl inside ↦ rw inside (ground arith)
      | inr outside ↦ rw outside (ground arith)
    ]

nil-Dense : {A : Type 0} (k : ℕ) (m : BTreeMap A) → m ≡ [] → Dense k m
nil-Dense k [] e = tt
nil-Dense k (x ∷ m) e = absurd (ground arith)

range-Dense_from :
    {A : Type 0} (k lo hi : ℕ) (m : BTreeMap A)
    → Dense k m
    → lo ≤ k
    → Dense k (BTreeMap.range lo hi m)
unfolding BTreeMap.range
range-Dense_from k lo hi [] d h = tt
range-Dense_from k lo hi ((j, v) ∷ m) d h = elim (Bool-cases (leb lo j && ltb j hi)) [
  | inl inside ↦ rw inside (d.0, range-Dense_from (k + 1) lo hi m d.1 (omega arith))
  | inr outside ↦
      let above : hi ≤ k + 1 = ground (arith, d.0) in
      rw outside (nil-Dense k _ (range-above (k + 1) lo hi m d.1 above))
]

-- A range of consecutive keys is consecutive.
pub range-Dense :
    {A : Type 0} (k lo hi : ℕ) (m : BTreeMap A)
    → Dense k m
    → k ≤ lo
    → Dense lo (BTreeMap.range lo hi m)
unfolding BTreeMap.range
range-Dense k lo hi [] d h = tt
range-Dense k lo hi ((j, v) ∷ m) d h = elim (Bool-cases (leb lo j && ltb j hi)) [
  | inl inside ↦
      let here : j ≡ lo = ground (arith, d.0) in
      rw inside (
        here,
        range-Dense_from (lo + 1) lo hi m (subst (λ i. Dense i m) (omega (arith, d.0)) d.1)
            (omega arith),
      )
  | inr outside ↦ elim (Bool-cases (ltb j lo)) [
    | inl below ↦ rw outside (range-Dense (k + 1) lo hi m d.1 (ground (arith, d.0)))
    | inr above ↦
        let past : hi ≤ k + 1 = ground (arith, d.0) in
        rw outside (nil-Dense lo _ (range-above (k + 1) lo hi m d.1 past))
  ]
]

sorted_room :
    {A : Type 0} (lo hi : ℕ) (m : BTreeMap A)
    → BTreeMap.SortedFrom lo m
    → All (λ (e : ℕ × A). e.0 < hi) m
    → 0 < length m
    → lo + length m ≤ hi
sorted_room lo hi [] s below pos = absurd (omega arith)
sorted_room lo hi ((j, v) ∷ []) s below pos = omega (arith, s.0, below.0)
sorted_room lo hi ((j, v) ∷ x ∷ m) s below pos =
    omega (arith, s.0, sorted_room (suc j) hi (x ∷ m) s.1 below.1 (omega arith))

room_after :
    {A : Type 0} (j hi : ℕ) (m : BTreeMap A)
    → BTreeMap.SortedFrom (suc j) m
    → (j < hi) × All (λ (e : ℕ × A). e.0 < hi) m
    → j + length m < hi
room_after j hi [] s below = omega (arith, below.0)
room_after j hi (x ∷ m) s below =
    omega (arith, sorted_room (suc j) hi (x ∷ m) s below.1 (omega arith))

-- A map in order with as many keys as there are from `lo` to `hi` has them all.
pub full-Dense :
    {A : Type 0} (lo hi : ℕ) (m : BTreeMap A)
    → BTreeMap.SortedFrom lo m
    → All (λ (e : ℕ × A). e.0 < hi) m
    → lo + length m ≡ hi
    → Dense lo m
full-Dense lo hi [] s below len = tt
full-Dense lo hi ((j, v) ∷ m) s below len =
    let more = room_after j hi m s.1 below in
    let here : j ≡ lo = omega (arith, s.0, below.0) in
    (
      here,
      full-Dense (lo + 1) hi m (subst (λ i. BTreeMap.SortedFrom i m) (omega arith) s.1) below.1
          (omega arith),
    )

range-SortedFrom_keep :
    {A : Type 0} (k lo hi : ℕ) (m : BTreeMap A)
    → BTreeMap.SortedFrom k m
    → BTreeMap.SortedFrom k (BTreeMap.range lo hi m)
unfolding BTreeMap.range
range-SortedFrom_keep k lo hi [] s = tt
range-SortedFrom_keep k lo hi ((j, v) ∷ m) s =
    let rest = range-SortedFrom_keep (suc j) lo hi m s.1 in
    elim (Bool-cases (leb lo j && ltb j hi)) [
      | inl inside ↦ rw inside (s.0, rest)
      | inr outside ↦
          rw outside
            (BTreeMap.SortedFrom-mono (suc j) k (BTreeMap.range lo hi m) (omega (arith, s.0)) rest)
    ]

-- A full range of a map in order has all of its keys.
pub range_full-Dense :
    {A : Type 0} (lo hi : ℕ) (m : BTreeMap A)
    → BTreeMap.SortedFrom 0 m
    → lo + length (BTreeMap.range lo hi m) ≡ hi
    → Dense lo (BTreeMap.range lo hi m)
range_full-Dense lo hi m s full =
    let inside = All-range (λ e. Unit {0}) lo hi m (all_of m) in
    full-Dense lo hi (BTreeMap.range lo hi m)
      (raise lo (BTreeMap.range lo hi m) (range-SortedFrom_keep 0 lo hi m s)
        (lows (BTreeMap.range lo hi m) inside))
      (highs (BTreeMap.range lo hi m) inside) full
  where
    all_of : {A : Type 0} (m : BTreeMap A) → All (λ (e : ℕ × A). Unit {0}) m
    all_of [] = tt
    all_of (x ∷ m) = (tt, all_of m)

    lows :
        {A : Type 0} (m : BTreeMap A)
        → All (λ (e : ℕ × A). Unit {0} × (lo ≤ e.0) × (e.0 < hi)) m
        → All (λ (e : ℕ × A). lo ≤ e.0) m
    lows [] h = tt
    lows (x ∷ m) h = (h.0.1, lows m h.1)

    highs :
        {A : Type 0} (m : BTreeMap A)
        → All (λ (e : ℕ × A). Unit {0} × (lo ≤ e.0) × (e.0 < hi)) m
        → All (λ (e : ℕ × A). e.0 < hi) m
    highs [] h = tt
    highs (x ∷ m) h = (h.0.2, highs m h.1)

    raise :
        {A : Type 0} (lo : ℕ) (m : BTreeMap A)
        → BTreeMap.SortedFrom 0 m
        → All (λ (e : ℕ × A). lo ≤ e.0) m
        → BTreeMap.SortedFrom lo m
    raise lo [] s h = tt
    raise lo (x ∷ m) s h = (h.0, s.1)

pub below_Dense :
    {A : Type 0} (k i : ℕ) (m : BTreeMap A) → Dense k m → i < k → BTreeMap.get i m ≡ none
unfolding BTreeMap.get
below_Dense k i [] d h = refl
below_Dense k i ((j, v) ∷ m) d h = ground (arith, d.0, below_Dense (k + 1) i m d.1 (omega arith))
