-- ===== src/Mint/Votes.antt =====
-- The block height and the version that a mint agrees on: picomint-node-daemon/src/consensus/db.rs.
use picomint.Prelude.{
  ℕ, zero, suc, ◌+◌, ◌-◌, ◌≤◌, ◌<◌, ◌≡◌, refl, Bool, Option, none, some, List, [], ◌∷◌, length,
  count, get_elem?, leb, ltb, arith, ◌∙◌, ap, if◌then◌else◌,
}
use picomint.Collections.BTreeMap.{BTreeMap, values}
use picomint.Nodes.{NumNodes, total, max_evil, threshold}

-- `sort_unstable` and `reverse`: the greatest first.
unfoldable pub insert_descending : ℕ → List ℕ → List ℕ
insert_descending x [] = x ∷ []
insert_descending x (y ∷ ys) = if leb y x then x ∷ y ∷ ys else y ∷ insert_descending x ys

unfoldable pub sort_descending : List ℕ → List ℕ
sort_descending [] = []
sort_descending (x ∷ xs) = insert_descending x (sort_descending xs)

abbrev pub nth_or : ℕ → List ℕ → ℕ → ℕ
nth_or default xs k = elim (get_elem? xs k) [ none ↦ default | some x ↦ x ]

-- `consensus_block_height`; `none` is the failed assertion that there are no more votes than nodes.
unfoldable pub consensus_block_height : NumNodes → BTreeMap ℕ → Option ℕ
consensus_block_height n votes =
    if leb (length (values votes)) (total n)
    then some (nth_or 0 (sort_descending (values votes)) (threshold n - 1))
    else none

-- The padding of `consensus_version`: `fuel` versions more.
unfoldable pub pad : ℕ → ℕ → List ℕ → List ℕ
pad zero version versions = versions
pad (suc fuel) version versions = version ∷ pad fuel version versions

-- `sort_unstable`: the least first.
unfoldable pub insert_ascending : ℕ → List ℕ → List ℕ
insert_ascending x [] = x ∷ []
insert_ascending x (y ∷ ys) = if leb x y then x ∷ y ∷ ys else y ∷ insert_ascending x ys

unfoldable pub sort_ascending : List ℕ → List ℕ
sort_ascending [] = []
sort_ascending (x ∷ xs) = insert_ascending x (sort_ascending xs)

-- The votes of `consensus_version`, with the default for the nodes that have not voted.
abbrev pub all_versions : NumNodes → ℕ → BTreeMap ℕ → List ℕ
all_versions n default_version votes =
    pad (total n - length (values votes)) default_version (values votes)

-- `consensus_version`; `none` is an index out of range.
unfoldable pub consensus_version : NumNodes → ℕ → BTreeMap ℕ → Option ℕ
consensus_version n default_version votes =
    get_elem? (sort_ascending (all_versions n default_version votes)) (max_evil n)

abbrev Descends : ℕ → List ℕ → Type 0
Descends top [] = Unit
Descends top (x ∷ xs) = (x ≤ top) × Descends x xs

insert-Descends :
    (top x : ℕ) (xs : List ℕ) → x ≤ top → Descends top xs → Descends top (insert_descending x xs)
unfolding insert_descending
insert-Descends top x [] l d = (l, tt)
insert-Descends top x (y ∷ ys) l d = ground (arith, insert-Descends y x ys)

abbrev top_of : List ℕ → ℕ
top_of [] = 0
top_of (x ∷ xs) = x + top_of xs

raise-Descends : (a b : ℕ) (xs : List ℕ) → a ≤ b → Descends a xs → Descends b xs
raise-Descends a b [] l d = tt
raise-Descends a b (x ∷ xs) l d = (omega arith, d.1)

sort-Descends : (xs : List ℕ) → Descends (top_of xs) (sort_descending xs)
unfolding sort_descending
sort-Descends [] = tt
sort-Descends (x ∷ xs) = insert-Descends (x + top_of xs) x (sort_descending xs) (omega arith) (
    raise-Descends (top_of xs) (x + top_of xs) (sort_descending xs) (omega arith)
      (sort-Descends xs))

count-insert :
    (p : ℕ → Bool) (x : ℕ) (xs : List ℕ) → count p (insert_descending x xs) ≡ count p (x ∷ xs)
unfolding insert_descending
count-insert p x [] = refl
count-insert p x (y ∷ ys) = ground (arith, count-insert p x ys)

count-sort : (p : ℕ → Bool) (xs : List ℕ) → count p (sort_descending xs) ≡ count p xs
unfolding sort_descending
count-sort p [] = refl
count-sort p (x ∷ xs) = count-insert p x (sort_descending xs) ∙ ground (arith, count-sort p xs)

count-below : (x top : ℕ) (xs : List ℕ) → top < x → Descends top xs → count (λ v. leb x v) xs ≡ 0
count-below x top [] l d = refl
count-below x top (y ∷ ys) l d = ground (arith, count-below x y ys)

-- Of a descending list, at least `k + 1` members reach `x` if the one at `k` does.
nth-count :
    (x top k : ℕ) (xs : List ℕ)
    → 0 < x
    → Descends top xs
    → leb x (nth_or 0 xs k) ≡ leb (suc k) (count (λ v. leb x v) xs)
nth-count x top k [] pos d = ground arith
nth-count x top zero (y ∷ ys) pos d = ground (arith, count-below x y ys)
nth-count x top (suc k) (y ∷ ys) pos d =
    ground (arith, nth-count x y k ys pos d.1, count-below x y ys)

-- With no more votes than nodes a mint has a block height, and it has reached the height `x`, for any `x`
-- above 0, just if a threshold of its nodes have voted for `x` or more.
pub consensus_block_height-count :
    (n : NumNodes) (votes : BTreeMap ℕ) (x : ℕ)
    → length (values votes) ≤ total n
    → 0 < x
    → (h : ℕ) × (consensus_block_height n votes ≡ some h)
      × (leb x h ≡ leb (threshold n) (count (λ v. leb x v) (values votes)))
unfolding consensus_block_height
consensus_block_height-count n votes x few pos =
    let sorted = sort_descending (values votes) in
    let one_more : suc (threshold n - 1) ≡ threshold n = omega arith in
    (
      nth_or 0 sorted (threshold n - 1),
      ground arith,
      nth-count x (top_of (values votes)) (threshold n - 1) sorted pos
            (sort-Descends (values votes))
          ∙ ap (λ k. leb k (count (λ v. leb x v) sorted)) one_more
          ∙ ap (leb (threshold n)) (count-sort (λ v. leb x v) (values votes)),
    )

abbrev pub Ascends : ℕ → List ℕ → Type 0
Ascends low [] = Unit
Ascends low (x ∷ xs) = (low ≤ x) × Ascends x xs

insert-Ascends :
    (low x : ℕ) (xs : List ℕ) → low ≤ x → Ascends low xs → Ascends low (insert_ascending x xs)
unfolding insert_ascending
insert-Ascends low x [] l d = (l, tt)
insert-Ascends low x (y ∷ ys) l d = ground (arith, insert-Ascends y x ys)

pub sort-Ascends : (xs : List ℕ) → Ascends 0 (sort_ascending xs)
unfolding sort_ascending
sort-Ascends [] = tt
sort-Ascends (x ∷ xs) = insert-Ascends 0 x (sort_ascending xs) (omega arith) (sort-Ascends xs)

count-insert_ascending :
    (p : ℕ → Bool) (x : ℕ) (xs : List ℕ) → count p (insert_ascending x xs) ≡ count p (x ∷ xs)
unfolding insert_ascending
count-insert_ascending p x [] = refl
count-insert_ascending p x (y ∷ ys) = ground (arith, count-insert_ascending p x ys)

pub count-sort_ascending : (p : ℕ → Bool) (xs : List ℕ) → count p (sort_ascending xs) ≡ count p xs
unfolding sort_ascending
count-sort_ascending p [] = refl
count-sort_ascending p (x ∷ xs) =
    count-insert_ascending p x (sort_ascending xs) ∙ ground (arith, count-sort_ascending p xs)

length-insert_ascending : (x : ℕ) (xs : List ℕ) → length (insert_ascending x xs) ≡ suc (length xs)
unfolding insert_ascending
length-insert_ascending x [] = refl
length-insert_ascending x (y ∷ ys) = ground (arith, length-insert_ascending x ys)

pub length-sort_ascending : (xs : List ℕ) → length (sort_ascending xs) ≡ length xs
unfolding sort_ascending
length-sort_ascending [] = refl
length-sort_ascending (x ∷ xs) =
    length-insert_ascending x (sort_ascending xs) ∙ ap suc (length-sort_ascending xs)

length-pad : (k v : ℕ) (xs : List ℕ) → length (pad k v xs) ≡ k + length xs
unfolding pad
length-pad zero v xs = omega arith
length-pad (suc k) v xs = omega (arith, length-pad k v xs)

count-above : (x low : ℕ) (xs : List ℕ) → x ≤ low → Ascends low xs → count (λ v. ltb v x) xs ≡ 0
count-above x low [] l d = refl
count-above x low (y ∷ ys) l d = ground (arith, count-above x y ys)

-- Of an ascending list, the member at `k` reaches `x` if at most `k` members are below `x`.
pub elem-count :
    (x low k : ℕ) (xs : List ℕ)
    → Ascends low xs
    → k < length xs
    → (v : ℕ) × (get_elem? xs k ≡ some v) × (low ≤ v) × (leb x v ≡ leb (count (λ w. ltb w x) xs) k)
elem-count x low k [] d l = absurd (omega arith)
elem-count x low zero (y ∷ ys) d l = (y, refl, d.0, ground (arith, count-above x y ys))
elem-count x low (suc k) (y ∷ ys) d l =
    let (v, e, above, same) = elem-count x y k ys d.1 (omega arith) in
    (v, e, omega (arith, d.0), ground (arith, count-above x y ys))

-- A mint always has a version, and it has reached the version `x` just if at most `f` of its nodes, taken
-- at the default where they have not voted, are below `x`.
pub consensus_version-count :
    (n : NumNodes) (default_version : ℕ) (votes : BTreeMap ℕ) (x : ℕ)
    → (v : ℕ) × (consensus_version n default_version votes ≡ some v)
      × (leb x v ≡ leb (count (λ w. ltb w x) (all_versions n default_version votes)) (max_evil n))
unfolding consensus_version
consensus_version-count n default_version votes x =
    let versions = all_versions n default_version votes in
    let padded = length-pad (total n - length (values votes)) default_version (values votes) in
    let (v, e, _, same) =
      elem-count x 0 (max_evil n) (sort_ascending versions) (sort-Ascends versions)
        (omega (arith, length-sort_ascending versions)) in
    (v, e, same ∙ ap (λ c. leb c (max_evil n)) (count-sort_ascending (λ w. ltb w x) versions))
