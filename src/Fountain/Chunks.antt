-- ===== src/Fountain/Chunks.antt =====
-- What `partition` of picomint-fountain/src/fountain.rs makes of a message.
use picomint.Prelude.{
  ℕ, zero, suc, ◌+◌, ◌-◌, ◌*◌, ◌%◌, ◌≤◌, ◌<◌, ◌≡◌, refl, ap, ◌∙◌, List, [], ◌∷◌, ◌++◌, length,
  length-append, take, drop, All, ltb, arith, Bool-cases, inl, inr,
}
use native.Mathlib.Nat.{div-add-mod, mod-lt, mod-eq_of_lt, mod_self}
use picomint.Fountain.Encoder.{div_ceil, zeros, chunks, padded, partition, flatten}

pub length-zeros : (n : ℕ) → length (zeros n) ≡ n
length-zeros zero = refl
length-zeros (suc n) = ap suc (length-zeros n)

take-append_drop : (n : ℕ) (xs : List ℕ) → take n xs ++ drop n xs ≡ xs
take-append_drop zero xs = refl
take-append_drop (suc n) [] = refl
take-append_drop (suc n) (x ∷ xs) = ap (λ z. x ∷ z) (take-append_drop n xs)

length-take : (n : ℕ) (xs : List ℕ) → n ≤ length xs → length (take n xs) ≡ n
length-take zero xs h = refl
length-take (suc n) [] h = absurd (omega arith)
length-take (suc n) (x ∷ xs) h = ap suc (length-take n xs (omega arith))

length-drop : (n : ℕ) (xs : List ℕ) → n ≤ length xs → n + length (drop n xs) ≡ length xs
length-drop zero xs h = omega arith
length-drop (suc n) [] h = absurd (omega arith)
length-drop (suc n) (x ∷ xs) h = omega (arith, length-drop n xs (omega arith))

pub take_whole : (xs ys : List ℕ) → take (length xs) (xs ++ ys) ≡ xs
take_whole [] ys = refl
take_whole (x ∷ xs) ys = ap (λ z. x ∷ z) (take_whole xs ys)

no_parts : (count size : ℕ) → 0 < size → 0 ≡ count * size → 0 ≡ count
no_parts zero size pos h = refl
no_parts (suc count) size pos h = absurd (grind arith)

-- Bytes of `count` times a size are cut into `count` parts of that size.
chunks-parts :
    (fuel size count : ℕ) (xs : List ℕ)
    → 0 < size
    → length xs ≤ fuel
    → length xs ≡ count * size
    → (length (chunks fuel size xs) ≡ count)
      × All (λ (part : List ℕ). length part ≡ size) (chunks fuel size xs)
      × (flatten (chunks fuel size xs) ≡ xs)
unfolding chunks
chunks-parts zero size count [] pos enough whole = (no_parts count size pos whole, tt, refl)
chunks-parts zero size count (x ∷ xs) pos enough whole = absurd (omega arith)
chunks-parts (suc fuel) size count [] pos enough whole = (no_parts count size pos whole, tt, refl)
chunks-parts (suc fuel) size zero (x ∷ xs) pos enough whole = absurd (omega arith)
chunks-parts (suc fuel) size (suc count) (x ∷ xs) pos enough whole =
    let bytes = x ∷ xs in
    let fits : size ≤ length bytes = grind arith in
    let left = length-drop size bytes fits in
    let (counted, sized, joined) =
      chunks-parts fuel size count (drop size bytes) pos (omega arith) (grind arith) in
    (
      ap suc counted,
      (length-take size bytes fits, sized),
      ap (λ z. take size bytes ++ z) joined ∙ take-append_drop size bytes,
    )

length-padded :
    (message : List ℕ) (size : ℕ)
    → 0 < size
    → length (padded message size) ≡ div_ceil (length message) size * size
length-padded message size pos =
    let n = length message in
    let split = div-add-mod n size in
    let small = mod-lt n {m = size} pos in
    let joined = length-append message (zeros ((size - n % size) % size)) in
    let fill = length-zeros ((size - n % size) % size) in
    elim (Bool-cases (ltb 0 (n % size))) [
      | inl more ↦
          let less : (size - n % size) % size ≡ size - n % size = mod-eq_of_lt (ground arith) in
          grind (arith, more, split, small, joined, fill, less)
      | inr whole ↦
          let none_left : n % size ≡ 0 = ground arith in
          let size_left : size - n % size ≡ size = omega arith in
          let full : (size - n % size) % size ≡ 0 = ap (λ z. z % size) size_left ∙ mod_self size in
          grind (arith, whole, split, joined, fill, full)
    ]

-- What `partition` gives: its parts, their size, and the message that they spell.
pub partition-parts :
    (message : List ℕ) (size : ℕ)
    → 0 < size
    → (length (partition message size) ≡ div_ceil (length message) size)
      × All (λ (part : List ℕ). length part ≡ size) (partition message size)
      × (take (length message) (flatten (partition message size)) ≡ message)
partition-parts message size pos =
    let (counted, sized, joined) =
      chunks-parts (length (padded message size)) size (div_ceil (length message) size)
        (padded message size) pos (omega arith) (length-padded message size pos) in
    (counted, sized, ap (take (length message)) joined ∙ take_whole message _)
