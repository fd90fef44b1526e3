-- ===== src/Database/Prefixes.antt =====
-- What `prefix_bounds` of picomint-redb/src/lib.rs covers.
use picomint.Prelude.{
  ℕ, ◌+◌, ◌≡◌, refl, ap, ◌∙◌, false, not, ◌&&◌, Option, none, some, List, [], ◌∷◌, ◌++◌, All, ltb,
  if◌then◌else◌, arith, Bool-cases, Option-cases, inl, inr,
}
use mathlib.Core.List.{reverse, reverse-append, reverse-reverse}
use picomint.Encoding.Codec.{IsByte}
use picomint.Database.Ranges.{
  excluded, unbounded, bytes_ltb, under, contains, starts_with, upper_loop, prefix_upper_bound,
  prefix_bounds,
}

-- The upper bound by recursion from the first byte.
unfoldable bumped : List ℕ → Option (List ℕ)
bumped [] = none
bumped (b ∷ bytes) = elim (bumped bytes) [
  | some bound ↦ some (b ∷ bound)
  | none ↦ if ltb b 255 then some ((b + 1) ∷ []) else none
]

bumped-append :
    (bytes : List ℕ) (b : ℕ)
    → bumped (bytes ++ (b ∷ []))
      ≡ (if ltb b 255 then some (bytes ++ ((b + 1) ∷ [])) else bumped bytes)
unfolding bumped
bumped-append [] b = refl
bumped-append (x ∷ bytes) b = elim (Bool-cases (ltb b 255)) [
  | inl low ↦ ground (arith, low, bumped-append bytes b)
  | inr high ↦ ground (arith, high, bumped-append bytes b)
]

upper_loop-bumped : (bytes : List ℕ) → upper_loop bytes ≡ bumped (reverse bytes)
unfolding upper_loop
upper_loop-bumped [] = unfold bumped in refl
upper_loop-bumped (last ∷ front) =
    rw
      (
        reverse-append (last ∷ []) front,
        reverse-append ((last + 1) ∷ []) front,
        bumped-append (reverse front) last,
      )
      (rw (upper_loop-bumped front) refl)

-- No byte string is below the empty one.
bytes_ltb_nil : (bytes : List ℕ) → bytes_ltb bytes [] ≡ false
unfolding bytes_ltb
bytes_ltb_nil [] = refl
bytes_ltb_nil (b ∷ bytes) = refl

bumped-starts_with :
    (bytes key : List ℕ)
    → All IsByte bytes
    → All IsByte key
    → (not (bytes_ltb key bytes)
        && under (elim (bumped bytes) [ some bound ↦ excluded bound | none ↦ unbounded ]) key)
      ≡ starts_with bytes key
unfolding bumped bytes_ltb starts_with
bumped-starts_with [] [] h g = refl
bumped-starts_with [] (k ∷ key) h g = refl
bumped-starts_with (b ∷ bytes) [] h g = refl
bumped-starts_with (b ∷ bytes) (k ∷ key) h g =
    let rest = bumped-starts_with bytes key h.1 g.1 in
    elim (Option-cases (bumped bytes)) [
      | inl full ↦ elim (Bool-cases (ltb b 255)) [
        | inl low ↦ ground (arith, full, rest, low, bytes_ltb_nil key)
        | inr high ↦ ground (arith, full, rest, high, h.0, g.0)
      ]
      | inr (bound, more) ↦ ground (arith, more, rest)
    ]

-- The bounds of a prefix hold just the keys that start with it.
pub prefix_bounds-starts_with :
    (prefix key : List ℕ)
    → All IsByte prefix
    → All IsByte key
    → contains (prefix_bounds prefix) key ≡ starts_with prefix key
prefix_bounds-starts_with prefix key h g =
    let same : prefix_upper_bound prefix ≡ bumped prefix =
      upper_loop-bumped (reverse prefix) ∙ ap bumped (reverse-reverse prefix) in
    ap
      (λ z.
        not (bytes_ltb key prefix)
        && under (elim z [ some bound ↦ excluded bound | none ↦ unbounded ]) key)
      same
    ∙ bumped-starts_with prefix key h g
