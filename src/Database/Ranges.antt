-- ===== src/Database/Ranges.antt =====
-- Key ranges of picomint-redb/src/lib.rs. The store orders keys by their bytes.
use picomint.Prelude.{
  ℕ, ◌+◌, Bool, true, false, not, ◌&&◌, ◌||◌, Option, none, some, List, [], ◌∷◌, ltb, ◌==◌,
  if◌then◌else◌, ◌>>=◌,
}
use mathlib.Core.List.{reverse}
use picomint.Encoding.Codec.{Codec}

-- `std::ops::Bound`
pub data Bound {ℓ} (A : Type ℓ) : Type ℓ where
  included : A → Bound A
  excluded : A → Bound A
  unbounded : Bound A

-- `<` of byte strings.
unfoldable pub bytes_ltb : List ℕ → List ℕ → Bool
bytes_ltb [] [] = false
bytes_ltb [] (y ∷ ys) = true
bytes_ltb (x ∷ xs) [] = false
bytes_ltb (x ∷ xs) (y ∷ ys) = ltb x y || (x == y && bytes_ltb xs ys)

-- `RangeBounds::contains` on byte strings.
abbrev pub above : Bound (List ℕ) → List ℕ → Bool
above (included low) key = not (bytes_ltb key low)
above (excluded low) key = bytes_ltb low key
above unbounded key = true

abbrev pub under : Bound (List ℕ) → List ℕ → Bool
under (included high) key = not (bytes_ltb high key)
under (excluded high) key = bytes_ltb key high
under unbounded key = true

abbrev pub contains : Bound (List ℕ) × Bound (List ℕ) → List ℕ → Bool
contains (low, high) key = above low key && under high key

-- `starts_with`
unfoldable pub starts_with : List ℕ → List ℕ → Bool
starts_with [] key = true
starts_with (b ∷ bytes) [] = false
starts_with (b ∷ bytes) (k ∷ key) = k == b && starts_with bytes key

-- `encoded_bounds`; `none` is a failed `expect`.
abbrev pub encode_bound {ℓ} : {K : Type ℓ} → Codec K → Bound K → Option (Bound (List ℕ))
encode_bound key (included k) = key.encode k >>= λ bytes. some (included bytes)
encode_bound key (excluded k) = key.encode k >>= λ bytes. some (excluded bytes)
encode_bound key unbounded = some unbounded

abbrev pub encoded_bounds {ℓ} :
    {K : Type ℓ} → Codec K → Bound K × Bound K → Option (Bound (List ℕ) × Bound (List ℕ))
encoded_bounds key range =
    encode_bound key range.0 >>= λ low. encode_bound key range.1 >>= λ high. some (low, high)

-- The loop of `prefix_upper_bound`, on the bytes from the last to the first.
unfoldable pub upper_loop : List ℕ → Option (List ℕ)
upper_loop [] = none
upper_loop (last ∷ front) =
    if ltb last 255 then some (reverse ((last + 1) ∷ front)) else upper_loop front

abbrev pub prefix_upper_bound : List ℕ → Option (List ℕ)
prefix_upper_bound prefix = upper_loop (reverse prefix)

abbrev pub prefix_bounds : List ℕ → Bound (List ℕ) × Bound (List ℕ)
prefix_bounds prefix = (
  included prefix,
  elim (prefix_upper_bound prefix) [ some bound ↦ excluded bound | none ↦ unbounded ],
)
