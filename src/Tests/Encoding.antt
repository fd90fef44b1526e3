-- ===== src/Tests/Encoding.antt =====
-- Runs of the theorems on the encoding and on key ranges.
use picomint.Prelude.{ℕ, ◌<◌, ◌^◌, ◌≡◌, refl, ◌&&◌, some, List, [], ◌∷◌, ◌++◌, leb, ltb, arith}
use picomint.Encoding.Integers.{int, int-IsCanonical, to_be_bytes}
use picomint.Encoding.Sequences.{encode_length, encode_items}
use picomint.Encoding.Maps.{Order, IsOrder, btree_map}
use picomint.Base32.{encode_bytes, decode_bytes}
use picomint.Base32.RoundTrip.{decode_bytes-encode_bytes}
use picomint.Encoding.Entries.{btree_map-IsCanonical}
use picomint.Database.Ranges.{
  Bound, included, excluded, contains, starts_with, prefix_bounds, encoded_bounds,
}
use picomint.Database.Prefixes.{prefix_bounds-starts_with}
use picomint.Database.Scans.{encoded_bounds-contains}

abbrev by_number : Order ℕ
by_number = record { leb = leb }

by_number-IsOrder : IsOrder by_number
by_number-IsOrder = record {
  total = λ a b h. ground (arith, h);
  trans = λ a b c h g. ground (arith, h, g);
}

-- Two entries from u8 to u16, and a byte that follows.
btree_map-IsCanonical_example :
    (btree_map by_number (int 1) (int 2)).decode_partial
      ((0 ∷ 0 ∷ 0 ∷ 2 ∷ 5 ∷ 1 ∷ 0 ∷ 9 ∷ 0 ∷ 3 ∷ []) ++ (7 ∷ []))
    ≡ some ((5, 256) ∷ (9, 3) ∷ [], 7 ∷ [])
unfolding to_be_bytes encode_length encode_items
btree_map-IsCanonical_example =
    (btree_map-IsCanonical by_number (λ n. n < 256 ^ 1) (λ n. n < 256 ^ 2) (int 1) (int 2)
        by_number-IsOrder (int-IsCanonical 1) (int-IsCanonical 2)).decode_encoded
      ((5, 256) ∷ (9, 3) ∷ []) (0 ∷ 0 ∷ 0 ∷ 2 ∷ 5 ∷ 1 ∷ 0 ∷ 9 ∷ 0 ∷ 3 ∷ []) (7 ∷ [])
      (((refl, tt), (tt, tt)), ((omega arith, omega arith), ((omega arith, omega arith), tt))) refl

prefix_bounds-starts_with_example :
    contains (prefix_bounds (7 ∷ 255 ∷ [])) (7 ∷ 255 ∷ 0 ∷ [])
    ≡ starts_with (7 ∷ 255 ∷ []) (7 ∷ 255 ∷ 0 ∷ [])
prefix_bounds-starts_with_example =
    prefix_bounds-starts_with (7 ∷ 255 ∷ []) (7 ∷ 255 ∷ 0 ∷ []) (omega arith, (omega arith, tt))
      (omega arith, (omega arith, (omega arith, tt)))

encoded_bounds-contains_example :
    (bounds : Bound (List ℕ) × Bound (List ℕ)) × (encoded_bounds
        (int 2)
        (included 255, excluded 300)
      ≡ some bounds)
    × (contains bounds (to_be_bytes 2 256) ≡ (leb 255 256 && ltb 256 300))
encoded_bounds-contains_example =
    encoded_bounds-contains 2 255 300 256 (omega arith) (omega arith) (omega arith)

decode_bytes-encode_bytes_example :
    decode_bytes (encode_bytes (80 ∷ 171 ∷ 63 ∷ [])) ≡ some (80 ∷ 171 ∷ 63 ∷ [])
decode_bytes-encode_bytes_example =
    decode_bytes-encode_bytes (80 ∷ 171 ∷ 63 ∷ []) (omega arith, (omega arith, (omega arith, tt)))
