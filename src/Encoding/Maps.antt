-- ===== src/Encoding/Maps.antt =====
-- `BTreeMap` in picomint-encoding/src/lib.rs. A map is the list of its entries, ascending by key.
use picomint.Prelude.{
  ℕ, zero, suc, ◌≡◌, Bool, true, false, Option, none, some, List, [], ◌∷◌, ◌++◌, length, ◌>>=◌,
}
use picomint.Encoding.Codec.{Codec}
use picomint.Encoding.Integers.{int}
use picomint.Encoding.Values.{pair, unit}
use picomint.Encoding.Sequences.{encode_length, encode_items}

-- `Ord` on the keys: `<=`.
pub record Order (K : Type 0) : Type 0 where
  pub leb : K → K → Bool

pub record IsOrder {K : Type 0} (order : Order K) : Type 0 where
  pub total : (a b : K) → order.leb a b ≡ false → order.leb b a ≡ true
  pub trans : (a b c : K) → order.leb a b ≡ true → order.leb b c ≡ true → order.leb a c ≡ true

-- `is_some_and(|prev| k <= prev)`
abbrev pub not_after : {K : Type 0} → Order K → K → Option K → Bool
not_after order k none = false
not_after order k (some prev) = order.leb k prev

module _ {K V : Type 0} (order : Order K) where
  -- `last_key_value`
  unfoldable pub last_key : List (K × V) → Option K
  last_key [] = none
  last_key ((k, v) ∷ []) = some k
  last_key ((k, v) ∷ e ∷ entries) = last_key (e ∷ entries)

  -- `insert`: the map, and whether it held the key.
  unfoldable pub insert : K → V → List (K × V) → List (K × V) × Bool
  insert k v [] = ((k, v) ∷ [], false)
  insert k v ((j, w) ∷ entries) =
      let rest = insert k v entries in
      elim (order.leb k j) [
        | false ↦ ((j, w) ∷ rest.0, rest.1)
        | true ↦ elim (order.leb j k) [
          | true ↦ ((k, v) ∷ entries, true)
          | false ↦ ((k, v) ∷ (j, w) ∷ entries, false)
        ]
      ]

  module _ (key : Codec K) (value : Codec V) where
    -- The loop of `decode`.
    unfoldable pub decode_entries : ℕ → List (K × V) → List ℕ → Option (List (K × V) × List ℕ)
    decode_entries zero entries bytes = some (entries, bytes)
    decode_entries (suc len) entries bytes = key.decode_partial bytes >>= λ r.
        elim (not_after order r.0 (last_key entries)) [
          | true ↦ none
          | false ↦ value.decode_partial r.1 >>= λ s.
              let inserted = insert r.0 s.0 entries in
              elim (inserted.1) [ true ↦ none | false ↦ decode_entries len inserted.0 s.1 ]
        ]

    abbrev pub btree_map : Codec (List (K × V))
    btree_map = record {
      encode = λ entries. encode_length (length entries) >>= λ len.
          encode_items (pair key value) entries >>= λ items. some (len ++ items);
      decode_partial =
          λ bytes. (int 4).decode_partial bytes >>= λ len. decode_entries len.0 [] len.1;
    }

-- `BTreeSet`, which is a map to unit.
abbrev pub btree_set : {K : Type 0} → Order K → Codec K → Codec (List (K × Unit {0}))
btree_set order key = btree_map order key unit
