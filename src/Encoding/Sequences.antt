-- ===== src/Encoding/Sequences.antt =====
-- Slices, Vec and arrays in picomint-encoding/src/lib.rs.
use picomint.Prelude.{
  ℕ, zero, suc, ◌^◌, Option, none, some, List, [], ◌∷◌, ◌++◌, length, ltb, if◌then◌else◌, ◌>>=◌,
}
use picomint.Encoding.Codec.{Codec}
use picomint.Encoding.Integers.{int, read_exact}

-- `u32::try_from(len).expect(..).consensus_encode`
unfoldable pub encode_length : ℕ → Option (List ℕ)
encode_length len = if ltb len (2 ^ 32) then (int 4).encode len else none

module _ {A : Type 0} (c : Codec A) where
  -- The loop of `encode` over the items.
  unfoldable pub encode_items : List A → Option (List ℕ)
  encode_items [] = some []
  encode_items (v ∷ vs) =
      c.encode v >>= λ first. encode_items vs >>= λ others. some (first ++ others)

  -- The loop of `decode` that pushes as many items as a length says.
  unfoldable pub decode_items : ℕ → List ℕ → Option (List A × List ℕ)
  decode_items zero bytes = some ([], bytes)
  decode_items (suc len) bytes =
      c.decode_partial bytes >>= λ r. decode_items len r.1 >>= λ s. some (r.0 ∷ s.0, s.1)

  -- `Vec<T>` for a `T` other than `u8`.
  abbrev pub vec : Codec (List A)
  vec = record {
    encode =
        λ vs. encode_length (length vs) >>= λ len. encode_items vs >>= λ items. some (len ++ items);
    decode_partial = λ bytes. (int 4).decode_partial bytes >>= λ len. decode_items len.0 len.1;
  }

  -- `[T; N]` for a `T` other than `u8`.
  abbrev pub array : ℕ → Codec (List A)
  array n = record { encode = encode_items; decode_partial = decode_items n }

-- `Vec<u8>` and `[u8; N]`, which are read and written as a whole.
abbrev pub vec_u8 : Codec (List ℕ)
vec_u8 = record {
  encode = λ bytes. encode_length (length bytes) >>= λ len. some (len ++ bytes);
  decode_partial = λ bytes. (int 4).decode_partial bytes >>= λ len. read_exact len.0 len.1;
}

abbrev pub array_u8 : ℕ → Codec (List ℕ)
array_u8 n = record { encode = λ bytes. some bytes; decode_partial = read_exact n }
