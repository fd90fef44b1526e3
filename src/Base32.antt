-- ===== src/Base32.antt =====
-- The base 32 text of picomint-base32/src/lib.rs: `encode_bytes` and `decode_bytes`. A buffer holds fewer bits
-- than are read into it, so that `|=` adds; both loops drain it before it holds more than 12 bits.
pub mod RoundTrip
use picomint.Prelude.{
  ℕ, zero, suc, ◌+◌, ◌-◌, ◌*◌, ◌/◌, ◌%◌, ◌^◌, Option, none, some, List, [], ◌∷◌, ◌++◌, get_elem?,
  ltb, leb, ◌==◌, if◌then◌else◌, ◌>>=◌,
}

-- `RFC4648`: the digits and the letters up to v.
abbrev pub rfc4648 : List ℕ
rfc4648 =
    48 ∷ 49 ∷ 50 ∷ 51 ∷ 52 ∷ 53 ∷ 54 ∷ 55 ∷ 56 ∷ 57 ∷ 97 ∷ 98 ∷ 99 ∷ 100 ∷ 101 ∷ 102 ∷ 103 ∷ 104
    ∷ 105 ∷ 106 ∷ 107 ∷ 108 ∷ 109 ∷ 110 ∷ 111 ∷ 112 ∷ 113 ∷ 114 ∷ 115 ∷ 116 ∷ 117 ∷ 118 ∷ []

-- The character of the table at an index, of which all callers have taken the low 5 bits.
unfoldable pub char_of : ℕ → ℕ
char_of index = elim (get_elem? rfc4648 index) [ some c ↦ c | none ↦ 0 ]

-- `decode_table.get`
abbrev position : ℕ → ℕ → List ℕ → Option ℕ
position c i [] = none
position c i (x ∷ xs) = if x == c then some i else position c (i + 1) xs

unfoldable pub value_of : ℕ → Option ℕ
value_of c = position c 0 rfc4648

-- `while bits >= 5`: the characters, the buffer and its bits.
unfoldable pub drain_digits : ℕ → ℕ → ℕ → List ℕ × ℕ × ℕ
drain_digits zero buffer bits = ([], buffer, bits)
drain_digits (suc fuel) buffer bits =
    let rest = drain_digits fuel (buffer / 32) (bits - 5) in
    if leb 5 bits then (char_of (buffer % 32) ∷ rest.0, rest.1, rest.2) else ([], buffer, bits)

unfoldable pub encode_loop : ℕ → ℕ → List ℕ → List ℕ
encode_loop buffer bits [] = if ltb 0 bits then char_of (buffer % 32) ∷ [] else []
encode_loop buffer bits (byte ∷ bytes) =
    let r = drain_digits 3 (buffer + byte * 2 ^ bits) (bits + 8) in r.0 ++ encode_loop r.1 r.2 bytes

abbrev pub encode_bytes : List ℕ → List ℕ
encode_bytes input = encode_loop 0 0 input

-- `while bits >= 8`
unfoldable pub drain_bytes : ℕ → ℕ → ℕ → List ℕ × ℕ × ℕ
drain_bytes zero buffer bits = ([], buffer, bits)
drain_bytes (suc fuel) buffer bits =
    let rest = drain_bytes fuel (buffer / 256) (bits - 8) in
    if leb 8 bits then (buffer % 256 ∷ rest.0, rest.1, rest.2) else ([], buffer, bits)

-- `none` is a character that is not in the table.
unfoldable pub decode_loop : ℕ → ℕ → List ℕ → Option (List ℕ)
decode_loop buffer bits [] = some []
decode_loop buffer bits (byte ∷ bytes) = value_of byte >>= λ value.
    let r = drain_bytes 2 (buffer + value * 2 ^ bits) (bits + 5) in
    decode_loop r.1 r.2 bytes >>= λ rest. some (r.0 ++ rest)

abbrev pub decode_bytes : List ℕ → Option (List ℕ)
decode_bytes input = decode_loop 0 0 input
