-- ===== src/Encoding/Lengths.antt =====
-- What the decoders of Vec and arrays in picomint-encoding/src/lib.rs take, and the two ways to read bytes.
use picomint.Prelude.{
  ℕ, zero, suc, ◌^◌, ◌≡◌, refl, sym, ap, ◌∙◌, true, some, List, [], ◌∷◌, ◌++◌, length, All, ltb,
  ◌>>=◌, >>=-eq-some, some_unique, arith, Bool-cases, inl, inr,
}
use mathlib.Core.List.{append_assoc}
use mathlib.Core.Path.{subst}
use picomint.Encoding.Codec.{Codec, IsCanonical, IsByte, All-rest}
use picomint.Encoding.Integers.{int, to_be_bytes, read_exact, int-IsCanonical}
use picomint.Encoding.Tags.{same_parts, byte_value}
use picomint.Encoding.Sequences.{encode_length, encode_items, decode_items, vec, vec_u8, array}

-- A length reads back.
pub length_encoded :
    (len : ℕ) (bytes rest : List ℕ)
    → encode_length len ≡ some bytes
    → (int 4).decode_partial (bytes ++ rest) ≡ some (len, rest)
unfolding encode_length
length_encoded len bytes rest p = elim (Bool-cases (ltb len (2 ^ 32))) [
  | inl small ↦
      let encoded : (int 4).encode len ≡ some bytes = rw small at p in
      (int-IsCanonical 4).decode_encoded len bytes rest (ground arith) encoded
  | inr large ↦ absurd (ground arith)
]

pub length_decoded :
    (len : ℕ) (bytes rest : List ℕ)
    → All IsByte bytes
    → (int 4).decode_partial bytes ≡ some (len, rest)
    → All IsByte rest × (e : List ℕ) × (encode_length len ≡ some e) × (bytes ≡ e ++ rest)
unfolding encode_length
length_decoded len bytes rest h p =
    let (small, e, encoded, split) = (int-IsCanonical 4).encode_decoded len bytes rest h p in
    let fits : ltb len (2 ^ 32) ≡ true = ground arith in
    (All-rest (int 4) (int-IsCanonical 4) len bytes rest h p, e, rw fits encoded, split)

module _ {A : Type 0} (V : A → Type 0) (c : Codec A) (law : IsCanonical c V) where
  pub items_encoded :
      (vs : List A) (bytes rest : List ℕ)
      → All V vs
      → encode_items c vs ≡ some bytes
      → decode_items c (length vs) (bytes ++ rest) ≡ some (vs, rest)
  unfolding encode_items decode_items
  items_encoded [] bytes rest valid p = rw (← some_unique [] bytes refl p) refl
  items_encoded (v ∷ vs) bytes rest valid p =
      let (first, got, fin) = >>=-eq-some (c.encode v) _ p in
      let (others, also, end) = >>=-eq-some (encode_items c vs) _ fin in
      rw
        (
          ← some_unique (first ++ others) bytes refl end,
          append_assoc first others rest,
          law.decode_encoded v first (others ++ rest) valid.0 got,
          items_encoded vs others rest valid.1 also,
        )
        refl

  pub items_decoded :
      (len : ℕ) (vs : List A) (bytes rest : List ℕ)
      → All IsByte bytes
      → decode_items c len bytes ≡ some (vs, rest)
      → (length vs ≡ len)
        × All V vs
        × (e : List ℕ) × (encode_items c vs ≡ some e)
        × (bytes ≡ e ++ rest)
  unfolding encode_items decode_items
  items_decoded zero vs bytes rest h p =
      let (same, after) = same_parts [] vs bytes rest p in
      (
        ap length (sym same),
        subst (All V) same tt,
        [],
        subst (λ z. encode_items c z ≡ some []) same refl,
        after,
      )
  items_decoded (suc len) vs bytes rest h p =
      let (r, got, fin) = >>=-eq-some (c.decode_partial bytes) _ p in
      let (s, also, end) = >>=-eq-some (decode_items c len r.1) _ fin in
      let (same, after) = same_parts (r.0 ∷ s.0) vs s.1 rest end in
      let (valid, e, first, split) = law.encode_decoded r.0 bytes r.1 h got in
      let left = All-rest c law r.0 bytes r.1 h got in
      let (sized, all_valid, f, others, cut) = items_decoded len s.0 r.1 s.1 left also in
      (
        ap length (sym same) ∙ ap suc sized,
        subst (All V) same (valid, all_valid),
        e ++ f,
        subst (λ z. encode_items c z ≡ some (e ++ f)) same (rw (first, others) refl),
        split ∙ ap (λ z. e ++ z) (cut ∙ ap (λ z. f ++ z) after) ∙ sym (append_assoc e f rest),
      )

  pub array-IsCanonical : (n : ℕ) → IsCanonical (array c n) (λ vs. (length vs ≡ n) × All V vs)
  array-IsCanonical n = record {
    decode_encoded = λ vs bytes rest valid p.
        subst (λ z. decode_items c z (bytes ++ rest) ≡ some (vs, rest)) valid.0
          (items_encoded vs bytes rest valid.1 p);
    encode_decoded = λ vs bytes rest h p.
        let (sized, valid, e, items, split) = items_decoded n vs bytes rest h p in
        ((sized, valid), e, items, split);
  }

  -- A sequence that decodes is shorter than 2^32, as one that encodes is.
  pub vec-IsCanonical : IsCanonical (vec c) (All V)
  vec-IsCanonical = record {
    decode_encoded = λ vs bytes rest valid p.
        let (len, got, fin) = >>=-eq-some (encode_length (length vs)) _ p in
        let (items, also, end) = >>=-eq-some (encode_items c vs) _ fin in
        rw
          (
            ← some_unique (len ++ items) bytes refl end,
            append_assoc len items rest,
            length_encoded (length vs) len (items ++ rest) got,
            items_encoded vs items rest valid also,
          )
          refl;
    encode_decoded = λ vs bytes rest h p.
        let (len, got, fin) = >>=-eq-some ((int 4).decode_partial bytes) _ p in
        let (left, e, first, split) = length_decoded len.0 bytes len.1 h got in
        let (sized, valid, f, items, cut) = items_decoded len.0 vs len.1 rest left fin in
        (
          valid,
          e ++ f,
          rw (sized, first, items) refl,
          split ∙ ap (λ z. e ++ z) cut ∙ sym (append_assoc e f rest),
        );
  }

items-u8 : (bytes : List ℕ) → encode_items (int 1) bytes ≡ some bytes
unfolding encode_items to_be_bytes
items-u8 [] = refl
items-u8 (b ∷ bytes) = rw (items-u8 bytes) (ap (λ z. some (z ∷ bytes)) (omega arith))

read_exact-items :
    (len : ℕ) (bytes : List ℕ) → read_exact len bytes ≡ decode_items (int 1) len bytes
unfolding decode_items
read_exact-items zero bytes = unfold read_exact in refl
read_exact-items (suc len) [] = unfold read_exact in refl
read_exact-items (suc len) (b ∷ bytes) =
    rw (byte_value b bytes, ← read_exact-items len bytes) (unfold read_exact in refl)

-- The path for bytes writes and reads what the path for other types does.
pub vec_u8-vec :
    (bytes : List ℕ)
    → (vec_u8.encode bytes ≡ (vec (int 1)).encode bytes)
      × (vec_u8.decode_partial bytes ≡ (vec (int 1)).decode_partial bytes)
vec_u8-vec bytes = (
  rw (items-u8 bytes) refl,
  ap (λ f. (int 4).decode_partial bytes >>= f) (λ ī x. read_exact-items x.0 x.1 ī),
)
