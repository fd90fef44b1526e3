-- ===== src/Fountain/Fragments.antt =====
-- What the encoder of picomint-fountain/src/fountain.rs sends, and what its decoder makes of all parts.
use picomint.Prelude.{
  ℕ, zero, suc, ◌+◌, ◌%◌, ◌^◌, ◌≤◌, ◌<◌, ◌≡◌, refl, sym, ap, ◌∙◌, true, false, ◌&&◌, some, List, [],
  ◌∷◌, length, take, get_elem?, All, ltb, ◌==◌, >>=-eq-some, some_unique, arith, Bool-cases, inl,
  inr,
}
use mathlib.Core.Path.{subst}
use native.Mathlib.Nat.{mod-eq_of_lt}
use picomint.Collections.BTreeMap.{BTreeMap, values}
use picomint.Collections.Dense.{length-values}
use picomint.Fountain.Encoder.{
  xor_bits, xor, div_ceil, fragment_length, zeros, partition, EncodingMetadata, new_metadata,
  Fragment, Encoder, new_encoder, choose_fragments, combine, next_fragment, is_valid, flatten,
  decoder_message,
}
use picomint.Fountain.Division.{div_ceil_pos, div_ceil_le, div_ceil-fragment_length}
use picomint.Fountain.Chunks.{length-zeros, partition-parts}

-- Mixing keeps the length.
length-xor : (xs ys zs : List ℕ) → xor xs ys ≡ some zs → length zs ≡ length xs
unfolding xor
length-xor [] [] zs p = sym (ap length (some_unique [] zs refl p))
length-xor [] (y ∷ ys) zs p = cc
length-xor (x ∷ xs) [] zs p = cc
length-xor (x ∷ xs) (y ∷ ys) zs p =
    let (rest, got, fin) = >>=-eq-some (xor xs ys) _ p in
    sym (ap length (some_unique _ zs refl fin)) ∙ ap suc (length-xor xs ys rest got)

xor_returns : (xs ys : List ℕ) → length xs ≡ length ys → (zs : List ℕ) × (xor xs ys ≡ some zs)
unfolding xor
xor_returns [] [] same = ([], refl)
xor_returns [] (y ∷ ys) same = absurd (omega arith)
xor_returns (x ∷ xs) [] same = absurd (omega arith)
xor_returns (x ∷ xs) (y ∷ ys) same =
    let (zs, got) = xor_returns xs ys (omega arith) in (xor_bits 8 x y ∷ zs, rw got refl)

elem_returns :
    (size : ℕ) (parts : List (List ℕ)) (i : ℕ)
    → All (λ (part : List ℕ). length part ≡ size) parts
    → i < length parts
    → (part : List ℕ) × (get_elem? parts i ≡ some part) × (length part ≡ size)
elem_returns size [] i h low = absurd (omega arith)
elem_returns size (part ∷ parts) zero h low = (part, refl, h.0)
elem_returns size (part ∷ parts) (suc i) h low = elem_returns size parts i h.1 (omega arith)

-- Parts of one size, at indexes in range, are combined to a part of that size.
combine_returns :
    (size : ℕ) (parts : List (List ℕ)) (items bytes : List ℕ)
    → All (λ (part : List ℕ). length part ≡ size) parts
    → All (λ i. i < length parts) items
    → length bytes ≡ size
    → (mixed : List ℕ) × (combine parts items bytes ≡ some mixed) × (length mixed ≡ size)
unfolding combine
combine_returns size parts [] bytes h low sized = (bytes, refl, sized)
combine_returns size parts (i ∷ items) bytes h low sized =
    let (part, at, part_sized) = elem_returns size parts i h low.0 in
    let (mixed, got) = xor_returns bytes part (omega arith) in
    let (out, others, out_sized) =
      combine_returns size parts items mixed h low.1
        (omega (arith, length-xor bytes part mixed got)) in
    (out, rw (at, got, others) refl, out_sized)

-- What the random numbers choose lies in range.
abbrev pub InRange : (ℕ → ℕ → ℕ → List ℕ) → Type 0
InRange sample = (count checksum index : ℕ) → All (λ i. i < count) (sample count checksum index)

choose_fragments_low :
    (sample : ℕ → ℕ → ℕ → List ℕ) (count checksum index : ℕ)
    → InRange sample
    → All (λ i. i < count) (choose_fragments sample count checksum index)
choose_fragments_low sample count checksum index h = elim (Bool-cases (ltb index count)) [
  | inl simple ↦ rw simple (ground (arith, simple), tt)
  | inr mixed ↦ rw mixed (h count checksum index)
]

le_lt : {a b c : ℕ} → a ≤ b → b < c → a < c
le_lt h g = omega arith

-- Metadata that describes the data passes the checks.
described :
    (count whole size index check : ℕ) (bytes : List ℕ)
    → 0 < count
    → count < 2 ^ 32
    → 0 < whole
    → whole < 2 ^ 32
    → 0 < size
    → div_ceil whole count ≡ size
    → length bytes ≡ size
    → is_valid (record { meta = new_metadata count whole check; index = index; data_bytes = bytes })
      ≡ true
described count whole size index check bytes some_parts few some_bytes short pos same sized =
    let kept : new_metadata count whole check
        ≡ record { simple_fragments = count; message_length = whole; checksum = check } =
      ap (λ z. record { simple_fragments = z; message_length = whole % 2 ^ 32; checksum = check })
        (mod-eq_of_lt few)
      ∙ ap (λ z. record { simple_fragments = count; message_length = z; checksum = check })
          (mod-eq_of_lt short) in
    subst
      (λ (z : EncodingMetadata).
        is_valid (record { meta = z; index = index; data_bytes = bytes }) ≡ true)
      (sym kept)
      (subst (λ z. ((ltb 0 count && ltb 0 whole && ltb 0 z) && length bytes == z) ≡ true) (sym same)
        (ground arith))

module _ (sample : ℕ → ℕ → ℕ → List ℕ) (checksum : List ℕ → ℕ) (message : List ℕ) (most : ℕ) where
  -- What an encoder of the message has sent, the last first.
  pub data Sent : Encoder → List Fragment → Type 0 where
    fresh : (e : Encoder) → new_encoder checksum message most ≡ some e → Sent e []
    emitted :
        (e : Encoder) (fragment : Fragment) (e' : Encoder) (fragments : List Fragment)
        → Sent e fragments
        → next_fragment sample e ≡ some (fragment, e')
        → Sent e' (fragment ∷ fragments)

  record Made (e : Encoder) : Type 0 where
    some_message : 0 < length message
    some_length : 0 < most
    parts : e.fragments ≡ partition message (fragment_length (length message) most)
    whole : e.message_length ≡ length message

  new_encoder-Made : (e : Encoder) → new_encoder checksum message most ≡ some e → Made e
  unfolding new_encoder
  new_encoder-Made e p = record {
    some_message = ground arith;
    some_length = ground arith;
    parts = ground arith;
    whole = ground arith;
  }

  next_fragment-same :
      (e : Encoder) (fragment : Fragment) (e' : Encoder)
      → next_fragment sample e ≡ some (fragment, e')
      → (e'.fragments ≡ e.fragments) × (e'.message_length ≡ e.message_length)
  unfolding next_fragment
  next_fragment-same e fragment e' p =
      let (first, at, fin) = >>=-eq-some (get_elem? e.fragments 0) _ p in
      let (mixed, got, end) = >>=-eq-some (combine e.fragments _ (zeros (length first))) _ fin in
      let out = some_unique {A = Fragment × Encoder} _ (fragment, e') refl end in
      (sym (ap (λ z. z.1.fragments) out), sym (ap (λ z. z.1.message_length) out))

  Sent-Made : (e : Encoder) (fragments : List Fragment) → Sent e fragments → Made e
  Sent-Made _ _ (fresh e p) = new_encoder-Made e p
  Sent-Made _ _ (emitted e fragment e' fragments run p) =
      let x = Sent-Made e fragments run in
      let (same, length_same) = next_fragment-same e fragment e' p in
      record {
        some_message = x.some_message;
        some_length = x.some_length;
        parts = same ∙ x.parts;
        whole = length_same ∙ x.whole;
      }

  -- The number of parts, and their size, as the metadata gives them.
  Made-sizes :
      (e : Encoder)
      → Made e
      → length message < 2 ^ 32
      → (0 < length e.fragments)
        × (length e.fragments < 2 ^ 32)
        × (0 < fragment_length (length message) most)
        × All (λ (part : List ℕ). length part ≡ fragment_length (length message) most) e.fragments
        × (div_ceil (length message) (length e.fragments) ≡ fragment_length (length message) most)
  Made-sizes e x short =
      let whole = length message in
      let count = div_ceil whole most in
      let size = fragment_length whole most in
      let count_pos = div_ceil_pos whole most x.some_message x.some_length in
      let size_pos = div_ceil_pos whole count x.some_message count_pos in
      let (counted, sized, joined) = partition-parts message size size_pos in
      let n : length e.fragments ≡ count =
        ap length x.parts
        ∙ counted
        ∙ div_ceil-fragment_length whole most x.some_message x.some_length in
      (
        subst (λ z. 0 < z) (sym n) count_pos,
        subst (λ z. z < 2 ^ 32) (sym n) (le_lt (div_ceil_le whole most x.some_length) short),
        size_pos,
        subst (All (λ (part : List ℕ). length part ≡ size)) (sym x.parts) sized,
        ap (div_ceil whole) n,
      )

  -- An encoder of a message that is not empty, of less than 2^32 bytes, always has a next fragment, and the
  -- decoder's checks let it through.
  pub Sent-is_valid :
      InRange sample
      → length message < 2 ^ 32
      → (e : Encoder) (fragments : List Fragment) → Sent e fragments
      → (fragment : Fragment) × (e' : Encoder) × (next_fragment sample e ≡ some (fragment, e'))
        × (is_valid fragment ≡ true)
  unfolding next_fragment
  Sent-is_valid range short e fragments run =
      let x = Sent-Made e fragments run in
      let (some_parts, few, pos, sized, same) = Made-sizes e x short in
      let (first, at, first_sized) = elem_returns _ e.fragments 0 sized some_parts in
      let (mixed, got, mixed_sized) =
        combine_returns _ e.fragments
          (choose_fragments sample (length e.fragments) e.checksum e.index) (zeros (length first))
          sized (choose_fragments_low sample (length e.fragments) e.checksum e.index range)
          (length-zeros (length first) ∙ first_sized) in
      (
        record {
          meta = new_metadata (length e.fragments) e.message_length e.checksum;
          index = e.index;
          data_bytes = mixed;
        },
        record e { index = (e.index + 1) % 2 ^ 32 },
        rw (at, got) refl,
        subst
            (λ z.
              is_valid (record {
                meta = new_metadata (length e.fragments) z e.checksum;
                index = e.index;
                data_bytes = mixed;
              })
              ≡ true)
            (sym x.whole)
            (described (length e.fragments) (length message) _ e.index e.checksum mixed some_parts
              few x.some_message short pos same mixed_sized),
      )

  -- A decoder that holds all parts of the encoder's message, under the metadata of its fragments, has the
  -- message.
  pub Sent-decoder_message :
      length message < 2 ^ 32
      → (e : Encoder) (fragments : List Fragment) (decoded : BTreeMap (List ℕ)) → Sent e fragments
      → values decoded ≡ e.fragments
      → decoder_message decoded
          (some (new_metadata (length e.fragments) e.message_length e.checksum))
        ≡ some message
  unfolding decoder_message
  Sent-decoder_message short e fragments decoded run all_parts =
      let x = Sent-Made e fragments run in
      let (some_parts, few, pos, sized, same) = Made-sizes e x short in
      let (counted, parts_sized, joined) =
        partition-parts message (fragment_length (length message) most) pos in
      let count : length decoded ≡ length e.fragments =
        sym (length-values decoded) ∙ ap length all_parts in
      let enough : ltb (length decoded) (length e.fragments % 2 ^ 32) ≡ false =
        ground (arith, mod-eq_of_lt few) in
      let whole : e.message_length % 2 ^ 32 ≡ length message =
        ap (λ z. z % 2 ^ 32) x.whole ∙ mod-eq_of_lt short in
      let spelled : flatten (values decoded)
          ≡ flatten (partition message (fragment_length (length message) most)) =
        ap flatten (all_parts ∙ x.parts) in
      rw enough (
        ap some (
          ap (λ z. take z (flatten (values decoded))) whole
          ∙ ap (take (length message)) spelled
          ∙ joined))
