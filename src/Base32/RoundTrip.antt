-- ===== src/Base32/RoundTrip.antt =====
-- That `decode_bytes` of picomint-base32/src/lib.rs reads back what `encode_bytes` writes.
use picomint.Prelude.{
  ℕ, zero, suc, ◌+◌, ◌*◌, ◌/◌, ◌%◌, ◌^◌, ◌<◌, ◌≡◌, refl, ap, ◌∙◌, Bool, true, false, ◌&&◌, Option,
  none, some, List, [], ◌∷◌, ◌++◌, All, ◌==◌, ◌>>=◌, arith,
}
use picomint.Encoding.Codec.{IsByte}
use picomint.Base32.{
  char_of, value_of, drain_digits, encode_loop, encode_bytes, drain_bytes, decode_loop,
  decode_bytes,
}

abbrev reads_back : ℕ → Bool
reads_back v = elim (value_of (char_of v)) [ some w ↦ w == v | none ↦ false ]

abbrev all_below : ℕ → Bool
all_below zero = true
all_below (suc n) = reads_back n && all_below n

table_reads_back : all_below 32 ≡ true
unfolding value_of char_of
table_reads_back = refl

below_reads_back : (n v : ℕ) → all_below n ≡ true → v < n → reads_back v ≡ true
below_reads_back zero v h low = absurd (omega arith)
below_reads_back (suc n) v h low = ground (arith, below_reads_back n v)

value_of-char_of : (v : ℕ) → v < 32 → value_of (char_of v) ≡ some v
value_of-char_of v h = ground (arith, below_reads_back 32 v table_reads_back h)

-- One character of the decoder.
decode_char :
    (buffer bits v : ℕ) (chars : List ℕ)
    → v < 32
    → decode_loop buffer bits (char_of v ∷ chars) ≡ (
        let r = drain_bytes 2 (buffer + v * 2 ^ bits) (bits + 5) in
        decode_loop r.1 r.2 chars >>= λ rest. some (r.0 ++ rest))
unfolding decode_loop
decode_char buffer bits v chars h = rw (value_of-char_of v h) refl

-- The decoder's answer where it holds `taken` bits of a byte and the encoder the `left` others.
abbrev Resumes : ℕ → ℕ → List ℕ → Type 0
Resumes taken left bytes =
    (low high : ℕ)
    → low < 2 ^ taken
    → high < 2 ^ left
    → decode_loop low taken (encode_loop high left bytes) ≡ some ((low + 2 ^ taken * high) ∷ bytes)

-- The same where neither holds any.
abbrev Starts : List ℕ → Type 0
Starts bytes =
    (low high : ℕ) → low < 1 → high < 1 → decode_loop low 0 (encode_loop high 0 bytes) ≡ some bytes

two_answers :
    (a b c d : ℕ) (bytes : List ℕ)
    → a ≡ c
    → b ≡ d
    → ◌≡◌ {A = Option (List ℕ)} (some (a ∷ b ∷ bytes)) (some (c ∷ d ∷ bytes))
two_answers a b c d bytes e f = cc

start-5 : (b : ℕ) (bytes : List ℕ) → IsByte b → Resumes 5 3 bytes → Starts (b ∷ bytes)
unfolding encode_loop drain_digits drain_bytes
start-5 b bytes hb next low high hl hh =
    decode_char low 0 ((high + b * 1) % 32) _ (omega arith)
    ∙ rw (next (low + (high + b * 1) % 32 * 1) ((high + b * 1) / 32) (omega arith) (omega arith))
        (ap (λ z. some (z ∷ bytes)) (omega arith))

resume_5 : (b : ℕ) (bytes : List ℕ) → IsByte b → Resumes 7 1 bytes → Resumes 5 3 (b ∷ bytes)
unfolding encode_loop drain_digits drain_bytes
resume_5 b bytes hb next low high hl hh =
    let d1 = (high + b * 8) % 32 in
    let low1 = (low + d1 * 32) / 256 in
    let d2 = (high + b * 8) / 32 % 32 in
    let high2 = (high + b * 8) / 32 / 32 in
    decode_char low 5 d1 _ (omega arith)
    ∙ rw
        (
          decode_char low1 2 d2 (encode_loop high2 1 bytes) (omega arith),
          next (low1 + d2 * 4) high2 (omega arith) (omega arith),
        )
        (two_answers ((low + d1 * 32) % 256) ((low1 + d2 * 4) + 128 * high2) (low + 32 * high) b
          bytes (omega arith) (omega arith))

resume_7 : (b : ℕ) (bytes : List ℕ) → IsByte b → Resumes 4 4 bytes → Resumes 7 1 (b ∷ bytes)
unfolding encode_loop drain_digits drain_bytes
resume_7 b bytes hb next low high hl hh =
    let d1 = (high + b * 2) % 32 in
    let low1 = (low + d1 * 128) / 256 in
    let high1 = (high + b * 2) / 32 in
    decode_char low 7 d1 _ (omega arith)
    ∙ rw (next low1 high1 (omega arith) (omega arith)) (
        two_answers ((low + d1 * 128) % 256) (low1 + 16 * high1) (low + 128 * high) b bytes
          (omega arith) (omega arith))

resume_4 : (b : ℕ) (bytes : List ℕ) → IsByte b → Resumes 6 2 bytes → Resumes 4 4 (b ∷ bytes)
unfolding encode_loop drain_digits drain_bytes
resume_4 b bytes hb next low high hl hh =
    let d1 = (high + b * 16) % 32 in
    let low1 = (low + d1 * 16) / 256 in
    let d2 = (high + b * 16) / 32 % 32 in
    let high2 = (high + b * 16) / 32 / 32 in
    decode_char low 4 d1 _ (omega arith)
    ∙ rw
        (
          decode_char low1 1 d2 (encode_loop high2 2 bytes) (omega arith),
          next (low1 + d2 * 2) high2 (omega arith) (omega arith),
        )
        (two_answers ((low + d1 * 16) % 256) ((low1 + d2 * 2) + 64 * high2) (low + 16 * high) b
          bytes (omega arith) (omega arith))

resume_6 : (b : ℕ) (bytes : List ℕ) → IsByte b → Starts bytes → Resumes 6 2 (b ∷ bytes)
unfolding encode_loop drain_digits drain_bytes
resume_6 b bytes hb next low high hl hh =
    let d1 = (high + b * 4) % 32 in
    let low1 = (low + d1 * 64) / 256 in
    let d2 = (high + b * 4) / 32 % 32 in
    let high2 = (high + b * 4) / 32 / 32 in
    decode_char low 6 d1 _ (omega arith)
    ∙ rw
        (
          decode_char low1 3 d2 (encode_loop high2 0 bytes) (omega arith),
          next ((low1 + d2 * 8) / 256) high2 (omega arith) (omega arith),
        )
        (two_answers ((low + d1 * 64) % 256) ((low1 + d2 * 8) % 256) (low + 64 * high) b bytes
          (omega arith) (omega arith))

end_5 : Resumes 5 3 []
unfolding encode_loop drain_digits drain_bytes decode_loop
end_5 low high hl hh =
    decode_char low 5 (high % 32) [] (omega arith) ∙ ap (λ z. some (z ∷ [])) (omega arith)

end_7 : Resumes 7 1 []
unfolding encode_loop drain_digits drain_bytes decode_loop
end_7 low high hl hh =
    decode_char low 7 (high % 32) [] (omega arith) ∙ ap (λ z. some (z ∷ [])) (omega arith)

end_4 : Resumes 4 4 []
unfolding encode_loop drain_digits drain_bytes decode_loop
end_4 low high hl hh =
    decode_char low 4 (high % 32) [] (omega arith) ∙ ap (λ z. some (z ∷ [])) (omega arith)

end_6 : Resumes 6 2 []
unfolding encode_loop drain_digits drain_bytes decode_loop
end_6 low high hl hh =
    decode_char low 6 (high % 32) [] (omega arith) ∙ ap (λ z. some (z ∷ [])) (omega arith)

-- All states, byte by byte.
all_states :
    (bytes : List ℕ)
    → All IsByte bytes
    → Starts bytes × Resumes 5 3 bytes × Resumes 7 1 bytes × Resumes 4 4 bytes × Resumes 6 2 bytes
all_states [] h =
    (λ low high hl hh. unfold encode_loop decode_loop in refl, end_5, end_7, end_4, end_6)
all_states (b ∷ bytes) (hb, hs) =
    let (s0, s5, s7, s4, s6) = all_states bytes hs in
    (
      start-5 b bytes hb s5,
      resume_5 b bytes hb s7,
      resume_7 b bytes hb s4,
      resume_4 b bytes hb s6,
      resume_6 b bytes hb s0,
    )

-- Any bytes come back from their text.
pub decode_bytes-encode_bytes :
    (bytes : List ℕ) → All IsByte bytes → decode_bytes (encode_bytes bytes) ≡ some bytes
decode_bytes-encode_bytes bytes h =
    let states = all_states bytes h in (states.0) 0 0 (omega arith) (omega arith)
