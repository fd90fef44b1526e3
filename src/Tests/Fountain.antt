-- ===== src/Tests/Fountain.antt =====
-- A run of the fountain code on ten bytes in parts of at most four.
use picomint.Prelude.{ℕ, zero, suc, ◌≡◌, refl, true, some, List, [], ◌∷◌, length, arith}
use picomint.Fountain.Encoder.{
  new_metadata, Fragment, Encoder, new_encoder, next_fragment, is_valid, decoder_message, chunks,
  xor, xor_bits, combine,
}
use picomint.Fountain.Fragments.{InRange, Sent, fresh, emitted, Sent-is_valid, Sent-decoder_message}

abbrev ends : ℕ → ℕ → ℕ → List ℕ
ends zero checksum index = []
ends (suc n) checksum index = n ∷ 0 ∷ []

ends-InRange : InRange ends
ends-InRange zero checksum index = tt
ends-InRange (suc n) checksum index = (omega arith, (omega arith, tt))

abbrev ten_bytes : List ℕ
ten_bytes = 1 ∷ 2 ∷ 3 ∷ 4 ∷ 5 ∷ 6 ∷ 7 ∷ 8 ∷ 9 ∷ 10 ∷ []

abbrev parts : List (List ℕ)
parts = (1 ∷ 2 ∷ 3 ∷ 4 ∷ []) ∷ (5 ∷ 6 ∷ 7 ∷ 8 ∷ []) ∷ (9 ∷ 10 ∷ 0 ∷ 0 ∷ []) ∷ []

abbrev encoder_at : ℕ → Encoder
encoder_at index = record { fragments = parts; message_length = 10; checksum = 10; index = index }

encoder_run :
    Sent ends length ten_bytes 4
      (encoder_at 1)
      (record { meta = new_metadata 3 10 10; index = 0; data_bytes = 1 ∷ 2 ∷ 3 ∷ 4 ∷ [] } ∷ [])
unfolding new_encoder next_fragment chunks combine xor xor_bits
encoder_run = emitted (encoder_at 0) _ (encoder_at 1) [] (fresh (encoder_at 0) refl) refl

Sent-is_valid_example :
    (fragment : Fragment) × (e' : Encoder) × (next_fragment ends (encoder_at 1)
      ≡ some (fragment, e'))
    × (is_valid fragment ≡ true)
Sent-is_valid_example =
    Sent-is_valid ends length ten_bytes 4 ends-InRange (omega arith) (encoder_at 1) _ encoder_run

Sent-decoder_message_example :
    decoder_message
      ((0, 1 ∷ 2 ∷ 3 ∷ 4 ∷ []) ∷ (1, 5 ∷ 6 ∷ 7 ∷ 8 ∷ []) ∷ (2, 9 ∷ 10 ∷ 0 ∷ 0 ∷ []) ∷ [])
      (some (new_metadata (length (encoder_at 1).fragments) 10 10))
    ≡ some ten_bytes
Sent-decoder_message_example =
    Sent-decoder_message ends length ten_bytes 4 (omega arith) (encoder_at 1) _
      ((0, 1 ∷ 2 ∷ 3 ∷ 4 ∷ []) ∷ (1, 5 ∷ 6 ∷ 7 ∷ 8 ∷ []) ∷ (2, 9 ∷ 10 ∷ 0 ∷ 0 ∷ []) ∷ [])
      encoder_run refl
