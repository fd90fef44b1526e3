-- ===== src/Fountain/Encoder.antt =====
-- The encoder of picomint-fountain/src/fountain.rs, the checks that a received fragment must pass, and how the
-- decoder puts a message together.
use picomint.Prelude.{
  ℕ, zero, suc, ◌+◌, ◌-◌, ◌*◌, ◌/◌, ◌%◌, ◌^◌, Bool, not, ◌&&◌, Option, none, some, List, [], ◌∷◌,
  ◌++◌, length, take, drop, get_elem?, ltb, ◌==◌, if◌then◌else◌, ◌>>=◌,
}
use picomint.Collections.BTreeMap.{BTreeMap, values}

-- `^` on the low bits of two numbers, and on bytes.
unfoldable pub xor_bits : ℕ → ℕ → ℕ → ℕ
xor_bits zero a b = 0
xor_bits (suc k) a b = (a + b) % 2 + 2 * xor_bits k (a / 2) (b / 2)

abbrev pub xor_byte : ℕ → ℕ → ℕ
xor_byte a b = xor_bits 8 a b

-- `xor`; `none` is a failed assertion.
unfoldable pub xor : List ℕ → List ℕ → Option (List ℕ)
xor [] [] = some []
xor [] (y ∷ ys) = none
xor (x ∷ xs) [] = none
xor (x ∷ xs) (y ∷ ys) = xor xs ys >>= λ rest. some (xor_byte x y ∷ rest)

-- `usize::div_ceil`, for a divisor that is not 0.
abbrev pub div_ceil : ℕ → ℕ → ℕ
div_ceil a b = if ltb 0 (a % b) then a / b + 1 else a / b

abbrev pub fragment_length : ℕ → ℕ → ℕ
fragment_length data_length max_fragment_length =
    div_ceil data_length (div_ceil data_length max_fragment_length)

abbrev pub zeros : ℕ → List ℕ
zeros zero = []
zeros (suc n) = 0 ∷ zeros n

-- `chunks`, on fuel for the bytes.
unfoldable pub chunks : ℕ → ℕ → List ℕ → List (List ℕ)
chunks zero size data_bytes = []
chunks (suc fuel) size [] = []
chunks (suc fuel) size (b ∷ data_bytes) =
    take size (b ∷ data_bytes) ∷ chunks fuel size (drop size (b ∷ data_bytes))

abbrev pub padded : List ℕ → ℕ → List ℕ
padded data_bytes size = data_bytes ++ zeros ((size - length data_bytes % size) % size)

abbrev pub partition : List ℕ → ℕ → List (List ℕ)
partition data_bytes size = chunks (length (padded data_bytes size)) size (padded data_bytes size)

pub record EncodingMetadata : Type 0 where
  pub simple_fragments : ℕ
  pub message_length : ℕ
  pub checksum : ℕ

-- `EncodingMetadata::new`, with its casts to `u32`.
abbrev pub new_metadata : ℕ → ℕ → ℕ → EncodingMetadata
new_metadata simple_fragments message_length checksum = record {
  simple_fragments = simple_fragments % 2 ^ 32;
  message_length = message_length % 2 ^ 32;
  checksum = checksum;
}

abbrev pub metadata_fragment_length : EncodingMetadata → ℕ
metadata_fragment_length meta = div_ceil meta.message_length meta.simple_fragments

abbrev pub verify_metadata : EncodingMetadata → Bool
verify_metadata meta =
    ltb 0 meta.simple_fragments
    && ltb 0 meta.message_length
    && ltb 0 (metadata_fragment_length meta)

pub record Fragment : Type 0 where
  pub meta : EncodingMetadata
  pub index : ℕ
  pub data_bytes : List ℕ

pub record Encoder : Type 0 where
  pub fragments : List (List ℕ)
  pub message_length : ℕ
  pub checksum : ℕ
  pub index : ℕ

-- `Encoder::new`, from the checksum of the message. `none` is a failed assertion.
unfoldable pub new_encoder : (List ℕ → ℕ) → List ℕ → ℕ → Option Encoder
new_encoder checksum message max_fragment_length =
    if length message == 0
    then none
    else if not (ltb 0 max_fragment_length)
    then none
    else some (record {
      fragments = partition message (fragment_length (length message) max_fragment_length);
      message_length = length message;
      checksum = checksum message;
      index = 0;
    })

-- `choose_fragments`: what the random numbers choose is an argument, by count, checksum and index.
abbrev pub choose_fragments : (ℕ → ℕ → ℕ → List ℕ) → ℕ → ℕ → ℕ → List ℕ
choose_fragments sample fragment_count checksum index =
    if ltb index fragment_count then index ∷ [] else sample fragment_count checksum index

-- The loop of `next_fragment`; `none` is an index out of range or a failed assertion.
unfoldable pub combine : List (List ℕ) → List ℕ → List ℕ → Option (List ℕ)
combine fragments [] data_bytes = some data_bytes
combine fragments (item ∷ items) data_bytes = get_elem? fragments item >>= λ fragment.
    xor data_bytes fragment >>= λ mixed. combine fragments items mixed

-- `next_fragment`
unfoldable pub next_fragment : (ℕ → ℕ → ℕ → List ℕ) → Encoder → Option (Fragment × Encoder)
next_fragment sample e = get_elem? e.fragments 0 >>= λ first.
    combine e.fragments (choose_fragments sample (length e.fragments) e.checksum e.index)
      (zeros (length first))
    >>= λ data_bytes. some (
      record {
        meta = new_metadata (length e.fragments) e.message_length e.checksum;
        index = e.index;
        data_bytes = data_bytes;
      },
      record e { index = (e.index + 1) % 2 ^ 32 },
    )

-- The two checks of `receive` on a fragment by itself.
abbrev pub is_valid : Fragment → Bool
is_valid fragment =
    verify_metadata fragment.meta
    && length fragment.data_bytes == metadata_fragment_length fragment.meta

abbrev pub flatten : List (List ℕ) → List ℕ
flatten [] = []
flatten (part ∷ parts) = part ++ flatten parts

-- `Decoder::message`, from the decoded fragments and the metadata.
unfoldable pub decoder_message : BTreeMap (List ℕ) → Option EncodingMetadata → Option (List ℕ)
decoder_message decoded none = none
decoder_message decoded (some meta) =
    if ltb (length decoded) meta.simple_fragments
    then none
    else some (take meta.message_length (flatten (values decoded)))
