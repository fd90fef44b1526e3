-- ===== src/Encoding/Codec.antt =====
-- The traits `Encodable` and `Decodable` of picomint-encoding/src/lib.rs, and what is asked of a pair of them.
use picomint.Prelude.{
  ℕ, ◌<◌, ◌≡◌, refl, sym, ap, ◌∙◌, Option, none, some, List, [], ◌∷◌, ◌++◌, All, ◌>>=◌, >>=-eq-some,
  some_unique,
}
use mathlib.Core.List.{append-nil}

abbrev pub IsByte : ℕ → Type 0
IsByte b = b < 256

-- `none` stands for an `io::Error`, and in `encode` for a failed `expect`.
pub record Codec {ℓ} (A : Type ℓ) : Type ℓ where
  pub encode : A → Option (List ℕ)
  pub decode_partial : List ℕ → Option (A × List ℕ)

-- What `consensus_decode` makes of an answer: no byte may be left over.
abbrev ended {ℓ} : {A : Type ℓ} → A × List ℕ → Option A
ended (a, []) = some a
ended (a, x ∷ left) = none

-- `Decodable::consensus_decode`
abbrev pub consensus_decode {ℓ} : {A : Type ℓ} → Codec A → List ℕ → Option A
consensus_decode c bytes = c.decode_partial bytes >>= ended

-- The decoder takes just the encodings of the values that are valid, each to its value, and nothing more
-- than the encoding.
pub record IsCanonical {ℓ} {A : Type ℓ} (c : Codec A) (Valid : A → Type 0) : Type ℓ where
  pub decode_encoded :
      (v : A) (bytes rest : List ℕ)
      → Valid v
      → c.encode v ≡ some bytes
      → c.decode_partial (bytes ++ rest) ≡ some (v, rest)
  pub encode_decoded :
      (v : A) (bytes rest : List ℕ)
      → All IsByte bytes
      → c.decode_partial bytes ≡ some (v, rest)
      → Valid v × (e : List ℕ) × (c.encode v ≡ some e) × (bytes ≡ e ++ rest)

pub All-append {ℓ κ} :
    {A : Type ℓ} (P : A → Type κ) (xs ys : List A) → All P (xs ++ ys) → All P xs × All P ys
All-append P [] ys h = (tt, h)
All-append P (x ∷ xs) ys h = let (front, back) = All-append P xs ys h.1 in ((h.0, front), back)

-- What a canonical decoder leaves is bytes.
pub All-rest {ℓ} :
    {A : Type ℓ} {Valid : A → Type 0} (c : Codec A)
    → IsCanonical c Valid
    → (v : A) (bytes rest : List ℕ) → All IsByte bytes
    → c.decode_partial bytes ≡ some (v, rest)
    → All IsByte rest
All-rest c canonical v bytes rest h p =
    let (valid, e, encoded, split) = canonical.encode_decoded v bytes rest h p in
    (All-append IsByte e rest (rw split at h)).1

ended_lem {ℓ} : {A : Type ℓ} (r : A × List ℕ) (v : A) → ended r ≡ some v → r ≡ (v, [])
ended_lem (a, []) v p = ap (λ z. (z, [])) (some_unique a v refl p)
ended_lem (a, x ∷ left) v p = cc

-- A byte string decodes to a value just if it is the value's encoding, for a value that is valid.
pub consensus_decode-encode {ℓ} :
    {A : Type ℓ} (Valid : A → Type 0) (c : Codec A)
    → IsCanonical c Valid
    → (v : A) (bytes : List ℕ) → All IsByte bytes
    → (Valid v → c.encode v ≡ some bytes → consensus_decode c bytes ≡ some v)
      × (consensus_decode c bytes ≡ some v → Valid v × (c.encode v ≡ some bytes))
consensus_decode-encode Valid c canonical v bytes h = (
  λ valid p.
      let whole : c.decode_partial bytes ≡ some (v, []) =
        rw (append-nil bytes) at (canonical.decode_encoded v bytes [] valid p) in
      rw whole refl,
  λ p.
      let (r, got, fin) = >>=-eq-some (c.decode_partial bytes) ended p in
      let last = ended_lem r v fin in
      let (valid, e, encoded, split) = canonical.encode_decoded v bytes [] h (got ∙ ap some last) in
      (valid, encoded ∙ ap some (sym (split ∙ append-nil e))),
)
