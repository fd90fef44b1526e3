-- ===== src/Encoding/Values.antt =====
-- The encodings of bool, unit, tuples, Option and Result in picomint-encoding/src/lib.rs.
use picomint.Prelude.{ℕ, zero, suc, Bool, true, false, Option, none, some, List, [], ◌++◌, ◌>>=◌}
use picomint.Mint.Ledger.{Result, ok, err}
use picomint.Encoding.Codec.{Codec}
use picomint.Encoding.Integers.{int}

-- A match on a byte that is 0 or 1.
abbrev pub tagged {ℓ} : {A : Type ℓ} → Option A → Option A → ℕ → Option A
tagged at_0 at_1 zero = at_0
tagged at_0 at_1 (suc zero) = at_1
tagged at_0 at_1 (suc (suc n)) = none

-- `u8::consensus_decode_partial` and a match on what it gives.
abbrev pub by_tag {ℓ} :
    {A : Type ℓ}
    → (List ℕ → Option (A × List ℕ))
    → (List ℕ → Option (A × List ℕ))
    → List ℕ
    → Option (A × List ℕ)
by_tag at_0 at_1 bytes = (int 1).decode_partial bytes >>= λ r. tagged (at_0 r.1) (at_1 r.1) r.0

-- A byte and what comes after it.
abbrev pub after_tag : ℕ → Option (List ℕ) → Option (List ℕ)
after_tag tag payload = (int 1).encode tag >>= λ first. payload >>= λ e. some (first ++ e)

abbrev pub bool : Codec Bool
bool = record {
  encode = λ b. elim b [ false ↦ (int 1).encode 0 | true ↦ (int 1).encode 1 ];
  decode_partial = by_tag (λ left. some (false, left)) (λ left. some (true, left));
}

abbrev pub unit : Codec (Unit {0})
unit = record { encode = λ u. some []; decode_partial = λ bytes. some (tt, bytes) }

-- A tuple of more is a pair whose second part is a tuple.
abbrev pub pair {ℓ κ} : {A : Type ℓ} {B : Type κ} → Codec A → Codec B → Codec (A × B)
pair c d = record {
  encode = λ v. c.encode v.0 >>= λ first. d.encode v.1 >>= λ second. some (first ++ second);
  decode_partial =
      λ bytes. c.decode_partial bytes >>= λ r. d.decode_partial r.1 >>= λ s. some ((r.0, s.0), s.1);
}

abbrev encode_option {ℓ} : {A : Type ℓ} → Codec A → Option A → Option (List ℕ)
encode_option c none = (int 1).encode 0
encode_option c (some v) = after_tag 1 (c.encode v)

abbrev pub option {ℓ} : {A : Type ℓ} → Codec A → Codec (Option A)
option c = record {
  encode = encode_option c;
  decode_partial =
      by_tag (λ left. some (none, left))
        (λ left. c.decode_partial left >>= λ r. some (some r.0, r.1));
}

abbrev encode_result : {E A : Type 0} → Codec E → Codec A → Result E A → Option (List ℕ)
encode_result d c (err e) = after_tag 0 (d.encode e)
encode_result d c (ok v) = after_tag 1 (c.encode v)

abbrev pub result : {E A : Type 0} → Codec E → Codec A → Codec (Result E A)
result d c = record {
  encode = encode_result d c;
  decode_partial =
      by_tag (λ left. d.decode_partial left >>= λ r. some (err r.0, r.1))
        (λ left. c.decode_partial left >>= λ r. some (ok r.0, r.1));
}
