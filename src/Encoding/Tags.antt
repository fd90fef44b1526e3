-- ===== src/Encoding/Tags.antt =====
-- What the encodings of bool, unit, tuples, Option and Result in picomint-encoding/src/lib.rs take.
use picomint.Prelude.{
  ℕ, zero, suc, ◌≡◌, refl, sym, ap, ◌∙◌, Bool, true, false, Option, none, some, List, [], ◌∷◌, ◌++◌,
  All, ◌⊎◌, inl, inr, ◌>>=◌, >>=-eq-some, some_unique, arith,
}
use mathlib.Core.List.{append_assoc}
use mathlib.Core.Path.{subst}
use picomint.Mint.Ledger.{Result, ok, err}
use picomint.Encoding.Codec.{Codec, IsCanonical, IsByte, All-rest}
use picomint.Encoding.Integers.{int, to_be_bytes, from_be_bytes, read_exact}
use picomint.Encoding.Values.{by_tag, after_tag, bool, pair, option, result}

pub byte_value : (b : ℕ) (bytes : List ℕ) → (int 1).decode_partial (b ∷ bytes) ≡ some (b, bytes)
unfolding read_exact from_be_bytes
byte_value b bytes = ap (λ z. some (z, bytes)) (omega arith)

by_tag_0 {ℓ} :
    {A : Type ℓ} (at_0 at_1 : List ℕ → Option (A × List ℕ)) (bytes : List ℕ)
    → by_tag at_0 at_1 (0 ∷ bytes) ≡ at_0 bytes
by_tag_0 at_0 at_1 bytes = rw (byte_value 0 bytes) refl

by_tag_1 {ℓ} :
    {A : Type ℓ} (at_0 at_1 : List ℕ → Option (A × List ℕ)) (bytes : List ℕ)
    → by_tag at_0 at_1 (1 ∷ bytes) ≡ at_1 bytes
by_tag_1 at_0 at_1 bytes = rw (byte_value 1 bytes) refl

by_tag_more {ℓ} :
    {A : Type ℓ} (at_0 at_1 : List ℕ → Option (A × List ℕ)) (n : ℕ) (bytes : List ℕ)
    → by_tag at_0 at_1 (suc (suc n) ∷ bytes) ≡ none
by_tag_more at_0 at_1 n bytes = rw (byte_value (suc (suc n)) bytes) refl

-- What is read starts with a 0 or a 1.
abbrev Tagged {ℓ} :
    {A : Type ℓ}
    → (List ℕ → Option (A × List ℕ))
    → (List ℕ → Option (A × List ℕ))
    → List ℕ
    → A × List ℕ
    → Type ℓ
Tagged at_0 at_1 bytes r =
    ((left : List ℕ) × (bytes ≡ 0 ∷ left) × (at_0 left ≡ some r))
    ⊎ ((left : List ℕ) × (bytes ≡ 1 ∷ left) × (at_1 left ≡ some r))

by_tag-Tagged {ℓ} :
    {A : Type ℓ} (at_0 at_1 : List ℕ → Option (A × List ℕ)) (bytes : List ℕ) (r : A × List ℕ)
    → by_tag at_0 at_1 bytes ≡ some r
    → Tagged at_0 at_1 bytes r
unfolding read_exact
by_tag-Tagged at_0 at_1 [] r p = cc
by_tag-Tagged at_0 at_1 (zero ∷ bytes) r p = inl (bytes, refl, sym (by_tag_0 at_0 at_1 bytes) ∙ p)
by_tag-Tagged at_0 at_1 (suc zero ∷ bytes) r p =
    inr (bytes, refl, sym (by_tag_1 at_0 at_1 bytes) ∙ p)
by_tag-Tagged at_0 at_1 (suc (suc n) ∷ bytes) r p = cc (by_tag_more at_0 at_1 n bytes)

after_tag-eq-some :
    (tag : ℕ) (payload : Option (List ℕ)) (bytes : List ℕ)
    → after_tag tag payload ≡ some bytes
    → (e : List ℕ) × (payload ≡ some e) × (bytes ≡ tag ∷ e)
unfolding to_be_bytes
after_tag-eq-some tag payload bytes p =
    let (e, got, fin) = >>=-eq-some payload _ p in
    (e, got, sym (some_unique _ _ refl fin) ∙ ap (λ z. z ∷ e) (omega arith))

after_tag-some :
    (tag : ℕ) (payload : Option (List ℕ)) (e : List ℕ)
    → payload ≡ some e
    → after_tag tag payload ≡ some (tag ∷ e)
unfolding to_be_bytes
after_tag-some tag payload e p = rw p (ap (λ z. some (z ∷ e)) (omega arith))

-- The parts of an answer.
pub same_parts {ℓ} :
    {A : Type ℓ} (a b : A) (s t : List ℕ)
    → ◌≡◌ {A = Option (A × List ℕ)} (some (a, s)) (some (b, t))
    → (a ≡ b) × (s ≡ t)
same_parts {A = A} a b s t p =
    let e = some_unique {A = A × List ℕ} (a, s) (b, t) refl p in (ap (λ z. z.0) e, ap (λ z. z.1) e)

pub bool-IsCanonical : IsCanonical bool (λ b. Unit)
unfolding to_be_bytes
bool-IsCanonical = record { decode_encoded = there; encode_decoded = back }
  where
    there :
        (v : Bool) (bytes rest : List ℕ)
        → Unit {0}
        → bool.encode v ≡ some bytes
        → bool.decode_partial (bytes ++ rest) ≡ some (v, rest)
    there false bytes rest valid p =
        let (e, got, split) = after_tag-eq-some 0 (some []) bytes p in
        rw (split, ← some_unique [] e refl got) (by_tag_0 _ _ rest)
    there true bytes rest valid p =
        let (e, got, split) = after_tag-eq-some 1 (some []) bytes p in
        rw (split, ← some_unique [] e refl got) (by_tag_1 _ _ rest)

    back :
        (v : Bool) (bytes rest : List ℕ)
        → All IsByte bytes
        → bool.decode_partial bytes ≡ some (v, rest)
        → Unit {0} × (e : List ℕ) × (bool.encode v ≡ some e) × (bytes ≡ e ++ rest)
    back v bytes rest h p = elim (by_tag-Tagged _ _ bytes (v, rest) p) [
      | inl (left, split, q) ↦
          let (same, after) = same_parts false v left rest q in
          (
            tt,
            0 ∷ [],
            subst (λ z. bool.encode z ≡ some (0 ∷ [])) same (after_tag-some 0 (some []) [] refl),
            split ∙ ap (λ z. 0 ∷ z) after,
          )
      | inr (left, split, q) ↦
          let (same, after) = same_parts true v left rest q in
          (
            tt,
            1 ∷ [],
            subst (λ z. bool.encode z ≡ some (1 ∷ [])) same (after_tag-some 1 (some []) [] refl),
            split ∙ ap (λ z. 1 ∷ z) after,
          )
    ]

pub pair-IsCanonical :
    {A B : Type 0} (VA : A → Type 0) (VB : B → Type 0) (c : Codec A) (d : Codec B)
    → IsCanonical c VA
    → IsCanonical d VB
    → IsCanonical (pair c d) (λ v. VA v.0 × VB v.1)
pair-IsCanonical VA VB c d first_law second_law = record {
  decode_encoded = λ v bytes rest valid p.
      let (first, got, fin) = >>=-eq-some (c.encode v.0) _ p in
      let (second, also, end) = >>=-eq-some (d.encode v.1) _ fin in
      rw
        (
          ← some_unique (first ++ second) bytes refl end,
          append_assoc first second rest,
          first_law.decode_encoded v.0 first (second ++ rest) valid.0 got,
          second_law.decode_encoded v.1 second rest valid.1 also,
        )
        refl;
  encode_decoded = λ v bytes rest h p.
      let (r, got, fin) = >>=-eq-some (c.decode_partial bytes) _ p in
      let (s, also, end) = >>=-eq-some (d.decode_partial r.1) _ fin in
      let (same, after) = same_parts (r.0, s.0) v s.1 rest end in
      let (va, e, first, split) = first_law.encode_decoded r.0 bytes r.1 h got in
      let left = All-rest c first_law r.0 bytes r.1 h got in
      let (vb, f, second, cut) = second_law.encode_decoded s.0 r.1 s.1 left also in
      (
        subst (λ z. VA z.0 × VB z.1) same (va, vb),
        e ++ f,
        subst (λ z. (pair c d).encode z ≡ some (e ++ f)) same (rw (first, second) refl),
        split ∙ ap (λ z. e ++ z) (cut ∙ ap (λ z. f ++ z) after) ∙ sym (append_assoc e f rest),
      );
}

-- What follows a tag, under a constructor.
payload_decoded :
    {A B : Type 0} (V : A → Type 0) (c : Codec A) (wrap : A → B) (left rest : List ℕ) (v : B)
    → IsCanonical c V
    → All IsByte left
    → ◌>>=◌ {B = B × List ℕ} (c.decode_partial left) (λ r. some (wrap r.0, r.1)) ≡ some (v, rest)
    → (a : A) × (wrap a ≡ v) × V a × (e : List ℕ) × (c.encode a ≡ some e) × (left ≡ e ++ rest)
payload_decoded V c wrap left rest v law h p =
    let (r, got, fin) = >>=-eq-some (c.decode_partial left) _ p in
    let (same, after) = same_parts (wrap r.0) v r.1 rest fin in
    let (valid, e, encoded, split) = law.encode_decoded r.0 left r.1 h got in
    (r.0, same, valid, e, encoded, split ∙ ap (λ z. e ++ z) after)

abbrev pub OptionValid : {A : Type 0} → (A → Type 0) → Option A → Type 0
OptionValid V none = Unit
OptionValid V (some v) = V v

pub option-IsCanonical :
    {A : Type 0} (V : A → Type 0) (c : Codec A)
    → IsCanonical c V
    → IsCanonical (option c) (OptionValid V)
unfolding to_be_bytes
option-IsCanonical {A = A} V c law = record { decode_encoded = there; encode_decoded = back }
  where
    there :
        (v : Option A) (bytes rest : List ℕ)
        → OptionValid V v
        → (option c).encode v ≡ some bytes
        → (option c).decode_partial (bytes ++ rest) ≡ some (v, rest)
    there none bytes rest valid p =
        let (e, got, split) = after_tag-eq-some 0 (some []) bytes p in
        rw (split, ← some_unique [] e refl got) (by_tag_0 _ _ rest)
    there (some v) bytes rest valid p =
        let (e, got, split) = after_tag-eq-some 1 (c.encode v) bytes p in
        rw split (by_tag_1 _ _ (e ++ rest) ∙ rw (law.decode_encoded v e rest valid got) refl)

    back :
        (v : Option A) (bytes rest : List ℕ)
        → All IsByte bytes
        → (option c).decode_partial bytes ≡ some (v, rest)
        → OptionValid V v × (e : List ℕ) × ((option c).encode v ≡ some e) × (bytes ≡ e ++ rest)
    back v bytes rest h p = elim (by_tag-Tagged _ _ bytes (v, rest) p) [
      | inl (left, split, q) ↦
          let (same, after) = same_parts none v left rest q in
          (
            subst (OptionValid V) same tt,
            0 ∷ [],
            subst (λ z. (option c).encode z ≡ some (0 ∷ [])) same
                (after_tag-some 0 (some []) [] refl),
            split ∙ ap (λ z. 0 ∷ z) after,
          )
      | inr (left, split, q) ↦
          let bytes_left : All IsByte (1 ∷ left) = rw split at h in
          let (a, same, valid, e, encoded, cut) =
            payload_decoded V c some left rest v law bytes_left.1 q in
          (
            subst (OptionValid V) same valid,
            1 ∷ e,
            subst (λ z. (option c).encode z ≡ some (1 ∷ e)) same
                (after_tag-some 1 (c.encode a) e encoded),
            split ∙ ap (λ z. 1 ∷ z) cut,
          )
    ]

abbrev pub ResultValid : {E A : Type 0} → (E → Type 0) → (A → Type 0) → Result E A → Type 0
ResultValid W V (err e) = W e
ResultValid W V (ok v) = V v

pub result-IsCanonical :
    {E A : Type 0} (W : E → Type 0) (V : A → Type 0) (d : Codec E) (c : Codec A)
    → IsCanonical d W
    → IsCanonical c V
    → IsCanonical (result d c) (ResultValid W V)
result-IsCanonical {E = E} {A = A} W V d c err_law law = record {
  decode_encoded = there;
  encode_decoded = back;
}
  where
    there :
        (v : Result E A) (bytes rest : List ℕ)
        → ResultValid W V v
        → (result d c).encode v ≡ some bytes
        → (result d c).decode_partial (bytes ++ rest) ≡ some (v, rest)
    there (err v) bytes rest valid p =
        let (e, got, split) = after_tag-eq-some 0 (d.encode v) bytes p in
        rw split (by_tag_0 _ _ (e ++ rest) ∙ rw (err_law.decode_encoded v e rest valid got) refl)
    there (ok v) bytes rest valid p =
        let (e, got, split) = after_tag-eq-some 1 (c.encode v) bytes p in
        rw split (by_tag_1 _ _ (e ++ rest) ∙ rw (law.decode_encoded v e rest valid got) refl)

    back :
        (v : Result E A) (bytes rest : List ℕ)
        → All IsByte bytes
        → (result d c).decode_partial bytes ≡ some (v, rest)
        → ResultValid W V v × (e : List ℕ) × ((result d c).encode v ≡ some e) × (bytes ≡ e ++ rest)
    back v bytes rest h p = elim (by_tag-Tagged _ _ bytes (v, rest) p) [
      | inl (left, split, q) ↦
          let bytes_left : All IsByte (0 ∷ left) = rw split at h in
          let (a, same, valid, e, encoded, cut) =
            payload_decoded W d err left rest v err_law bytes_left.1 q in
          (
            subst (ResultValid W V) same valid,
            0 ∷ e,
            subst (λ z. (result d c).encode z ≡ some (0 ∷ e)) same
                (after_tag-some 0 (d.encode a) e encoded),
            split ∙ ap (λ z. 0 ∷ z) cut,
          )
      | inr (left, split, q) ↦
          let bytes_left : All IsByte (1 ∷ left) = rw split at h in
          let (a, same, valid, e, encoded, cut) =
            payload_decoded V c ok left rest v law bytes_left.1 q in
          (
            subst (ResultValid W V) same valid,
            1 ∷ e,
            subst (λ z. (result d c).encode z ≡ some (1 ∷ e)) same
                (after_tag-some 1 (c.encode a) e encoded),
            split ∙ ap (λ z. 1 ∷ z) cut,
          )
    ]
