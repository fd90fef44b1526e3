-- ===== src/Encoding/Integers.antt =====
-- The integers of picomint-encoding/src/lib.rs: bytes of a fixed number, the most significant first.
use picomint.Prelude.{
  ℕ, zero, suc, ◌+◌, ◌*◌, ◌/◌, ◌%◌, ◌^◌, ◌<◌, ◌≡◌, refl, sym, ap, ◌∙◌, Option, none, some, List, [],
  ◌∷◌, ◌++◌, length, All, ◌>>=◌, >>=-eq-some, some_unique, mul_mono, div_unique, arith,
}
use mathlib.Core.Path.{subst}
use native.Mathlib.Nat.{div-add-mod, mod-lt}
use picomint.Encoding.Codec.{Codec, IsCanonical, IsByte, All-append}

-- `to_be_bytes` at a number of bytes.
unfoldable pub to_be_bytes : ℕ → ℕ → List ℕ
to_be_bytes zero n = []
to_be_bytes (suc k) n = n / 256 ^ k ∷ to_be_bytes k (n % 256 ^ k)

-- `from_be_bytes`
unfoldable pub from_be_bytes : List ℕ → ℕ
from_be_bytes [] = 0
from_be_bytes (b ∷ bytes) = b * 256 ^ length bytes + from_be_bytes bytes

-- `Read::read_exact`: the bytes read, and the rest.
unfoldable pub read_exact : ℕ → List ℕ → Option (List ℕ × List ℕ)
read_exact zero bytes = some ([], bytes)
read_exact (suc n) [] = none
read_exact (suc n) (b ∷ bytes) = read_exact n bytes >>= λ r. some (b ∷ r.0, r.1)

-- `impl_encode_decode_int!` at a number of bytes.
abbrev pub int : ℕ → Codec ℕ
int k = record {
  encode = λ n. some (to_be_bytes k n);
  decode_partial = λ bytes. read_exact k bytes >>= λ r. some (from_be_bytes r.0, r.1);
}

pub pow_pos : (k : ℕ) → 0 < 256 ^ k
pow_pos zero = omega arith
pow_pos (suc k) = omega (arith, pow_pos k)

power : (k : ℕ) → 256 * 256 ^ k ≡ 256 ^ suc k
power k = omega arith

-- Quotient and remainder of a number that is written out by them.
div_mod_unique : (q r d : ℕ) → r < d → ((q * d + r) / d ≡ q) × ((q * d + r) % d ≡ r)
div_mod_unique q r d h =
    let split = div-add-mod (q * d + r) d in
    let quotient = div_unique (q * d + r) d q (omega arith) (omega arith) (omega arith) in
    (quotient, omega (arith, split, ap (λ z. d * z) quotient))

pub length-to_be_bytes : (k n : ℕ) → length (to_be_bytes k n) ≡ k
unfolding to_be_bytes
length-to_be_bytes zero n = refl
length-to_be_bytes (suc k) n = ap suc (length-to_be_bytes k (n % 256 ^ k))

pub read_exact-append :
    (k : ℕ) (bytes rest : List ℕ)
    → length bytes ≡ k
    → read_exact k (bytes ++ rest) ≡ some (bytes, rest)
unfolding read_exact
read_exact-append zero [] rest e = refl
read_exact-append zero (b ∷ bytes) rest e = absurd (omega arith)
read_exact-append (suc k) [] rest e = absurd (omega arith)
read_exact-append (suc k) (b ∷ bytes) rest e =
    rw (read_exact-append k bytes rest (omega arith)) refl

pub read_exact_split :
    (k : ℕ) (bytes front rest : List ℕ)
    → read_exact k bytes ≡ some (front, rest)
    → (length front ≡ k) × (bytes ≡ front ++ rest)
unfolding read_exact
read_exact_split zero bytes front rest p = ground (arith, p)
read_exact_split (suc k) [] front rest p = cc
read_exact_split (suc k) (b ∷ bytes) front rest p =
    let (r, got, fin) = >>=-eq-some (read_exact k bytes) _ p in
    let (sized, split) = read_exact_split k bytes r.0 r.1 got in
    let out : (b ∷ r.0, r.1) ≡ (front, rest) = some_unique _ _ refl fin in
    (
      omega (arith, sized, ap (λ z. length (z.0)) out),
      ap (λ z. b ∷ z) split ∙ ap (λ z. z.0 ++ z.1) out,
    )

from_be_bytes_lt : (bytes : List ℕ) → All IsByte bytes → from_be_bytes bytes < 256 ^ length bytes
unfolding from_be_bytes
from_be_bytes_lt [] h = omega arith
from_be_bytes_lt (b ∷ bytes) (hb, hs) =
    let rest = from_be_bytes_lt bytes hs in
    let top = mul_mono (b + 1) 256 (256 ^ length bytes) (omega arith) in
    let below : b * 256 ^ length bytes + from_be_bytes bytes < 256 * 256 ^ length bytes =
      grind arith in
    subst (λ z. b * 256 ^ length bytes + from_be_bytes bytes < z) (power (length bytes)) below

pub from_be_bytes-to_be_bytes : (k n : ℕ) → n < 256 ^ k → from_be_bytes (to_be_bytes k n) ≡ n
unfolding from_be_bytes to_be_bytes
from_be_bytes-to_be_bytes zero n h = omega arith
from_be_bytes-to_be_bytes (suc k) n h =
    rw
      (
        from_be_bytes-to_be_bytes k (n % 256 ^ k) (mod-lt n (pow_pos k)),
        length-to_be_bytes k (n % 256 ^ k),
      )
      (omega (arith, div-add-mod n (256 ^ k)))

to_be_bytes-from_be_bytes :
    (bytes : List ℕ) → All IsByte bytes → to_be_bytes (length bytes) (from_be_bytes bytes) ≡ bytes
unfolding from_be_bytes to_be_bytes
to_be_bytes-from_be_bytes [] h = refl
to_be_bytes-from_be_bytes (b ∷ bytes) (hb, hs) =
    let (quotient, remainder) =
      div_mod_unique b (from_be_bytes bytes) (256 ^ length bytes) (from_be_bytes_lt bytes hs) in
    rw (quotient, remainder, to_be_bytes-from_be_bytes bytes hs) refl

-- An integer of `k` bytes.
pub int-IsCanonical : (k : ℕ) → IsCanonical (int k) (λ n. n < 256 ^ k)
int-IsCanonical k = record {
  decode_encoded = λ v bytes rest valid p.
      let same : to_be_bytes k v ≡ bytes = some_unique _ _ refl p in
      let read = read_exact-append k (to_be_bytes k v) rest (length-to_be_bytes k v) in
      rw (← same, read, from_be_bytes-to_be_bytes k v valid) refl;
  encode_decoded = λ v bytes rest h p.
      let (r, got, fin) = >>=-eq-some (read_exact k bytes) _ p in
      let (sized, split) = read_exact_split k bytes r.0 r.1 got in
      let (front_bytes, _) = All-append IsByte r.0 r.1 (rw split at h) in
      let out : (from_be_bytes r.0, r.1) ≡ (v, rest) = some_unique _ _ refl fin in
      let small : from_be_bytes r.0 < 256 ^ k =
        subst (λ z. from_be_bytes r.0 < 256 ^ z) sized (from_be_bytes_lt r.0 front_bytes) in
      let again : to_be_bytes k (from_be_bytes r.0) ≡ r.0 =
        subst (λ z. to_be_bytes z (from_be_bytes r.0) ≡ r.0) sized
          (to_be_bytes-from_be_bytes r.0 front_bytes) in
      (
        subst (λ z. z < 256 ^ k) (ap (λ z. z.0) out) small,
        r.0,
        ap some (ap (to_be_bytes k) (sym (ap (λ z. z.0) out)) ∙ again),
        split ∙ ap (λ z. r.0 ++ z) (ap (λ z. z.1) out),
      );
}
