-- ===== src/Database/Scans.antt =====
-- Ranges of integer keys in picomint-redb/src/lib.rs, over the bytes of picomint-encoding/src/lib.rs.
use picomint.Prelude.{
  ℕ, zero, suc, ◌+◌, ◌*◌, ◌/◌, ◌%◌, ◌^◌, ◌<◌, ◌≡◌, refl, ap, ◌&&◌, ◌||◌, some, List, ltb, leb, ◌==◌,
  arith, Bool-cases, inl, inr, mul_mono,
}
use native.Mathlib.Nat.{div-add-mod, mod-lt}
use picomint.Encoding.Integers.{int, pow_pos, to_be_bytes}
use picomint.Database.Ranges.{Bound, included, excluded, bytes_ltb, contains, encoded_bounds}

-- The order of numbers is that of their quotients and remainders.
ltb_div :
    (a b d : ℕ) → 0 < d → (ltb (a / d) (b / d) || (a / d == b / d && ltb (a % d) (b % d))) ≡ ltb a b
ltb_div a b d pos =
    let la = div-add-mod a d in
    let lb = div-add-mod b d in
    let ma = mod-lt a {m = d} pos in
    let mb = mod-lt b {m = d} pos in
    elim (Bool-cases (ltb (a / d) (b / d))) [
      | inl less ↦ let gap = mul_mono (a / d + 1) (b / d) d (ground arith) in ground (arith, gap)
      | inr not_less ↦ elim (Bool-cases (a / d == b / d)) [
        | inl same ↦
            let e : a / d ≡ b / d = ground arith in let f = ap (λ z. d * z) e in ground (arith, f)
        | inr other ↦ let gap = mul_mono (b / d + 1) (a / d) d (ground arith) in ground (arith, gap)
      ]
    ]

bytes_ltb-to_be_bytes :
    (k a b : ℕ)
    → a < 256 ^ k
    → b < 256 ^ k
    → bytes_ltb (to_be_bytes k a) (to_be_bytes k b) ≡ ltb a b
unfolding bytes_ltb to_be_bytes
bytes_ltb-to_be_bytes zero a b h g = ground arith
bytes_ltb-to_be_bytes (suc k) a b h g =
    let pos : 0 < 256 ^ k = pow_pos k in
    rw (bytes_ltb-to_be_bytes k (a % 256 ^ k) (b % 256 ^ k) (mod-lt a pos) (mod-lt b pos))
      (ltb_div a b (256 ^ k) pos)

-- A range of integer keys of `k` bytes, encoded, holds just the encodings of the integers that lie in the range.
pub encoded_bounds-contains :
    (k low high n : ℕ)
    → low < 256 ^ k
    → high < 256 ^ k
    → n < 256 ^ k
    → (bounds : Bound (List ℕ) × Bound (List ℕ)) × (encoded_bounds
          (int k)
          (included low, excluded high)
        ≡ some bounds)
      × (contains bounds (to_be_bytes k n) ≡ (leb low n && ltb n high))
encoded_bounds-contains k low high n hl hh hn = (
  (included (to_be_bytes k low), excluded (to_be_bytes k high)),
  refl,
  rw (bytes_ltb-to_be_bytes k n low hn hl, bytes_ltb-to_be_bytes k n high hn hh) (ground arith),
)
