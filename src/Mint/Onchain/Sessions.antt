-- ===== src/Mint/Onchain/Sessions.antt =====
-- The signing sessions that the nonce log of picomint-node-daemon/src/consensus/onchain/mod.rs is cut
-- into: no node stands in one session twice.
use picomint.Prelude.{
  div_bounds, mul_mono, ℕ, suc, ◌+◌, ◌*◌, ◌/◌, ◌≤◌, ◌<◌, ◌≡◌, ◌≢◌, refl, none, some, List, [], ◌∷◌,
  ◌++◌, length, All, get_elem?, leb, ltb, ◌==◌, ◌&&◌, arith, sym, inl, inr, Bool-cases,
  Option-cases, >>=-eq-some,
}
use native.Mathlib.Decide.{dec_lt}
use picomint.Collections.BTreeMap
use picomint.Collections.BTreeMap.{BTreeMap, values}
use picomint.Collections.Dense.{Dense, length-range, length-values, All-range}
use picomint.Mint.Onchain.Values.{NonceEntry}
use picomint.Mint.Onchain.Signing.{latest_entry, session_chunk, nonce_column_from, nonce_column}

-- A session ends between the two positions.
abbrev pub Apart : ℕ → ℕ → ℕ → Type 0
Apart t i j = (s : ℕ) × (i < s * t) × (s * t ≤ j)

-- The entries of a node stand in different sessions.
abbrev pub Spread : ℕ → BTreeMap NonceEntry → Type 0
Spread t [] = Unit
Spread t ((k, e) ∷ log) =
    All (λ (f : ℕ × NonceEntry). f.1.node ≡ e.node → Apart t k f.0) log × Spread t log

-- The entries are those of different nodes.
abbrev pub Distinct : List NonceEntry → Type 0
Distinct [] = Unit
Distinct (e ∷ chunk) = All (λ (f : NonceEntry). f.node ≢ e.node) chunk × Distinct chunk

pub All-append {ℓ κ} :
    {A : Type ℓ} (P : A → Type κ) (xs : List A) (x : A) → All P xs → P x → All P (xs ++ (x ∷ []))
All-append P [] x h p = (p, tt)
All-append P (y ∷ xs) x h p = (h.0, All-append P xs x h.1 p)

pub All-map {ℓ κ ι} :
    {A : Type ℓ} (P : A → Type κ) (Q : A → Type ι) (xs : List A)
    → ((a : A) → P a → Q a)
    → All P xs
    → All Q xs
All-map P Q [] f h = tt
All-map P Q (x ∷ xs) f h = (f x h.0, All-map P Q xs f h.1)

pub Spread-append :
    (t n : ℕ) (e : NonceEntry) (log : BTreeMap NonceEntry)
    → Spread t log
    → All (λ (f : ℕ × NonceEntry). f.1.node ≡ e.node → Apart t f.0 n) log
    → Spread t (log ++ ((n, e) ∷ []))
Spread-append t n e [] s h = (tt, tt)
Spread-append t n e ((k, x) ∷ log) s h = (
  All-append (λ (f : ℕ × NonceEntry). f.1.node ≡ x.node → Apart t k f.0) log (n, e) s.0
      (λ same. h.0 (sym same)),
  Spread-append t n e log s.1 h.1,
)

pub latest_entry-none :
    (node : ℕ) (log : BTreeMap NonceEntry)
    → latest_entry node log ≡ none
    → All (λ (f : ℕ × NonceEntry). f.1.node ≢ node) log
unfolding latest_entry
latest_entry-none node [] h = tt
latest_entry-none node ((k, e) ∷ log) h = elim (Option-cases (latest_entry node log)) [
  | inr (later, there) ↦ absurd (ground arith)
  | inl gone ↦ (λ same. ground arith, latest_entry-none node log gone)
]

-- The latest entry of a node is one of its entries, and none of them stands behind it.
pub record Latest (node ℓ : ℕ) (k : ℕ) (log : BTreeMap NonceEntry) : Type 0 where
  pub before : All (λ (f : ℕ × NonceEntry). f.1.node ≡ node → f.0 ≤ ℓ) log
  pub entry : NonceEntry
  pub there : BTreeMap.get ℓ log ≡ some entry
  pub own : entry.node ≡ node
  pub from : k ≤ ℓ

none_later :
    (node ℓ : ℕ) (log : BTreeMap NonceEntry)
    → All (λ (f : ℕ × NonceEntry). f.1.node ≢ node) log
    → All (λ (f : ℕ × NonceEntry). f.1.node ≡ node → f.0 ≤ ℓ) log
none_later node ℓ log h =
    All-map (λ (f : ℕ × NonceEntry). f.1.node ≢ node)
      (λ (f : ℕ × NonceEntry). f.1.node ≡ node → f.0 ≤ ℓ) log (λ f apart same. absurd (apart same))
      h

pub latest_entry-Latest :
    (node ℓ k : ℕ) (log : BTreeMap NonceEntry)
    → Dense k log
    → latest_entry node log ≡ some ℓ
    → Latest node ℓ k log
unfolding latest_entry BTreeMap.get
latest_entry-Latest node ℓ k [] d h = absurd (ground arith)
latest_entry-Latest node ℓ k ((j, e) ∷ log) d h = elim (Option-cases (latest_entry node log)) [
  | inr (later, there) ↦
      let same : later ≡ ℓ = ground arith in
      let x = latest_entry-Latest node ℓ (k + 1) log d.1 (ground arith) in
      record {
        before = (λ own. omega (arith, d.0, x.from), x.before);
        entry = x.entry;
        there = ground (arith, d.0, x.from, x.there);
        own = x.own;
        from = omega (arith, x.from);
      }
  | inl gone ↦
      let here : j ≡ ℓ = ground arith in
      record {
        before = (λ own. omega arith, none_later node ℓ log (latest_entry-none node log gone));
        entry = e;
        there = ground arith;
        own = ground arith;
        from = omega (arith, d.0);
      }
]

-- A session that is full lies within the log.
pub full_session :
    (t s : ℕ) (log : BTreeMap NonceEntry)
    → 0 < t
    → Dense 0 log
    → length (session_chunk t s log) ≡ t
    → (s + 1) * t ≤ length log
full_session t s log pos d full =
    let count = length-range 0 (s * t) ((s + 1) * t) log d in
    let same = length-values (BTreeMap.range (s * t) ((s + 1) * t) log) in
    let split : (s + 1) * t ≡ s * t + t = grind arith in omega arith

-- An entry behind the session of the node's latest entry, once that is full.
pub Spread-latest :
    (t node ℓ : ℕ) (log : BTreeMap NonceEntry)
    → 0 < t
    → Dense 0 log
    → latest_entry node log ≡ some ℓ
    → length (session_chunk t (ℓ / t) log) ≡ t
    → All (λ (f : ℕ × NonceEntry). f.1.node ≡ node → Apart t f.0 (length log)) log
Spread-latest t node ℓ log pos d h full =
    let x = latest_entry-Latest node ℓ 0 log d h in
    let ends = full_session t (ℓ / t) log pos d full in
    let (_, inside) = div_bounds ℓ t pos in
    All-map (λ (f : ℕ × NonceEntry). f.1.node ≡ node → f.0 ≤ ℓ)
      (λ (f : ℕ × NonceEntry). f.1.node ≡ node → Apart t f.0 (length log)) log
      (λ f le same. (ℓ / t + 1, let low = le same in omega arith, ends)) x.before

-- Two entries of one node in one session contradict that they are apart.
not-Apart : (t s i j : ℕ) → s * t ≤ i → j < (s + 1) * t → Apart t i j → ⊥
not-Apart t s i j low high (e, below, above) = elim (dec_lt s e) [
  | yes later ↦ omega (arith, mul_mono (s + 1) e t (omega arith))
  | no earlier ↦ omega (arith, mul_mono e s t (omega arith))
]

-- No node stands in a session twice.
pub session_chunk-Distinct :
    (t s : ℕ) (log : BTreeMap NonceEntry) → Spread t log → Distinct (session_chunk t s log)
unfolding BTreeMap.range
session_chunk-Distinct t s [] h = tt
session_chunk-Distinct t s ((k, e) ∷ log) h =
    let rest = session_chunk-Distinct t s log h.1 in
    elim (Bool-cases (leb (s * t) k && ltb k ((s + 1) * t))) [
      | inr outside ↦ rw outside rest
      | inl inside ↦
          let low : s * t ≤ k = ground arith in
          let others =
            All-range (λ (f : ℕ × NonceEntry). f.1.node ≡ e.node → Apart t k f.0) (s * t)
              ((s + 1) * t) log h.0 in
          rw inside
            (apart_values t s k e.node (BTreeMap.range (s * t) ((s + 1) * t) log) low others, rest)
    ]
  where
    apart_values :
        (t s k node : ℕ) (rows : BTreeMap NonceEntry)
        → s * t ≤ k
        → All
            (λ (f : ℕ × NonceEntry).
              (f.1.node ≡ node → Apart t k f.0) × (s * t ≤ f.0) × (f.0 < (s + 1) * t))
            rows
        → All (λ (f : NonceEntry). f.node ≢ node) (values rows)
    apart_values t s k node [] low h = tt
    apart_values t s k node ((j, f) ∷ rows) low h =
        (λ same. not-Apart t s k j low h.0.2 (h.0.0 same), apart_values t s k node rows low h.1)

length-insert :
    (k v : ℕ) (m : BTreeMap ℕ)
    → BTreeMap.get k m ≡ none
    → length (BTreeMap.insert k v m) ≡ suc (length m)
unfolding BTreeMap.insert BTreeMap.get
length-insert k v [] h = refl
length-insert k v ((j, w) ∷ m) h = ground (arith, length-insert k v m)

still_absent :
    (k v : ℕ) (column : BTreeMap ℕ) (chunk : List NonceEntry)
    → All (λ (f : NonceEntry). BTreeMap.get f.node column ≡ none) chunk
    → All (λ (f : NonceEntry). f.node ≢ k) chunk
    → All (λ (f : NonceEntry). BTreeMap.get f.node (BTreeMap.insert k v column) ≡ none) chunk
still_absent k v column [] h d = tt
still_absent k v column (f ∷ chunk) h d = (
  let apart = d.0 in
      elim (Bool-cases (k == f.node)) [
        | inl same ↦ absurd (apart (ground arith))
        | inr other ↦ ground (arith, h.0, BTreeMap.get-insert k f.node v column)
      ],
  still_absent k v column chunk h.1 d.1,
)

nonce_column_from-length :
    (chunk : List NonceEntry) (index : ℕ) (column column' : BTreeMap ℕ)
    → Distinct chunk
    → All (λ (f : NonceEntry). BTreeMap.get f.node column ≡ none) chunk
    → nonce_column_from chunk index column ≡ some column'
    → length column' ≡ length column + length chunk
unfolding nonce_column_from
nonce_column_from-length [] index column column' d h p = ground arith
nonce_column_from-length (e ∷ chunk) index column column' d h p =
    let (nonce, _, q) = >>=-eq-some (get_elem? e.nonces index) _ p in
    let grown = length-insert e.node nonce column h.0 in
    omega (
      arith,
      nonce_column_from-length chunk index (BTreeMap.insert e.node nonce column) column' d.1
          (still_absent e.node nonce column chunk h.1 d.0) q,
    )

all_absent :
    (chunk : List NonceEntry)
    → All (λ (f : NonceEntry). BTreeMap.get {V = ℕ} f.node [] ≡ none) chunk
unfolding BTreeMap.get
all_absent [] = tt
all_absent (e ∷ chunk) = (refl, all_absent chunk)

-- A session of distinct nodes has a nonce of each.
pub nonce_column-length :
    (chunk : List NonceEntry) (index : ℕ) (column : BTreeMap ℕ)
    → Distinct chunk
    → nonce_column chunk index ≡ some column
    → length column ≡ length chunk
nonce_column-length chunk index column d p =
    omega (arith, nonce_column_from-length chunk index [] column d (all_absent chunk) p)
