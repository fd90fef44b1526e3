-- ===== src/Mint/Onchain/Shares.antt =====
-- Signature shares and nonces by input, as `process_signature_shares` and `nonce_column` of
-- picomint-node-daemon/src/consensus/onchain/mod.rs read them.
use picomint.Prelude.{
  ℕ, zero, suc, ◌+◌, ◌≤◌, ◌<◌, ◌≡◌, refl, Bool, true, false, Option, none, some, List, [], ◌∷◌,
  length, drop, get_elem?, All, arith, ◌∙◌, ap, inl, inr, Bool-cases, >>=-eq-some, some_unique,
}
use mathlib.Core.Path.{subst}
use picomint.Collections.BTreeMap
use picomint.Collections.BTreeMap.{BTreeMap, values}
use picomint.Nodes.{threshold}
use picomint.Mint.Onchain.Values.{BitcoinTx, TxOut, SpentTxOut, MintTx, NonceEntry, Bitcoin}
use picomint.Mint.Onchain.Signing.{
  Tss, Server, nonce_column_from, nonce_column, tweaked_agg_pk, tweaked_pks, prevouts,
  sighashes_from, sighashes, verify_shares,
}

pub get_elem?-some :
    {A : Type 0} (xs : List A) (i : ℕ) → i < length xs → (x : A) × (get_elem? xs i ≡ some x)
get_elem?-some [] i h = absurd (omega arith)
get_elem?-some (x ∷ xs) zero h = (x, refl)
get_elem?-some (x ∷ xs) (suc i) h = get_elem?-some xs i (omega arith)

drop-cons :
    {A : Type 0} (i : ℕ) (xs ys : List A) (y : A)
    → drop i xs ≡ y ∷ ys
    → (get_elem? xs i ≡ some y) × (drop (i + 1) xs ≡ ys)
drop-cons zero [] ys y h = absurd (ground arith)
drop-cons (suc i) [] ys y h = absurd (ground arith)
drop-cons zero (x ∷ xs) ys y h = (ground arith, ground arith)
drop-cons (suc i) (x ∷ xs) ys y h =
    let (here, rest) = drop-cons i xs ys y h in
    (here, ap (λ k. drop k (x ∷ xs)) (let e : suc i + 1 ≡ suc (i + 1) = omega arith in e) ∙ rest)

-- Entries with a nonce for each of `k` inputs.
abbrev pub Complete : ℕ → List NonceEntry → Type 0
Complete k chunk = All (λ (e : NonceEntry). length e.nonces ≡ k) chunk

pub nonce_column-returns :
    (chunk : List NonceEntry) (k index : ℕ) (column : BTreeMap ℕ)
    → Complete k chunk
    → index < k
    → (c : BTreeMap ℕ) × (nonce_column_from chunk index column ≡ some c)
unfolding nonce_column_from
nonce_column-returns [] k index column full h = (column, refl)
nonce_column-returns (e ∷ chunk) k index column full h =
    let (nonce, there) = get_elem?-some e.nonces index (omega (arith, full.0)) in
    let (c, rest) =
      nonce_column-returns chunk k index (BTreeMap.insert e.node nonce column) full.1 h in
    (c, rw there rest)

-- The crate hashes any input of a transaction for which it is given an output per input.
pub record Hashes (bitcoin : Bitcoin) : Type 0 where
  pub answers :
      (tx : BitcoinTx) (index : ℕ) (prevouts : List TxOut)
      → length prevouts ≡ length tx.input
      → index < length tx.input
      → (msg : ℕ) × (bitcoin.taproot_key_spend_signature_hash tx index prevouts ≡ some msg)

module _ (bitcoin : Bitcoin) (tss : Tss) (server : Server) where
  -- The hashes that are signed, where they are there.
  abbrev pub hashes_of : MintTx → List ℕ
  hashes_of u = elim (sighashes bitcoin tss server u) [ none ↦ [] | some msgs ↦ msgs ]

  length-prevouts :
      (utxos : List SpentTxOut) → length (prevouts bitcoin tss server utxos) ≡ length utxos
  length-prevouts [] = refl
  length-prevouts (utxo ∷ utxos) = ap suc (length-prevouts utxos)

  sighashes_from-returns :
      Hashes bitcoin
      → (u : MintTx) (index k : ℕ) → length u.spent_tx_outs ≡ length u.tx.input
      → index + k ≤ length u.tx.input
      → (msgs : List ℕ) × (sighashes_from bitcoin tss server u index k ≡ some msgs)
        × (length msgs ≡ k)
  unfolding sighashes_from
  sighashes_from-returns law u index zero same h = ([], refl, refl)
  sighashes_from-returns law u index (suc k) same h =
      let (msg, here) =
        law.answers u.tx index (prevouts bitcoin tss server u.spent_tx_outs)
          (length-prevouts u.spent_tx_outs ∙ same) (omega arith) in
      let (msgs, rest, number) = sighashes_from-returns law u (index + 1) k same (omega arith) in
      (msg ∷ msgs, rw (here, rest) refl, ap suc number)

  -- With as many outputs spent as there are inputs, every input has its hash.
  pub sighashes-returns :
      Hashes bitcoin
      → (u : MintTx) → length u.spent_tx_outs ≡ length u.tx.input
      → (msgs : List ℕ) × (sighashes bitcoin tss server u ≡ some msgs)
        × (length msgs ≡ length u.spent_tx_outs)
  sighashes-returns law u same =
      sighashes_from-returns law u 0 (length u.spent_tx_outs) same (omega arith)

  -- With a key share of the node and all nonces there, shares are verified without a failed `expect`.
  pub verify_shares-returns :
      (node k : ℕ) (chunk : List NonceEntry) (pk index : ℕ) (utxos : List SpentTxOut)
      (msgs shares : List ℕ)
      → BTreeMap.get node server.pks ≡ some pk
      → Complete k chunk
      → index + length utxos ≤ k
      → (b : Bool) × (verify_shares bitcoin tss server node chunk index utxos msgs shares ≡ some b)
  unfolding verify_shares
  verify_shares-returns node k chunk pk index [] msgs shares key full h = (true, refl)
  verify_shares-returns node k chunk pk index (u ∷ utxos) [] shares key full h = (true, refl)
  verify_shares-returns node k chunk pk index (u ∷ utxos) (m ∷ msgs) [] key full h = (true, refl)
  verify_shares-returns node k chunk pk index (u ∷ utxos) (m ∷ msgs) (s ∷ shares) key full h =
      let (c, column) = nonce_column-returns chunk k index [] full (omega arith) in
      let (b, rest) =
        verify_shares-returns node k chunk pk (index + 1) utxos msgs shares key full
          (omega arith) in
      elim (Bool-cases (
        tss.verify_signature_share m node (bitcoin.add_exp_tweak pk u.tweak) s c
          (tweaked_agg_pk bitcoin tss server u.tweak))) [
            | inl good ↦ (b, rw (key, column) (rw good rest))
            | inr bad ↦ (false, rw (key, column) (rw bad refl))
          ]

  -- A share that the session's nonces verify.
  abbrev pub Good : ℕ → ℕ → BTreeMap ℕ → ℕ → ℕ → Type 0
  Good msg tweak column node share =
      (pk : ℕ) × (tweaked_pks bitcoin tss server node tweak ≡ some pk)
      × (tss.verify_signature_share msg node pk share column
            (tweaked_agg_pk bitcoin tss server tweak)
          ≡ true)

  -- Threshold signatures: the shares of at least a threshold of signers, each of which verifies, make a
  -- signature that verifies.
  pub record Aggregates : Type 0 where
    pub aggregate_verifies :
        (msg tweak : ℕ) (column shares : BTreeMap ℕ)
        → threshold server.n ≤ length column
        → ((node nonce : ℕ)
            → BTreeMap.get node column ≡ some nonce
            → (share : ℕ) × (BTreeMap.get node shares ≡ some share)
              × Good msg tweak column node share)
        → tss.verify msg
            (tss.aggregate_signature_shares msg column shares
              (tweaked_agg_pk bitcoin tss server tweak))
            (tweaked_agg_pk bitcoin tss server tweak)
          ≡ true

  -- Each entry's response, from input `index` on, is as long as the inputs and verifies.
  abbrev pub Responses :
      List NonceEntry → ℕ → List SpentTxOut → List ℕ → List NonceEntry → List (List ℕ) → Type 0
  Responses whole index utxos msgs [] [] = Unit
  Responses whole index utxos msgs (e ∷ chunk) (r ∷ responses) =
      (length (drop index r) ≡ length utxos)
      × (verify_shares bitcoin tss server e.node whole index utxos msgs (drop index r) ≡ some true)
      × Responses whole index utxos msgs chunk responses
  Responses whole index utxos msgs [] (r ∷ responses) = ⊥
  Responses whole index utxos msgs (e ∷ chunk) [] = ⊥

  checked :
      (b : Bool) (rest : Option Bool)
      → elim b [ false ↦ some false | true ↦ rest ] ≡ some true
      → (b ≡ true) × (rest ≡ some true)
  checked true rest p = (refl, p)
  checked false rest p = absurd (ground arith)

  verify_shares-cons :
      (node : ℕ) (whole : List NonceEntry) (index : ℕ) (u : SpentTxOut) (utxos : List SpentTxOut)
      (msg : ℕ) (msgs : List ℕ) (column : BTreeMap ℕ) (share : ℕ) (rest : List ℕ)
      → nonce_column whole index ≡ some column
      → verify_shares bitcoin tss server node whole index (u ∷ utxos) (msg ∷ msgs) (share ∷ rest)
        ≡ some true
      → Good msg u.tweak column node share
        × (verify_shares bitcoin tss server node whole (index + 1) utxos msgs rest ≡ some true)
  unfolding verify_shares
  verify_shares-cons node whole index u utxos msg msgs column share rest there ok =
      let (pk, key, p) = >>=-eq-some (tweaked_pks bitcoin tss server node u.tweak) _ ok in
      let (c, found, q) = >>=-eq-some (nonce_column whole index) _ p in
      let same : c ≡ column = some_unique c column found there in
      let (good, later) =
        checked
          (tss.verify_signature_share msg node pk share c
            (tweaked_agg_pk bitcoin tss server u.tweak))
          (verify_shares bitcoin tss server node whole (index + 1) utxos msgs rest) q in
      (
        (
          pk,
          key,
          subst
              (λ z.
                tss.verify_signature_share msg node pk share z
                  (tweaked_agg_pk bitcoin tss server u.tweak)
                ≡ true)
              same good,
        ),
        later,
      )

  -- A verified response, taken apart at its first input.
  pub record Verified (node : ℕ) (whole : List NonceEntry) (index : ℕ) (u : SpentTxOut)
      (utxos : List SpentTxOut) (msg : ℕ) (msgs : List ℕ) (column : BTreeMap ℕ) (r : List ℕ)
      : Type 0 where
    pub share : ℕ
    pub here : get_elem? r index ≡ some share
    pub good : Good msg u.tweak column node share
    pub sized : length (drop (index + 1) r) ≡ length utxos
    pub later :
        verify_shares bitcoin tss server node whole (index + 1) utxos msgs (drop (index + 1) r)
        ≡ some true

  pub Verified-split :
      (node : ℕ) (whole : List NonceEntry) (index : ℕ) (u : SpentTxOut) (utxos : List SpentTxOut)
      (msg : ℕ) (msgs : List ℕ) (column : BTreeMap ℕ) (r d : List ℕ)
      → drop index r ≡ d
      → nonce_column whole index ≡ some column
      → length d ≡ suc (length utxos)
      → verify_shares bitcoin tss server node whole index (u ∷ utxos) (msg ∷ msgs) d ≡ some true
      → Verified node whole index u utxos msg msgs column r
  Verified-split node whole index u utxos msg msgs column r [] e there sized ok =
      absurd (omega arith)
  Verified-split node whole index u utxos msg msgs column r (share ∷ rest) e there sized ok =
      let (here, after) = drop-cons index r rest share e in
      let (good, later) =
        verify_shares-cons node whole index u utxos msg msgs column share rest there ok in
      record {
        share = share;
        here = here;
        good = good;
        sized = rw after (omega arith);
        later = rw after later;
      }
