-- ===== src/Mint/Onchain/Finalize.antt =====
-- The completion of a signing session in picomint-node-daemon/src/consensus/onchain/mod.rs: no `expect` and
-- no assertion of `process_signature_shares` and `finalize_tx` fails.
use picomint.Prelude.{
  ℕ, ◌+◌, ◌≤◌, ◌≡◌, refl, some, List, [], ◌∷◌, length, drop, get_elem?, ◌==◌, arith, inl, inr,
  Bool-cases, >>=-eq-some,
}
use mathlib.Core.Path.{subst}
use picomint.Collections.BTreeMap
use picomint.Collections.BTreeMap.{BTreeMap, values}
use picomint.Nodes.{threshold}
use picomint.Mint.Onchain.Values.{TxIn, SpentTxOut, NonceEntry, Bitcoin}
use picomint.Mint.Onchain.Signing.{
  Tss, Server, nonce_column_from, nonce_column, tweaked_agg_pk, share_column_from, finalize_inputs,
}
use picomint.Mint.Onchain.Sessions.{Distinct, nonce_column-length}
use picomint.Mint.Onchain.Shares.{
  Complete, nonce_column-returns, Good, Aggregates, Responses, Verified-split,
}

module _ (bitcoin : Bitcoin) (tss : Tss) (server : Server) where
  -- The responses and the nonces of one input, collected side by side.
  columns-Good :
      (whole : List NonceEntry) (index : ℕ) (u : SpentTxOut) (utxos : List SpentTxOut) (msg : ℕ)
      (msgs : List ℕ) (column : BTreeMap ℕ) (chunk : List NonceEntry) (responses : List (List ℕ))
      (nonces0 shares0 nonces1 : BTreeMap ℕ)
      → nonce_column whole index ≡ some column
      → Responses bitcoin tss server whole index (u ∷ utxos) (msg ∷ msgs) chunk responses
      → ((node nonce : ℕ)
          → BTreeMap.get node nonces0 ≡ some nonce
          → (share : ℕ) × (BTreeMap.get node shares0 ≡ some share)
            × Good bitcoin tss server msg u.tweak column node share)
      → nonce_column_from chunk index nonces0 ≡ some nonces1
      → (shares1 : BTreeMap ℕ) × (share_column_from bitcoin tss server chunk responses index shares0
          ≡ some shares1)
        × ((node nonce : ℕ)
            → BTreeMap.get node nonces1 ≡ some nonce
            → (share : ℕ) × (BTreeMap.get node shares1 ≡ some share)
              × Good bitcoin tss server msg u.tweak column node share)
  unfolding nonce_column_from share_column_from
  columns-Good whole index u utxos msg msgs column [] [] nonces0 shares0 nonces1 there rs agree p =
      let same : nonces0 ≡ nonces1 = ground arith in
      (shares0, refl, λ node nonce k. agree node nonce (rw same k))
  columns-Good whole index u utxos msg msgs column [] (r ∷ responses) nonces0 shares0 nonces1 there
        rs agree p =
      absurd rs
  columns-Good whole index u utxos msg msgs column (e ∷ chunk) [] nonces0 shares0 nonces1 there rs
        agree p =
      absurd rs
  columns-Good whole index u utxos msg msgs column (e ∷ chunk) (r ∷ responses) nonces0 shares0
        nonces1 there rs agree p =
      let x =
        Verified-split bitcoin tss server e.node whole index u utxos msg msgs column r
          (drop index r) refl there rs.0 rs.1 in
      let (nonce, _, q) = >>=-eq-some (get_elem? e.nonces index) _ p in
      let (shares1, found, all) =
        columns-Good whole index u utxos msg msgs column chunk responses
          (BTreeMap.insert e.node nonce nonces0) (BTreeMap.insert e.node x.share shares0) nonces1
          there rs.2
          (λ node v k. elim (Bool-cases (e.node == node)) [
            | inl same ↦
                let own : e.node ≡ node = ground arith in
                (
                  x.share,
                  ground (arith, BTreeMap.get-insert e.node node x.share shares0),
                  subst (λ i. Good bitcoin tss server msg u.tweak column i x.share) own x.good,
                )
            | inr other ↦
                let (share, k', good) =
                  agree node v (ground (arith, BTreeMap.get-insert e.node node nonce nonces0)) in
                (share, ground (arith, BTreeMap.get-insert e.node node x.share shares0), good)
          ])
          q in
      (shares1, rw (x.here) found, all)

  Responses-later :
      (whole : List NonceEntry) (index : ℕ) (u : SpentTxOut) (utxos : List SpentTxOut) (msg : ℕ)
      (msgs : List ℕ) (column : BTreeMap ℕ) (chunk : List NonceEntry) (responses : List (List ℕ))
      → nonce_column whole index ≡ some column
      → Responses bitcoin tss server whole index (u ∷ utxos) (msg ∷ msgs) chunk responses
      → Responses bitcoin tss server whole (index + 1) utxos msgs chunk responses
  Responses-later whole index u utxos msg msgs column [] [] there rs = tt
  Responses-later whole index u utxos msg msgs column [] (r ∷ responses) there rs = rs
  Responses-later whole index u utxos msg msgs column (e ∷ chunk) [] there rs = rs
  Responses-later whole index u utxos msg msgs column (e ∷ chunk) (r ∷ responses) there rs =
      let x =
        Verified-split bitcoin tss server e.node whole index u utxos msg msgs column r
          (drop index r) refl there rs.0 rs.1 in
      (
        x.sized,
        x.later,
        Responses-later whole index u utxos msg msgs column chunk responses there rs.2,
      )

  -- A session of a threshold of distinct nodes whose responses verify signs every input.
  pub finalize_inputs-returns :
      Aggregates bitcoin tss server
      → (chunk : List NonceEntry) (responses : List (List ℕ)) (k index : ℕ)
        (utxos : List SpentTxOut) (msgs : List ℕ) (inputs : List TxIn)
      → Distinct chunk
      → length chunk ≡ threshold server.n
      → Complete k chunk
      → index + length utxos ≤ k
      → length msgs ≡ length utxos
      → length inputs ≡ length utxos
      → Responses bitcoin tss server chunk index utxos msgs chunk responses
      → (signed : List TxIn) × (finalize_inputs bitcoin tss server chunk responses index utxos msgs
            inputs
          ≡ some signed)
  unfolding finalize_inputs
  finalize_inputs-returns law chunk responses k index [] msgs inputs d t full h lm li rs =
      (inputs, refl)
  finalize_inputs-returns law chunk responses k index (u ∷ utxos) [] inputs d t full h lm li rs =
      (inputs, refl)
  finalize_inputs-returns law chunk responses k index (u ∷ utxos) (msg ∷ msgs) [] d t full h lm li
        rs =
      absurd (omega arith)
  finalize_inputs-returns law chunk responses k index (u ∷ utxos) (msg ∷ msgs) (input ∷ inputs) d t
        full h lm li rs =
      let (column, there) = nonce_column-returns chunk k index [] full (omega arith) in
      let (shares, found, agree) =
        columns-Good chunk index u utxos msg msgs column chunk responses [] [] column there rs
          (λ node nonce e. absurd (unfold BTreeMap.get in ground arith)) there in
      let many : threshold server.n ≤ length column =
        omega (arith, nonce_column-length chunk index column d there) in
      let valid = law.aggregate_verifies msg u.tweak column shares many agree in
      let (signed, rest) =
        finalize_inputs-returns law chunk responses k (index + 1) utxos msgs inputs d t full
          (omega arith) (omega arith) (omega arith)
          (Responses-later chunk index u utxos msg msgs column chunk responses there rs) in
      (
        record input {
          witness = some (
              tss.aggregate_signature_shares msg column shares
                (tweaked_agg_pk bitcoin tss server u.tweak));
        }
            ∷ signed,
        rw (found, there, valid, rest) refl,
      )
