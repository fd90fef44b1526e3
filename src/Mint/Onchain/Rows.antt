-- ===== src/Mint/Onchain/Rows.antt =====
-- Which tables the steps of picomint-node-daemon/src/consensus/onchain/mod.rs leave alone, and the next
-- index of a table that rows are appended to.
use picomint.Prelude.{
  ℕ, ◌+◌, ◌*◌, ◌/◌, ◌<◌, ◌^◌, ◌≡◌, refl, some, List, [], ◌∷◌, length, arith, ◌∙◌, inl, inr,
  Option-cases,
}
use picomint.Collections.BTreeMap
use picomint.Collections.BTreeMap.{BTreeMap, values}
use picomint.Collections.Dense.{Dense}
use picomint.Nodes.{threshold}
use picomint.Mint.Ledger.{ok}
use picomint.Mint.Onchain.Values.{
  BlockTx, OnchainConsensusItem, block, feerate, nonces, signature_shares, MintTx, Wallet, Bitcoin,
}
use picomint.Mint.Onchain.Signing.{
  Tss, Server, next_index, process_nonces, store_shares, process_signature_shares, latest_entry,
  session_chunk, verify_shares, sighashes, finalize_tx,
}
use picomint.Mint.Onchain.Blocks.{
  track_outputs, track_txs, process_block_vote, process_feerate, process_consensus_item,
}

pub next_index-Dense :
    {A : Type 0} (k : ℕ) (m : BTreeMap A)
    → Dense k m
    → k + length m < 2 ^ 64
    → 0 < length m
    → next_index m ≡ k + length m
unfolding next_index
next_index-Dense k [] d small pos = absurd (omega arith)
next_index-Dense k ((j, v) ∷ []) d small pos = omega (arith, d.0)
next_index-Dense k ((j, v) ∷ (i, x) ∷ m) d small pos =
    next_index-Dense (k + 1) ((i, x) ∷ m) d.1 (omega arith) (omega arith) ∙ omega arith

-- The next index of a table that starts at 0 is its length.
pub next_index-length :
    {A : Type 0} (m : BTreeMap A) → Dense 0 m → length m < 2 ^ 64 → next_index m ≡ length m
next_index-length [] d small = unfold next_index in refl
next_index-length ((j, v) ∷ m) d small =
    next_index-Dense 0 ((j, v) ∷ m) d (omega arith) (omega arith) ∙ omega arith

-- What a consensus item may change.
abbrev pub tended : Wallet → Wallet → Wallet
tended w w' = record w {
  outputs = w'.outputs;
  block_height = w'.block_height;
  block_votes = w'.block_votes;
  unsigned_tx = w'.unsigned_tx;
  nonce_log = w'.nonce_log;
  shares = w'.shares;
  unconfirmed = w'.unconfirmed;
  feerate_votes = w'.feerate_votes;
}

-- What tracking a block may change.
abbrev pub tracking : Wallet → Wallet → Wallet
tracking w w' = record w { outputs = w'.outputs; unconfirmed = w'.unconfirmed }

pub track_txs-tracking :
    (index : ℕ) (txs : List BlockTx) (w : Wallet)
    → track_txs index txs w ≡ tracking w (track_txs index txs w)
unfolding track_txs
track_txs-tracking index [] w = refl
track_txs-tracking index (tx ∷ txs) w =
    let r = track_outputs tx.txid index tx.outputs w.outputs in
    let x : Wallet = record w {
      unconfirmed = BTreeMap.remove tx.txid w.unconfirmed;
      outputs = r.1;
    } in
    track_txs-tracking r.0 txs x ∙ refl

module _ (bitcoin : Bitcoin) (tss : Tss) (server : Server) where
  store_shares-tended :
      (w : Wallet) (u : MintTx) (node txid : ℕ) (shares fresh : List ℕ) (latest : ℕ) (w' : Wallet)
      → store_shares bitcoin tss server w u node txid shares fresh latest ≡ some (ok w')
      → w' ≡ tended w w'
  unfolding store_shares
  store_shares-tended w u node txid shares fresh latest w' p =
      let t = threshold server.n in
      let chunk = session_chunk t (latest / t) w.nonce_log in
      let range =
        BTreeMap.range (latest / t * t) ((latest / t + 1) * t)
          (BTreeMap.insert latest shares w.shares) in
      elim (Option-cases (BTreeMap.get latest w.shares)) [
        | inr (s, there) ↦ absurd (ground arith)
        | inl fresh_entry ↦
            elim (Option-cases (finalize_tx bitcoin tss server u chunk (values range))) [
              | inl panic ↦ ground arith
              | inr (signed, done) ↦ ground arith
            ]
      ]

  signature_shares-tended :
      (w : Wallet) (node txid : ℕ) (shares fresh : List ℕ) (w' : Wallet)
      → process_signature_shares bitcoin tss server w node txid shares fresh ≡ some (ok w')
      → w' ≡ tended w w'
  unfolding process_signature_shares
  signature_shares-tended w node txid shares fresh w' p = elim (Option-cases w.unsigned_tx) [
    | inl idle ↦ absurd (ground arith)
    | inr (u, busy) ↦ elim (Option-cases (latest_entry node w.nonce_log)) [
      | inl absent ↦ absurd (ground arith)
      | inr (latest, entered) ↦
          let t = threshold server.n in
          let chunk = session_chunk t (latest / t) w.nonce_log in
          elim (Option-cases (sighashes bitcoin tss server u)) [
            | inl panic ↦ absurd (ground arith)
            | inr (msgs, hashed) ↦
                elim (Option-cases
                  (verify_shares bitcoin tss server node chunk 0 u.spent_tx_outs msgs shares)) [
                    | inl panic ↦ absurd (ground arith)
                    | inr (valid, checked) ↦
                        store_shares-tended w u node txid shares fresh latest w' (ground arith)
                  ]
          ]
    ]
  ]

  -- The money stays where it is.
  pub item-tended :
      (w : Wallet) (node : ℕ) (item : OnchainConsensusItem) (w' : Wallet)
      → process_consensus_item bitcoin tss server w node item ≡ some (ok w')
      → w' ≡ tended w w'
  unfolding process_consensus_item process_block_vote process_feerate process_nonces
  item-tended w node (block vote) w' p =
      ground (arith, track_txs-tracking (next_index w.outputs) vote.txs w)
  item-tended w node (feerate vote) w' p = ground arith
  item-tended w node (nonces txid public_nonces) w' p = ground arith
  item-tended w node (signature_shares txid shares fresh) w' p =
      signature_shares-tended w node txid shares fresh w' p
