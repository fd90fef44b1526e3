-- ===== src/Mint/Onchain/Liveness.antt =====
-- `process_consensus_item` of picomint-node-daemon/src/consensus/onchain/mod.rs always answers.
use picomint.Prelude.{
  ℕ, ◌+◌, ◌*◌, ◌/◌, ◌≡◌, refl, true, Option, none, some, List, [], length, ◌==◌, arith, sym, ◌∙◌,
  inl, inr, Bool-cases, Option-cases,
}
use mathlib.Core.Path.{subst}
use picomint.Collections.BTreeMap
use picomint.Collections.BTreeMap.{BTreeMap, values}
use picomint.Nodes.{threshold}
use picomint.Mint.Ledger.{Result, ok, err}
use picomint.Mint.Onchain.Values.{
  MintTx, NonceEntry, Wallet, Bitcoin, OnchainConsensusItem, block, feerate, nonces,
  signature_shares, txid_of_tx,
}
use picomint.Mint.Onchain.Signing.{
  Tss, Server, ItemError, next_index, latest_entry, session_chunk, finalize_tx, store_shares,
  process_signature_shares, no_unsigned_tx, wrong_txid, wrong_number_of_shares,
  wrong_number_of_nonces, no_nonce_entry, duplicate_shares,
}
use picomint.Mint.Onchain.Blocks.{process_consensus_item}
use picomint.Mint.Onchain.Sessions.{session_chunk-Distinct, Distinct}
use picomint.Mint.Onchain.Answers.{Session, IsSigning, Session-Answer}
use picomint.Mint.Onchain.Ready.{Ready, Ready-Answer, process_signature_shares-cases}
use picomint.Mint.Onchain.Steps.{Runs-IsSigning}
use picomint.Mint.Onchain.Shares.{
  Hashes, hashes_of, Responses, sighashes-returns, verify_shares-returns, Aggregates,
}
use picomint.Mint.Onchain.Finalize.{finalize_inputs-returns}
use picomint.Mint.Onchain.Money.{Runs}
use picomint.Mint.Onchain.Completion.{Session-Responses, chunk-Complete}

module _ (bitcoin : Bitcoin) (tss : Tss) (server : Server) where
  finalize_tx-returns :
      Aggregates bitcoin tss server
      → Hashes bitcoin
      → (u : MintTx) (log : BTreeMap NonceEntry) (shares : BTreeMap (List ℕ)) (latest : ℕ)
      → Session bitcoin tss server u log shares
      → length (session_chunk (threshold server.n) (latest / threshold server.n) log)
        ≡ threshold server.n
      → length (
          values (
            BTreeMap.range
              (latest / threshold server.n * threshold server.n)
              ((latest / threshold server.n + 1) * threshold server.n)
              shares))
        ≡ threshold server.n
      → (signed : MintTx) × (finalize_tx bitcoin tss server u
            (session_chunk (threshold server.n) (latest / threshold server.n) log)
            (values (
              BTreeMap.range
                (latest / threshold server.n * threshold server.n)
                ((latest / threshold server.n + 1) * threshold server.n)
                shares))
          ≡ some signed)
  unfolding finalize_tx
  finalize_tx-returns law hashes u log shares latest x full answers =
      let t = threshold server.n in
      let s = latest / t in
      let (msgs, hashed, number) = sighashes-returns bitcoin tss server hashes u x.one_each in
      let chunk = session_chunk t s log in
      let responses = values (BTreeMap.range (s * t) ((s + 1) * t) shares) in
      let same_hashes : hashes_of bitcoin tss server u ≡ msgs = rw (hashes_of, hashed) refl in
      let (inputs, done) =
        finalize_inputs-returns bitcoin tss server law (session_chunk t s log)
          (values (BTreeMap.range (s * t) ((s + 1) * t) shares)) (length u.spent_tx_outs) 0
          u.spent_tx_outs msgs u.tx.input (session_chunk-Distinct t s log x.spread) full
          (chunk-Complete bitcoin tss server u log shares s x) (omega arith) number (sym x.one_each)
          (subst (λ z. Responses bitcoin tss server chunk 0 u.spent_tx_outs z chunk responses)
            same_hashes
            (Session-Responses bitcoin tss server u log shares latest x full answers)) in
      (
        record u { tx = record (u.tx) { input = inputs } },
        let same : (length u.spent_tx_outs == length u.tx.input) ≡ true =
              ground (arith, x.one_each) in
            rw (same, hashed, done) refl,
      )

  store_shares-returns :
      Aggregates bitcoin tss server
      → Hashes bitcoin
      → (w : Wallet) (node txid : ℕ) (shares fresh : List ℕ) (r : Option (Result ItemError Wallet))
      → IsSigning bitcoin tss server w
      → (x : Ready bitcoin tss server w node txid shares fresh r)
      → (a : Result ItemError Wallet) × (r ≡ some a)
  store_shares-returns law hashes w node txid shares fresh r s x =
      let t = threshold server.n in
      let all_shares = BTreeMap.insert x.latest shares w.shares in
      let responses =
        values (BTreeMap.range (x.latest / t * t) ((x.latest / t + 1) * t) all_shares) in
      let session =
        Session-Answer bitcoin tss server x.u w.nonce_log w.shares x.latest shares
          (s.busy x.u x.busy) (Ready-Answer bitcoin tss server w node txid shares fresh r s x) in
      elim (Option-cases (BTreeMap.get x.latest w.shares)) [
        | inr (old, there) ↦
            (err duplicate_shares, x.stored ∙ (unfold store_shares in ground arith))
        | inl fresh_answer ↦ elim (Bool-cases (length responses == t)) [
          | inl complete ↦
              let (signed, done) =
                finalize_tx-returns law hashes x.u w.nonce_log all_shares x.latest session x.full
                  (ground arith) in
              (
                ok (record w {
                  unsigned_tx = none;
                  nonce_log = [];
                  shares = [];
                  unconfirmed = BTreeMap.insert txid signed w.unconfirmed;
                }),
                x.stored ∙ (unfold store_shares in ground (arith, done)),
              )
          | inr forming ↦
              let entry : NonceEntry = record { node = node; nonces = fresh } in
              (
                ok (record w {
                  nonce_log = BTreeMap.insert (next_index w.nonce_log) entry w.nonce_log;
                  shares = all_shares;
                }),
                x.stored ∙ (unfold store_shares in ground arith),
              )
        ]
      ]

  shares-returns :
      Aggregates bitcoin tss server
      → Hashes bitcoin
      → (w : Wallet) (node pk txid : ℕ) (shares fresh : List ℕ) → IsSigning bitcoin tss server w
      → BTreeMap.get node server.pks ≡ some pk
      → (a : Result ItemError Wallet) × (process_signature_shares bitcoin tss server w node txid
            shares fresh
          ≡ some a)
  shares-returns law hashes w node pk txid shares fresh s key =
      let t = threshold server.n in
      elim (Option-cases w.unsigned_tx) [
        | inl idle ↦ (err no_unsigned_tx, unfold process_signature_shares in ground arith)
        | inr (u, busy) ↦
            let session = s.busy u busy in
            elim (Option-cases (latest_entry node w.nonce_log)) [
              | inl absent ↦ no_entry u busy absent
              | inr (latest, entered) ↦
                  let (msgs, hashed, _) =
                    sighashes-returns bitcoin tss server hashes u session.one_each in
                  let (valid, checked) =
                    verify_shares-returns bitcoin tss server node (length u.spent_tx_outs)
                      (session_chunk t (latest / t) w.nonce_log) pk 0 u.spent_tx_outs msgs shares
                      key
                      (chunk-Complete bitcoin tss server u w.nonce_log w.shares (latest / t)
                        session)
                      (omega arith) in
                  elim (process_signature_shares-cases bitcoin tss server w node txid shares fresh u
                    latest valid msgs busy hashed entered checked) [
                      | inr (e, bad) ↦ (err e, bad)
                      | inl ready ↦
                          store_shares-returns law hashes w node txid shares fresh _ s ready
                    ]
            ]
      ]
    where
      no_entry :
          (u : MintTx)
          → w.unsigned_tx ≡ some u
          → latest_entry node w.nonce_log ≡ none
          → (a : Result ItemError Wallet) × (process_signature_shares bitcoin tss server w node txid
                shares fresh
              ≡ some a)
      no_entry u busy absent = elim (Bool-cases (txid_of_tx bitcoin u.tx == txid)) [
        | inr other ↦ (err wrong_txid, unfold process_signature_shares in ground arith)
        | inl right ↦ elim (Bool-cases (length shares == length u.spent_tx_outs)) [
          | inr short ↦
              (err wrong_number_of_shares, unfold process_signature_shares in ground arith)
          | inl sized ↦ elim (Bool-cases (length fresh == length u.spent_tx_outs)) [
            | inr short ↦
                (err wrong_number_of_nonces, unfold process_signature_shares in ground arith)
            | inl also ↦ (err no_nonce_entry, unfold process_signature_shares in ground arith)
          ]
        ]
      ]

  -- At every time of a run, `process_consensus_item` answers on every item of every node that has a key
  -- share: no `expect` and no assertion fails, also where the item completes a signing session. It rests
  -- on the threshold signatures, of which a threshold of shares that verify make a signature that verifies,
  -- and on the crate, which hashes any input of a transaction for which it is given an output per input.
  pub Runs-item_returns :
      Aggregates bitcoin tss server
      → Hashes bitcoin
      → (w : Wallet) (claims : List (ℕ × ℕ)) (payments : List ℕ) (node pk : ℕ)
        (item : OnchainConsensusItem)
      → Runs bitcoin tss server w claims payments
      → BTreeMap.get node server.pks ≡ some pk
      → (a : Result ItemError Wallet) × (process_consensus_item bitcoin tss server w node item
          ≡ some a)
  unfolding process_consensus_item
  Runs-item_returns law hashes w claims payments node pk (block vote) run key = (_, refl)
  Runs-item_returns law hashes w claims payments node pk (feerate vote) run key = (_, refl)
  Runs-item_returns law hashes w claims payments node pk (nonces txid public_nonces) run key =
      (_, refl)
  Runs-item_returns law hashes w claims payments node pk (signature_shares txid shares fresh) run
        key =
      shares-returns law hashes w node pk txid shares fresh
        (Runs-IsSigning bitcoin tss server w claims payments run) key

  -- At every time of a run the entries of each signing session are those of different nodes.
  pub Runs-Distinct :
      (w : Wallet) (claims : List (ℕ × ℕ)) (payments : List ℕ) (session : ℕ)
      → Runs bitcoin tss server w claims payments
      → Distinct (session_chunk (threshold server.n) session w.nonce_log)
  Runs-Distinct w claims payments session run =
      let s = Runs-IsSigning bitcoin tss server w claims payments run in
      elim (Option-cases w.unsigned_tx) [
        | inl idle ↦ rw ((s.idle idle).0) (unfold BTreeMap.range in tt)
        | inr (u, busy) ↦
            session_chunk-Distinct (threshold server.n) session w.nonce_log (s.busy u busy).spread
      ]
