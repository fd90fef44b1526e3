-- ===== src/Mint/Onchain/Ready.antt =====
-- The checks of `process_signature_shares` in picomint-node-daemon/src/consensus/onchain/mod.rs, and that what
-- it stores keeps the signing in order.
use picomint.Prelude.{
  ℕ, ◌+◌, ◌*◌, ◌/◌, ◌<◌, ◌^◌, ◌≡◌, refl, Bool, true, Option, none, some, List, [], ◌∷◌, ◌++◌,
  length, ◌==◌, arith, sym, ◌⊎◌, inl, inr, Bool-cases, Option-cases, some_unique,
}
use mathlib.Core.Path.{subst}
use picomint.Collections.BTreeMap
use picomint.Collections.BTreeMap.{BTreeMap, values}
use picomint.Collections.Dense.{insert-append}
use picomint.Nodes.{threshold}
use picomint.Mint.Ledger.{Result, ok, err}
use picomint.Mint.Onchain.Values.{MintTx, NonceEntry, Wallet, Bitcoin, txid_of_tx}
use picomint.Mint.Onchain.Signing.{
  Tss, Server, ItemError, wrong_txid, wrong_number_of_shares, wrong_number_of_nonces,
  session_forming, invalid_share, next_index, latest_entry, session_chunk, sighashes, verify_shares,
  finalize_tx, store_shares, process_signature_shares,
}
use picomint.Mint.Onchain.Rows.{next_index-length}
use picomint.Mint.Onchain.Sessions.{latest_entry-Latest, Spread-latest}
use picomint.Mint.Onchain.Shares.{hashes_of}
use picomint.Mint.Onchain.Answers.{Answer, Session, IsSigning, Session-enter, Session-Answer}

module _ (bitcoin : Bitcoin) (tss : Tss) (server : Server) where
  -- Shares that pass every test of `process_signature_shares`.
  pub record Ready (w : Wallet) (node txid : ℕ) (shares fresh : List ℕ)
      (r : Option (Result ItemError Wallet)) : Type 0 where
    pub u : MintTx
    pub busy : w.unsigned_tx ≡ some u
    pub sized : length shares ≡ length u.spent_tx_outs
    pub fresh_sized : length fresh ≡ length u.spent_tx_outs
    pub latest : ℕ
    pub entered : latest_entry node w.nonce_log ≡ some latest
    pub full :
        length (session_chunk (threshold server.n) (latest / threshold server.n) w.nonce_log)
        ≡ threshold server.n
    pub valid :
        verify_shares bitcoin tss server node
          (session_chunk (threshold server.n) (latest / threshold server.n) w.nonce_log)
          0
          u.spent_tx_outs
          (hashes_of bitcoin tss server u)
          shares
        ≡ some true
    pub stored : r ≡ store_shares bitcoin tss server w u node txid shares fresh latest

  pub Ready-Answer :
      (w : Wallet) (node txid : ℕ) (shares fresh : List ℕ) (r : _)
      → IsSigning bitcoin tss server w
      → (x : Ready w node txid shares fresh r)
      → Answer bitcoin tss server x.u w.nonce_log x.latest shares
  Ready-Answer w node txid shares fresh r s x =
      let session = s.busy x.u x.busy in
      let l = latest_entry-Latest node x.latest 0 w.nonce_log session.dense x.entered in
      record {
        entry = l.entry;
        at = l.there;
        full = x.full;
        sized = x.sized;
        valid = rw l.own x.valid;
      }

  -- The session after shares that do not complete it.
  pub Ready-Session :
      (w : Wallet) (node txid : ℕ) (shares fresh : List ℕ) (r : _)
      → IsSigning bitcoin tss server w
      → length w.nonce_log + 1 < 2 ^ 64
      → (x : Ready w node txid shares fresh r)
      → Session bitcoin tss server x.u
          (BTreeMap.insert
            (next_index w.nonce_log)
            (record { node = node; nonces = fresh })
            w.nonce_log)
          (BTreeMap.insert x.latest shares w.shares)
  Ready-Session w node txid shares fresh r s room x =
      let session = s.busy x.u x.busy in
      let e : NonceEntry = record { node = node; nonces = fresh } in
      let next = next_index-length w.nonce_log session.dense (omega arith) in
      let log = w.nonce_log ++ ((length w.nonce_log, e) ∷ []) in
      let appended : BTreeMap.insert (next_index w.nonce_log) e w.nonce_log ≡ log =
        rw next (insert-append 0 (length w.nonce_log) w.nonce_log e session.dense (omega arith)) in
      let apart =
        Spread-latest (threshold server.n) node x.latest w.nonce_log (omega arith) session.dense
          x.entered x.full in
      let answered =
        Session-Answer bitcoin tss server x.u w.nonce_log w.shares x.latest shares session
          (Ready-Answer w node txid shares fresh r s x) in
      rw appended (
        Session-enter bitcoin tss server x.u w.nonce_log (BTreeMap.insert x.latest shares w.shares)
          e answered x.fresh_sized apart)

  store-IsSigning :
      (w : Wallet) (node txid : ℕ) (shares fresh : List ℕ) (w' : Wallet)
      → IsSigning bitcoin tss server w
      → length w.nonce_log + 1 < 2 ^ 64
      → Ready w node txid shares fresh (some (ok w'))
      → IsSigning bitcoin tss server w'
  unfolding store_shares
  store-IsSigning w node txid shares fresh w' s room x =
      let t = threshold server.n in
      let chunk = session_chunk t (x.latest / t) w.nonce_log in
      let all_shares = BTreeMap.insert x.latest shares w.shares in
      let responses =
        values (BTreeMap.range (x.latest / t * t) ((x.latest / t + 1) * t) all_shares) in
      let log =
        BTreeMap.insert (next_index w.nonce_log) (record { node = node; nonces = fresh })
          w.nonce_log in
      let grown = Ready-Session w node txid shares fresh (some (ok w')) s room x in
      elim (Option-cases (BTreeMap.get x.latest w.shares)) [
        | inr (old, there) ↦ absurd (ground (arith, x.stored))
        | inl fresh_answer ↦ elim (Bool-cases (length responses == t)) [
          | inl complete ↦
              elim (Option-cases (finalize_tx bitcoin tss server x.u chunk responses)) [
                | inl panic ↦ absurd (ground (arith, x.stored))
                | inr (signed, done) ↦
                    let same : w' ≡ record w {
                      unsigned_tx = none;
                      nonce_log = [];
                      shares = [];
                      unconfirmed = BTreeMap.insert txid signed w.unconfirmed;
                    } =
                      ground (arith, x.stored) in
                    subst (IsSigning bitcoin tss server) (sym same) (record {
                      idle = λ none_left. (refl, refl);
                      busy = λ u there. absurd (ground arith);
                    })
              ]
          | inr forming ↦
              let same : w' ≡ record w { nonce_log = log; shares = all_shares } =
                ground (arith, x.stored) in
              subst (IsSigning bitcoin tss server) (sym same) (record {
                idle = λ none_left. absurd (ground (arith, x.busy));
                busy = λ u there.
                    let here : x.u ≡ u = some_unique x.u u x.busy there in
                    subst (λ z. Session bitcoin tss server z log all_shares) here grown;
              })
        ]
      ]

  -- What is left of `process_signature_shares` is an error.
  pub process_signature_shares-cases :
      (w : Wallet) (node txid : ℕ) (shares fresh : List ℕ) (u : MintTx) (latest : ℕ) (valid : Bool)
      (msgs : List ℕ)
      → w.unsigned_tx ≡ some u
      → sighashes bitcoin tss server u ≡ some msgs
      → latest_entry node w.nonce_log ≡ some latest
      → verify_shares bitcoin tss server node
          (session_chunk (threshold server.n) (latest / threshold server.n) w.nonce_log)
          0
          u.spent_tx_outs
          msgs
          shares
        ≡ some valid
      → Ready w node txid shares fresh
          (process_signature_shares bitcoin tss server w node txid shares fresh)
        ⊎ ((e : ItemError) × (process_signature_shares bitcoin tss server w node txid shares fresh
              ≡ some (err e)))
  unfolding process_signature_shares
  process_signature_shares-cases w node txid shares fresh u latest valid msgs busy hashed entered
        checked =
      let t = threshold server.n in
      let chunk = session_chunk t (latest / t) w.nonce_log in
      elim (Bool-cases (txid_of_tx bitcoin u.tx == txid)) [
        | inr other ↦ inr (wrong_txid, ground arith)
        | inl right ↦ elim (Bool-cases (length shares == length u.spent_tx_outs)) [
          | inr short ↦ inr (wrong_number_of_shares, ground arith)
          | inl sized ↦ elim (Bool-cases (length fresh == length u.spent_tx_outs)) [
            | inr short ↦ inr (wrong_number_of_nonces, ground arith)
            | inl fresh_sized ↦ elim (Bool-cases (length chunk == t)) [
              | inr forming ↦ inr (session_forming, ground arith)
              | inl full ↦ elim (Bool-cases valid) [
                | inr bad ↦ inr (invalid_share, ground arith)
                | inl good ↦ inl (record {
                  u = u;
                  busy = busy;
                  sized = ground arith;
                  fresh_sized = ground arith;
                  latest = latest;
                  entered = entered;
                  full = ground arith;
                  valid = ground arith;
                  stored = ground arith;
                })
              ]
            ]
          ]
        ]
      ]

  pub shares-IsSigning :
      (w : Wallet) (node txid : ℕ) (shares fresh : List ℕ) (w' : Wallet)
      → IsSigning bitcoin tss server w
      → length w.nonce_log + 1 < 2 ^ 64
      → process_signature_shares bitcoin tss server w node txid shares fresh ≡ some (ok w')
      → IsSigning bitcoin tss server w'
  shares-IsSigning w node txid shares fresh w' s room p =
      let t = threshold server.n in
      elim (Option-cases w.unsigned_tx) [
        | inl idle ↦ absurd (unfold process_signature_shares in ground arith)
        | inr (u, busy) ↦ elim (Option-cases (latest_entry node w.nonce_log)) [
          | inl absent ↦ absurd (unfold process_signature_shares in ground arith)
          | inr (latest, entered) ↦ elim (Option-cases (sighashes bitcoin tss server u)) [
            | inl panic ↦ absurd (unfold process_signature_shares in ground arith)
            | inr (msgs, hashed) ↦
                elim (Option-cases (
                  verify_shares bitcoin tss server node (session_chunk t (latest / t) w.nonce_log) 0
                    u.spent_tx_outs msgs shares)) [
                      | inl panic ↦ absurd (unfold process_signature_shares in ground arith)
                      | inr (valid, checked) ↦
                          elim (process_signature_shares-cases w node txid shares fresh u latest
                            valid msgs busy hashed entered checked) [
                              | inr (e, bad) ↦ absurd (ground arith)
                              | inl ready ↦
                                  store-IsSigning w node txid shares fresh w' s room
                                    (subst (Ready w node txid shares fresh) p ready)
                            ]
                    ]
          ]
        ]
      ]
