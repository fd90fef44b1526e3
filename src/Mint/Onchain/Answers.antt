-- ===== src/Mint/Onchain/Answers.antt =====
-- What the tables of a signing session hold while it runs, in
-- picomint-node-daemon/src/consensus/onchain/mod.rs.
use picomint.Prelude.{
  ℕ, ◌+◌, ◌*◌, ◌/◌, ◌<◌, ◌^◌, ◌≡◌, ◌≢◌, refl, true, none, some, List, [], ◌∷◌, ◌++◌, length, All,
  ◌==◌, arith, sym, ◌∙◌, ap, inl, inr, Bool-cases, Option-cases, some_unique,
}
use mathlib.Core.Path.{subst}
use mathlib.Core.List.{append-nil}
use picomint.Collections.BTreeMap
use picomint.Collections.BTreeMap.{BTreeMap, values}
use picomint.Collections.Dense.{Dense, insert-append, range-append, range-above}
use picomint.Nodes.{threshold}
use picomint.Mint.Ledger.{ok}
use picomint.Mint.Onchain.Values.{MintTx, NonceEntry, Wallet, Bitcoin}
use picomint.Mint.Onchain.Signing.{
  Tss, Server, next_index, latest_entry, session_chunk, process_nonces, verify_shares,
}
use picomint.Mint.Onchain.Shares.{hashes_of}
use picomint.Mint.Onchain.Rows.{next_index-length}
use picomint.Mint.Onchain.Sessions.{
  Apart, Spread, All-append, All-map, Spread-append, latest_entry-none, full_session,
}

get-append :
    {A : Type 0} (i : ℕ) (a : A) (m n : BTreeMap A)
    → BTreeMap.get i m ≡ some a
    → BTreeMap.get i (m ++ n) ≡ some a
unfolding BTreeMap.get
get-append i a [] n h = absurd (ground arith)
get-append i a ((j, v) ∷ m) n h = ground (arith, get-append i a m n)

Dense-append :
    {A : Type 0} (k at : ℕ) (m : BTreeMap A) (v : A)
    → Dense k m
    → at ≡ k + length m
    → Dense k (m ++ ((at, v) ∷ []))
Dense-append k at [] v d e = (omega arith, tt)
Dense-append k at ((j, w) ∷ m) v d e = (d.0, Dense-append (k + 1) at m v d.1 (omega arith))

module _ (bitcoin : Bitcoin) (tss : Tss) (server : Server) where
  abbrev chunk_of : ℕ → BTreeMap NonceEntry → List NonceEntry
  chunk_of i log = session_chunk (threshold server.n) (i / threshold server.n) log

  -- The shares under an index are those of the entry's node, one for each input, and its session is full.
  pub record Answer (u : MintTx) (log : BTreeMap NonceEntry) (i : ℕ) (shares : List ℕ)
      : Type 0 where
    pub entry : NonceEntry
    pub at : BTreeMap.get i log ≡ some entry
    pub full : length (chunk_of i log) ≡ threshold server.n
    pub sized : length shares ≡ length u.spent_tx_outs
    pub valid :
        verify_shares bitcoin tss server entry.node
          (chunk_of i log)
          0
          u.spent_tx_outs
          (hashes_of bitcoin tss server u)
          shares
        ≡ some true

  pub record Session (u : MintTx) (log : BTreeMap NonceEntry) (shares : BTreeMap (List ℕ))
      : Type 0 where
    pub dense : Dense 0 log
    pub spread : Spread (threshold server.n) log
    pub listed : All (λ (f : ℕ × NonceEntry). length f.1.nonces ≡ length u.spent_tx_outs) log
    pub one_each : length u.spent_tx_outs ≡ length u.tx.input
    pub sorted : BTreeMap.SortedFrom 0 shares
    pub answered : (i : ℕ) (s : List ℕ) → BTreeMap.get i shares ≡ some s → Answer u log i s

  -- Without a transaction to sign there is no log.
  pub record IsSigning (w : Wallet) : Type 0 where
    pub idle : w.unsigned_tx ≡ none → (w.nonce_log ≡ []) × (w.shares ≡ [])
    pub busy : (u : MintTx) → w.unsigned_tx ≡ some u → Session u w.nonce_log w.shares

  -- A full session does not change when the log grows.
  chunk_grown :
      (i : ℕ) (log : BTreeMap NonceEntry) (e : NonceEntry)
      → Dense 0 log
      → length (chunk_of i log) ≡ threshold server.n
      → chunk_of i (log ++ ((length log, e) ∷ [])) ≡ chunk_of i log
  chunk_grown i log e d full =
      let t = threshold server.n in
      let s = i / t in
      let ends = full_session t s log (omega arith) d full in
      ap values (
        range-append (s * t) ((s + 1) * t) log ((length log, e) ∷ [])
        ∙ ap (λ l. BTreeMap.range (s * t) ((s + 1) * t) log ++ l)
            (range-above (length log) (s * t) ((s + 1) * t) ((length log, e) ∷ []) (refl, tt) ends)
        ∙ append-nil (BTreeMap.range (s * t) ((s + 1) * t) log))

  pub Session-enter :
      (u : MintTx) (log : BTreeMap NonceEntry) (shares : BTreeMap (List ℕ)) (e : NonceEntry)
      → Session u log shares
      → length e.nonces ≡ length u.spent_tx_outs
      → All
          (λ (f : ℕ × NonceEntry). f.1.node ≡ e.node → Apart (threshold server.n) f.0 (length log))
          log
      → Session u (log ++ ((length log, e) ∷ [])) shares
  Session-enter u log shares e x sized apart = record {
    dense = Dense-append 0 (length log) log e x.dense (omega arith);
    spread = Spread-append (threshold server.n) (length log) e log x.spread apart;
    listed =
        All-append (λ (f : ℕ × NonceEntry). length f.1.nonces ≡ length u.spent_tx_outs) log
          (length log, e) x.listed sized;
    one_each = x.one_each;
    sorted = x.sorted;
    answered = λ i s k.
        let a = x.answered i s k in
        let same = chunk_grown i log e x.dense a.full in
        record {
          entry = a.entry;
          at = get-append i a.entry log _ a.at;
          full = rw same a.full;
          sized = a.sized;
          valid = rw same a.valid;
        };
  }

  pub Session-Answer :
      (u : MintTx) (log : BTreeMap NonceEntry) (shares : BTreeMap (List ℕ)) (i : ℕ) (s : List ℕ)
      → Session u log shares
      → Answer u log i s
      → Session u log (BTreeMap.insert i s shares)
  Session-Answer u log shares i s x a = record {
    dense = x.dense;
    spread = x.spread;
    listed = x.listed;
    one_each = x.one_each;
    sorted = BTreeMap.insert-SortedFrom 0 i s shares (omega arith) x.sorted;
    answered = λ j r k. elim (Bool-cases (i == j)) [
      | inl same ↦
          let here : i ≡ j = ground arith in
          let it : s ≡ r = ground (arith, BTreeMap.get-insert i j s shares) in
          subst (λ v. Answer u log j v) it (subst (λ v. Answer u log v s) here a)
      | inr other ↦ x.answered j r (ground (arith, BTreeMap.get-insert i j s shares))
    ];
  }

  -- The session of a transaction that waits for its first nonces.
  pub fresh-Session : (u : MintTx) → length u.spent_tx_outs ≡ length u.tx.input → Session u [] []
  fresh-Session u one_each = record {
    dense = tt;
    spread = tt;
    listed = tt;
    one_each = one_each;
    sorted = tt;
    answered = λ i s k. absurd (unfold BTreeMap.get in ground arith);
  }

  pub nonces-IsSigning :
      (w : Wallet) (node txid : ℕ) (public_nonces : List ℕ) (w' : Wallet)
      → IsSigning w
      → length w.nonce_log + 1 < 2 ^ 64
      → process_nonces bitcoin w node txid public_nonces ≡ ok w'
      → IsSigning w'
  unfolding process_nonces
  nonces-IsSigning w node txid public_nonces w' x room p = elim (Option-cases w.unsigned_tx) [
    | inl idle ↦ absurd (ground arith)
    | inr (u, busy) ↦
        let session = x.busy u busy in
        let e : NonceEntry = record { node = node; nonces = public_nonces } in
        let next = next_index-length w.nonce_log session.dense (omega arith) in
        let log = w.nonce_log ++ ((length w.nonce_log, e) ∷ []) in
        let appended : BTreeMap.insert (next_index w.nonce_log) e w.nonce_log ≡ log =
          rw next
            (insert-append 0 (length w.nonce_log) w.nonce_log e session.dense (omega arith)) in
        let new_node : latest_entry node w.nonce_log ≡ none =
          elim (Option-cases (latest_entry node w.nonce_log)) [
            | inl gone ↦ gone
            | inr (l, there) ↦ absurd (ground arith)
          ] in
        let apart =
          All-map (λ (f : ℕ × NonceEntry). f.1.node ≢ node)
            (λ (f : ℕ × NonceEntry).
              f.1.node ≡ node → Apart (threshold server.n) f.0 (length w.nonce_log))
            w.nonce_log (λ f other same. absurd (other same))
            (latest_entry-none node w.nonce_log new_node) in
        let grown = Session-enter u w.nonce_log w.shares e session (ground arith) apart in
        let result : w' ≡ record w { nonce_log = log } = ground (arith, appended) in
        subst IsSigning (sym result) (record {
          idle = λ none_left. absurd (ground arith);
          busy = λ v there.
              let same : u ≡ v = some_unique u v busy there in
              subst (λ z. Session z log w.shares) same grown;
        })
  ]
