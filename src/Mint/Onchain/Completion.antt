-- ===== src/Mint/Onchain/Completion.antt =====
-- A signing session with a response to each of its entries, in
-- picomint-node-daemon/src/consensus/onchain/mod.rs.
use picomint.Prelude.{
  div_unique, ℕ, ◌+◌, ◌*◌, ◌/◌, ◌≡◌, true, none, some, List, [], ◌∷◌, length, All, leb, ltb, ◌==◌,
  ◌&&◌, arith, inl, inr, Bool-cases, some_unique,
}
use mathlib.Core.Path.{subst}
use picomint.Collections.BTreeMap
use picomint.Collections.BTreeMap.{BTreeMap, values}
use picomint.Collections.Dense.{
  Dense, length-values, range-Dense, range_full-Dense, get-range, below_Dense, All-range,
}
use picomint.Nodes.{threshold}
use picomint.Mint.Onchain.Values.{SpentTxOut, MintTx, NonceEntry, Bitcoin}
use picomint.Mint.Onchain.Signing.{Tss, Server, session_chunk, verify_shares}
use picomint.Mint.Onchain.Sessions.{All-map}
use picomint.Mint.Onchain.Answers.{Session}
use picomint.Mint.Onchain.Shares.{Complete, Responses, hashes_of}

All-values {κ} :
    {A : Type 0} (P : A → Type κ) (m : BTreeMap A) → All (λ (e : ℕ × A). P e.1) m → All P (values m)
All-values P [] h = tt
All-values P ((k, v) ∷ m) h = (h.0, All-values P m h.1)

module _ (bitcoin : Bitcoin) (tss : Tss) (server : Server) where
  -- Entries and responses under the same indexes.
  pub paired :
      (lo : ℕ) (whole : List NonceEntry) (utxos : List SpentTxOut) (msgs : List ℕ)
      (m : BTreeMap NonceEntry) (n : BTreeMap (List ℕ))
      → Dense lo m
      → Dense lo n
      → length m ≡ length n
      → ((i : ℕ) (e : NonceEntry) (r : List ℕ)
          → BTreeMap.get i m ≡ some e
          → BTreeMap.get i n ≡ some r
          → (length r ≡ length utxos)
            × (verify_shares bitcoin tss server e.node whole 0 utxos msgs r ≡ some true))
      → Responses bitcoin tss server whole 0 utxos msgs (values m) (values n)
  unfolding BTreeMap.get
  paired lo whole utxos msgs [] [] d e len h = tt
  paired lo whole utxos msgs [] (y ∷ n) d e len h = absurd (omega arith)
  paired lo whole utxos msgs (x ∷ m) [] d e len h = absurd (omega arith)
  paired lo whole utxos msgs ((i, a) ∷ m) ((j, r) ∷ n) d e len h =
      let (sized, valid) = h lo a r (ground (arith, d.0)) (ground (arith, e.0)) in
      (
        sized,
        valid,
        paired (lo + 1) whole utxos msgs m n d.1 e.1 (omega arith) (λ k b s there found.
            let out = below_Dense (lo + 1) lo m d.1 (omega arith) in
            elim (Bool-cases (lo == k)) [
              | inl same ↦
                  let here : lo ≡ k = ground arith in
                  absurd (ground (arith, subst (λ z. BTreeMap.get z m ≡ none) here out))
              | inr other ↦ h k b s (ground (arith, d.0)) (ground (arith, e.0))
            ]),
      )

  -- A session with a response to each of its entries.
  pub Session-Responses :
      (u : MintTx) (log : BTreeMap NonceEntry) (shares : BTreeMap (List ℕ)) (latest : ℕ)
      → Session bitcoin tss server u log shares
      → length (session_chunk (threshold server.n) (latest / threshold server.n) log)
        ≡ threshold server.n
      → length (
          values (
            BTreeMap.range
              (latest / threshold server.n * threshold server.n)
              ((latest / threshold server.n + 1) * threshold server.n)
              shares))
        ≡ threshold server.n
      → Responses bitcoin tss server
          (session_chunk (threshold server.n) (latest / threshold server.n) log)
          0
          u.spent_tx_outs
          (hashes_of bitcoin tss server u)
          (session_chunk (threshold server.n) (latest / threshold server.n) log)
          (values (
            BTreeMap.range
              (latest / threshold server.n * threshold server.n)
              ((latest / threshold server.n + 1) * threshold server.n)
              shares))
  Session-Responses u log shares latest x full answers =
      let t = threshold server.n in
      let s = latest / t in
      let rows = BTreeMap.range (s * t) ((s + 1) * t) log in
      let given = BTreeMap.range (s * t) ((s + 1) * t) shares in
      let next : (s + 1) * t ≡ s * t + t = grind arith in
      paired (s * t) (session_chunk t s log) u.spent_tx_outs (hashes_of bitcoin tss server u) rows
        given (range-Dense 0 (s * t) ((s + 1) * t) log x.dense (omega arith))
        (range_full-Dense (s * t) ((s + 1) * t) shares x.sorted
          (omega (arith, length-values given)))
        (omega (arith, length-values given, length-values rows))
        (λ i e r there found.
          let inside : (leb (s * t) i && ltb i ((s + 1) * t)) ≡ true =
            ground (arith, get-range (s * t) ((s + 1) * t) i log) in
          let at : BTreeMap.get i log ≡ some e =
            ground (arith, get-range (s * t) ((s + 1) * t) i log) in
          let a = x.answered i r (ground (arith, get-range (s * t) ((s + 1) * t) i shares)) in
          let same_entry : a.entry ≡ e = some_unique a.entry e a.at at in
          let same_session : i / t ≡ s =
            div_unique i t s (omega arith) (ground arith) (ground arith) in
          (
            a.sized,
            subst
                (λ (z : NonceEntry).
                  verify_shares bitcoin tss server z.node (session_chunk t s log) 0 u.spent_tx_outs
                    (hashes_of bitcoin tss server u) r
                  ≡ some true)
                same_entry
                (subst
                  (λ z.
                    verify_shares bitcoin tss server a.entry.node (session_chunk t z log) 0
                      u.spent_tx_outs (hashes_of bitcoin tss server u) r
                    ≡ some true)
                  same_session a.valid),
          ))

  -- The entries of a session have a nonce for each input.
  pub chunk-Complete :
      (u : MintTx) (log : BTreeMap NonceEntry) (shares : BTreeMap (List ℕ)) (s : ℕ)
      → Session bitcoin tss server u log shares
      → Complete (length u.spent_tx_outs) (session_chunk (threshold server.n) s log)
  chunk-Complete u log shares s x =
      let t = threshold server.n in
      All-values (λ (e : NonceEntry). length e.nonces ≡ length u.spent_tx_outs)
        (BTreeMap.range (s * t) ((s + 1) * t) log)
        (All-map _ (λ (f : ℕ × NonceEntry). length f.1.nonces ≡ length u.spent_tx_outs)
          (BTreeMap.range (s * t) ((s + 1) * t) log) (λ f h. h.0)
          (All-range (λ (f : ℕ × NonceEntry). length f.1.nonces ≡ length u.spent_tx_outs) (s * t)
            ((s + 1) * t) log x.listed))
