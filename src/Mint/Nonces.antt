-- ===== src/Mint/Nonces.antt =====
-- No note is spent twice: the nonces that picomint-node-daemon/src/consensus/ecash/mod.rs keeps.
use picomint.Prelude.{
  ℕ, ◌+◌, ◌≤◌, ◌≡◌, Bool, true, false, some, List, [], ◌∷◌, arith, sym, ◌∙◌, ap, inl, inr,
  Option-cases, >>=-eq-some, ◌==◌, if◌then◌else◌,
}
use mathlib.Core.Path.{subst}
use picomint.Collections.BTreeMap
use picomint.Collections.BTreeSet
use picomint.Collections.PairMap
use picomint.Mint.Amounts.{checked_add}
use picomint.Mint.Ledger.{
  EcashInput, EcashOutput, LightningInput, outgoing_input, incoming_input, claim, cancel,
  LightningOutput, outgoing_output, incoming_output, Scheme, Keys, OutPoint, Ledger, ok,
}
use picomint.Mint.Ecash.{process_ecash_input, process_ecash_output}
use picomint.Mint.Lightning.{open_outgoing, process_lightning_input, process_lightning_output}
use picomint.Mint.Server.{
  WireInput, ecash_input, onchain_input, lightning_input, WireOutput, ecash_output, onchain_output,
  lightning_output, Transaction, Onchain, Books, process_input, process_output, process_tx,
}
use picomint.Mint.Balance.{Result-cases, Spends, Makes, process_tx-Accepted}

-- Whether the nonce is that of an input.
abbrev pub is_note : {I : Type 0} → ℕ → WireInput I → Bool
is_note nonce (ecash_input i) = i.note.nonce == nonce
is_note nonce (onchain_input i) = false
is_note nonce (lightning_input i) = false

abbrev pub has_note : {I : Type 0} → ℕ → List (WireInput I) → Bool
has_note nonce [] = false
has_note nonce (i ∷ inputs) = if is_note nonce i then true else has_note nonce inputs

open_outgoing-nonces :
    (scheme : Scheme) (l : Ledger) (p : OutPoint) (c : _) (w : _) (pk : ℕ) (l' : Ledger)
    → open_outgoing scheme l p c w ≡ ok (pk, l')
    → l'.note_nonces ≡ l.note_nonces
unfolding open_outgoing
open_outgoing-nonces scheme l p c (claim preimage) pk l' h = ground arith
open_outgoing-nonces scheme l p c (cancel signature) pk l' h = ground arith

lightning_input-nonces :
    (scheme : Scheme) (l : Ledger) (i : LightningInput) (r : ℕ × ℕ) (l' : Ledger)
    → process_lightning_input scheme l i ≡ some (ok (r, l'))
    → l'.note_nonces ≡ l.note_nonces
unfolding process_lightning_input
lightning_input-nonces scheme l (outgoing_input p w) r l' h =
    elim (Option-cases (PairMap.get p.0 p.1 l.outgoing)) [
      | inl gone ↦ absurd (ground arith)
      | inr (c, there) ↦
          let rest : Ledger = record l { outgoing = PairMap.remove p.0 p.1 l.outgoing } in
          elim (Result-cases (open_outgoing scheme rest p c w)) [
            | inl (e, bad) ↦ absurd (ground arith)
            | inr ((pk, x), good) ↦
                let same = open_outgoing-nonces scheme rest p c w pk x good in
                elim (Option-cases (checked_add c.amount c.fee)) [
                  | inl over ↦ absurd (ground arith)
                  | inr (a, fits) ↦ ground arith
                ]
          ]
    ]
lightning_input-nonces scheme l (incoming_input p) r l' h = ground arith

lightning_output-nonces :
    (scheme : Scheme) (l : Ledger) (o : LightningOutput) (p : OutPoint) (a : ℕ) (l' : Ledger)
    → process_lightning_output scheme l o p ≡ ok (a, l')
    → l'.note_nonces ≡ l.note_nonces
unfolding process_lightning_output
lightning_output-nonces scheme l (outgoing_output c) p a l' h = ground arith
lightning_output-nonces scheme l (incoming_output c) p a l' h = ground arith

-- 1 if the nonce is spent.
abbrev pub held : ℕ → Ledger → ℕ
held nonce l = if BTreeSet.contains nonce l.note_nonces then 1 else 0

abbrev pub use_of : {I : Type 0} → ℕ → WireInput I → ℕ
use_of nonce i = if is_note nonce i then 1 else 0

-- How often inputs spend the note of a nonce.
abbrev pub uses : {I : Type 0} → ℕ → List (WireInput I) → ℕ
uses nonce [] = 0
uses nonce (i ∷ inputs) = use_of nonce i + uses nonce inputs

ecash_input-held :
    (scheme : Scheme) (keys : Keys) (nonce : ℕ) (l : Ledger) (i : EcashInput) (r : ℕ × ℕ)
    (l' : Ledger)
    → process_ecash_input scheme keys l i ≡ ok (r, l')
    → (if i.note.nonce == nonce then 1 else 0) + held nonce l ≡ held nonce l'
unfolding process_ecash_input
ecash_input-held scheme keys nonce l i r l' h =
    elim (Option-cases (BTreeMap.get i.note.denomination keys.tbs_agg_pks)) [
      | inl unknown ↦ absurd (ground arith)
      | inr (pk, known) ↦
          let set : BTreeSet.insert i.note.nonce l.note_nonces ≡ l'.note_nonces = ground arith in
          rw (← set, BTreeSet.contains-insert i.note.nonce nonce l.note_nonces) (ground arith)
    ]

ecash_output-nonces :
    (scheme : Scheme) (keys : Keys) (l : Ledger) (o : EcashOutput) (p : OutPoint) (a : ℕ)
    (l' : Ledger)
    → process_ecash_output scheme keys l o p ≡ ok (a, l')
    → l'.note_nonces ≡ l.note_nonces
unfolding process_ecash_output
ecash_output-nonces scheme keys l o p a l' h = ground arith

module _ {S I O : Type 0} (scheme : Scheme) (keys : Keys) (onchain : Onchain S I O)
    (txid_of : List (WireInput I) → List (WireOutput O) → ℕ) (nonce : ℕ) where
  input-held :
      (b : Books S) (i : WireInput I) (r : ℕ × ℕ) (x : Books S)
      → process_input scheme keys onchain txid_of b i ≡ some (ok (r, x))
      → use_of nonce i + held nonce b.ledger ≡ held nonce x.ledger
  unfolding process_input
  input-held b (ecash_input i) r x p =
      elim (Result-cases (process_ecash_input scheme keys b.ledger i)) [
        | inl (e, bad) ↦ absurd (ground arith)
        | inr ((s, l), good) ↦
            let same : l ≡ x.ledger = ground arith in
            subst
              (λ (z : Ledger).
                use_of {I = I} nonce (ecash_input i) + held nonce b.ledger ≡ held nonce z)
              same (ecash_input-held scheme keys nonce b.ledger i s l good)
      ]
  input-held b (onchain_input i) r x p = ground arith
  input-held b (lightning_input i) r x p =
      let (s, es, p') = >>=-eq-some (process_lightning_input scheme b.ledger i) _ p in
      elim (Result-cases s) [
        | inl (e, bad) ↦ absurd (ground arith)
        | inr ((t, l), good) ↦
            let same : l ≡ x.ledger = ground arith in
            let kept : l.note_nonces ≡ b.ledger.note_nonces =
              lightning_input-nonces scheme b.ledger i t l (es ∙ ap some good) in
            let level : held nonce b.ledger ≡ held nonce x.ledger =
              subst (λ (z : Ledger). held nonce b.ledger ≡ held nonce z) same
                (ap (λ s. if BTreeSet.contains nonce s then 1 else 0) (sym kept)) in
            omega arith
      ]

  output-held :
      (b : Books S) (o : WireOutput O) (p : OutPoint) (a : ℕ) (x : Books S)
      → process_output scheme keys onchain txid_of b o p ≡ some (ok (a, x))
      → held nonce b.ledger ≡ held nonce x.ledger
  unfolding process_output
  output-held b (ecash_output o) p a x h =
      elim (Result-cases (process_ecash_output scheme keys b.ledger o p)) [
        | inl (e, bad) ↦ absurd (ground arith)
        | inr ((s, l), good) ↦
            let same : l ≡ x.ledger = ground arith in
            let kept = ecash_output-nonces scheme keys b.ledger o p s l good in
            subst (λ (z : Ledger). held nonce b.ledger ≡ held nonce z) same
              (ap (λ s. if BTreeSet.contains nonce s then 1 else 0) (sym kept))
      ]
  output-held b (onchain_output o) p a x h = ground arith
  output-held b (lightning_output o) p a x h =
      elim (Result-cases (process_lightning_output scheme b.ledger o p)) [
        | inl (e, bad) ↦ absurd (ground arith)
        | inr ((s, l), good) ↦
            let same : l ≡ x.ledger = ground arith in
            let kept = lightning_output-nonces scheme b.ledger o p s l good in
            subst (λ (z : Ledger). held nonce b.ledger ≡ held nonce z) same
              (ap (λ s. if BTreeSet.contains nonce s then 1 else 0) (sym kept))
      ]

  Spends-held :
      (inputs : List (WireInput I)) (amounts pks : List ℕ) (b b' : Books S)
      → Spends scheme keys onchain txid_of b inputs amounts pks b'
      → uses nonce inputs + held nonce b.ledger ≡ held nonce b'.ledger
  Spends-held [] [] [] b b' h =
      let same = ap (λ (z : Books S). held nonce z.ledger) h in omega arith
  Spends-held [] [] (pk ∷ pks) b b' h = absurd h
  Spends-held [] (a ∷ amounts) pks b b' h = absurd h
  Spends-held (i ∷ inputs) [] pks b b' h = absurd h
  Spends-held (i ∷ inputs) (a ∷ amounts) [] b b' h = absurd h
  Spends-held (i ∷ inputs) (a ∷ amounts) (pk ∷ pks) b b' (x, one, rest) =
      omega (arith, input-held b i (a, pk) x one, Spends-held inputs amounts pks x b' rest)

  Makes-held :
      (outputs : List (WireOutput O)) (amounts : List ℕ) (txid k : ℕ) (b b' : Books S)
      → Makes scheme keys onchain txid_of b txid k outputs amounts b'
      → held nonce b.ledger ≡ held nonce b'.ledger
  Makes-held [] [] txid k b b' h = ap (λ (z : Books S). held nonce z.ledger) h
  Makes-held [] (a ∷ amounts) txid k b b' h = absurd h
  Makes-held (o ∷ outputs) [] txid k b b' h = absurd h
  Makes-held (o ∷ outputs) (a ∷ amounts) txid k b b' (x, one, rest) =
      output-held b o (txid, k) a x one ∙ Makes-held outputs amounts txid (k + 1) x b' rest

  tx-held :
      (b b' : Books S) (tx : Transaction I O)
      → process_tx scheme keys onchain txid_of b tx ≡ some (ok b')
      → uses nonce tx.inputs + held nonce b.ledger ≡ held nonce b'.ledger
  tx-held b b' tx p =
      let x = process_tx-Accepted scheme keys onchain txid_of b b' tx p in
      omega (
        arith,
        Spends-held tx.inputs x.spent x.keys_wanted b x.between x.spends,
        Makes-held tx.outputs x.made (txid_of tx.inputs tx.outputs) 0 x.between b' x.makes,
      )

  -- Transactions that are accepted one after another.
  abbrev pub Accepts : Books S → List (Transaction I O) → Books S → Type 0
  Accepts b [] b' = b ≡ b'
  Accepts b (tx ∷ txs) b' =
      (x : Books S) × (process_tx scheme keys onchain txid_of b tx ≡ some (ok x)) × Accepts x txs b'

  -- How often transactions spend the note of the nonce.
  abbrev pub spends_of : List (Transaction I O) → ℕ
  spends_of [] = 0
  spends_of (tx ∷ txs) = uses nonce tx.inputs + spends_of txs

  Accepts-held :
      (txs : List (Transaction I O)) (b b' : Books S)
      → Accepts b txs b'
      → spends_of txs + held nonce b.ledger ≡ held nonce b'.ledger
  Accepts-held [] b b' h = let same = ap (λ (z : Books S). held nonce z.ledger) h in omega arith
  Accepts-held (tx ∷ txs) b b' (x, one, rest) =
      omega (arith, tx-held b x tx one, Accepts-held txs x b' rest)

  -- Over all transactions that a mint accepts, one after another, a note is spent at most once, within one
  -- transaction or in several, and not at all if it was spent before the first of them.
  pub Accepts-spend_once :
      (txs : List (Transaction I O)) (b b' : Books S)
      → Accepts b txs b'
      → spends_of txs + held nonce b.ledger ≤ 1
  Accepts-spend_once txs b b' h =
      let total = Accepts-held txs b b' h in
      let last : held nonce b'.ledger ≤ 1 = ground arith in omega arith
