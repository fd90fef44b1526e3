-- ===== src/Mint/Contracts.antt =====
-- The contracts that picomint-node-daemon/src/consensus/lightning/mod.rs holds.
use picomint.Prelude.{
  ℕ, ◌≡◌, none, some, arith, sym, ◌∙◌, ap, inl, inr, Bool-cases, Option-cases, ◌==◌, ◌&&◌,
}
use picomint.Collections.PairMap
use picomint.Collections.PairMap.{PairMap}
use picomint.Mint.Amounts.{checked_add}
use picomint.Mint.Ledger.{
  IncomingContract, OutgoingContract, OutgoingWitness, LightningInput, outgoing_input,
  incoming_input, claim, cancel, LightningOutput, outgoing_output, incoming_output, Scheme,
  OutPoint, Ledger, Result, ok, err,
}
use picomint.Mint.Lightning.{
  claim_amount, next_index, unknown_contract, LightningInputError, open_outgoing,
  process_lightning_input, process_lightning_output,
}
use picomint.Mint.Balance.{Result-cases}

-- An incoming contract has its index.
abbrev pub Indexed : Ledger → Type 0
Indexed l =
    (a b : ℕ) (c : IncomingContract)
    → PairMap.get a b l.incoming ≡ some c
    → (i : ℕ) × (PairMap.get a b l.incoming_index ≡ some i)

-- Where every incoming contract has its index, the `expect` on it does not fail.
pub process_lightning_input_returns :
    (scheme : Scheme) (l : Ledger) (i : LightningInput)
    → Indexed l
    → (r : Result LightningInputError ((ℕ × ℕ) × Ledger)) × (process_lightning_input scheme l i
        ≡ some r)
unfolding process_lightning_input
process_lightning_input_returns scheme l (outgoing_input p w) indexed =
    elim (Option-cases (process_lightning_input scheme l (outgoing_input p w))) [
      | inr (r, answer) ↦ (r, answer)
      | inl panic ↦ elim (Option-cases (PairMap.get p.0 p.1 l.outgoing)) [
        | inl gone ↦ absurd (ground arith)
        | inr (c, there) ↦
            elim (Result-cases (
              open_outgoing scheme (record l { outgoing = PairMap.remove p.0 p.1 l.outgoing }) p c
                w)) [
                  | inl (e, bad) ↦ absurd (ground arith)
                  | inr (x, good) ↦ elim (Option-cases (checked_add c.amount c.fee)) [
                    | inl over ↦ absurd (ground arith)
                    | inr (a, fits) ↦ absurd (ground arith)
                  ]
                ]
      ]
    ]
process_lightning_input_returns scheme l (incoming_input p) indexed =
    elim (Option-cases (process_lightning_input scheme l (incoming_input p))) [
      | inr (r, answer) ↦ (r, answer)
      | inl panic ↦ elim (Option-cases (PairMap.get p.0 p.1 l.incoming)) [
        | inl gone ↦ absurd (ground arith)
        | inr (c, there) ↦
            let (i, listed) = indexed p.0 p.1 c there in
            elim (Option-cases (claim_amount c)) [
              | inl under ↦ absurd (ground arith)
              | inr (a, fits) ↦ absurd (ground arith)
            ]
      ]
    ]

-- An output that is accepted keeps the index complete.
pub lightning_output-Indexed :
    (scheme : Scheme) (l : Ledger) (o : LightningOutput) (p : OutPoint) (a : ℕ) (l' : Ledger)
    → Indexed l
    → process_lightning_output scheme l o p ≡ ok (a, l')
    → Indexed l'
unfolding process_lightning_output
lightning_output-Indexed scheme l (outgoing_output c) p a l' indexed h x y d k =
    let (i, e) = indexed x y d (ground arith) in (i, ground arith)
lightning_output-Indexed scheme l (incoming_output c) p a l' indexed h x y d k =
    elim (Bool-cases (p.0 == x && p.1 == y)) [
      | inl here ↦ (
        next_index scheme l,
        ground (arith, PairMap.get-insert p.0 p.1 x y (next_index scheme l) l.incoming_index),
      )
      | inr there ↦
          let (i, e) =
            indexed x y d (ground (arith, PairMap.get-insert p.0 p.1 x y c l.incoming)) in
          (i, ground (arith, PairMap.get-insert p.0 p.1 x y (next_index scheme l) l.incoming_index))
    ]

outgoing_opens :
    (scheme : Scheme) (l : Ledger) (p : OutPoint) (c : OutgoingContract) (w : OutgoingWitness)
    (pk : ℕ) (l' : Ledger)
    → open_outgoing scheme l p c w ≡ ok (pk, l')
    → l'.outgoing ≡ l.outgoing
unfolding open_outgoing
outgoing_opens scheme l p c (claim preimage) pk l' h = ground arith
outgoing_opens scheme l p c (cancel signature) pk l' h = ground arith

-- A contract that a transaction funds for an amount is worth that amount when it is opened, and it is gone
-- then: the same outpoint does not open a second time, whatever the witness.
pub outgoing_once :
    (scheme : Scheme) (l : Ledger) (c : OutgoingContract) (p : OutPoint) (a : ℕ) (l1 : Ledger)
    (w w' : OutgoingWitness) (a' pk : ℕ) (l2 : Ledger)
    → process_lightning_output scheme l (outgoing_output c) p ≡ ok (a, l1)
    → process_lightning_input scheme l1 (outgoing_input p w) ≡ some (ok ((a', pk), l2))
    → (a' ≡ a)
      × (process_lightning_input scheme l2 (outgoing_input p w') ≡ some (err unknown_contract))
unfolding process_lightning_output process_lightning_input
outgoing_once scheme l c p a l1 w w' a' pk l2 funded opened =
    let held : PairMap.get p.0 p.1 l1.outgoing ≡ some c =
      ground (arith, PairMap.get-insert p.0 p.1 p.0 p.1 c l.outgoing) in
    let rest : Ledger = record l1 { outgoing = PairMap.remove p.0 p.1 l1.outgoing } in
    elim (Result-cases (open_outgoing scheme rest p c w)) [
      | inl (e, bad) ↦ absurd (ground arith)
      | inr ((key, x), good) ↦
          let kept = outgoing_opens scheme rest p c w key x good in
          elim (Option-cases (checked_add c.amount c.fee)) [
            | inl over ↦ absurd (ground arith)
            | inr (v, fits) ↦
                let same : x ≡ l2 = ground arith in
                let gone : PairMap.get p.0 p.1 l2.outgoing ≡ none =
                  ap (λ (z : Ledger). PairMap.get p.0 p.1 z.outgoing) (sym same)
                  ∙ ap (PairMap.get p.0 p.1) kept
                  ∙ ground (arith, PairMap.get-remove p.0 p.1 p.0 p.1 l1.outgoing) in
                (ground arith, ground arith)
          ]
    ]

-- The same for an incoming contract, which pays its amount less the fee.
pub incoming_once :
    (scheme : Scheme) (l : Ledger) (c : IncomingContract) (p : OutPoint) (a : ℕ) (l1 : Ledger)
    (a' pk : ℕ) (l2 : Ledger)
    → process_lightning_output scheme l (incoming_output c) p ≡ ok (a, l1)
    → process_lightning_input scheme l1 (incoming_input p) ≡ some (ok ((a', pk), l2))
    → (a' ≡ a)
      × (pk ≡ c.claim_pk)
      × (process_lightning_input scheme l2 (incoming_input p) ≡ some (err unknown_contract))
unfolding process_lightning_output process_lightning_input
incoming_once scheme l c p a l1 a' pk l2 funded opened =
    let held : PairMap.get p.0 p.1 l1.incoming ≡ some c =
      ground (arith, PairMap.get-insert p.0 p.1 p.0 p.1 c l.incoming) in
    let gone : PairMap.get p.0 p.1 l2.incoming ≡ none =
      ground (arith, PairMap.get-remove p.0 p.1 p.0 p.1 l1.incoming) in
    (ground arith, ground arith, ground arith)
