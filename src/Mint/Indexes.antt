-- ===== src/Mint/Indexes.antt =====
-- The index of the incoming contracts over the runs of picomint-node-daemon/src/consensus/lightning/mod.rs.
use picomint.Prelude.{ℕ, ◌≡◌, some, [], arith, inl, inr, Option-cases}
use mathlib.Core.Path.{subst}
use picomint.Collections.PairMap
use picomint.Mint.Amounts.{checked_add}
use picomint.Mint.Ledger.{
  IncomingContract, OutgoingContract, OutgoingWitness, LightningInput, outgoing_input,
  incoming_input, claim, cancel, LightningOutput, Scheme, OutPoint, Ledger, Result, ok,
}
use picomint.Mint.Lightning.{
  claim_amount, LightningInputError, open_outgoing, process_lightning_input,
  process_lightning_output,
}
use picomint.Mint.Balance.{Result-cases}
use picomint.Mint.Contracts.{Indexed, lightning_output-Indexed, process_lightning_input_returns}

no_entry : (a b : ℕ) (c : IncomingContract) → PairMap.get a b [] ≡ some c → ⊥
unfolding PairMap.get
no_entry a b c k = cc

-- The two tables that the index ties together are the same.
abbrev pub SameIncoming : Ledger → Ledger → Type 0
SameIncoming l l' = (l'.incoming ≡ l.incoming) × (l'.incoming_index ≡ l.incoming_index)

SameIncoming-Indexed : (l l' : Ledger) → SameIncoming l l' → Indexed l → Indexed l'
SameIncoming-Indexed l l' (same, same_index) indexed a b c k =
    let (i, e) = indexed a b c (rw same at k) in (i, rw same_index e)

open_outgoing-SameIncoming :
    (scheme : Scheme) (l : Ledger) (p : OutPoint) (c : OutgoingContract) (w : OutgoingWitness)
    (pk : ℕ) (l' : Ledger)
    → open_outgoing scheme l p c w ≡ ok (pk, l')
    → SameIncoming l l'
unfolding open_outgoing
open_outgoing-SameIncoming scheme l p c (claim preimage) pk l' h = (ground arith, ground arith)
open_outgoing-SameIncoming scheme l p c (cancel signature) pk l' h = (ground arith, ground arith)

-- The contract that an input takes goes with its index, and every other contract keeps its own.
lightning_input-Indexed :
    (scheme : Scheme) (l : Ledger) (i : LightningInput) (a pk : ℕ) (l' : Ledger)
    → Indexed l
    → process_lightning_input scheme l i ≡ some (ok ((a, pk), l'))
    → Indexed l'
unfolding process_lightning_input
lightning_input-Indexed scheme l (outgoing_input p w) a pk l' indexed h =
    elim (Option-cases (PairMap.get p.0 p.1 l.outgoing)) [
      | inl gone ↦ absurd (ground arith)
      | inr (c, there) ↦
          let rest : Ledger = record l { outgoing = PairMap.remove p.0 p.1 l.outgoing } in
          elim (Result-cases (open_outgoing scheme rest p c w)) [
            | inl (e, bad) ↦ absurd (ground arith)
            | inr ((key, x), good) ↦
                let kept = open_outgoing-SameIncoming scheme rest p c w key x good in
                elim (Option-cases (checked_add c.amount c.fee)) [
                  | inl over ↦ absurd (ground arith)
                  | inr (v, fits) ↦
                      let same : x ≡ l' = ground arith in
                      subst Indexed same (SameIncoming-Indexed l x kept indexed)
                ]
          ]
    ]
lightning_input-Indexed scheme l (incoming_input p) a pk l' indexed h = λ x y d k.
    elim (Option-cases (PairMap.get p.0 p.1 l.incoming)) [
      | inl gone ↦ absurd (ground arith)
      | inr (c, there) ↦ elim (Option-cases (PairMap.get p.0 p.1 l.incoming_index)) [
        | inl lost ↦ absurd (ground arith)
        | inr (index, listed) ↦ elim (Option-cases (claim_amount c)) [
          | inl under ↦ absurd (ground arith)
          | inr (v, fits) ↦
              let held : PairMap.get x y (PairMap.remove p.0 p.1 l.incoming) ≡ some d =
                ground arith in
              let (i, e) =
                indexed x y d (ground (arith, PairMap.get-remove p.0 p.1 x y l.incoming)) in
              (
                i,
                ground (
                  arith,
                  PairMap.get-remove p.0 p.1 x y l.incoming,
                  PairMap.get-remove p.0 p.1 x y l.incoming_index,
                ),
              )
        ]
      ]
    ]

module _ (scheme : Scheme) where
  -- A ledger that a mint reaches from one without incoming contracts: by outputs and inputs that are
  -- accepted, and by what touches neither the incoming contracts nor their index.
  pub data Reached : Ledger → Type 0 where
    empty : (l : Ledger) → l.incoming ≡ [] → Reached l
    funded :
        (l : Ledger) (o : LightningOutput) (p : OutPoint) (a : ℕ) (l' : Ledger)
        → Reached l
        → process_lightning_output scheme l o p ≡ ok (a, l')
        → Reached l'
    opened :
        (l : Ledger) (i : LightningInput) (a pk : ℕ) (l' : Ledger)
        → Reached l
        → process_lightning_input scheme l i ≡ some (ok ((a, pk), l'))
        → Reached l'
    elsewhere : (l l' : Ledger) → Reached l → SameIncoming l l' → Reached l'

  Reached-Indexed : (l : Ledger) → Reached l → Indexed l
  Reached-Indexed l (empty _ none_yet) = λ a b c k. absurd (no_entry a b c (rw none_yet at k))
  Reached-Indexed l (funded x o p a _ run h) =
      lightning_output-Indexed scheme x o p a l (Reached-Indexed x run) h
  Reached-Indexed l (opened x i a pk _ run h) =
      lightning_input-Indexed scheme x i a pk l (Reached-Indexed x run) h
  Reached-Indexed l (elsewhere x _ run same) = SameIncoming-Indexed x l same (Reached-Indexed x run)

  -- On every ledger that a mint reaches from one without incoming contracts, by accepted lightning outputs
  -- and inputs and by what touches neither these contracts nor their index, `process_input` answers
  -- whatever the input: the `expect` on the index of a contract does not fail.
  pub Reached-returns :
      (l : Ledger) (i : LightningInput)
      → Reached l
      → (r : Result LightningInputError ((ℕ × ℕ) × Ledger)) × (process_lightning_input scheme l i
          ≡ some r)
  Reached-returns l i run = process_lightning_input_returns scheme l i (Reached-Indexed l run)
