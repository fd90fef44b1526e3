-- ===== src/Mint/Lightning.antt =====
-- `process_input` and `process_output` of picomint-node-daemon/src/consensus/lightning/mod.rs, and the
-- contracts of picomint-core/src/lightning/contracts.rs.
use picomint.Prelude.{ℕ, ◌+◌, Bool, not, Option, none, some, ◌==◌, if◌then◌else◌}
use picomint.Collections.BTreeMap
use picomint.Collections.BTreeMap.{BTreeMap}
use picomint.Collections.PairMap
use picomint.Mint.Amounts.{u64, checked_add, checked_sub}
use picomint.Mint.Ledger.{
  IncomingContract, OutgoingContract, OutgoingWitness, claim, cancel, LightningInput,
  outgoing_input, incoming_input, LightningOutput, outgoing_output, incoming_output, OutPoint,
  Ledger, Scheme, Result, ok, err,
}

pub data LightningInputError : Type 0 where
  unknown_contract : LightningInputError
  invalid_preimage : LightningInputError
  invalid_forfeit_signature : LightningInputError
  input_overflow : LightningInputError

pub data LightningOutputError : Type 0 where
  output_overflow : LightningOutputError

abbrev pub claim_amount : IncomingContract → Option ℕ
claim_amount contract = checked_sub contract.amount contract.fee

module _ (scheme : Scheme) where
  abbrev pub payment_hash_of : IncomingContract → ℕ
  payment_hash_of contract = scheme.hash (scheme.preimage contract)

  abbrev pub verify_preimage : OutgoingContract → ℕ → Bool
  verify_preimage contract preimage = scheme.hash preimage == contract.payment_hash

  abbrev pub verify_forfeit_signature : OutgoingContract → ℕ → Bool
  verify_forfeit_signature contract signature =
      scheme.schnorr_verify signature (scheme.contract_id contract) contract.claim_pk

  -- The key that a witness opens the contract to, and the tables with the preimage.
  unfoldable pub open_outgoing :
      Ledger
      → OutPoint
      → OutgoingContract
      → OutgoingWitness
      → Result LightningInputError (ℕ × Ledger)
  open_outgoing l outpoint contract (claim preimage) =
      if not (verify_preimage contract preimage)
      then err invalid_preimage
      else ok (
        contract.claim_pk,
        record l { preimages = PairMap.insert outpoint.0 outpoint.1 preimage l.preimages },
      )
  open_outgoing l outpoint contract (cancel signature) =
      if not (verify_forfeit_signature contract signature)
      then err invalid_forfeit_signature
      else ok (contract.refund_pk, l)

  -- `none` is the failed `expect` on the index of an incoming contract.
  unfoldable pub process_lightning_input :
      Ledger → LightningInput → Option (Result LightningInputError ((ℕ × ℕ) × Ledger))
  process_lightning_input l (outgoing_input outpoint witness) =
      elim (PairMap.get outpoint.0 outpoint.1 l.outgoing) [
        | none ↦ some (err unknown_contract)
        | some contract ↦
            elim (open_outgoing
              (record l { outgoing = PairMap.remove outpoint.0 outpoint.1 l.outgoing }) outpoint
              contract witness) [
                | err e ↦ some (err e)
                | ok opened ↦ elim (checked_add contract.amount contract.fee) [
                  | none ↦ some (err input_overflow)
                  | some amount ↦ some (ok ((amount, opened.0), opened.1))
                ]
              ]
      ]
  process_lightning_input l (incoming_input outpoint) =
      elim (PairMap.get outpoint.0 outpoint.1 l.incoming) [
        | none ↦ some (err unknown_contract)
        | some contract ↦ elim (PairMap.get outpoint.0 outpoint.1 l.incoming_index) [
          | none ↦ none
          | some index ↦ elim (claim_amount contract) [
            | none ↦ some (err input_overflow)
            | some amount ↦ some (
                ok (
                  (amount, contract.claim_pk),
                  record l {
                    incoming = PairMap.remove outpoint.0 outpoint.1 l.incoming;
                    incoming_index = PairMap.remove outpoint.0 outpoint.1 l.incoming_index;
                    incoming_stream = BTreeMap.remove index l.incoming_stream;
                  },
                ))
          ]
        ]
      ]

  abbrev pub next_index : Ledger → ℕ
  next_index l = elim l.incoming_stream_next [ none ↦ 0 | some index ↦ index ]

  unfoldable pub process_lightning_output :
      Ledger → LightningOutput → OutPoint → Result LightningOutputError (ℕ × Ledger)
  process_lightning_output l (outgoing_output contract) outpoint =
      elim (checked_add contract.amount contract.fee) [
        | none ↦ err output_overflow
        | some amount ↦ ok (
          amount,
          record l { outgoing = PairMap.insert outpoint.0 outpoint.1 contract l.outgoing },
        )
      ]
  process_lightning_output l (incoming_output contract) outpoint = elim (claim_amount contract) [
    | none ↦ err output_overflow
    | some amount ↦ ok (
      amount,
      record l {
        incoming = PairMap.insert outpoint.0 outpoint.1 contract l.incoming;
        incoming_payments =
            BTreeMap.insert (payment_hash_of contract) (scheme.preimage contract)
              l.incoming_payments;
        incoming_stream = BTreeMap.insert (next_index l) (outpoint, contract) l.incoming_stream;
        incoming_index = PairMap.insert outpoint.0 outpoint.1 (next_index l) l.incoming_index;
        incoming_stream_next = some (u64 (next_index l + 1));
      },
    )
  ]
