-- ===== src/Mint/Server.antt =====
-- Transactions: picomint-core/src/tx.rs and wire.rs, and `process_tx` with its dispatch in
-- picomint-node-daemon/src/consensus/server.rs. The operations of the
-- onchain module are arguments, which Onchain/Module fills.
use picomint.Prelude.{
  ℕ, ◌+◌, Bool, true, false, not, Option, none, some, List, [], ◌∷◌, length, ltb, ◌==◌, ◌>>=◌,
  if◌then◌else◌,
}
use picomint.Mint.Amounts.{from_sat}
use picomint.Mint.Funding.{FundingVerifier, no_funds, add_input, add_output, verify_funding}
use picomint.Mint.Ledger.{
  EcashInput, EcashOutput, LightningInput, LightningOutput, ecash_input_fee, ecash_output_fee,
  lightning_input_fee, lightning_output_fee, OutPoint, Ledger, Scheme, Keys, Result, ok, err,
}
use picomint.Mint.Ecash.{
  EcashInputError, EcashOutputError, process_ecash_input, process_ecash_output,
}
use picomint.Mint.Lightning.{
  LightningInputError, LightningOutputError, process_lightning_input, process_lightning_output,
}
use picomint.Mint.Onchain.Values.{OnchainInputError, OnchainOutputError}

pub data WireInput (I : Type 0) : Type 0 where
  ecash_input : EcashInput → WireInput I
  onchain_input : I → WireInput I
  lightning_input : LightningInput → WireInput I

pub data WireOutput (O : Type 0) : Type 0 where
  ecash_output : EcashOutput → WireOutput O
  onchain_output : O → WireOutput O
  lightning_output : LightningOutput → WireOutput O

pub record Transaction (I O : Type 0) : Type 0 where
  pub inputs : List (WireInput I)
  pub outputs : List (WireOutput O)
  pub signatures : List ℕ

-- `wire::InputError` and `wire::OutputError`
pub data InputError : Type 0 where
  of_ecash_input : EcashInputError → InputError
  of_onchain_input : OnchainInputError → InputError
  of_lightning_input : LightningInputError → InputError

pub data OutputError : Type 0 where
  of_ecash_output : EcashOutputError → OutputError
  of_onchain_output : OnchainOutputError → OutputError
  of_lightning_output : LightningOutputError → OutputError

pub data TxError : Type 0 where
  empty_inputs : TxError
  empty_outputs : TxError
  too_many_inputs : TxError
  too_many_outputs : TxError
  underfunded : TxError
  overflow : TxError
  invalid_witness_length : TxError
  invalid_signature : TxError
  invalid_input : InputError → TxError
  invalid_output : OutputError → TxError

-- The operations of picomint-node-daemon/src/consensus/onchain/mod.rs on its own tables `S`. `none` is a
-- failed assertion.
pub record Onchain (S I O : Type 0) : Type 0 where
  pub process_input : S → I → Option (Result OnchainInputError ((ℕ × ℕ) × S))
  pub process_output : S → O → OutPoint → Option (Result OnchainOutputError (ℕ × S))

abbrev pub max_inputs : ℕ
max_inputs = 1024

abbrev pub max_outputs : ℕ
max_outputs = 1024

abbrev pub onchain_input_fee : ℕ
onchain_input_fee = from_sat 10

abbrev pub onchain_output_fee : ℕ
onchain_output_fee = from_sat 10

abbrev pub input_fee : {I : Type 0} → WireInput I → ℕ
input_fee (ecash_input i) = ecash_input_fee
input_fee (onchain_input i) = onchain_input_fee
input_fee (lightning_input i) = lightning_input_fee

abbrev pub output_fee : {O : Type 0} → WireOutput O → ℕ
output_fee (ecash_output o) = ecash_output_fee
output_fee (onchain_output o) = onchain_output_fee
output_fee (lightning_output o) = lightning_output_fee

-- All tables that a transaction may change.
pub record Books (S : Type 0) : Type 0 where
  pub ledger : Ledger
  pub onchain : S

-- The loop of `validate_signatures`.
unfoldable pub check_signatures : (ℕ → ℕ → Bool) → List ℕ → List ℕ → Bool
check_signatures verify [] signatures = true
check_signatures verify (pk ∷ pks) [] = true
check_signatures verify (pk ∷ pks) (s ∷ signatures) =
    if not (verify s pk) then false else check_signatures verify pks signatures

-- A handler's answer on its own tables, as an answer on all tables; `wrap` is what `map_err` does with
-- its error.
abbrev pub lift :
    {E A B S : Type 0}
    → (E → TxError)
    → (B → Books S)
    → Result E (A × B)
    → Result TxError (A × Books S)
lift wrap put (ok r) = ok (r.0, put r.1)
lift wrap put (err e) = err (wrap e)

module _ {S I O : Type 0} (scheme : Scheme) (keys : Keys) (onchain : Onchain S I O)
    (txid_of : List (WireInput I) → List (WireOutput O) → ℕ) where
  unfoldable pub process_input : Books S → WireInput I → Option (Result TxError ((ℕ × ℕ) × Books S))
  process_input b (ecash_input i) = some (
      lift (λ e. invalid_input (of_ecash_input e)) (λ l. record b { ledger = l })
        (process_ecash_input scheme keys b.ledger i))
  process_input b (onchain_input i) = onchain.process_input b.onchain i >>= λ r.
      some (lift (λ e. invalid_input (of_onchain_input e)) (λ s. record b { onchain = s }) r)
  process_input b (lightning_input i) = process_lightning_input scheme b.ledger i >>= λ r.
      some (lift (λ e. invalid_input (of_lightning_input e)) (λ l. record b { ledger = l }) r)

  unfoldable pub process_output :
      Books S → WireOutput O → OutPoint → Option (Result TxError (ℕ × Books S))
  process_output b (ecash_output o) p = some (
      lift (λ e. invalid_output (of_ecash_output e)) (λ l. record b { ledger = l })
        (process_ecash_output scheme keys b.ledger o p))
  process_output b (onchain_output o) p = onchain.process_output b.onchain o p >>= λ r.
      some (lift (λ e. invalid_output (of_onchain_output e)) (λ s. record b { onchain = s }) r)
  process_output b (lightning_output o) p = some (
      lift (λ e. invalid_output (of_lightning_output e)) (λ l. record b { ledger = l })
        (process_lightning_output scheme b.ledger o p))

  -- The first loop of `process_tx`: the keys that the inputs want a signature of, in order.
  unfoldable pub process_inputs :
      Books S
      → FundingVerifier
      → List (WireInput I)
      → Option (Result TxError ((FundingVerifier × List ℕ) × Books S))
  process_inputs b v [] = some (ok ((v, []), b))
  process_inputs b v (i ∷ inputs) = process_input b i >>= λ r. elim r [
    | err e ↦ some (err e)
    | ok x ↦ elim (add_input v x.0.0 (input_fee i)) [
      | none ↦ some (err overflow)
      | some v' ↦ process_inputs x.1 v' inputs >>= λ s. elim s [
        | err e ↦ some (err e)
        | ok y ↦ some (ok ((y.0.0, x.0.1 ∷ y.0.1), y.1))
      ]
    ]
  ]

  -- The second loop, from the index of the next output.
  unfoldable pub process_outputs :
      Books S
      → FundingVerifier
      → ℕ
      → ℕ
      → List (WireOutput O)
      → Option (Result TxError (FundingVerifier × Books S))
  process_outputs b v txid out_idx [] = some (ok (v, b))
  process_outputs b v txid out_idx (o ∷ outputs) = process_output b o (txid, out_idx) >>= λ r.
      elim r [
        | err e ↦ some (err e)
        | ok x ↦ elim (add_output v x.0 (output_fee o)) [
          | none ↦ some (err overflow)
          | some v' ↦ process_outputs x.1 v' txid (out_idx + 1) outputs
        ]
      ]

  abbrev pub settle : FundingVerifier → Books S → Result TxError (Books S)
  settle v b = elim (verify_funding v) [
    | none ↦ err overflow
    | some enough ↦ if enough then ok b else err underfunded
  ]

  -- `process_tx` from `validate_signatures` on.
  unfoldable pub finish_tx :
      FundingVerifier → List ℕ → Books S → Transaction I O → Option (Result TxError (Books S))
  finish_tx v pks b tx =
      let txid = txid_of tx.inputs tx.outputs in
      if not (length pks == length tx.signatures)
      then some (err invalid_witness_length)
      else if not (check_signatures (λ s pk. scheme.schnorr_verify s txid pk) pks tx.signatures)
      then some (err invalid_signature)
      else process_outputs b v txid 0 tx.outputs >>= λ r. elim r [
        | err e ↦ some (err e)
        | ok y ↦ some (settle y.0 y.1)
      ]

  -- `none` is a failed `expect`.
  unfoldable pub process_tx : Books S → Transaction I O → Option (Result TxError (Books S))
  process_tx b tx =
      if length tx.inputs == 0
      then some (err empty_inputs)
      else if length tx.outputs == 0
      then some (err empty_outputs)
      else if ltb max_inputs (length tx.inputs)
      then some (err too_many_inputs)
      else if ltb max_outputs (length tx.outputs)
      then some (err too_many_outputs)
      else if not (length tx.signatures == length tx.inputs)
      then some (err invalid_witness_length)
      else process_inputs b no_funds tx.inputs >>= λ r. elim r [
        | err e ↦ some (err e)
        | ok x ↦ finish_tx x.0.0 x.0.1 x.1 tx
      ]
