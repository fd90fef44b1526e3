-- ===== src/Mint/Ledger.antt =====
-- The values of picomint-core/src/ecash/mod.rs, lightning and tx.rs that a transaction carries, and the
-- tables of a mint that picomint-node-daemon/src/consensus reads and writes for them.
use picomint.Prelude.{ℕ, ◌%◌, ◌^◌, Bool, Option}
use picomint.Collections.BTreeMap.{BTreeMap}
use picomint.Collections.BTreeSet.{BTreeSet}
use picomint.Collections.PairMap.{PairMap}
use picomint.Mint.Amounts.{from_sat}

-- Keys, signatures and hashes are the numbers that their bytes spell. An outpoint is a transaction id
-- and an index.
abbrev pub OutPoint : Type 0
OutPoint = ℕ × ℕ

pub record Note : Type 0 where
  pub denomination : ℕ
  pub nonce : ℕ
  pub signature : ℕ

pub record EcashInput : Type 0 where
  pub note : Note

pub record EcashOutput : Type 0 where
  pub denomination : ℕ
  pub nonce : ℕ

-- `Denomination::amount`: the shift is taken modulo 64 in a release build.
abbrev pub amount_of : ℕ → ℕ
amount_of denomination = 2 ^ (denomination % 64)

pub record IncomingContract : Type 0 where
  pub amount : ℕ
  pub fee : ℕ
  pub claim_pk : ℕ
  pub ephemeral_pk : ℕ

pub record OutgoingContract : Type 0 where
  pub payment_hash : ℕ
  pub amount : ℕ
  pub fee : ℕ
  pub claim_pk : ℕ
  pub refund_pk : ℕ
  pub invoice : ℕ

pub data OutgoingWitness : Type 0 where
  claim : ℕ → OutgoingWitness
  cancel : ℕ → OutgoingWitness

pub data LightningInput : Type 0 where
  outgoing_input : OutPoint → OutgoingWitness → LightningInput
  incoming_input : OutPoint → LightningInput

pub data LightningOutput : Type 0 where
  outgoing_output : OutgoingContract → LightningOutput
  incoming_output : IncomingContract → LightningOutput

-- The fees that the mint charges.
abbrev pub ecash_input_fee : ℕ
ecash_input_fee = 100

abbrev pub ecash_output_fee : ℕ
ecash_output_fee = 100

abbrev pub lightning_input_fee : ℕ
lightning_input_fee = 100

abbrev pub lightning_output_fee : ℕ
lightning_output_fee = from_sat 1

-- The tables. `incoming_stream_next` has its row under `()`.
pub record Ledger : Type 0 where
  pub note_nonces : BTreeSet
  pub blinded_nonces : BTreeMap ℕ
  pub signature_shares : PairMap ℕ
  pub restore_shares : BTreeMap ℕ
  pub outgoing : PairMap OutgoingContract
  pub preimages : PairMap ℕ
  pub incoming : PairMap IncomingContract
  pub incoming_index : PairMap ℕ
  pub incoming_stream : BTreeMap (OutPoint × IncomingContract)
  pub incoming_stream_next : Option ℕ
  pub incoming_payments : BTreeMap ℕ

-- What a node signs, verifies and hashes with: the threshold blind signatures, Schnorr and SHA-256.
pub record Scheme : Type 0 where
  -- nonce, signature, key
  pub tbs_verify : ℕ → ℕ → ℕ → Bool
  -- blinded nonce, key share
  pub sign_nonce : ℕ → ℕ → ℕ
  -- signature, message, key
  pub schnorr_verify : ℕ → ℕ → ℕ → Bool
  pub hash : ℕ → ℕ
  pub contract_id : OutgoingContract → ℕ
  pub preimage : IncomingContract → ℕ

-- The keys of `NodeConfig`, by denomination.
pub record Keys : Type 0 where
  pub tbs_agg_pks : BTreeMap ℕ
  pub tbs_sks : BTreeMap ℕ

-- The answer of a handler: a value and the tables that it leaves, or an error. On an error the caller
-- drops the write transaction.
pub data Result (E A : Type 0) : Type 0 where
  ok : A → Result E A
  err : E → Result E A
