-- ===== src/Mint/Onchain/Values.antt =====
-- The values of picomint-core/src/onchain/mod.rs and the tables of
-- picomint-node-daemon/src/consensus/onchain/db.rs. Keys, scripts, signatures, nonces and hashes are the
-- numbers that their bytes spell.
use picomint.Prelude.{
  ℕ, ◌+◌, ◌*◌, ◌^◌, ◌≡◌, Bool, Option, none, some, List, map, ltb, if◌then◌else◌,
}
use picomint.Collections.BTreeMap.{BTreeMap}
use picomint.Collections.BTreeSet.{BTreeSet}
use picomint.Collections.PairMap.{PairMap}
use picomint.Mint.Ledger.{OutPoint}

abbrev pub onchain_feerate_base : ℕ
onchain_feerate_base = 250

abbrev pub onchain_dust_limit : ℕ
onchain_dust_limit = 10000

-- The size of a send, and of a receive.
abbrev pub send_tx_vbytes : ℕ
send_tx_vbytes = 154

abbrev pub receive_tx_vbytes : ℕ
receive_tx_vbytes = 169

-- A `bitcoin::Transaction` that the mint builds. Version, lock time, sequences and empty script
-- signatures are the same in all of them. An empty witness is `none`, a key spend its signature.
pub record TxIn : Type 0 where
  pub previous_output : OutPoint
  pub witness : Option ℕ

pub record TxOut : Type 0 where
  pub value : ℕ
  pub script_pubkey : ℕ

pub record BitcoinTx : Type 0 where
  pub input : List TxIn
  pub output : List TxOut

pub record SpentTxOut : Type 0 where
  pub value : ℕ
  pub tweak : ℕ

pub record MintTx : Type 0 where
  pub tx : BitcoinTx
  pub spent_tx_outs : List SpentTxOut
  pub vbytes : ℕ
  pub fee : ℕ

pub record MintUtxo : Type 0 where
  pub value : ℕ
  pub outpoint : OutPoint
  pub tweak : ℕ

pub record TxInfo : Type 0 where
  pub index : ℕ
  pub txid : ℕ
  pub input : ℕ
  pub output : ℕ
  pub fee : ℕ
  pub vbytes : ℕ
  pub created : ℕ

pub record TrackedOutput : Type 0 where
  pub outpoint : OutPoint
  pub out : TxOut

pub record BlockTx : Type 0 where
  pub txid : ℕ
  pub outputs : List (ℕ × TxOut)

pub record BlockVote : Type 0 where
  pub height : ℕ
  pub txs : List BlockTx

pub data OnchainConsensusItem : Type 0 where
  block : BlockVote → OnchainConsensusItem
  feerate : Option ℕ → OnchainConsensusItem
  nonces : ℕ → List ℕ → OnchainConsensusItem
  signature_shares : ℕ → List ℕ → List ℕ → OnchainConsensusItem

pub data StandardScript : Type 0 where
  p2pkh : ℕ → StandardScript
  p2sh : ℕ → StandardScript
  p2wpkh : ℕ → StandardScript
  p2wsh : ℕ → StandardScript
  p2tr : ℕ → StandardScript

pub record OnchainInput : Type 0 where
  pub output_index : ℕ
  pub tweak : ℕ
  pub fee : ℕ

pub record OnchainOutput : Type 0 where
  pub destination : StandardScript
  pub value : ℕ
  pub fee : ℕ

pub data OnchainInputError : Type 0 where
  output_already_spent : OnchainInputError
  unknown_output_index : OnchainInputError
  wrong_tweak : OnchainInputError
  no_consensus_feerate : OnchainInputError
  insufficient_total_fee : OnchainInputError
  arithmetic_overflow : OnchainInputError
  pending_transaction : OnchainInputError

pub data OnchainOutputError : Type 0 where
  under_dust_limit : OnchainOutputError
  no_mint_utxo : OnchainOutputError
  no_feerate : OnchainOutputError
  total_fee_too_low : OnchainOutputError
  change_under_dust_limit : OnchainOutputError
  send_overflow : OnchainOutputError
  already_signing : OnchainOutputError

pub record NonceEntry : Type 0 where
  pub node : ℕ
  pub nonces : List ℕ

-- The tables. Those under `()` have one row at most.
pub record Wallet : Type 0 where
  pub outputs : BTreeMap TrackedOutput
  pub block_height : Option ℕ
  pub block_votes : BTreeMap BlockVote
  pub spent_outputs : BTreeSet
  pub mint_utxo : Option MintUtxo
  pub tx_info : BTreeMap TxInfo
  pub tx_info_index : PairMap ℕ
  pub unsigned_tx : Option MintTx
  pub nonce_log : BTreeMap NonceEntry
  pub shares : BTreeMap (List ℕ)
  pub unconfirmed : BTreeMap MintTx
  pub feerate_votes : BTreeMap (Option ℕ)

-- What the `bitcoin` and `secp256k1` crates give: transaction ids, which leave witnesses out, signature
-- hashes, amounts, scripts, tweaked keys, and SHA-256 over the encoding of a key or of an unspent output.
-- A tweak fails for a hash that is no scalar of the curve or that cancels the key, which SHA-256 does not give
-- but with negligible probability. That of a public key is taken to succeed, where the code has an `expect`.
pub record Bitcoin : Type 0 where
  pub compute_txid : List OutPoint → List TxOut → ℕ
  pub taproot_key_spend_signature_hash : BitcoinTx → ℕ → List TxOut → Option ℕ
  pub amount_add : ℕ → ℕ → Option ℕ
  pub amount_sub : ℕ → ℕ → Option ℕ
  pub new_p2pkh : ℕ → ℕ
  pub new_p2sh : ℕ → ℕ
  pub new_p2wpkh : ℕ → ℕ
  pub new_p2wsh : ℕ → ℕ
  pub new_p2tr_tweaked : ℕ → ℕ
  pub is_p2tr : ℕ → Bool
  pub x_only_public_key : ℕ → ℕ
  pub add_exp_tweak : ℕ → ℕ → ℕ
  pub hash_key : ℕ → ℕ
  pub hash_utxo : MintUtxo → ℕ

-- `checked_add` and `checked_sub` of amounts are exact where they answer.
pub record IsExact (bitcoin : Bitcoin) : Type 0 where
  pub add_exact : (a b c : ℕ) → bitcoin.amount_add a b ≡ some c → c ≡ a + b
  pub sub_exact : (a b c : ℕ) → bitcoin.amount_sub a b ≡ some c → c + b ≡ a

-- `to_sat().checked_mul(1000)`
abbrev pub sat_to_msat : ℕ → Option ℕ
sat_to_msat sat = if ltb (sat * 1000) (2 ^ 64) then some (sat * 1000) else none

module _ (bitcoin : Bitcoin) where
  -- `tweak_public_key`
  abbrev pub tweak_public_key : ℕ → ℕ → ℕ
  tweak_public_key pk tweak = bitcoin.add_exp_tweak pk tweak

  abbrev pub tweaked_output_key : ℕ → ℕ → ℕ
  tweaked_output_key agg_pk tweak = bitcoin.x_only_public_key (tweak_public_key agg_pk tweak)

  abbrev pub tweaked_script_pubkey : ℕ → ℕ → ℕ
  tweaked_script_pubkey agg_pk tweak = bitcoin.new_p2tr_tweaked (tweaked_output_key agg_pk tweak)

  -- `StandardScript::script_pubkey`
  abbrev pub script_pubkey_of : StandardScript → ℕ
  script_pubkey_of (p2pkh hash) = bitcoin.new_p2pkh hash
  script_pubkey_of (p2sh hash) = bitcoin.new_p2sh hash
  script_pubkey_of (p2wpkh hash) = bitcoin.new_p2wpkh hash
  script_pubkey_of (p2wsh hash) = bitcoin.new_p2wsh hash
  script_pubkey_of (p2tr pk) = bitcoin.new_p2tr_tweaked pk

  -- `Transaction::compute_txid`
  abbrev pub txid_of_tx : BitcoinTx → ℕ
  txid_of_tx tx = bitcoin.compute_txid (map (λ (i : TxIn). i.previous_output) tx.input) tx.output
