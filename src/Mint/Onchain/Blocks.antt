-- ===== src/Mint/Onchain/Blocks.antt =====
-- Votes on blocks and fee rates, `process_consensus_item`, and the readers of the tables, in
-- picomint-node-daemon/src/consensus/onchain/mod.rs.
use picomint.Prelude.{
  ℕ, ◌+◌, ◌%◌, ◌^◌, Bool, true, false, not, ◌&&◌, Option, none, some, List, [], ◌∷◌, count, length,
  take, leb, ltb, ◌==◌, if◌then◌else◌, ◌>>=◌,
}
use mathlib.Core.List.{reverse}
use picomint.Collections.BTreeMap
use picomint.Collections.BTreeMap.{BTreeMap, values}
use picomint.Collections.BTreeSet
use picomint.Collections.BTreeSet.{BTreeSet}
use picomint.Collections.PairMap
use picomint.Nodes.{NumNodes, threshold}
use picomint.Mint.Amounts.{u64}
use picomint.Mint.Ledger.{OutPoint, Result, ok, err}
use picomint.Mint.Onchain.Values.{
  TxOut, TxInfo, TrackedOutput, BlockTx, BlockVote, OnchainConsensusItem, block, feerate, nonces,
  signature_shares, Wallet, Bitcoin,
}
use picomint.Mint.Onchain.Fees.{pending_txs_unordered}
use picomint.Mint.Onchain.Signing.{
  Tss, Server, ItemError, wrong_height, already_voted, redundant_feerate, next_index,
  process_nonces, process_signature_shares,
}

-- The derived `==` of the values that are voted on.
unfoldable pub same_outputs : List (ℕ × TxOut) → List (ℕ × TxOut) → Bool
same_outputs [] [] = true
same_outputs [] (b ∷ bs) = false
same_outputs (a ∷ as') [] = false
same_outputs ((i, a) ∷ as') ((j, b) ∷ bs) =
    i == j && a.value == b.value && a.script_pubkey == b.script_pubkey && same_outputs as' bs

unfoldable pub same_txs : List BlockTx → List BlockTx → Bool
same_txs [] [] = true
same_txs [] (b ∷ bs) = false
same_txs (a ∷ as') [] = false
same_txs (a ∷ as') (b ∷ bs) =
    a.txid == b.txid && same_outputs a.outputs b.outputs && same_txs as' bs

abbrev pub same_vote : BlockVote → BlockVote → Bool
same_vote a b = a.height == b.height && same_txs a.txs b.txs

unfoldable pub same_rate : Option ℕ → Option ℕ → Bool
same_rate none none = true
same_rate none (some b) = false
same_rate (some a) none = false
same_rate (some a) (some b) = a == b

-- The inner loop over the outputs of a transaction: the table and the next index.
unfoldable pub track_outputs :
    ℕ → ℕ → List (ℕ × TxOut) → BTreeMap TrackedOutput → ℕ × BTreeMap TrackedOutput
track_outputs txid index [] outputs = (index, outputs)
track_outputs txid index ((vout, out) ∷ outs) outputs =
    track_outputs txid (u64 (index + 1)) outs
      (BTreeMap.insert index (record { outpoint = (txid, vout); out = out }) outputs)

-- The loop over the transactions of a block.
unfoldable pub track_txs : ℕ → List BlockTx → Wallet → Wallet
track_txs index [] w = w
track_txs index (tx ∷ txs) w =
    let r = track_outputs tx.txid index tx.outputs w.outputs in
    track_txs r.0 txs
      (record w { unconfirmed = BTreeMap.remove tx.txid w.unconfirmed; outputs = r.1 })

abbrev pub is_height : ℕ → Option ℕ → Bool
is_height height none = false
is_height height (some tracked) = height == tracked

unfoldable pub process_block_vote : NumNodes → Wallet → ℕ → BlockVote → Result ItemError Wallet
process_block_vote n w node vote =
    if not (is_height vote.height w.block_height)
    then err wrong_height
    else elim (BTreeMap.get node w.block_votes) [
      | some _ ↦ err already_voted
      | none ↦
          let votes = BTreeMap.insert node vote w.block_votes in
          if leb (threshold n) (count (same_vote vote) (values votes))
          then ok (record (track_txs (next_index w.outputs) vote.txs w) {
            block_height = some ((vote.height + 1) % 2 ^ 32);
            block_votes = [];
          })
          else ok (record w { block_votes = votes })
    ]

unfoldable pub process_feerate : Wallet → ℕ → Option ℕ → Result ItemError Wallet
process_feerate w node rate =
    let voted = ok (record w { feerate_votes = BTreeMap.insert node rate w.feerate_votes }) in
    elim (BTreeMap.get node w.feerate_votes) [
      | none ↦ voted
      | some old ↦ if same_rate rate old then err redundant_feerate else voted
    ]

-- `process_consensus_item`; `none` is a failed `expect` or assertion.
unfoldable pub process_consensus_item :
    Bitcoin → Tss → Server → Wallet → ℕ → OnchainConsensusItem → Option (Result ItemError Wallet)
process_consensus_item bitcoin tss server w node (block vote) =
    some (process_block_vote server.n w node vote)
process_consensus_item bitcoin tss server w node (feerate vote) = some (process_feerate w node vote)
process_consensus_item bitcoin tss server w node (nonces txid public_nonces) =
    some (process_nonces bitcoin w node txid public_nonces)
process_consensus_item bitcoin tss server w node (signature_shares txid shares fresh_nonces) =
    process_signature_shares bitcoin tss server w node txid shares fresh_nonces

-- `initialize_block_height`
abbrev pub initialize_block_height : Wallet → ℕ → ℕ → Wallet
initialize_block_height w old_block_height new_block_height =
    if old_block_height == 0 then record w { block_height = some new_block_height } else w

-- `feerate_proposal`, from the vote of the backend.
abbrev pub feerate_proposal : Server → Wallet → Option ℕ → Option OnchainConsensusItem
feerate_proposal server w vote = elim (BTreeMap.get server.identity w.feerate_votes) [
  | none ↦ some (feerate vote)
  | some old ↦ if same_rate old vote then none else some (feerate vote)
]

-- The outputs of a transaction that `is_potential_receive` lets through, numbered from `vout` on.
unfoldable pub potential_outputs : (ℕ → Bool) → ℕ → List TxOut → List (ℕ × TxOut)
potential_outputs is_potential vout [] = []
potential_outputs is_potential vout (out ∷ outs) =
    if is_potential out.script_pubkey
    then (vout, out) ∷ potential_outputs is_potential (vout + 1) outs
    else potential_outputs is_potential (vout + 1) outs

-- The transactions of a block, each with its id, that `block_proposal` votes for.
unfoldable pub block_txs : (ℕ → Bool) → Wallet → List (ℕ × List TxOut) → List BlockTx
block_txs is_potential w [] = []
block_txs is_potential w ((txid, outs) ∷ txs) =
    let outputs = potential_outputs is_potential 0 outs in
    let rest = block_txs is_potential w txs in
    let kept = record { txid = txid; outputs = outputs } ∷ rest in
    elim outputs [
      | _ ∷ _ ↦ kept
      | [] ↦ elim (BTreeMap.get txid w.unconfirmed) [ some _ ↦ kept | none ↦ rest ]
    ]

abbrev pub confirmations : ℕ
confirmations = 6

-- `block_proposal`, from the height and the block that the backend gives.
unfoldable pub block_proposal :
    (ℕ → Bool) → Server → Wallet → ℕ → List (ℕ × List TxOut) → Option OnchainConsensusItem
block_proposal is_potential server w backend_height txdata = w.block_height >>= λ height.
    if ltb ((backend_height + 1) % 2 ^ 32) ((height + confirmations) % 2 ^ 32)
    then none
    else elim (BTreeMap.get server.identity w.block_votes) [
      | some _ ↦ none
      | none ↦ some (block (record { height = height; txs = block_txs is_potential w txdata }))
    ]

-- `next_block_height`
abbrev pub next_block_height : Wallet → ℕ
next_block_height w = elim w.block_height [ none ↦ 0 | some height ↦ height ]

abbrev pub total_txs : Wallet → ℕ
total_txs w = next_index w.tx_info

-- `txid`
unfoldable pub txid_at : Wallet → OutPoint → Option ℕ
txid_at w outpoint = PairMap.get outpoint.0 outpoint.1 w.tx_info_index >>= λ index.
    BTreeMap.get index w.tx_info >>= λ entry. some (entry.txid)

pub record OutputInfo : Type 0 where
  pub index : ℕ
  pub script : ℕ
  pub value : ℕ
  pub spent : Bool

-- The `filter_map` of `get_outputs`.
unfoldable pub output_infos : (ℕ → Bool) → BTreeSet → BTreeMap TrackedOutput → List OutputInfo
output_infos is_p2tr spent [] = []
output_infos is_p2tr spent ((idx, output) ∷ outputs) =
    let rest = output_infos is_p2tr spent outputs in
    if is_p2tr output.out.script_pubkey
    then (record {
      index = idx;
      script = output.out.script_pubkey;
      value = output.out.value;
      spent = BTreeSet.contains idx spent;
    }
        ∷ rest)
    else rest

-- `spent` holds the whole table here: only indexes of the range are asked for.
unfoldable pub get_outputs : Bitcoin → Wallet → ℕ → ℕ → List OutputInfo
get_outputs bitcoin w start_index end_index =
    output_infos bitcoin.is_p2tr w.spent_outputs (BTreeMap.range start_index end_index w.outputs)

abbrev pub tx_chain : Wallet → List TxInfo
tx_chain w = values w.tx_info

unfoldable pub pending_tx_chain : Wallet → List TxInfo
pending_tx_chain w = take (length (pending_txs_unordered w)) (reverse (values w.tx_info))
