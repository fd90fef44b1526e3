-- ===== src/Tests/Vault.antt =====
-- A small run of the onchain module: two deposits of one block are claimed, the transaction that sweeps the
-- second is signed by three of four nodes, and a withdrawal is paid.
use picomint.Prelude.{
  ℕ, ◌+◌, ◌*◌, ◌≡◌, refl, true, Option, none, some, List, [], ◌∷◌, length, ◌==◌, ==_refl, arith,
}
use picomint.Collections.BTreeMap
use picomint.Collections.BTreeMap.{values}
use picomint.Collections.BTreeSet
use picomint.Collections.PairMap
use picomint.Collections.Dense.{Dense}
use picomint.Mint.Amounts.{checked_add, checked_sub}
use picomint.Mint.Ledger.{Result, ok, err}
use picomint.Mint.Votes.{sort_ascending, insert_ascending}
use picomint.Mint.Onchain.Values.{
  MintTx, BlockVote, OnchainConsensusItem, block, feerate, nonces, signature_shares, p2wpkh,
  OnchainInput, OnchainOutput, NonceEntry, Wallet, Bitcoin, IsExact,
}
use picomint.Mint.Onchain.Fees.{
  given, pending_txs_unordered, consensus_feerate, deduct, stack_size, consensus_fee,
}
use picomint.Mint.Onchain.Signing.{
  Tss, Server, ItemError, next_index, latest_entry, nonce_column_from, process_nonces,
  sighashes_from, verify_shares, share_column_from, finalize_inputs, finalize_tx, store_shares,
  process_signature_shares,
}
use picomint.Mint.Onchain.Blocks.{
  same_outputs, same_txs, same_rate, track_outputs, track_txs, process_block_vote, process_feerate,
  process_consensus_item, initialize_block_height,
}
use picomint.Mint.Onchain.Moves.{deposit, credit, process_input, withdraw, process_output}
use picomint.Mint.Onchain.Money.{no_wallet, Runs, begun, tracked, ordered, claimed, paid}
use picomint.Mint.Onchain.Shares.{Aggregates}

abbrev pub toy_bitcoin : Bitcoin
toy_bitcoin = record {
  compute_txid = λ inputs outputs. 7 * length inputs + length outputs;
  taproot_key_spend_signature_hash = λ tx index prevouts. some (50 + index);
  amount_add = checked_add;
  amount_sub = checked_sub;
  new_p2pkh = λ h. h;
  new_p2sh = λ h. h;
  new_p2wpkh = λ h. h;
  new_p2wsh = λ h. h;
  new_p2tr_tweaked = λ k. k;
  is_p2tr = λ s. true;
  x_only_public_key = λ k. k;
  add_exp_tweak = λ k t. k + t;
  hash_key = λ k. k * 2;
  hash_utxo = λ u. u.value + 5;
}

pub toy_bitcoin-IsExact : IsExact toy_bitcoin
toy_bitcoin-IsExact = record {
  add_exact = λ a b c e. ground arith;
  sub_exact = λ a b c e. ground arith;
}

abbrev pub toy_tss : Tss
toy_tss = record {
  verify_signature_share = λ msg node pk share column agg_pk. share == msg + pk;
  aggregate_signature_shares = λ msg column shares agg_pk. msg + agg_pk;
  verify = λ msg signature agg_pk. signature == msg + agg_pk;
  sign_share = λ msg sk secret column index agg_pk. msg + sk;
  derive_nonce = λ sks txid generation input. txid + generation + input;
  derive_public_nonce = λ secret. secret;
  add_tweak = λ sks tweak. some (sks + tweak);
}

abbrev pub toy_server : Server
toy_server = record {
  n = record { evil = 1 };
  identity = 0;
  agg_pk = 10;
  pks = (0, 20) ∷ (1, 21) ∷ (2, 22) ∷ (3, 23) ∷ [];
  sks = 20;
}

pub toy_Aggregates : Aggregates toy_bitcoin toy_tss toy_server
toy_Aggregates = record { aggregate_verifies = λ msg tweak column shares many good. ==_refl _ }

abbrev item_result : Wallet → Option (Result ItemError Wallet) → Wallet
item_result w none = w
item_result w (some (err e)) = w
item_result w (some (ok w')) = w'

abbrev move_result : {E A : Type 0} → Wallet → Option (Result E (A × Wallet)) → Wallet
move_result w none = w
move_result w (some (err e)) = w
move_result w (some (ok r)) = r.1

abbrev after_item : Wallet → ℕ → OnchainConsensusItem → Wallet
after_item w node item =
    item_result w (process_consensus_item toy_bitcoin toy_tss toy_server w node item)

abbrev after_claim : Wallet → OnchainInput → Wallet
after_claim w i = move_result w (process_input toy_bitcoin toy_server w 106 i)

abbrev pub two_deposits : BlockVote
two_deposits = record {
  height = 100;
  txs =
      record {
        txid = 500;
        outputs =
            (0, record { value = 50000; script_pubkey = 16 })
            ∷ (3, record { value = 30000; script_pubkey = 18 })
            ∷ [];
      }
      ∷ [];
}

-- From the first height on: three votes on the block, and three on the fee rate.
abbrev at_height : Wallet
at_height = initialize_block_height no_wallet 0 100

abbrev pub two_voted : Wallet
two_voted = after_item (after_item at_height 0 (block two_deposits)) 1 (block two_deposits)

abbrev pub block_tracked : Wallet
block_tracked = after_item two_voted 2 (block two_deposits)

abbrev pub rated : Wallet
rated =
    after_item
      (after_item (after_item block_tracked 0 (feerate (some 1000))) 1 (feerate (some 900))) 2
      (feerate (some 1100))

abbrev first_deposit : OnchainInput
first_deposit = record { output_index = 0; tweak = 3; fee = 200 }

abbrev second_deposit : OnchainInput
second_deposit = record { output_index = 1; tweak = 4; fee = 200 }

abbrev funded : Wallet
funded = after_claim rated first_deposit

-- The transaction that sweeps the second deposit into the wallet.
abbrev sweep : Option ℕ → Option ℕ → MintTx
sweep first second = record {
  tx = record {
    input =
        record { previous_output = (500, 0); witness = first }
        ∷ record { previous_output = (500, 3); witness = second }
        ∷ [];
    output = record { value = 79800; script_pubkey = 50015 } ∷ [];
  };
  spent_tx_outs = record { value = 50000; tweak = 6 } ∷ record { value = 30000; tweak = 8 } ∷ [];
  vbytes = 169;
  fee = 200;
}

abbrev swept : Wallet
swept = record rated {
  spent_outputs = 0 ∷ 1 ∷ [];
  mint_utxo = some (record { value = 79800; outpoint = (15, 0); tweak = 50005 });
  tx_info =
      (
        0,
        record {
          index = 0;
          txid = 15;
          input = 50000;
          output = 79800;
          fee = 200;
          vbytes = 169;
          created = 106;
        },
      )
      ∷ [];
  unsigned_tx = some (sweep none none);
}

-- The nonces and the shares of a node.
abbrev own_nonces : ℕ → OnchainConsensusItem
own_nonces node = nonces 15 (node ∷ (node + 4) ∷ [])

abbrev pub own_shares : ℕ → OnchainConsensusItem
own_shares node = signature_shares 15 ((76 + node) ∷ (79 + node) ∷ []) (node ∷ (node + 8) ∷ [])

abbrev entry_of : ℕ → List ℕ → NonceEntry
entry_of node public_nonces = record { node = node; nonces = public_nonces }

abbrev logged : Wallet
logged = record swept {
  nonce_log =
      (0, entry_of 0 (0 ∷ 4 ∷ []))
      ∷ (1, entry_of 1 (1 ∷ 5 ∷ []))
      ∷ (2, entry_of 2 (2 ∷ 6 ∷ []))
      ∷ [];
}

abbrev one_signed : Wallet
one_signed = record swept {
  nonce_log =
      (0, entry_of 0 (0 ∷ 4 ∷ []))
      ∷ (1, entry_of 1 (1 ∷ 5 ∷ []))
      ∷ (2, entry_of 2 (2 ∷ 6 ∷ []))
      ∷ (3, entry_of 0 (0 ∷ 8 ∷ []))
      ∷ [];
  shares = (0, 76 ∷ 79 ∷ []) ∷ [];
}

abbrev pub two_signed : Wallet
two_signed = record swept {
  nonce_log =
      (0, entry_of 0 (0 ∷ 4 ∷ []))
      ∷ (1, entry_of 1 (1 ∷ 5 ∷ []))
      ∷ (2, entry_of 2 (2 ∷ 6 ∷ []))
      ∷ (3, entry_of 0 (0 ∷ 8 ∷ []))
      ∷ (4, entry_of 1 (1 ∷ 9 ∷ []))
      ∷ [];
  shares = (0, 76 ∷ 79 ∷ []) ∷ (1, 77 ∷ 80 ∷ []) ∷ [];
}

abbrev pub signed : Wallet
signed = record swept { unsigned_tx = none; unconfirmed = (15, sweep (some 66) (some 69)) ∷ [] }

abbrev withdrawal : OnchainOutput
withdrawal = record { destination = p2wpkh 99; value = 20000; fee = 446 }

abbrev pub settled : Wallet
settled = move_result signed (process_output toy_bitcoin toy_server signed 107 withdrawal (1, 0))

block_run : Runs toy_bitcoin toy_tss toy_server rated [] []
unfolding process_consensus_item process_block_vote process_feerate track_txs track_outputs
    next_index same_txs same_outputs same_rate BTreeMap.get BTreeMap.insert BTreeMap.remove
block_run =
    ordered _ 2 (feerate (some 1100)) rated [] []
      (ordered _ 1 (feerate (some 900)) _ [] []
        (ordered _ 0 (feerate (some 1000)) _ [] []
          (ordered two_voted 2 (block two_deposits) block_tracked [] []
            (ordered _ 1 (block two_deposits) two_voted [] []
              (ordered at_height 0 (block two_deposits) _ [] []
                (tracked no_wallet 0 100 [] [] begun) (omega arith) refl)
              (omega arith) refl)
            (omega arith) refl)
          (omega arith) refl)
        (omega arith) refl)
      (omega arith) refl

abbrev pub both_claims : List (ℕ × ℕ)
both_claims = (1, 29800000) ∷ (0, 49800000) ∷ []

funded_run : Runs toy_bitcoin toy_tss toy_server funded ((0, 49800000) ∷ []) []
unfolding process_consensus_item process_block_vote process_feerate track_txs track_outputs
    next_index same_txs same_outputs same_rate BTreeMap.get BTreeMap.insert BTreeMap.remove
    process_input deposit credit consensus_fee consensus_feerate given sort_ascending
    insert_ascending pending_txs_unordered stack_size deduct BTreeSet.contains BTreeSet.insert
funded_run = claimed rated 106 first_deposit 49800000 3 funded [] [] block_run (omega arith) refl

swept_run : Runs toy_bitcoin toy_tss toy_server swept both_claims []
unfolding process_consensus_item process_block_vote process_feerate track_txs track_outputs
    next_index same_txs same_outputs same_rate BTreeMap.get BTreeMap.insert BTreeMap.remove
    process_input deposit credit consensus_fee consensus_feerate given sort_ascending
    insert_ascending pending_txs_unordered stack_size deduct BTreeSet.contains BTreeSet.insert
swept_run =
    claimed funded 106 second_deposit 29800000 4 swept ((0, 49800000) ∷ []) [] funded_run
      (omega arith) refl

logged_run : Runs toy_bitcoin toy_tss toy_server logged both_claims []
unfolding process_consensus_item process_block_vote process_feerate track_txs track_outputs
    next_index same_txs same_outputs same_rate BTreeMap.get BTreeMap.insert BTreeMap.remove
    process_input deposit credit consensus_fee consensus_feerate given sort_ascending
    insert_ascending pending_txs_unordered stack_size deduct BTreeSet.contains BTreeSet.insert
    process_nonces process_signature_shares latest_entry BTreeMap.range nonce_column_from
    verify_shares sighashes_from store_shares finalize_tx finalize_inputs share_column_from withdraw
    process_output PairMap.insert
logged_run =
    ordered _ 2 (own_nonces 2) logged both_claims []
      (ordered _ 1 (own_nonces 1) _ both_claims []
        (ordered swept 0 (own_nonces 0) _ both_claims [] swept_run (omega arith) refl) (omega arith)
        refl)
      (omega arith) refl

pub two_signed_run : Runs toy_bitcoin toy_tss toy_server two_signed both_claims []
unfolding process_consensus_item process_block_vote process_feerate track_txs track_outputs
    next_index same_txs same_outputs same_rate BTreeMap.get BTreeMap.insert BTreeMap.remove
    process_input deposit credit consensus_fee consensus_feerate given sort_ascending
    insert_ascending pending_txs_unordered stack_size deduct BTreeSet.contains BTreeSet.insert
    process_nonces process_signature_shares latest_entry BTreeMap.range nonce_column_from
    verify_shares sighashes_from store_shares finalize_tx finalize_inputs share_column_from withdraw
    process_output PairMap.insert
two_signed_run =
    ordered one_signed 1 (own_shares 1) two_signed both_claims []
      (ordered logged 0 (own_shares 0) one_signed both_claims [] logged_run (omega arith) refl)
      (omega arith) refl

signed_run : Runs toy_bitcoin toy_tss toy_server signed both_claims []
unfolding process_consensus_item process_block_vote process_feerate track_txs track_outputs
    next_index same_txs same_outputs same_rate BTreeMap.get BTreeMap.insert BTreeMap.remove
    process_input deposit credit consensus_fee consensus_feerate given sort_ascending
    insert_ascending pending_txs_unordered stack_size deduct BTreeSet.contains BTreeSet.insert
    process_nonces process_signature_shares latest_entry BTreeMap.range nonce_column_from
    verify_shares sighashes_from store_shares finalize_tx finalize_inputs share_column_from withdraw
    process_output PairMap.insert
signed_run =
    ordered two_signed 2 (own_shares 2) signed both_claims [] two_signed_run (omega arith) refl

pub settled_run : Runs toy_bitcoin toy_tss toy_server settled both_claims (20446000 ∷ [])
unfolding process_consensus_item process_block_vote process_feerate track_txs track_outputs
    next_index same_txs same_outputs same_rate BTreeMap.get BTreeMap.insert BTreeMap.remove
    process_input deposit credit consensus_fee consensus_feerate given sort_ascending
    insert_ascending pending_txs_unordered stack_size deduct BTreeSet.contains BTreeSet.insert
    process_nonces process_signature_shares latest_entry BTreeMap.range nonce_column_from
    verify_shares sighashes_from store_shares finalize_tx finalize_inputs share_column_from withdraw
    process_output PairMap.insert
settled_run =
    paid signed 107 withdrawal (1, 0) 20446000 settled both_claims [] signed_run (omega arith) refl

pub signed_fee : consensus_fee toy_server.n signed 154 ≡ some (some 169)
unfolding consensus_fee consensus_feerate given sort_ascending insert_ascending
    pending_txs_unordered stack_size deduct process_consensus_item process_feerate
    process_block_vote track_txs track_outputs next_index same_txs same_outputs same_rate
    BTreeMap.get BTreeMap.insert BTreeMap.remove
signed_fee = refl

pub no_outputs : Dense 0 two_voted.outputs
unfolding process_consensus_item process_block_vote same_txs same_outputs BTreeMap.get
    BTreeMap.insert
no_outputs = tt

pub accepted_vote : process_block_vote toy_server.n two_voted 2 two_deposits ≡ ok block_tracked
unfolding process_consensus_item process_block_vote track_txs track_outputs next_index same_txs
    same_outputs BTreeMap.get BTreeMap.insert BTreeMap.remove
accepted_vote = refl
