-- ===== src/Tests/Onchain.antt =====
-- The claims on the onchain module, at the run of Tests/Vault.antt.
use picomint.Prelude.{
  ℕ, ◌+◌, ◌*◌, ◌≤◌, ◌<◌, ◌≡◌, refl, none, some, [], ◌∷◌, length, count, leb, ltb, arith, ◌⊎◌,
}
use picomint.Collections.BTreeMap
use picomint.Collections.BTreeMap.{values}
use picomint.Nodes.{threshold}
use picomint.Mint.Ledger.{Result}
use picomint.Mint.Onchain.Values.{Wallet}
use picomint.Mint.Onchain.Fees.{given, consensus_feerate}
use picomint.Mint.Onchain.Signing.{ItemError, session_chunk, next_index}
use picomint.Mint.Onchain.Blocks.{
  same_outputs, same_txs, same_rate, same_vote, process_feerate, track_outputs, track_txs,
  process_block_vote, process_consensus_item,
}
use picomint.Mint.Onchain.Money.{
  holdings, credited, debited, claims_of, Runs-IsSolvent, Runs-claim_once,
}
use picomint.Mint.Onchain.Chain.{Chained, Runs-Chained}
use picomint.Mint.Onchain.Sessions.{Distinct}
use picomint.Mint.Onchain.Shares.{Hashes}
use picomint.Mint.Onchain.Liveness.{Runs-Distinct, Runs-item_returns}
use picomint.Mint.Onchain.Rates.{Covers, rates_of, consensus_feerate-count, consensus_fee-Covers}
use picomint.Mint.Onchain.Tracking.{Advances, process_block_vote-Advances}
use picomint.Tests.Vault.{
  toy_bitcoin, toy_bitcoin-IsExact, toy_tss, toy_server, toy_Aggregates, two_deposits, two_voted,
  block_tracked, rated, two_signed, signed, settled, both_claims, own_shares, two_signed_run,
  settled_run, signed_fee, no_outputs, accepted_vote,
}

Runs-IsSolvent_example : credited both_claims ≤ 1000 * holdings settled + debited (20446000 ∷ [])
Runs-IsSolvent_example =
    Runs-IsSolvent toy_bitcoin toy_tss toy_server toy_bitcoin-IsExact settled both_claims
      (20446000 ∷ []) settled_run

Runs-claim_once_example : claims_of 1 both_claims ≤ 1
Runs-claim_once_example =
    Runs-claim_once toy_bitcoin toy_tss toy_server 1 settled both_claims (20446000 ∷ []) settled_run

Runs-Chained_example : Chained settled
Runs-Chained_example =
    Runs-Chained toy_bitcoin toy_tss toy_server settled both_claims (20446000 ∷ []) settled_run

Runs-Distinct_example : Distinct (session_chunk (threshold toy_server.n) 1 two_signed.nonce_log)
Runs-Distinct_example =
    Runs-Distinct toy_bitcoin toy_tss toy_server two_signed both_claims [] 1 two_signed_run

toy_Hashes : Hashes toy_bitcoin
toy_Hashes = record { answers = λ tx index prevouts same h. (50 + index, refl) }

Runs-item_returns_example :
    (a : Result ItemError Wallet) × (process_consensus_item toy_bitcoin toy_tss toy_server
        two_signed 2
        (own_shares 2)
      ≡ some a)
Runs-item_returns_example =
    Runs-item_returns toy_bitcoin toy_tss toy_server toy_Aggregates toy_Hashes two_signed
      both_claims [] 2 22 (own_shares 2) two_signed_run (unfold BTreeMap.get in refl)

consensus_feerate-count_example :
    ((length (rates_of rated) < threshold toy_server.n)
      × (consensus_feerate toy_server.n rated ≡ some none))
    ⊎ ((threshold toy_server.n ≤ length (rates_of rated))
        × (v : ℕ) × (consensus_feerate toy_server.n rated ≡ some (some v))
        × (leb 1000 v ≡ ltb (count (λ r. ltb r 1000) (rates_of rated)) (threshold toy_server.n)))
unfolding given process_consensus_item process_feerate process_block_vote track_txs track_outputs
    next_index same_txs same_outputs same_rate BTreeMap.get BTreeMap.insert BTreeMap.remove
consensus_feerate-count_example = consensus_feerate-count toy_server.n rated 1000 (omega arith)

consensus_fee-Covers_example : Covers toy_server.n signed 154 169
consensus_fee-Covers_example = consensus_fee-Covers toy_server.n signed 154 169 signed_fee

process_block_vote-Advances_example :
    (BTreeMap.get 2 two_voted.block_votes ≡ none)
    × (Advances toy_server.n two_voted 2 two_deposits block_tracked
        ⊎ ((two_voted.block_height ≡ some two_deposits.height)
            × (count
                  (same_vote two_deposits)
                  (values (BTreeMap.insert 2 two_deposits two_voted.block_votes))
                < threshold toy_server.n)
            × (block_tracked ≡ record two_voted {
              block_votes = BTreeMap.insert 2 two_deposits two_voted.block_votes;
            })))
unfolding process_consensus_item process_block_vote BTreeMap.get BTreeMap.insert same_txs
    same_outputs
process_block_vote-Advances_example =
    process_block_vote-Advances toy_server.n two_voted 2 two_deposits block_tracked no_outputs
      (omega arith) accepted_vote
