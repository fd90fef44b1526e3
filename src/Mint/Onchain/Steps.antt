-- ===== src/Mint/Onchain/Steps.antt =====
-- The steps of picomint-node-daemon/src/consensus/onchain/mod.rs keep the signing session in order.
use picomint.Prelude.{
  ℕ, ◌+◌, ◌<◌, ◌^◌, ◌≡◌, refl, none, some, List, [], length, ◌==◌, arith, sym, ◌∙◌, inl, inr,
  Bool-cases, some_unique,
}
use mathlib.Core.Path.{subst}
use picomint.Collections.BTreeSet
use picomint.Mint.Ledger.{ok}
use picomint.Mint.Onchain.Values.{
  MintTx, Wallet, Bitcoin, OnchainConsensusItem, block, feerate, nonces, signature_shares,
}
use picomint.Mint.Onchain.Signing.{Tss, Server, next_index}
use picomint.Mint.Onchain.Blocks.{
  initialize_block_height, process_block_vote, process_feerate, process_consensus_item,
}
use picomint.Mint.Onchain.Rows.{track_txs-tracking}
use picomint.Mint.Onchain.Answers.{Session, IsSigning, fresh-Session, nonces-IsSigning}
use picomint.Mint.Onchain.Moves.{received, sent}
use picomint.Mint.Onchain.Claims.{deposit-cases, process_input-Claims, process_output-Pays}
use picomint.Mint.Onchain.Money.{Runs, begun, tracked, ordered, claimed, paid}
use picomint.Mint.Onchain.Ready.{shares-IsSigning}

module _ (bitcoin : Bitcoin) (tss : Tss) (server : Server) where
  -- Steps that leave the signing alone.
  abbrev Aside : Wallet → Wallet → Type 0
  Aside w w' =
      (w'.unsigned_tx ≡ w.unsigned_tx) × (w'.nonce_log ≡ w.nonce_log) × (w'.shares ≡ w.shares)

  Aside-IsSigning :
      (w w' : Wallet)
      → Aside w w'
      → IsSigning bitcoin tss server w
      → IsSigning bitcoin tss server w'
  Aside-IsSigning w w' (unsigned, log, shares) s = record {
    idle = λ none_left. rw (log, shares) (s.idle (sym unsigned ∙ none_left));
    busy = λ u there. rw (log, shares) (s.busy u (sym unsigned ∙ there));
  }

  item-IsSigning :
      (w : Wallet) (node : ℕ) (item : OnchainConsensusItem) (w' : Wallet)
      → IsSigning bitcoin tss server w
      → length w.nonce_log + 1 < 2 ^ 64
      → process_consensus_item bitcoin tss server w node item ≡ some (ok w')
      → IsSigning bitcoin tss server w'
  unfolding process_consensus_item process_block_vote process_feerate
  item-IsSigning w node (block vote) w' s room p =
      let same = track_txs-tracking (next_index w.outputs) vote.txs w in
      Aside-IsSigning w w' (ground (arith, same), ground (arith, same), ground (arith, same)) s
  item-IsSigning w node (feerate vote) w' s room p =
      Aside-IsSigning w w' (ground arith, ground arith, ground arith) s
  item-IsSigning w node (nonces txid public_nonces) w' s room p =
      nonces-IsSigning bitcoin tss server w node txid public_nonces w' s room (ground arith)
  item-IsSigning w node (signature_shares txid shares fresh) w' s room p =
      shares-IsSigning bitcoin tss server w node txid shares fresh w' s room p

  -- A transaction that begins to be signed.
  begin-IsSigning :
      (w w' : Wallet) (u : MintTx)
      → IsSigning bitcoin tss server w
      → w.unsigned_tx ≡ none
      → w'.unsigned_tx ≡ some u
      → w'.nonce_log ≡ w.nonce_log
      → w'.shares ≡ w.shares
      → length u.spent_tx_outs ≡ length u.tx.input
      → IsSigning bitcoin tss server w'
  begin-IsSigning w w' u s idle now log shares one_each =
      let (no_log, no_shares) = s.idle idle in
      record {
        idle = λ none_left. absurd (ground arith);
        busy = λ v there.
            let same : u ≡ v = some_unique u v now there in
            rw (log, shares, no_log, no_shares)
              (subst (λ z. Session bitcoin tss server z [] []) same
                (fresh-Session bitcoin tss server u one_each));
      }

  -- At every time of a run the signing is in order.
  pub Runs-IsSigning :
      (w : Wallet) (claims : List (ℕ × ℕ)) (payments : List ℕ)
      → Runs bitcoin tss server w claims payments
      → IsSigning bitcoin tss server w
  Runs-IsSigning _ claims payments begun = record {
    idle = λ none_left. (refl, refl);
    busy = λ u there. absurd (ground arith);
  }
  Runs-IsSigning _ claims payments (tracked w old fresh _ _ run) =
      let before = Runs-IsSigning w claims payments run in
      elim (Bool-cases (old == 0)) [
        | inl first ↦
            Aside-IsSigning w (initialize_block_height w old fresh)
              (ground arith, ground arith, ground arith) before
        | inr later ↦
            Aside-IsSigning w (initialize_block_height w old fresh)
              (ground arith, ground arith, ground arith) before
      ]
  Runs-IsSigning _ claims payments (ordered w node item w' _ _ run room p) =
      item-IsSigning w node item w' (Runs-IsSigning w claims payments run) room p
  Runs-IsSigning _ _ payments (claimed w created i amount pk w' claims _ run room p) =
      let x = process_input-Claims bitcoin server w created i amount pk w' p in
      let before = Runs-IsSigning w claims payments run in
      elim (deposit-cases bitcoin server _ created i x.tracked x.output_value w' x.kept) [
        | inl (first, same) ↦
            Aside-IsSigning w w' (ground (arith, same), ground (arith, same), ground (arith, same))
              before
        | inr s ↦
            let spent : Wallet = record w {
              spent_outputs = BTreeSet.insert i.output_index w.spent_outputs;
            } in
            subst (IsSigning bitcoin tss server) (sym s.result) (
              begin-IsSigning w
                (received bitcoin server spent created i s.wallet x.tracked s.change_value) _ before
                s.idle refl refl refl refl)
      ]
  Runs-IsSigning _ claims _ (paid w created o p amount w' _ payments run room q) =
      let x = process_output-Pays bitcoin server w created o p amount w' q in
      let before = Runs-IsSigning w claims payments run in
      subst (IsSigning bitcoin tss server) (sym x.result) (
        begin-IsSigning w (sent bitcoin server w created o p x.wallet x.change_value) _ before
          x.idle refl refl refl refl)
