-- ===== src/Mint/Onchain/Tracking.antt =====
-- What a vote on a block does in `process_consensus_item` of
-- picomint-node-daemon/src/consensus/onchain/mod.rs.
use picomint.Prelude.{
  ℕ, suc, ◌+◌, ◌%◌, ◌≤◌, ◌<◌, ◌^◌, ◌≡◌, refl, none, some, List, [], ◌∷◌, ◌++◌, length,
  length-append, count, leb, arith, sym, ◌∙◌, ap, ◌⊎◌, inl, inr, Bool-cases, Option-cases,
}
use mathlib.Core.List.{append-nil, append_assoc}
use picomint.Collections.BTreeMap
use picomint.Collections.BTreeMap.{BTreeMap, values}
use picomint.Collections.Dense.{Dense, insert_next, length-values}
use picomint.Nodes.{NumNodes, threshold}
use picomint.Mint.Ledger.{ok}
use picomint.Mint.Onchain.Values.{TxOut, TrackedOutput, BlockTx, BlockVote, Wallet}
use picomint.Mint.Onchain.Signing.{next_index}
use picomint.Mint.Onchain.Blocks.{track_outputs, track_txs, same_vote, process_block_vote}
use picomint.Mint.Onchain.Rows.{next_index-length}

-- The outputs of a transaction, and those of a block, in order.
abbrev pub tracked_of : ℕ → List (ℕ × TxOut) → List TrackedOutput
tracked_of txid [] = []
tracked_of txid ((vout, out) ∷ outs) =
    record { outpoint = (txid, vout); out = out } ∷ tracked_of txid outs

abbrev pub outputs_of : List BlockTx → List TrackedOutput
outputs_of [] = []
outputs_of (tx ∷ txs) = tracked_of tx.txid tx.outputs ++ outputs_of txs

-- The table `after` is `before` with the rows `added` at the end.
abbrev pub Appends : BTreeMap TrackedOutput → List TrackedOutput → BTreeMap TrackedOutput → Type 0
Appends before added after = Dense 0 after × (values after ≡ values before ++ added)

Appends-length :
    (before after : BTreeMap TrackedOutput) (added : List TrackedOutput)
    → Appends before added after
    → length after ≡ length before + length added
Appends-length before after added (dense, vals) = omega (
  arith,
  ap length vals,
  length-append (values before) added,
  length-values after,
  length-values before,
)

track_outputs-Appends :
    (txid index : ℕ) (outs : List (ℕ × TxOut)) (outputs : BTreeMap TrackedOutput)
    → Dense 0 outputs
    → index ≡ length outputs
    → length outputs + length outs < 2 ^ 64
    → Appends outputs (tracked_of txid outs) (track_outputs txid index outs outputs).1
      × ((track_outputs txid index outs outputs).0 ≡ length outputs + length outs)
unfolding track_outputs
track_outputs-Appends txid index [] outputs d at room =
    ((d, sym (append-nil (values outputs))), omega arith)
track_outputs-Appends txid index ((vout, out) ∷ outs) outputs d at room =
    let t : TrackedOutput = record { outpoint = (txid, vout); out = out } in
    let (dense, vals, len) = insert_next 0 index outputs t d (omega arith) in
    let ((dense', vals'), next) =
      track_outputs-Appends txid ((index + 1) % 2 ^ 64) outs (BTreeMap.insert index t outputs) dense
        (omega arith) (omega arith) in
    (
      (
        dense',
        vals'
            ∙ ap (λ l. l ++ tracked_of txid outs) vals
            ∙ append_assoc (values outputs) (t ∷ []) (tracked_of txid outs),
      ),
      omega arith,
    )

length-tracked_of :
    (txid : ℕ) (outs : List (ℕ × TxOut)) → length (tracked_of txid outs) ≡ length outs
length-tracked_of txid [] = refl
length-tracked_of txid (o ∷ outs) = ap suc (length-tracked_of txid outs)

track_txs-Appends :
    (index : ℕ) (txs : List BlockTx) (w : Wallet)
    → Dense 0 w.outputs
    → index ≡ length w.outputs
    → length w.outputs + length (outputs_of txs) < 2 ^ 64
    → Appends w.outputs (outputs_of txs) (track_txs index txs w).outputs
unfolding track_txs
track_txs-Appends index [] w d at room = (d, sym (append-nil (values w.outputs)))
track_txs-Appends index (tx ∷ txs) w d at room =
    let r = track_outputs tx.txid index tx.outputs w.outputs in
    let len = length-append (tracked_of tx.txid tx.outputs) (outputs_of txs) in
    let outs = length-tracked_of tx.txid tx.outputs in
    let ((dense, vals), next) =
      track_outputs-Appends tx.txid index tx.outputs w.outputs d at (omega arith) in
    let grown = Appends-length w.outputs r.1 (tracked_of tx.txid tx.outputs) (dense, vals) in
    let x : Wallet = record w {
      unconfirmed = BTreeMap.remove tx.txid w.unconfirmed;
      outputs = r.1;
    } in
    let (dense', vals') = track_txs-Appends r.0 txs x dense (omega arith) (omega arith) in
    (
      dense',
      vals'
          ∙ ap (λ l. l ++ outputs_of txs) vals
          ∙ append_assoc (values w.outputs) (tracked_of tx.txid tx.outputs) (outputs_of txs),
    )

-- The block at the tracked height, on which a threshold of nodes have voted alike.
pub record Advances (n : NumNodes) (w : Wallet) (node : ℕ) (vote : BlockVote) (w' : Wallet)
    : Type 0 where
  pub at : w.block_height ≡ some vote.height
  pub agreed :
      threshold n ≤ count (same_vote vote) (values (BTreeMap.insert node vote w.block_votes))
  pub outputs : Appends w.outputs (outputs_of vote.txs) w'.outputs
  pub height : w'.block_height ≡ some ((vote.height + 1) % 2 ^ 32)
  pub cleared : w'.block_votes ≡ []

-- A vote that is accepted is for the block at the tracked height, by a node that has not voted on it. If with
-- it a threshold of nodes have voted for the same block, the block's outputs come behind the tracked ones, in
-- order and under the next indexes, the height moves on by one and the votes are cleared; if not, only the
-- vote is kept.
pub process_block_vote-Advances :
    (n : NumNodes) (w : Wallet) (node : ℕ) (vote : BlockVote) (w' : Wallet)
    → Dense 0 w.outputs
    → length w.outputs + length (outputs_of vote.txs) < 2 ^ 64
    → process_block_vote n w node vote ≡ ok w'
    → (BTreeMap.get node w.block_votes ≡ none)
      × (Advances n w node vote w'
          ⊎ ((w.block_height ≡ some vote.height)
              × (count (same_vote vote) (values (BTreeMap.insert node vote w.block_votes))
                  < threshold n)
              × (w' ≡ record w { block_votes = BTreeMap.insert node vote w.block_votes })))
unfolding process_block_vote
process_block_vote-Advances n w node vote w' d room p =
    let votes = BTreeMap.insert node vote w.block_votes in
    let many = count (same_vote vote) (values votes) in
    elim (Option-cases w.block_height) [
      | inl none_yet ↦ absurd (ground arith)
      | inr (height, there) ↦
          let at : w.block_height ≡ some vote.height = ground arith in
          elim (Option-cases (BTreeMap.get node w.block_votes)) [
            | inr (old, again) ↦ absurd (ground arith)
            | inl fresh ↦ elim (Bool-cases (leb (threshold n) many)) [
              | inr few ↦ (fresh, inr (at, ground arith, ground arith))
              | inl enough ↦
                  let next = next_index-length w.outputs d (omega arith) in
                  let tracked = track_txs-Appends (next_index w.outputs) vote.txs w d next room in
                  let rows : w'.outputs ≡ (track_txs (next_index w.outputs) vote.txs w).outputs =
                    ground arith in
                  (
                    fresh,
                    inl (record {
                      at = at;
                      agreed = ground arith;
                      outputs = rw rows tracked;
                      height = ground arith;
                      cleared = ground arith;
                    }),
                  )
            ]
          ]
    ]
