-- ===== src/Mint/Onchain/Fees.antt =====
-- The fee rate and the fees that the nodes agree on, in
-- picomint-node-daemon/src/consensus/onchain/mod.rs.
use picomint.Prelude.{
  ℕ, ◌+◌, ◌-◌, ◌*◌, ◌/◌, ◌^◌, not, Option, none, some, List, [], ◌∷◌, length, get_elem?, leb, ltb,
  if◌then◌else◌, ◌>>=◌,
}
use picomint.Collections.BTreeMap.{values}
use picomint.Nodes.{NumNodes, total, threshold}
use picomint.Mint.Amounts.{u64}
use picomint.Mint.Votes.{sort_ascending}
use picomint.Mint.Onchain.Values.{
  MintTx, Wallet, onchain_feerate_base, send_tx_vbytes, receive_tx_vbytes,
}

-- `saturating_mul` and `saturating_sub` on a `u64`.
abbrev pub saturating_mul : ℕ → ℕ → ℕ
saturating_mul a b = if ltb (a * b) (2 ^ 64) then a * b else 2 ^ 64 - 1

abbrev pub max : ℕ → ℕ → ℕ
max a b = if leb a b then b else a

-- `filter_map` over the votes.
unfoldable pub given : List (Option ℕ) → List ℕ
given [] = []
given (none ∷ votes) = given votes
given (some v ∷ votes) = v ∷ given votes

unfoldable pub pending_txs_unordered : Wallet → List MintTx
pending_txs_unordered w = elim w.unsigned_tx [
  | none ↦ values w.unconfirmed
  | some unsigned ↦ unsigned ∷ values w.unconfirmed
]

-- `none` is a failed assertion, `some none` an answer of `None`.
unfoldable pub consensus_feerate : NumNodes → Wallet → Option (Option ℕ)
consensus_feerate n w =
    let rates = given (values w.feerate_votes) in
    if not (leb (length rates) (total n))
    then none
    else some (get_elem? (sort_ascending rates) (threshold n - 1))

-- `fold` of the pending fees.
unfoldable pub deduct : ℕ → List MintTx → ℕ
deduct stack_fee [] = stack_fee
deduct stack_fee (t ∷ txs) = deduct (stack_fee - t.fee) txs

-- `try_fold` of the sizes.
unfoldable pub stack_size : ℕ → List MintTx → Option ℕ
stack_size vbytes [] = some vbytes
stack_size vbytes (t ∷ txs) =
    if ltb (vbytes + t.vbytes) (2 ^ 64) then stack_size (vbytes + t.vbytes) txs else none

unfoldable pub consensus_fee : NumNodes → Wallet → ℕ → Option (Option ℕ)
consensus_fee n w tx_vbytes =
    let pending = pending_txs_unordered w in
    if not (leb (length pending) 32)
    then none
    else consensus_feerate n w >>= λ rate. elim rate [
      | none ↦ some none
      | some voted ↦
          let feerate = max voted (u64 (onchain_feerate_base * 2 ^ length pending)) in
          let tx_fee = saturating_mul tx_vbytes feerate / 1000 in
          stack_size tx_vbytes pending >>= λ stack_vbytes.
          let stack_fee = saturating_mul stack_vbytes feerate / 1000 in
          some (some (max tx_fee (deduct stack_fee pending)))
    ]

abbrev pub send_fee : NumNodes → Wallet → Option (Option ℕ)
send_fee n w = consensus_fee n w send_tx_vbytes

abbrev pub receive_fee : NumNodes → Wallet → Option (Option ℕ)
receive_fee n w = consensus_fee n w receive_tx_vbytes
