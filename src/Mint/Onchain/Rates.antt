-- ===== src/Mint/Onchain/Rates.antt =====
-- What the consensus fee rate and the fees of picomint-node-daemon/src/consensus/onchain/mod.rs come to.
use picomint.Prelude.{
  ℕ, zero, suc, ◌+◌, ◌-◌, ◌*◌, ◌/◌, ◌%◌, ◌^◌, ◌≤◌, ◌<◌, ◌≡◌, refl, none, some, List, [], ◌∷◌,
  length, count, get_elem?, leb, ltb, arith, ◌⊎◌, inl, inr, Bool-cases, Option-cases,
}
use native.Mathlib.Nat.{pow-le-pow_right}
use native.Mathlib.Decide.{dec_lt}
use picomint.Collections.BTreeMap.{values}
use picomint.Nodes.{NumNodes, total, threshold}
use picomint.Mint.Votes.{
  sort_ascending, sort-Ascends, elem-count, length-sort_ascending, count-sort_ascending,
}
use picomint.Mint.Onchain.Values.{MintTx, Wallet, onchain_feerate_base}
use picomint.Mint.Onchain.Fees.{
  saturating_mul, max, given, pending_txs_unordered, consensus_feerate, deduct, stack_size,
  consensus_fee,
}

-- The rates that were voted for.
abbrev pub rates_of : Wallet → List ℕ
rates_of w = given (values w.feerate_votes)

-- While no more votes are held than there are nodes, the consensus fee rate is there just if a threshold of
-- nodes vote for a rate, and it reaches `x` just if less than a threshold of them vote for less than `x`.
pub consensus_feerate-count :
    (n : NumNodes) (w : Wallet) (x : ℕ)
    → length (rates_of w) ≤ total n
    → ((length (rates_of w) < threshold n) × (consensus_feerate n w ≡ some none))
      ⊎ ((threshold n ≤ length (rates_of w))
          × (v : ℕ) × (consensus_feerate n w ≡ some (some v))
          × (leb x v ≡ ltb (count (λ r. ltb r x) (rates_of w)) (threshold n)))
unfolding consensus_feerate
consensus_feerate-count n w x few =
    let rates = rates_of w in
    let sorted = sort_ascending rates in
    let same = length-sort_ascending rates in
    elim (dec_lt (threshold n - 1) (length rates)) [
      | yes many ↦
          let (v, at, _, reached) =
            elem-count x 0 (threshold n - 1) sorted (sort-Ascends rates) (omega arith) in
          let below = count-sort_ascending (λ r. ltb r x) rates in
          inr (omega arith, v, ground (arith, at), ground (arith, reached, below))
      | no short ↦ inl (omega arith, ground (arith, absent (threshold n - 1) sorted (omega arith)))
    ]
  where
    absent : (k : ℕ) (xs : List ℕ) → length xs ≤ k → get_elem? xs k ≡ none
    absent k [] h = refl
    absent zero (x ∷ xs) h = absurd (omega arith)
    absent (suc k) (x ∷ xs) h = absent k xs (omega arith)

abbrev pub fees_of : List MintTx → ℕ
fees_of [] = 0
fees_of (t ∷ txs) = t.fee + fees_of txs

abbrev pub sizes_of : List MintTx → ℕ
sizes_of [] = 0
sizes_of (t ∷ txs) = t.vbytes + sizes_of txs

deduct-covers : (stack_fee : ℕ) (txs : List MintTx) → stack_fee ≤ deduct stack_fee txs + fees_of txs
unfolding deduct
deduct-covers stack_fee [] = omega arith
deduct-covers stack_fee (t ∷ txs) = omega (arith, deduct-covers (stack_fee - t.fee) txs)

stack_size-exact :
    (vbytes : ℕ) (txs : List MintTx) (size : ℕ)
    → stack_size vbytes txs ≡ some size
    → size ≡ vbytes + sizes_of txs
unfolding stack_size
stack_size-exact vbytes [] size p = ground arith
stack_size-exact vbytes (t ∷ txs) size p = elim (Bool-cases (ltb (vbytes + t.vbytes) (2 ^ 64))) [
  | inl fits ↦ omega (arith, stack_size-exact (vbytes + t.vbytes) txs size (ground arith))
  | inr over ↦ absurd (ground arith)
]

-- What a consensus fee has to cover.
pub record Covers (n : NumNodes) (w : Wallet) (tx_vbytes fee : ℕ) : Type 0 where
  pub voted : ℕ
  pub agreed : consensus_feerate n w ≡ some (some voted)
  pub rate : ℕ
  pub above_vote : voted ≤ rate
  pub above_base : onchain_feerate_base * 2 ^ length (pending_txs_unordered w) ≤ rate
  pub own : saturating_mul tx_vbytes rate / 1000 ≤ fee
  pub stack :
      saturating_mul (tx_vbytes + sizes_of (pending_txs_unordered w)) rate / 1000
      ≤ fee + fees_of (pending_txs_unordered w)

-- A transaction that pays the consensus fee pays the fee rate for itself, and together with what the pending
-- transactions pay it pays the rate for all of them. The rate is at least the voted one, and at least the
-- base rate doubled for each pending transaction.
pub consensus_fee-Covers :
    (n : NumNodes) (w : Wallet) (tx_vbytes fee : ℕ)
    → consensus_fee n w tx_vbytes ≡ some (some fee)
    → Covers n w tx_vbytes fee
unfolding consensus_fee
consensus_fee-Covers n w tx_vbytes fee p =
    let pending = pending_txs_unordered w in
    elim (Option-cases (consensus_feerate n w)) [
      | inl panic ↦ absurd (ground arith)
      | inr (answer, asked) ↦ elim (Option-cases answer) [
        | inl silent ↦ absurd (ground arith)
        | inr (voted, rated) ↦
            let rate = max voted (onchain_feerate_base * 2 ^ length pending % 2 ^ 64) in
            elim (Option-cases (stack_size tx_vbytes pending)) [
              | inl over ↦ absurd (ground arith)
              | inr (size, sized) ↦
                  let few : length pending ≤ 32 = ground arith in
                  let power = pow-le-pow_right {n = 2} (omega arith) few in
                  let no_wrap : onchain_feerate_base * 2 ^ length pending % 2 ^ 64
                      ≡ onchain_feerate_base * 2 ^ length pending =
                    omega (arith, power) in
                  let exact = stack_size-exact tx_vbytes pending size sized in
                  let stack_fee = saturating_mul size rate / 1000 in
                  let covered = deduct-covers stack_fee pending in
                  let result : max (saturating_mul tx_vbytes rate / 1000) (deduct stack_fee pending)
                      ≡ fee =
                    ground arith in
                  record {
                    voted = voted;
                    agreed = ground arith;
                    rate = rate;
                    above_vote = ground arith;
                    above_base = ground (arith, no_wrap);
                    own = ground (arith, result);
                    stack = rw (← exact) (ground (arith, result, covered));
                  }
            ]
      ]
    ]
