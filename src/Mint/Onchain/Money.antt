-- ===== src/Mint/Onchain/Money.antt =====
-- The money of the mint's onchain wallet: what picomint-node-daemon/src/consensus/onchain/mod.rs credits
-- for deposits, holds, and debits for withdrawals, over all that a node processes.
use picomint.Prelude.{
  ℕ, ◌+◌, ◌*◌, ◌≤◌, ◌<◌, ◌^◌, ◌≡◌, refl, none, some, List, [], ◌∷◌, length, ◌==◌, if◌then◌else◌,
  arith, sym, inl, inr, Bool-cases,
}
use mathlib.Core.Path.{subst}
use picomint.Collections.BTreeSet
use picomint.Mint.Ledger.{OutPoint, ok}
use picomint.Mint.Onchain.Values.{
  OnchainConsensusItem, OnchainInput, OnchainOutput, Wallet, Bitcoin, IsExact,
}
use picomint.Mint.Onchain.Signing.{Tss, Server}
use picomint.Mint.Onchain.Blocks.{process_consensus_item, initialize_block_height}
use picomint.Mint.Onchain.Moves.{process_input, process_output}
use picomint.Mint.Onchain.Rows.{tended, item-tended}
use picomint.Mint.Onchain.Claims.{deposit-cases, process_input-Claims, process_output-Pays}

-- The tables of a new mint.
abbrev pub no_wallet : Wallet
no_wallet = record {
  outputs = [];
  block_height = none;
  block_votes = [];
  spent_outputs = [];
  mint_utxo = none;
  tx_info = [];
  tx_info_index = [];
  unsigned_tx = none;
  nonce_log = [];
  shares = [];
  unconfirmed = [];
  feerate_votes = [];
}

-- What the wallet holds, in satoshi.
abbrev pub holdings : Wallet → ℕ
holdings w = elim w.mint_utxo [ none ↦ 0 | some utxo ↦ utxo.value ]

-- The amounts of the deposits that were claimed, each with the index of its output.
abbrev pub credited : List (ℕ × ℕ) → ℕ
credited [] = 0
credited ((index, amount) ∷ claims) = amount + credited claims

abbrev pub debited : List ℕ → ℕ
debited [] = 0
debited (amount ∷ payments) = amount + debited payments

-- How often the output at an index was claimed.
abbrev pub claims_of : ℕ → List (ℕ × ℕ) → ℕ
claims_of index [] = 0
claims_of index ((i, amount) ∷ claims) = (if i == index then 1 else 0) + claims_of index claims

module _ (bitcoin : Bitcoin) (tss : Tss) (server : Server) where
  -- What a node's tables can come to, with what was credited and debited on the way. The tables of
  -- transactions and of nonces have fewer rows than their index type has values.
  pub data Runs : Wallet → List (ℕ × ℕ) → List ℕ → Type 0 where
    begun : Runs no_wallet [] []
    tracked :
        (w : Wallet) (old fresh : ℕ) (claims : List (ℕ × ℕ)) (payments : List ℕ)
        → Runs w claims payments
        → Runs (initialize_block_height w old fresh) claims payments
    ordered :
        (w : Wallet) (node : ℕ) (item : OnchainConsensusItem) (w' : Wallet) (claims : List (ℕ × ℕ))
        (payments : List ℕ)
        → Runs w claims payments
        → length w.nonce_log + 1 < 2 ^ 64
        → process_consensus_item bitcoin tss server w node item ≡ some (ok w')
        → Runs w' claims payments
    claimed :
        (w : Wallet) (created : ℕ) (i : OnchainInput) (amount pk : ℕ) (w' : Wallet)
        (claims : List (ℕ × ℕ)) (payments : List ℕ)
        → Runs w claims payments
        → length w.tx_info + 1 < 2 ^ 64
        → process_input bitcoin server w created i ≡ some (ok ((amount, pk), w'))
        → Runs w' ((i.output_index, amount) ∷ claims) payments
    paid :
        (w : Wallet) (created : ℕ) (o : OnchainOutput) (p : OutPoint) (amount : ℕ) (w' : Wallet)
        (claims : List (ℕ × ℕ)) (payments : List ℕ)
        → Runs w claims payments
        → length w.tx_info + 1 < 2 ^ 64
        → process_output bitcoin server w created o p ≡ some (ok (amount, w'))
        → Runs w' claims (amount ∷ payments)

  initialize-kept :
      (w : Wallet) (old fresh : ℕ)
      → initialize_block_height w old fresh ≡ tended w (initialize_block_height w old fresh)
  initialize-kept w old fresh = elim (Bool-cases (old == 0)) [
    | inl first ↦ ground arith
    | inr later ↦ ground arith
  ]

  abbrev IsSolvent : Wallet → List (ℕ × ℕ) → List ℕ → Type 0
  IsSolvent w claims payments = credited claims ≤ 1000 * holdings w + debited payments

  -- The mint is solvent: all that it has credited for deposits is covered by what its wallet holds and what
  -- it has debited for withdrawals.
  pub Runs-IsSolvent :
      IsExact bitcoin
      → (w : Wallet) (claims : List (ℕ × ℕ)) (payments : List ℕ) → Runs w claims payments
      → credited claims ≤ 1000 * holdings w + debited payments
  Runs-IsSolvent exact _ claims payments begun = omega arith
  Runs-IsSolvent exact _ claims payments (tracked w old fresh _ _ run) =
      subst (λ (z : Wallet). IsSolvent z claims payments) (sym (initialize-kept w old fresh))
        (Runs-IsSolvent exact w claims payments run)
  Runs-IsSolvent exact _ claims payments (ordered w node item w' _ _ run room p) =
      subst (λ (z : Wallet). IsSolvent z claims payments)
        (sym (item-tended bitcoin tss server w node item w' p))
        (Runs-IsSolvent exact w claims payments run)
  Runs-IsSolvent exact _ _ payments (claimed w created i amount pk w' claims _ run room p) =
      let x = process_input-Claims bitcoin server w created i amount pk w' p in
      let before = Runs-IsSolvent exact w claims payments run in
      let net = exact.sub_exact x.tracked.out.value i.fee x.output_value x.net in
      elim (deposit-cases bitcoin server _ created i x.tracked x.output_value w' x.kept) [
        | inl (first, same) ↦ ground (arith, x.worth)
        | inr s ↦
            let change = exact.add_exact s.wallet.value x.output_value s.change_value s.change in
            ground (arith, x.worth, s.held, s.result)
      ]
  Runs-IsSolvent exact _ claims _ (paid w created o p amount w' _ payments run room q) =
      let x = process_output-Pays bitcoin server w created o p amount w' q in
      let before = Runs-IsSolvent exact w claims payments run in
      let change = exact.sub_exact x.wallet.value x.output_value x.change_value x.change in
      ground (arith, x.worth, x.held, x.result)

  abbrev spent_once : ℕ → Wallet → ℕ
  spent_once index w = if BTreeSet.contains index w.spent_outputs then 1 else 0

  Runs-claims :
      (index : ℕ) (w : Wallet) (claims : List (ℕ × ℕ)) (payments : List ℕ)
      → Runs w claims payments
      → claims_of index claims ≡ spent_once index w
  Runs-claims index _ claims payments begun = unfold BTreeSet.contains in refl
  Runs-claims index _ claims payments (tracked w old fresh _ _ run) =
      subst (λ (z : Wallet). claims_of index claims ≡ spent_once index z)
        (sym (initialize-kept w old fresh)) (Runs-claims index w claims payments run)
  Runs-claims index _ claims payments (ordered w node item w' _ _ run room p) =
      subst (λ (z : Wallet). claims_of index claims ≡ spent_once index z)
        (sym (item-tended bitcoin tss server w node item w' p))
        (Runs-claims index w claims payments run)
  Runs-claims index _ _ payments (claimed w created i amount pk w' claims _ run room p) =
      let x = process_input-Claims bitcoin server w created i amount pk w' p in
      let before = Runs-claims index w claims payments run in
      let marked = BTreeSet.contains-insert i.output_index index w.spent_outputs in
      elim (deposit-cases bitcoin server _ created i x.tracked x.output_value w' x.kept) [
        | inl (first, same) ↦ ground (arith, x.fresh)
        | inr s ↦ ground (arith, x.fresh, s.result)
      ]
  Runs-claims index _ claims _ (paid w created o p amount w' _ payments run room q) =
      let x = process_output-Pays bitcoin server w created o p amount w' q in
      let before = Runs-claims index w claims payments run in ground (arith, x.result)

  -- No deposit is claimed twice.
  pub Runs-claim_once :
      (index : ℕ) (w : Wallet) (claims : List (ℕ × ℕ)) (payments : List ℕ)
      → Runs w claims payments
      → claims_of index claims ≤ 1
  Runs-claim_once index w claims payments run =
      ground (arith, Runs-claims index w claims payments run)
