-- ===== src/Mint/Onchain/Claims.antt =====
-- What an accepted deposit and an accepted withdrawal have done, in `process_input` and `process_output`
-- of picomint-node-daemon/src/consensus/onchain/mod.rs.
use picomint.Prelude.{
  ℕ, ◌*◌, ◌≤◌, ◌≡◌, false, none, some, arith, ◌⊎◌, inl, inr, Bool-cases, Option-cases,
}
use picomint.Collections.BTreeMap
use picomint.Collections.BTreeSet
use picomint.Mint.Ledger.{OutPoint, ok, err}
use picomint.Mint.Onchain.Values.{
  MintUtxo, TrackedOutput, OnchainInput, OnchainOutput, Wallet, Bitcoin, sat_to_msat,
  tweaked_script_pubkey, onchain_dust_limit,
}
use picomint.Mint.Onchain.Fees.{send_fee, receive_fee}
use picomint.Mint.Onchain.Signing.{Server}
use picomint.Mint.Onchain.Moves.{
  received, established, deposit, credit, process_input, sent, withdraw, process_output,
}

module _ (bitcoin : Bitcoin) (server : Server) where
  -- The wallet after a deposit: the deposit itself, or the old wallet with what the deposit is worth
  -- after its fee.
  pub record Swept (w : Wallet) (created : ℕ) (i : OnchainInput) (tracked : TrackedOutput)
      (output_value : ℕ) (w' : Wallet) : Type 0 where
    pub wallet : MintUtxo
    pub held : w.mint_utxo ≡ some wallet
    pub idle : w.unsigned_tx ≡ none
    pub change_value : ℕ
    pub change : bitcoin.amount_add wallet.value output_value ≡ some change_value
    pub result : w' ≡ received bitcoin server w created i wallet tracked change_value

  pub deposit-cases :
      (w : Wallet) (created : ℕ) (i : OnchainInput) (tracked : TrackedOutput) (output_value : ℕ)
      (w' : Wallet)
      → deposit bitcoin server w created i tracked output_value ≡ ok w'
      → ((w.mint_utxo ≡ none) × (w' ≡ established bitcoin server w i tracked))
        ⊎ Swept w created i tracked output_value w'
  unfolding deposit
  deposit-cases w created i tracked output_value w' p = elim (Option-cases w.mint_utxo) [
    | inl first ↦ inl (first, ground arith)
    | inr (wallet, held) ↦ elim (Option-cases (bitcoin.amount_add wallet.value output_value)) [
      | inl over ↦ absurd (ground arith)
      | inr (change_value, change) ↦ elim (Option-cases w.unsigned_tx) [
        | inr (u, busy) ↦ absurd (ground arith)
        | inl idle ↦ inr (record {
          wallet = wallet;
          held = held;
          idle = idle;
          change_value = change_value;
          change = change;
          result = ground arith;
        })
      ]
    ]
  ]

  pub record Claims (w : Wallet) (created : ℕ) (i : OnchainInput) (amount pk : ℕ) (w' : Wallet)
      : Type 0 where
    pub fresh : BTreeSet.contains i.output_index w.spent_outputs ≡ false
    pub tracked : TrackedOutput
    pub known : BTreeMap.get i.output_index w.outputs ≡ some tracked
    pub script :
        tracked.out.script_pubkey
        ≡ tweaked_script_pubkey bitcoin server.agg_pk (bitcoin.hash_key i.tweak)
    pub output_value : ℕ
    pub net : bitcoin.amount_sub tracked.out.value i.fee ≡ some output_value
    pub worth : amount ≡ output_value * 1000
    pub owner : pk ≡ i.tweak
    pub kept :
        deposit bitcoin server
          (record w { spent_outputs = BTreeSet.insert i.output_index w.spent_outputs })
          created
          i
          tracked
          output_value
        ≡ ok w'

  credit-ok :
      (output_value : ℕ) (i : OnchainInput) (r : _) (amount pk : ℕ) (w' : Wallet)
      → credit bitcoin server output_value i r ≡ ok ((amount, pk), w')
      → (r ≡ ok w') × (amount ≡ output_value * 1000) × (pk ≡ i.tweak)
  unfolding credit
  credit-ok output_value i (err e) amount pk w' p = absurd (ground arith)
  credit-ok output_value i (ok w) amount pk w' p = elim (Option-cases (sat_to_msat output_value)) [
    | inl over ↦ absurd (ground arith)
    | inr (a, fits) ↦
        let exact : a ≡ output_value * 1000 = ground arith in
        (ground arith, ground (arith, exact), ground arith)
  ]

  pub process_input-Claims :
      (w : Wallet) (created : ℕ) (i : OnchainInput) (amount pk : ℕ) (w' : Wallet)
      → process_input bitcoin server w created i ≡ some (ok ((amount, pk), w'))
      → Claims w created i amount pk w'
  unfolding process_input
  process_input-Claims w created i amount pk w' p =
      let spent : Wallet = record w {
        spent_outputs = BTreeSet.insert i.output_index w.spent_outputs;
      } in
      elim (Bool-cases (BTreeSet.contains i.output_index w.spent_outputs)) [
        | inl again ↦ absurd (ground arith)
        | inr fresh ↦ elim (Option-cases (BTreeMap.get i.output_index w.outputs)) [
          | inl unknown ↦ absurd (ground arith)
          | inr (tracked, known) ↦ elim (Option-cases (receive_fee server.n spent)) [
            | inl panic ↦ absurd (ground arith)
            | inr (answer, asked) ↦ elim (Option-cases answer) [
              | inl silent ↦ absurd (ground arith)
              | inr (fee, rate) ↦ elim (Option-cases (bitcoin.amount_sub tracked.out.value i.fee)) [
                | inl under ↦ absurd (ground arith)
                | inr (output_value, net) ↦
                    let done : credit bitcoin server output_value i
                          (deposit bitcoin server spent created i tracked output_value)
                        ≡ ok ((amount, pk), w') =
                      ground arith in
                    let (kept, worth, owner) =
                      credit-ok output_value i
                        (deposit bitcoin server spent created i tracked output_value) amount pk w'
                        done in
                    record {
                      fresh = fresh;
                      tracked = tracked;
                      known = known;
                      script = ground arith;
                      output_value = output_value;
                      net = net;
                      worth = worth;
                      owner = owner;
                      kept = kept;
                    }
              ]
            ]
          ]
        ]
      ]

  pub record Pays (w : Wallet) (created : ℕ) (o : OnchainOutput) (p : OutPoint) (amount : ℕ)
      (w' : Wallet) : Type 0 where
    pub wallet : MintUtxo
    pub held : w.mint_utxo ≡ some wallet
    pub idle : w.unsigned_tx ≡ none
    pub output_value : ℕ
    pub gross : bitcoin.amount_add o.value o.fee ≡ some output_value
    pub change_value : ℕ
    pub change : bitcoin.amount_sub wallet.value output_value ≡ some change_value
    pub above_dust : onchain_dust_limit ≤ change_value
    pub worth : amount ≡ output_value * 1000
    pub result : w' ≡ sent bitcoin server w created o p wallet change_value

  withdraw-Pays :
      (w : Wallet) (created : ℕ) (o : OnchainOutput) (p : OutPoint) (wallet : MintUtxo) (amount : ℕ)
      (w' : Wallet)
      → w.mint_utxo ≡ some wallet
      → withdraw bitcoin server w created o p wallet ≡ ok (amount, w')
      → Pays w created o p amount w'
  unfolding withdraw
  withdraw-Pays w created o p wallet amount w' held q =
      elim (Option-cases (bitcoin.amount_add o.value o.fee)) [
        | inl over ↦ absurd (ground arith)
        | inr (output_value, gross) ↦
            elim (Option-cases (bitcoin.amount_sub wallet.value output_value)) [
              | inl under ↦ absurd (ground arith)
              | inr (change_value, change) ↦ elim (Option-cases w.unsigned_tx) [
                | inr (u, busy) ↦ absurd (ground arith)
                | inl idle ↦ elim (Option-cases (sat_to_msat output_value)) [
                  | inl big ↦ absurd (ground arith)
                  | inr (a, fits) ↦
                      let exact : a ≡ output_value * 1000 = ground arith in
                      let paid : amount ≡ a = ground arith in
                      record {
                        wallet = wallet;
                        held = held;
                        idle = idle;
                        output_value = output_value;
                        gross = gross;
                        change_value = change_value;
                        change = change;
                        above_dust = ground arith;
                        worth = omega arith;
                        result = ground arith;
                      }
                ]
              ]
            ]
      ]

  pub process_output-Pays :
      (w : Wallet) (created : ℕ) (o : OnchainOutput) (p : OutPoint) (amount : ℕ) (w' : Wallet)
      → process_output bitcoin server w created o p ≡ some (ok (amount, w'))
      → Pays w created o p amount w'
  unfolding process_output
  process_output-Pays w created o p amount w' q = elim (Option-cases w.mint_utxo) [
    | inl no_funds ↦ absurd (ground arith)
    | inr (wallet, held) ↦ elim (Option-cases (send_fee server.n w)) [
      | inl panic ↦ absurd (ground arith)
      | inr (answer, asked) ↦ elim (Option-cases answer) [
        | inl silent ↦ absurd (ground arith)
        | inr (fee, rate) ↦ withdraw-Pays w created o p wallet amount w' held (ground arith)
      ]
    ]
  ]
