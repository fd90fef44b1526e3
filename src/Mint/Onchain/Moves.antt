-- ===== src/Mint/Onchain/Moves.antt =====
-- `process_input` and `process_output` of picomint-node-daemon/src/consensus/onchain/mod.rs: a deposit
-- that is claimed, and a withdrawal.
use picomint.Prelude.{ℕ, not, Option, none, some, [], ◌∷◌, ltb, ◌==◌, if◌then◌else◌, ◌>>=◌}
use picomint.Collections.BTreeMap
use picomint.Collections.BTreeSet
use picomint.Collections.PairMap
use picomint.Mint.Ledger.{OutPoint, Result, ok, err}
use picomint.Mint.Onchain.Values.{
  BitcoinTx, MintUtxo, TrackedOutput, OnchainInput, OnchainOutput, OnchainInputError,
  output_already_spent, unknown_output_index, wrong_tweak, no_consensus_feerate,
  insufficient_total_fee, arithmetic_overflow, pending_transaction, OnchainOutputError,
  under_dust_limit, no_mint_utxo, no_feerate, total_fee_too_low, change_under_dust_limit,
  send_overflow, already_signing, Wallet, Bitcoin, sat_to_msat, script_pubkey_of, txid_of_tx,
  tweaked_script_pubkey, onchain_dust_limit, send_tx_vbytes, receive_tx_vbytes,
}
use picomint.Mint.Onchain.Fees.{send_fee, receive_fee}
use picomint.Mint.Onchain.Signing.{Server}
use picomint.Mint.Onchain.Blocks.{total_txs}

module _ (bitcoin : Bitcoin) (server : Server) where
  -- The transaction that sweeps a deposit into the wallet.
  abbrev pub receive_tx : MintUtxo → TrackedOutput → ℕ → BitcoinTx
  receive_tx wallet tracked change_value = record {
    input =
        record { previous_output = wallet.outpoint; witness = none }
        ∷ record { previous_output = tracked.outpoint; witness = none }
        ∷ [];
    output =
        record {
          value = change_value;
          script_pubkey = tweaked_script_pubkey bitcoin server.agg_pk (bitcoin.hash_utxo wallet);
        }
        ∷ [];
  }

  -- The tables after the wallet has received: it holds the change, and the transaction waits for its
  -- signatures. `created` is the consensus block height.
  abbrev pub received : Wallet → ℕ → OnchainInput → MintUtxo → TrackedOutput → ℕ → Wallet
  received w created input wallet tracked change_value =
      let tx = receive_tx wallet tracked change_value in
      let tx_index = total_txs w in
      record w {
        mint_utxo = some (record {
          value = change_value;
          outpoint = (txid_of_tx bitcoin tx, 0);
          tweak = bitcoin.hash_utxo wallet;
        });
        tx_info =
            BTreeMap.insert tx_index
              (record {
                index = tx_index;
                txid = txid_of_tx bitcoin tx;
                input = wallet.value;
                output = change_value;
                vbytes = receive_tx_vbytes;
                fee = input.fee;
                created = created;
              })
              w.tx_info;
        unsigned_tx = some (record {
          tx = tx;
          spent_tx_outs =
              record { value = wallet.value; tweak = wallet.tweak }
              ∷ record { value = tracked.out.value; tweak = bitcoin.hash_key input.tweak }
              ∷ [];
          vbytes = receive_tx_vbytes;
          fee = input.fee;
        });
      }

  -- The first deposit becomes the wallet as it is.
  abbrev pub established : Wallet → OnchainInput → TrackedOutput → Wallet
  established w input tracked = record w {
    mint_utxo = some (record {
      value = tracked.out.value;
      outpoint = tracked.outpoint;
      tweak = bitcoin.hash_key input.tweak;
    });
  }

  -- The branch on the wallet's row.
  unfoldable pub deposit :
      Wallet → ℕ → OnchainInput → TrackedOutput → ℕ → Result OnchainInputError Wallet
  deposit w created input tracked output_value = elim w.mint_utxo [
    | none ↦ ok (established w input tracked)
    | some wallet ↦ elim (bitcoin.amount_add wallet.value output_value) [
      | none ↦ err arithmetic_overflow
      | some change_value ↦ elim w.unsigned_tx [
        | some _ ↦ err pending_transaction
        | none ↦ ok (received w created input wallet tracked change_value)
      ]
    ]
  ]

  -- The answer with the amount in millisatoshi.
  unfoldable pub credit :
      ℕ
      → OnchainInput
      → Result OnchainInputError Wallet
      → Result OnchainInputError ((ℕ × ℕ) × Wallet)
  credit output_value input (err e) = err e
  credit output_value input (ok w) = elim (sat_to_msat output_value) [
    | none ↦ err arithmetic_overflow
    | some amount ↦ ok ((amount, input.tweak), w)
  ]

  -- `process_input`; `none` is a failed assertion or `expect` of `receive_fee`.
  unfoldable pub process_input :
      Wallet → ℕ → OnchainInput → Option (Result OnchainInputError ((ℕ × ℕ) × Wallet))
  process_input w created input =
      let spent = record w { spent_outputs = BTreeSet.insert input.output_index w.spent_outputs } in
      if BTreeSet.contains input.output_index w.spent_outputs
      then some (err output_already_spent)
      else elim (BTreeMap.get input.output_index w.outputs) [
        | none ↦ some (err unknown_output_index)
        | some tracked ↦
            let script =
              tweaked_script_pubkey bitcoin server.agg_pk (bitcoin.hash_key input.tweak) in
            if not (tracked.out.script_pubkey == script)
            then some (err wrong_tweak)
            else receive_fee server.n spent >>= λ fee. elim fee [
              | none ↦ some (err no_consensus_feerate)
              | some consensus_receive_fee ↦
                  if ltb input.fee consensus_receive_fee
                  then some (err insufficient_total_fee)
                  else elim (bitcoin.amount_sub tracked.out.value input.fee) [
                    | none ↦ some (err arithmetic_overflow)
                    | some output_value ↦ some (
                        credit output_value input
                          (deposit spent created input tracked output_value))
                  ]
            ]
      ]

  -- The transaction that pays a withdrawal out of the wallet.
  abbrev pub send_tx : MintUtxo → OnchainOutput → ℕ → BitcoinTx
  send_tx wallet output change_value = record {
    input = record { previous_output = wallet.outpoint; witness = none } ∷ [];
    output =
        record {
          value = change_value;
          script_pubkey = tweaked_script_pubkey bitcoin server.agg_pk (bitcoin.hash_utxo wallet);
        }
        ∷ record {
          value = output.value;
          script_pubkey = script_pubkey_of bitcoin output.destination;
        }
        ∷ [];
  }

  abbrev pub sent : Wallet → ℕ → OnchainOutput → OutPoint → MintUtxo → ℕ → Wallet
  sent w created output outpoint wallet change_value =
      let tx = send_tx wallet output change_value in
      let tx_index = total_txs w in
      record w {
        mint_utxo = some (record {
          value = change_value;
          outpoint = (txid_of_tx bitcoin tx, 0);
          tweak = bitcoin.hash_utxo wallet;
        });
        tx_info =
            BTreeMap.insert tx_index
              (record {
                index = tx_index;
                txid = txid_of_tx bitcoin tx;
                input = wallet.value;
                output = change_value;
                vbytes = send_tx_vbytes;
                fee = output.fee;
                created = created;
              })
              w.tx_info;
        tx_info_index = PairMap.insert outpoint.0 outpoint.1 tx_index w.tx_info_index;
        unsigned_tx = some (record {
          tx = tx;
          spent_tx_outs = record { value = wallet.value; tweak = wallet.tweak } ∷ [];
          vbytes = send_tx_vbytes;
          fee = output.fee;
        });
      }

  -- What follows the fee test.
  unfoldable pub withdraw :
      Wallet → ℕ → OnchainOutput → OutPoint → MintUtxo → Result OnchainOutputError (ℕ × Wallet)
  withdraw w created output outpoint wallet = elim (bitcoin.amount_add output.value output.fee) [
    | none ↦ err send_overflow
    | some output_value ↦ elim (bitcoin.amount_sub wallet.value output_value) [
      | none ↦ err send_overflow
      | some change_value ↦
          if ltb change_value onchain_dust_limit
          then err change_under_dust_limit
          else elim w.unsigned_tx [
            | some _ ↦ err already_signing
            | none ↦ elim (sat_to_msat output_value) [
              | none ↦ err send_overflow
              | some amount ↦ ok (amount, sent w created output outpoint wallet change_value)
            ]
          ]
    ]
  ]

  -- `process_output`; `none` is a failed assertion or `expect` of `send_fee`.
  unfoldable pub process_output :
      Wallet → ℕ → OnchainOutput → OutPoint → Option (Result OnchainOutputError (ℕ × Wallet))
  process_output w created output outpoint =
      if ltb output.value onchain_dust_limit
      then some (err under_dust_limit)
      else elim w.mint_utxo [
        | none ↦ some (err no_mint_utxo)
        | some wallet ↦ send_fee server.n w >>= λ fee. elim fee [
          | none ↦ some (err no_feerate)
          | some consensus_send_fee ↦
              if ltb output.fee consensus_send_fee
              then some (err total_fee_too_low)
              else some (withdraw w created output outpoint wallet)
        ]
      ]
