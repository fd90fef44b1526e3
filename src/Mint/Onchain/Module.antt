-- ===== src/Mint/Onchain/Module.antt =====
-- The onchain module of picomint-node-daemon/src/consensus/onchain/mod.rs as the rest of the node calls
-- it: server.rs for transactions, engine.rs for consensus items.
use picomint.Prelude.{ℕ, Option, none, some, ◌>>=◌}
use picomint.Mint.Ledger.{Result, ok, err}
use picomint.Mint.Server.{Onchain}
use picomint.Mint.Onchain.Values.{
  OnchainInput, OnchainOutput, OnchainConsensusItem, Wallet, Bitcoin,
}
use picomint.Mint.Onchain.Signing.{Tss, Server}
use picomint.Mint.Onchain.Blocks.{process_consensus_item}
use picomint.Mint.Onchain.Moves.{process_input, process_output}

-- `map_err` and `is_ok`: which error it was is dropped.
abbrev pub accepted : {E A : Type 0} → Result E A → Option A
accepted (ok a) = some a
accepted (err e) = none

-- The operations of a transaction. `height` is `consensus_block_height`, which they read where they make a
-- transaction of the wallet, and which fails only with more votes than nodes; here it is read first.
abbrev pub onchain_module : Bitcoin → Server → Option ℕ → Onchain Wallet OnchainInput OnchainOutput
onchain_module bitcoin server height = record {
  process_input = λ w i. height >>= λ created. process_input bitcoin server w created i;
  process_output = λ w o p. height >>= λ created. process_output bitcoin server w created o p;
}

abbrev pub process_module_item :
    Bitcoin → Tss → Server → Wallet → ℕ → OnchainConsensusItem → Option (Option Wallet)
process_module_item bitcoin tss server w node item =
    process_consensus_item bitcoin tss server w node item >>= λ r. some (accepted r)
