-- ===== src/Lib.antt =====
-- Picomint: a model of the consensus core of the picomint repository.
--
-- Bft models picomint-bft, the total-order broadcast that the nodes of a mint run in each session.
--   Bft/Units     picomint-bft/src/unit.rs and network.rs: units, envelopes, messages.
--   Bft/State     picomint-bft/src/keychain.rs and the struct Engine of engine.rs.
--   Bft/Engine    engine.rs: maybe_extend, try_extend and parents_for; Messages and Handlers hold the
--                 handlers and the creation of units, Run holds replay and one turn of the event loop.
--                 Inv states what holds between turns; Extend, Sweep, Store, Advance, Quiet, Preserve, Create,
--                 Replay and Turns prove it operation by operation, beside any property that Kept calls carried;
--                 Agreement carries the history of a node along a run; Parents, Own, Refusals and Quorums are
--                 about own units, refused ones and accepted ones.
--   Bft/Vote      the votes of extender.rs with their cache. Bft/Ballot is the same vote as a function of
--                 the graph, and the lemmas on unanimity, propagation and coverage.
--   Bft/Extender  extender.rs: decide, choose_head, bfs_batch and run_extender. Promises is about what they
--                 answer at one node, Answers about the answers at two, Marks about what a batch emits;
--                 Agreement, Batch and Order lead to one order at all nodes.
--   Bft/Dag       closed graphs of units, and the fault assumption.
-- Mint models the ledger that the ordered items drive.
--   Mint/Amounts, Mint/Funding   picomint-core/src/amount.rs and picomint-node-daemon/src/consensus/tx.rs.
--   Mint/Ledger, Ecash, Lightning   the values and tables of the ecash and lightning modules, and their
--                 process_input and process_output.
--   Mint/Server   process_tx and its dispatch; Balance and Nonces are about what it accepts, Contracts and
--                 Indexes about what lightning holds.
--   Mint/Votes    the agreed block height and version of picomint-node-daemon/src/consensus/db.rs.
--   Mint/Session  picomint-core/src/session.rs and the ordering loop of
--                 picomint-node-daemon/src/consensus/engine.rs; Header is about what a session signs.
--   Mint/Onchain  the mint's bitcoin wallet, picomint-core/src/onchain/mod.rs and
--                 picomint-node-daemon/src/consensus/onchain: Values the values and tables, Fees the fee rate and
--                 the fees, Signing the threshold signing of transactions, Blocks the votes on blocks,
--                 process_consensus_item and the readers, Moves process_input and process_output, Module the
--                 form in which server.rs and engine.rs call it. Claims and Rows say what each operation does
--                 to the tables; Money and Chain are about what the wallet holds; Sessions, Answers, Ready, Steps,
--                 Shares, Finalize and Completion lead to Liveness, about signing; Rates and Tracking are
--                 about votes.
-- Encoding models picomint-encoding/src/lib.rs: Codec the two traits and what a canonical decoder is,
-- Integers, Values, Sequences and Maps the impls, Tags, Lengths and Entries that they are canonical.
-- Database models the key ranges of picomint-redb/src/lib.rs: Prefixes and Scans are about what they cover.
-- Base32 models the text of picomint-base32/src/lib.rs; RoundTrip is about reading it back.
-- Fountain models picomint-fountain/src/fountain.rs: Encoder the encoder and the checks of the decoder, Division
-- and Chunks the sizes and the parts, Fragments what is sent.
-- Nodes models NumNodes of picomint-core/src/node.rs. Collections models the standard library's maps and
-- sets; Dense is about tables under the indexes 0, 1, 2 and so on. Prelude holds tests, lists and the names
-- that all modules share. Tests holds a mint of four nodes, a graph of four rounds, a run of the wallet, and a
-- run of each theorem.
--
-- A hash is the number that its bytes spell. SHA-256, Schnorr and the threshold
-- blind signatures are arguments (Crypto, Scheme, Digest). A round is a
-- number below 2^32, and its arithmetic is taken modulo 2^32 as in a release build. The three tables of
-- the database stand in the state; a transaction that is dropped leaves them, and no more, as they were.
-- The clock and the data provider's answers are arguments. What is sent to the network or to the channel of ordered
-- items is appended to a list of the state. `none` stands for a failed expect or for fuel that ran out.
-- In Encoding and Base32 it is an error of reading as well.
-- The fuel of votes and decisions is enough when it is no less than the number of extended rounds.
--
-- Amounts are below 2^64 and are added with the overflow checks of the source. The ledger takes the two
-- operations of the onchain module as an interface (Onchain). The crates bitcoin and secp256k1 and the
-- threshold signatures are arguments of the onchain module (Bitcoin, Tss). The tweak of a public key is taken
-- to succeed, as Values says. Its runs have fewer transactions and nonce entries than 2^64.
--
-- Not modelled: the futures and the channel that carry messages, the encodings of strings, of third-party types and
-- of derived structs and enums, the transactions and files of the store, the decoder of mixed fragments, key
-- generation, and the programs around the consensus core.
pub mod Prelude
pub mod Collections
pub mod Nodes
pub mod Bft
pub mod Encoding
pub mod Database
pub mod Fountain
pub mod Base32
pub mod Mint
pub mod Tests
