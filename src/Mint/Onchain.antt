-- ===== src/Mint/Onchain.antt =====
-- The onchain module: picomint-node-daemon/src/consensus/onchain and picomint-core/src/onchain.
pub mod Values
pub mod Fees
pub mod Signing
pub mod Blocks
pub mod Moves
pub mod Module
pub mod Claims
pub mod Rows
pub mod Money
pub mod Chain
pub mod Sessions
pub mod Answers
pub mod Ready
pub mod Steps
pub mod Shares
pub mod Finalize
pub mod Completion
pub mod Liveness
pub mod Rates
pub mod Tracking
