-- ===== src/Mint.antt =====
-- The ledger of a mint: amounts, notes, contracts and transactions.
pub mod Amounts
pub mod Funding
pub mod Ledger
pub mod Ecash
pub mod Lightning
pub mod Server
pub mod Balance
pub mod Nonces
pub mod Contracts
pub mod Indexes
pub mod Votes
pub mod Onchain
pub mod Session
pub mod Header
