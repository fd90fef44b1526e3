-- ===== src/Tests.antt =====
-- Small inputs for the theorems: a mint of four nodes of which three have made units.
pub mod Checks
pub mod Graph
pub mod Facts
pub mod Runs
pub mod Deciding
pub mod Ordering
pub mod Gossip
pub mod Minting
pub mod Vault
pub mod Onchain
pub mod Encoding
pub mod Fountain
