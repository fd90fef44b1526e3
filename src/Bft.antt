-- ===== src/Bft.antt =====
-- picomint-bft: atomic broadcast over a graph of signed units.
pub mod Units
pub mod Dag
pub mod Vote
pub mod Ballot
pub mod State
pub mod Extender
pub mod Engine
