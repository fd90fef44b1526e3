-- ===== src/Nodes.antt =====
-- picomint-core/src/node.rs: the sizes of a mint, and quorums of its nodes.
mod Sizes
mod Tally
unfoldable pub use Sizes.*
unfoldable pub use Tally.*
