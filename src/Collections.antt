-- ===== src/Collections.antt =====
-- The standard library's ordered collections, as far as the source uses them.
pub mod BTreeMap
pub mod BTreeSet
pub mod PairMap
pub mod Dense
