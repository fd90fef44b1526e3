-- ===== src/Encoding.antt =====
-- The binary encoding of picomint-encoding: the traits, integers, values, sequences and ordered maps.
pub mod Codec
pub mod Integers
pub mod Values
pub mod Tags
pub mod Sequences
pub mod Lengths
pub mod Maps
pub mod Entries
