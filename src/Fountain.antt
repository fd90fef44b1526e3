-- ===== src/Fountain.antt =====
-- The fountain code of picomint-fountain.
pub mod Encoder
pub mod Division
pub mod Chunks
pub mod Fragments
