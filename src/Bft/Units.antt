-- ===== src/Bft/Units.antt =====
-- picomint-bft/src/unit.rs and network.rs: units, envelopes and messages. A hash is the number
-- that its bytes spell, so the order of hashes is the order of numbers.
use picomint.Prelude.{ℕ, ◌%◌, ◌^◌, List, Option}
use picomint.Collections.BTreeMap.{BTreeMap}

-- `Round` is a `u32`, and its arithmetic wraps in a release build.
abbrev pub u32 : ℕ → ℕ
u32 n = n % 2 ^ 32

-- `Unit`: the payload's hash is absent if the payload is empty.
pub record BftUnit : Type 0 where
  pub round : ℕ
  pub creator : ℕ
  pub parents : BTreeMap ℕ
  pub data_hash : Option ℕ

pub record UnitEnvelope (D : Type 0) : Type 0 where
  pub unit : BftUnit
  pub items : List D
  pub signature : ℕ

pub data Message (D : Type 0) : Type 0 where
  unit : UnitEnvelope D → Message D
  request : ℕ → Message D

pub data Recipient : Type 0 where
  everyone : Recipient
  node : ℕ → Recipient
