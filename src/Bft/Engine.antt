-- ===== src/Bft/Engine.antt =====
-- The extension state of picomint-bft/src/engine.rs: which stored units are extended, and the
-- parents of our next unit.
pub mod Messages
pub mod Handlers
pub mod Run
pub mod Rows
pub mod Inv
pub mod Extend
pub mod Sweep
pub mod Store
pub mod Advance
pub mod Parents
pub mod Quiet
pub mod Kept
pub mod Preserve
pub mod Create
pub mod Replay
pub mod Turns
pub mod Agreement
pub mod Own
pub mod Refusals
pub mod Quorums
use picomint.Prelude.{
  ℕ, zero, suc, ◌+◌, ◌-◌, ◌^◌, Bool, true, false, not, ◌&&◌, ◌||◌, Option, none, some, List, [],
  ◌∷◌, all, take, length, ltb, ◌==◌, if◌then◌else◌, ◌>>=◌,
}
use Prim.Native.Nat.{min}
use picomint.Collections.BTreeMap
use picomint.Collections.BTreeMap.{BTreeMap, contains_key}
use picomint.Nodes.{threshold}
use picomint.Bft.Units.{BftUnit, u32}
use picomint.Bft.State.{Engine, round_units, extended_at}

-- `saturating_add(1)`
abbrev pub saturating_suc : ℕ → ℕ
saturating_suc r = min (r + 1) (2 ^ 32 - 1)

-- The test of `maybe_extend` on one parent entry of a unit of the given round.
abbrev pub parent_fed : BTreeMap BftUnit → ℕ → ℕ × ℕ → Bool
parent_fed extended round entry = elim (BTreeMap.get entry.1 extended) [
  | none ↦ false
  | some p ↦ p.creator == entry.0 && u32 (p.round + 1) == round
]

abbrev pub parents_fed : BTreeMap BftUnit → BftUnit → Bool
parents_fed extended unit = all (parent_fed extended unit.round) unit.parents

abbrev pub is_some {ℓ} : {A : Type ℓ} → Option A → Bool
is_some none = false
is_some (some a) = true

-- The units of a row, by creator; of a creator's branches the lowest hash.
unfoldable pub first_branches : BTreeMap BftUnit → List ℕ → BTreeMap ℕ → BTreeMap ℕ
first_branches extended [] row = row
first_branches extended (hash ∷ hashes) row =
    first_branches extended hashes (elim (BTreeMap.get hash extended) [
      | none ↦ row
      | some unit ↦
          if contains_key unit.creator row then row else BTreeMap.insert unit.creator hash row
    ])

abbrev pub without : ℕ → BTreeMap ℕ → BTreeMap ℕ
without id [] = []
without id ((c, h) ∷ m) = if c == id then without id m else (c, h) ∷ without id m

-- `collect` into a map
abbrev pub collect : BTreeMap ℕ → BTreeMap ℕ
collect [] = []
collect ((c, h) ∷ m) = BTreeMap.insert c h (collect m)

module _ {D : Type 0} where
  unfoldable pub maybe_extend : Engine D → ℕ → Option ℕ × Engine D
  maybe_extend e hash =
      if contains_key hash e.extended then (none, e) else elim (BTreeMap.get hash e.unit_table) [
        | none ↦ (none, e)
        | some unit ↦
            if parents_fed e.extended unit
            then (some unit.round, record e { extended = BTreeMap.insert hash unit e.extended })
            else (none, e)
      ]

  -- The `for` loop of `try_extend`, with `any_extended`.
  unfoldable pub sweep : List ℕ → Engine D → Bool × Engine D
  sweep [] e = (false, e)
  sweep (candidate ∷ candidates) e =
      let r = maybe_extend e candidate in let s = sweep candidates r.1 in (is_some r.0 || s.0, s.1)

  -- The `loop` of `try_extend`; `none` is fuel that ran out.
  unfoldable pub extend_rounds : ℕ → Engine D → ℕ → Option (Engine D)
  extend_rounds zero e next_round = none
  extend_rounds (suc fuel) e next_round =
      let s = sweep (round_units next_round e.rounds) e in
      let rest = extend_rounds fuel s.1 (saturating_suc next_round) in
      if s.0 then rest else some s.1

  unfoldable pub try_extend : ℕ → Engine D → ℕ → Option (Engine D)
  try_extend limit e hash =
      let r = maybe_extend e hash in
      elim r.0 [ none ↦ some r.1 | some round ↦ extend_rounds limit r.1 (saturating_suc round) ]

  unfoldable pub parents_for : Engine D → ℕ → Option (BTreeMap ℕ)
  parents_for e zero = some []
  parents_for e (suc parent_round) =
      let extended_row =
        first_branches e.extended (extended_at e.rounds e.extended parent_round) [] in
      BTreeMap.get e.id extended_row >>= λ own.
      let t = threshold e.n in
      let parents = collect (take t ((e.id, own) ∷ without e.id extended_row)) in
      if length parents == t then some parents else none
