-- ===== src/Bft/Engine/Messages.antt =====
-- What the handlers of picomint-bft/src/engine.rs store, ask for and send. `none` is a failed `expect`,
-- or fuel that ran out.
use picomint.Prelude.{
  ℕ, zero, suc, ◌-◌, Bool, true, false, ◌&&◌, ◌||◌, Option, none, some, List, [], ◌∷◌, ◌++◌, ltb,
  ◌==◌, if◌then◌else◌, ◌>>=◌,
}
use mathlib.Core.List.{reverse}
use picomint.Collections.BTreeMap
use picomint.Collections.BTreeMap.{BTreeMap, contains_key, values, keys}
use picomint.Collections.BTreeSet
use picomint.Collections.BTreeSet.{BTreeSet}
use picomint.Bft.Units.{BftUnit, UnitEnvelope, Message, Recipient, unit, request, everyone, node}
use picomint.Bft.State.{Engine, round_units}

-- The messages of the `ensure!`s.
pub data Rejection : Type 0 where
  creator_not_in_mint : Rejection
  root_has_parents : Rejection
  not_threshold_parents : Rejection
  parent_not_in_mint : Rejection
  invalid_signature : Rejection
  payload_mismatch : Rejection
  already_stored : Rejection

pub data Verdict : Type 0 where
  accepted : Verdict
  rejected : Rejection → Verdict

abbrev pub same_hash : Option ℕ → Option ℕ → Bool
same_hash none none = true
same_hash (some a) (some b) = a == b
same_hash none (some b) = false
same_hash (some a) none = false

-- Milliseconds.
abbrev pub request_dedup_interval : ℕ
request_dedup_interval = 1000

-- `own_top.is_none_or(|(top, _)| round > top)`
abbrev pub above_top : Option (ℕ × ℕ) → ℕ → Bool
above_top none round = true
above_top (some (top, _)) round = ltb top round

module _ {D : Type 0} where
  -- The error comes after the row has been written: the caller drops the transaction.
  unfoldable pub store_unit : Engine D → UnitEnvelope D → ℕ → Verdict × Engine D
  store_unit e ev hash =
      let u = ev.unit in
      if contains_key hash e.unit_table
      then (rejected already_stored, record e { unit_table = BTreeMap.insert hash u e.unit_table })
      else (
        accepted,
        record e {
          unit_table = BTreeMap.insert hash u e.unit_table;
          unit_data_table = BTreeMap.insert hash ev.items e.unit_data_table;
          unit_signature_table = BTreeMap.insert hash ev.signature e.unit_signature_table;
          rounds =
              BTreeMap.insert u.round (BTreeSet.insert hash (round_units u.round e.rounds))
                e.rounds;
          own_top =
              if u.creator == e.id && above_top e.own_top u.round
              then some (u.round, hash)
              else e.own_top;
        },
      )

  -- What is left where the transaction begun at `e` is dropped at `s`: the tables are those of before, and
  -- all that is in memory stays as it is.
  abbrev pub roll_back : Engine D → Engine D → Engine D
  roll_back e s = record s {
    unit_table = e.unit_table;
    unit_data_table = e.unit_data_table;
    unit_signature_table = e.unit_signature_table;
  }

  -- The stored envelope; `none` inside where there is no unit.
  unfoldable pub envelope : Engine D → ℕ → Option (Option (UnitEnvelope D))
  envelope e hash = elim (BTreeMap.get hash e.unit_table) [
    | none ↦ some none
    | some u ↦ BTreeMap.get hash e.unit_data_table >>= λ items.
        BTreeMap.get hash e.unit_signature_table >>= λ signature.
        some (some (record { unit = u; items = items; signature = signature }))
  ]

  abbrev pub send : Engine D → Recipient → Message D → Engine D
  send e recipient message = record e { sent = e.sent ++ ((recipient, message) ∷ []) }

  unfoldable pub handle_request : Engine D → ℕ → ℕ → Option (Engine D)
  handle_request e requester hash = envelope e hash >>= λ found. elim found [
    | none ↦ some e
    | some ev ↦ some (send e (node requester) (unit ev))
  ]

  unfoldable pub broadcast_anti_entropy : Engine D → Option (Engine D)
  broadcast_anti_entropy e = elim e.own_top [
    | none ↦ some e
    | some top ↦ envelope e top.1 >>= λ found. elim found [
      | none ↦ none
      | some ev ↦ some (send e everyone (unit ev))
    ]
  ]

  -- `now` is the clock; `duration_since` saturates at zero.
  unfoldable pub try_send_request : ℕ → Engine D → ℕ → ℕ → Engine D
  try_send_request now e peer hash =
      let asked =
        send (record e { request_sent_at = BTreeMap.insert hash now e.request_sent_at }) (node peer)
          (request hash) in
      elim (BTreeMap.get hash e.request_sent_at) [
        | none ↦ asked
        | some prev ↦ if ltb (now - prev) request_dedup_interval then e else asked
      ]

  -- The `while let` loop of `cascade_parents`; the top of the stack stands first.
  unfoldable pub cascade_loop : ℕ → ℕ → Engine D → ℕ → BTreeSet → List ℕ → Option (Engine D)
  cascade_loop fuel now e sender visited [] = some e
  cascade_loop zero now e sender visited (hash ∷ stack) = none
  cascade_loop (suc fuel) now e sender visited (hash ∷ stack) =
      let marked = BTreeSet.insert hash visited in
      let skip = cascade_loop fuel now e sender marked stack in
      let ask = cascade_loop fuel now (try_send_request now e sender hash) sender marked stack in
      if BTreeSet.contains hash visited || contains_key hash e.extended
      then skip
      else elim (BTreeMap.get hash e.unit_table) [
        | none ↦ ask
        | some u ↦ cascade_loop fuel now e sender marked (reverse (values u.parents) ++ stack)
      ]

  unfoldable pub cascade_parents : ℕ → ℕ → Engine D → ℕ → BftUnit → Option (Engine D)
  cascade_parents limit now e sender top =
      cascade_loop limit now e sender [] (reverse (values top.parents))
