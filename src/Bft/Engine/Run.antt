-- ===== src/Bft/Engine/Run.antt =====
-- `replay` and `run` of picomint-bft/src/engine.rs: the start from the stored tables, and one turn of
-- the event loop.
use picomint.Prelude.{ℕ, ◌&&◌, Option, some, List, [], ◌∷◌, ◌==◌, if◌then◌else◌, ◌>>=◌}
use picomint.Collections.BTreeMap
use picomint.Collections.BTreeMap.{BTreeMap}
use picomint.Collections.BTreeSet
use picomint.Bft.Units.{BftUnit, Message}
use picomint.Bft.State.{Engine, Crypto, round_units}
use picomint.Bft.Extender.{run_extender}
use picomint.Bft.Engine.{try_extend, is_some}
use picomint.Bft.Engine.Messages.{accepted, rejected, above_top, broadcast_anti_entropy}
use picomint.Bft.Engine.Handlers.{handle_message, create_units}

-- What the `select!` of `run` wakes on: a message at a time of the clock, fresh data, the timer.
pub data Event (D : Type 0) : Type 0 where
  message : ℕ → ℕ → Message D → Event D
  data_ready : Event D
  anti_entropy : Event D

module _ {D : Type 0} where
  -- The first loop of `replay`, over the rows of the table, and its body.
  abbrev pub index_unit : ℕ → BftUnit → Engine D → Engine D
  index_unit hash u e =
      let own = u.creator == e.id in
      record e {
        rounds =
            BTreeMap.insert u.round (BTreeSet.insert hash (round_units u.round e.rounds)) e.rounds;
        unordered_own_data =
            if own && is_some u.data_hash
            then BTreeSet.insert u.round e.unordered_own_data
            else e.unordered_own_data;
        own_top = if own && above_top e.own_top u.round then some (u.round, hash) else e.own_top;
      }

  unfoldable pub index_units : BTreeMap BftUnit → Engine D → Engine D
  index_units [] e = e
  index_units ((hash, u) ∷ rows) e = index_units rows (index_unit hash u e)

  unfoldable pub extend_all : ℕ → List ℕ → Engine D → Option (Engine D)
  extend_all limit [] e = some e
  extend_all limit (hash ∷ hashes) e = try_extend limit e hash >>= extend_all limit hashes

module _ {D : Type 0} (crypto : Crypto D) where
  unfoldable pub replay : ℕ → Engine D → Option (Engine D)
  replay limit e =
      let indexed = index_units e.unit_table e in
      extend_all limit (round_units 0 indexed.rounds) indexed >>= run_extender crypto limit limit

  -- One turn of the loop in `run`, with what the data provider yields in it.
  unfoldable pub turn : ℕ → Engine D → Event D → List (List D) → Option (Engine D)
  turn limit e (message now sender m) draws = handle_message crypto limit now e sender m >>= λ r.
      elim r.0 [ rejected _ ↦ some r.1 | accepted ↦ create_units crypto limit limit r.1 draws ]
  turn limit e data_ready draws = create_units crypto limit limit e draws
  turn limit e anti_entropy draws = broadcast_anti_entropy e
