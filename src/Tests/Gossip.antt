-- ===== src/Tests/Gossip.antt =====
-- Runs of the theorems on the engine of picomint-bft at the nodes of the test graph.
use picomint.Prelude.{ℕ, not, ltb, ◌≤◌, ◌+◌, ◌++◌, ◌≡◌, refl, true, some, [], ◌∷◌, arith}
use picomint.Collections.BTreeMap
use picomint.Collections.BTreeMap.{BTreeMap, contains_key}
use picomint.Collections.BTreeSet
use picomint.Bft.Units.{UnitEnvelope, unit}
use picomint.Bft.State.{Engine, round_units, extended_at, keep_extended}
use picomint.Bft.Extender.{run_extender, extend_round, choose_head, walk}
use picomint.Bft.Engine.{
  parents_fed, parents_for, first_branches, maybe_extend, sweep, extend_rounds, try_extend,
}
use picomint.Bft.Engine.Messages.{
  accepted, rejected, invalid_signature, already_stored, cascade_parents, cascade_loop,
  try_send_request, store_unit,
}
use picomint.Bft.Engine.Handlers.{
  validate_unit, handle_message, handle_unit, admit_unit, own_envelope, create_units,
  try_create_unit, insert_unit,
}
use picomint.Bft.Engine.Run.{message, turn}
use picomint.Bft.Engine.Parents.{Fits, parents_for-Fits}
use picomint.Bft.Engine.Own.{validate_unit-own_envelope, parents_fed-own_envelope}
use picomint.Nodes.{tally, total, max_evil}
use picomint.Bft.Engine.Quorums.{validate_unit-overlap}
use picomint.Bft.Engine.Refusals.{handle_unit-rejected, handle_unit-duplicate}
use picomint.Bft.Engine.Quiet.{quiet}
use picomint.Bft.Engine.Kept.{Steady}
use picomint.Bft.Engine.Turns.{Runs, turned, Runs-Steady}
use picomint.Tests.Graph.{
  mint_of_four, made, graph, part, toy_crypto, toy_keychain, payloads, signatures, full_node,
  part_node, committed,
}
use picomint.Tests.Runs.{part_node-Runs}
use picomint.Tests.Facts.{full_node-IsValid}

abbrev top_parents : BTreeMap ℕ
top_parents = (0, 30) ∷ (1, 31) ∷ (2, 32) ∷ []

full_node_parents : parents_for full_node 4 ≡ some top_parents
unfolding parents_for first_branches extended_at keep_extended BTreeMap.get BTreeMap.insert
full_node_parents = refl

parents_for-Fits_example : Fits toy_crypto full_node 3 top_parents
parents_for-Fits_example =
    parents_for-Fits toy_crypto full_node 3 top_parents full_node-IsValid full_node_parents

own_key : BTreeMap.get 0 toy_keychain.pubkeys ≡ some 100
unfolding BTreeMap.get
own_key = refl

signs : (m : ℕ) → toy_crypto.schnorr_verify (100 + m) m 100 ≡ true
signs m = ground arith

validate_unit-own_envelope_example :
    validate_unit toy_crypto full_node (own_envelope toy_crypto full_node top_parents (8 ∷ []))
    ≡ accepted
validate_unit-own_envelope_example =
    validate_unit-own_envelope toy_crypto full_node top_parents (8 ∷ []) 100 full_node-IsValid
      (omega arith) full_node_parents own_key signs

parents_fed-own_envelope_example :
    parents_fed full_node.extended (own_envelope toy_crypto full_node top_parents (8 ∷ [])).unit
    ≡ true
parents_fed-own_envelope_example =
    parents_fed-own_envelope toy_crypto full_node top_parents (8 ∷ []) full_node-IsValid
      (omega arith) full_node_parents

-- The unit 32 under a wrong signature.
abbrev forged : UnitEnvelope ℕ
forged = record { unit = made 3 2; items = []; signature = 7 }

forged_rejected :
    handle_unit toy_crypto 9 5000 part_node 2 forged ≡ some (rejected invalid_signature, part_node)
unfolding handle_unit validate_unit BTreeMap.get
forged_rejected = refl

-- The unit 31 again.
abbrev again : UnitEnvelope ℕ
again = record { unit = made 3 1; items = []; signature = 132 }

-- The unit 31 is in the tables but not in the index.
abbrev unindexed : Engine ℕ
unindexed = record part_node { rounds = [] }

again_rejected :
    handle_unit toy_crypto 9 5000 unindexed 1 again ≡ some (rejected already_stored, unindexed)
unfolding handle_unit validate_unit cascade_parents cascade_loop admit_unit store_unit BTreeMap.get
    BTreeMap.insert BTreeSet.contains BTreeSet.insert
again_rejected = refl

handle_unit-rejected_example : unindexed ≡ quiet unindexed unindexed
handle_unit-rejected_example =
    handle_unit-rejected toy_crypto 9 5000 unindexed 1 again already_stored unindexed again_rejected

again_valid : validate_unit toy_crypto part_node again ≡ accepted
unfolding validate_unit BTreeMap.get
again_valid = refl

again_held :
    BTreeSet.contains
      (toy_crypto.hash_unit again.unit)
      (round_units again.unit.round part_node.rounds)
    ≡ true
unfolding BTreeSet.contains BTreeMap.get
again_held = refl

again_taken : handle_unit toy_crypto 9 5000 part_node 1 again ≡ some (accepted, part_node)
unfolding handle_unit validate_unit cascade_parents cascade_loop admit_unit try_send_request
    BTreeMap.get BTreeSet.contains BTreeSet.insert
again_taken = refl

handle_unit-duplicate_example : (accepted ≡ accepted) × (part_node ≡ quiet part_node part_node)
handle_unit-duplicate_example =
    handle_unit-duplicate toy_crypto 9 5000 part_node 1 again part_node accepted again_valid
      again_held again_taken

-- A unit of another round.
abbrev earlier : UnitEnvelope ℕ
earlier = record { unit = made 2 2; items = []; signature = 124 }

earlier_valid : validate_unit toy_crypto part_node earlier ≡ accepted
unfolding validate_unit BTreeMap.get
earlier_valid = refl

one_faulty : tally (total mint_of_four) (λ i. not (ltb 0 i)) ≤ max_evil mint_of_four
unfolding tally
one_faulty = omega arith

validate_unit-overlap_example :
    (i : ℕ) × (ltb 0 i ≡ true)
    × (contains_key i again.unit.parents ≡ true)
    × (contains_key i earlier.unit.parents ≡ true)
validate_unit-overlap_example =
    validate_unit-overlap toy_crypto part_node (λ i. ltb 0 i) again earlier one_faulty
      (ground arith) (ground arith) (omega arith) (omega arith) again_valid earlier_valid

-- The unit 32 arrives.
abbrev late : UnitEnvelope ℕ
late = record { unit = made 3 2; items = []; signature = 134 }

abbrev caught_up : Engine ℕ
caught_up = record (committed part_node) {
  unit_table = graph;
  unit_data_table = payloads part ++ ((32, []) ∷ []);
  unit_signature_table = signatures part ++ ((32, 134) ∷ []);
  rounds =
      (0, 0 ∷ 1 ∷ 2 ∷ [])
      ∷ (1, 10 ∷ 11 ∷ 12 ∷ [])
      ∷ (2, 20 ∷ 21 ∷ 22 ∷ [])
      ∷ (3, 30 ∷ 31 ∷ 32 ∷ [])
      ∷ [];
  extended = graph;
}

caught_up_runs :
    turn toy_crypto 9 (committed part_node) (message 5000 2 (unit late)) [] ≡ some caught_up
unfolding turn handle_message handle_unit validate_unit store_unit cascade_parents cascade_loop
    admit_unit create_units try_create_unit insert_unit parents_for first_branches try_extend
    extend_rounds sweep maybe_extend run_extender extend_round choose_head walk extended_at
    keep_extended BTreeMap.get BTreeMap.insert BTreeSet.contains BTreeSet.insert
caught_up_runs = refl

part_run : Runs toy_crypto 9 9 caught_up
part_run =
    turned (committed part_node) (message 5000 2 (unit late)) [] caught_up part_node-Runs
      (ground arith, omega arith) caught_up_runs

Runs-Steady_example : Steady toy_crypto 9 caught_up
Runs-Steady_example =
    Runs-Steady toy_crypto 9 9 caught_up (omega arith) (omega arith) (omega arith) part_run
