-- ===== src/Tests/Runs.antt =====
-- Two runs of picomint-bft/src/engine.rs, each from the tables of a node of the test graph.
use picomint.Prelude.{◌≡◌, refl, some, [], arith}
use picomint.Collections.BTreeMap
use picomint.Collections.BTreeMap.{BTreeMap}
use picomint.Collections.BTreeSet
use picomint.Collections.PairMap
use picomint.Bft.Vote.{vote, vote_all, common_vote}
use picomint.Bft.State.{extended_at, keep_extended}
use picomint.Bft.Extender.{
  run_extender, extend_round, choose_head, walk, decide, decide_rounds, decide_units, commit,
  bfs_batch, bfs_loop, enqueue, emit_all, emit,
}
use picomint.Bft.Engine.{
  parents_for, first_branches, maybe_extend, sweep, extend_rounds, try_extend,
}
use picomint.Bft.Engine.Handlers.{create_units, try_create_unit}
use picomint.Bft.Engine.Run.{index_units, extend_all, replay}
use picomint.Bft.Engine.Turns.{Runs, started}
use picomint.Tests.Graph.{
  mint_of_four, graph, part, toy_crypto, toy_keychain, payloads, signatures, stored, full_node,
  part_node, committed,
}
use picomint.Tests.Facts.{Saved-as, graph-Saved}

replayed : replay toy_crypto 9 (stored part) ≡ some (committed part_node)
unfolding replay extend_all try_extend extend_rounds sweep maybe_extend index_units run_extender
    extend_round choose_head walk decide decide_rounds decide_units vote vote_all common_vote
    extended_at keep_extended commit bfs_batch bfs_loop enqueue emit_all emit BTreeMap.get
    BTreeMap.insert BTreeMap.remove BTreeSet.insert BTreeSet.contains BTreeSet.remove PairMap.get
    PairMap.insert
replayed = refl

idle : create_units toy_crypto 9 9 (committed part_node) [] ≡ some (committed part_node)
unfolding create_units try_create_unit parents_for first_branches extended_at keep_extended
    BTreeMap.get BTreeMap.insert
idle = refl

full_replayed : replay toy_crypto 9 (stored graph) ≡ some (committed full_node)
unfolding replay extend_all try_extend extend_rounds sweep maybe_extend index_units run_extender
    extend_round choose_head walk decide decide_rounds decide_units vote vote_all common_vote
    extended_at keep_extended commit bfs_batch bfs_loop enqueue emit_all emit BTreeMap.get
    BTreeMap.insert BTreeMap.remove BTreeSet.insert BTreeSet.contains BTreeSet.remove PairMap.get
    PairMap.insert
full_replayed = refl

full_idle : create_units toy_crypto 9 9 (committed full_node) [] ≡ some (committed full_node)
unfolding create_units try_create_unit parents_for first_branches extended_at keep_extended
    BTreeMap.get BTreeMap.insert
full_idle = refl

part_sorted : BTreeMap.SortedFrom 0 part
part_sorted = ground arith

pub part_node-Runs : Runs toy_crypto 9 9 (committed part_node)
part_node-Runs =
    started 0 5 mint_of_four toy_keychain part (payloads part) (signatures part) []
      (committed part_node) (committed part_node) (Saved-as part refl part_sorted) replayed idle

pub full_node-Runs : Runs toy_crypto 9 9 (committed full_node)
full_node-Runs =
    started 0 5 mint_of_four toy_keychain graph (payloads graph) (signatures graph) []
      (committed full_node) (committed full_node) graph-Saved full_replayed full_idle
