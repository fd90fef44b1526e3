-- ===== src/Tests/Deciding.antt =====
-- Runs of the theorems on votes, decisions and heads of picomint-bft at the test graph.
use picomint.Prelude.{
  ℕ, ◌*◌, ◌≤◌, ◌<◌, if◌then◌else◌, ◌+◌, ◌++◌, ◌≡◌, refl, Bool, true, false, Option, some, none,
  List, [], ◌∷◌, arith, ◌==◌,
}
use picomint.Collections.BTreeMap
use picomint.Collections.BTreeMap.{BTreeMap}
use picomint.Collections.BTreeSet
use picomint.Collections.BTreeSet.{BTreeSet}
use picomint.Collections.PairMap
use picomint.Nodes.{
  NumNodes, from_total, from_total_sizes, total, max_evil, threshold, one_honest, tally,
}
use picomint.Bft.Units.{BftUnit}
use picomint.Bft.Dag.{IsClosed, Faults}
use picomint.Bft.Vote.{Votes, vote, vote_all, common_vote}
use picomint.Bft.Ballot.{ballot}
use picomint.Bft.Ballot.Memo.{IsSound}
use picomint.Bft.State.{Engine, extended_at, keep_extended}
use picomint.Bft.Extender.{choose_head, walk, decide, decide_rounds, decide_units}
use picomint.Bft.Extender.Inv.{look, Decision, IsValid}
use picomint.Bft.Extender.Head.{Chosen}
use picomint.Bft.Extender.Agreement.{Node}
use picomint.Bft.Extender.Marks.{times, marks, bfs_batch-once}
use picomint.Bft.Extender.{bfs_batch, bfs_loop, enqueue}
use picomint.Bft.Extender.Answers.{decide_agree, decide-unseen, choose_head_agree}
use picomint.Bft.Engine.{maybe_extend, sweep, extend_rounds, try_extend}
use picomint.Bft.Engine.Run.{index_units, extend_all}
use picomint.Bft.Engine.Inv.{Inv-IsValid, Tall-Below}
use picomint.Bft.Engine.Kept.{Kept, any_property}
use picomint.Bft.Engine.Replay.{indexed-Kept, extend_all-Kept}
use picomint.Bft.Extender.Promises.{
  vote_answers, decide_returns, decide-Decision, choose_head_returns, choose_head-Chosen,
}
use picomint.Tests.Checks.{tested, well_parented-IsClosed, get-append}
use picomint.Tests.Graph.{
  mint_of_four, made, graph, toy_crypto, toy_keychain, payloads, signatures, stored, full_node,
  part_node,
}
use picomint.Tests.Facts.{
  graph-IsClosed, graph-Faults, all_honest, full_node-IsValid, part_node-IsValid, full_node-Node,
  part_node-Node, full_node_Below, part_node_Below, Saved-as,
}

seven : from_total 7 ≡ some (record { evil = 2 })
unfolding from_total
seven = refl

abbrev mint_of_seven : NumNodes
mint_of_seven = record { evil = 2 }

from_total_sizes_example :
    (total mint_of_seven ≡ 7)
    × (1 ≤ max_evil mint_of_seven)
    × (total mint_of_seven < 256)
    × (threshold mint_of_seven + threshold mint_of_seven
        ≡ total mint_of_seven + one_honest mint_of_seven)
from_total_sizes_example = from_total_sizes 7 mint_of_seven seven

no_votes : IsSound toy_crypto.hash_byte (look graph) []
no_votes c u b k = unfold PairMap.get in cc

vote_answers_example :
    (votes' : Votes) × (vote toy_crypto.hash_byte 5 graph [] 0 30
      ≡ some (ballot toy_crypto.hash_byte (look graph) 0 (made 0 0) 2 30, votes'))
    × IsSound toy_crypto.hash_byte (look graph) votes'
unfolding BTreeMap.get
vote_answers_example =
    vote_answers toy_crypto.hash_byte graph mint_of_four 5 2 0 30 (made 0 0) (made 3 0) []
      graph-IsClosed refl refl refl (omega arith) no_votes

decide_returns_example :
    (bit : Option Bool) × (e' : Engine ℕ) × (decide toy_crypto 9 full_node 0 ≡ some (bit, e'))
    × IsValid toy_crypto e'
unfolding BTreeMap.get
decide_returns_example =
    decide_returns toy_crypto 9 9 full_node 0 (made 0 0) full_node-IsValid refl full_node_Below
      (omega arith)

abbrev with_head : Engine ℕ → Engine ℕ
with_head e = record e { decided = (0, (true, 2)) ∷ [] }

decides : decide toy_crypto 9 full_node 0 ≡ some (some true, with_head full_node)
unfolding decide decide_rounds decide_units vote vote_all common_vote extended_at keep_extended
    BTreeMap.get BTreeMap.insert PairMap.get PairMap.insert
decides = refl

decide-Decision_example : Decision toy_crypto.hash_byte (look graph) mint_of_four 0 true
unfolding BTreeMap.get
decide-Decision_example =
    decide-Decision toy_crypto 9 9 full_node (with_head full_node) 0 (made 0 0) true
      full_node-IsValid refl full_node_Below (omega arith) decides

choose_head_returns_example :
    (head : Option ℕ) × (e' : Engine ℕ) × (choose_head toy_crypto 9 part_node 1 ≡ some (head, e'))
    × IsValid toy_crypto e'
choose_head_returns_example =
    choose_head_returns toy_crypto 9 9 part_node 1 part_node-IsValid part_node_Below (omega arith)
      (omega arith)

full_head : choose_head toy_crypto 9 full_node 0 ≡ some (some 0, with_head full_node)
unfolding choose_head walk decide decide_rounds decide_units vote vote_all common_vote extended_at
    keep_extended BTreeMap.get BTreeMap.insert PairMap.get PairMap.insert
full_head = refl

part_head : choose_head toy_crypto 9 part_node 0 ≡ some (some 0, with_head part_node)
unfolding choose_head walk decide decide_rounds decide_units vote vote_all common_vote extended_at
    keep_extended BTreeMap.get BTreeMap.insert PairMap.get PairMap.insert
part_head = refl

choose_head-Chosen_example : Chosen toy_crypto full_node 0 0
choose_head-Chosen_example =
    choose_head-Chosen toy_crypto 9 9 full_node (with_head full_node) 0 0 full_node-IsValid
      full_node_Below (omega arith) (omega arith) full_head

decides_part : decide toy_crypto 9 part_node 0 ≡ some (some true, with_head part_node)
unfolding decide decide_rounds decide_units vote vote_all common_vote extended_at keep_extended
    BTreeMap.get BTreeMap.insert PairMap.get PairMap.insert
decides_part = refl

decide_agree_example : true ≡ true
unfolding BTreeMap.get
decide_agree_example =
    decide_agree toy_crypto 9 9 graph-IsClosed graph-Faults full_node (with_head full_node)
      part_node (with_head part_node) 0 (made 0 0) (made 0 0) true true full_node-Node
      part_node-Node refl refl full_node_Below part_node_Below (omega arith) decides decides_part

abbrev head : ℕ
head = 0

choose_head_agree_example : head ≡ head
choose_head_agree_example =
    choose_head_agree toy_crypto 9 9 graph-IsClosed graph-Faults full_node (with_head full_node)
      part_node (with_head part_node) 0 0 0 full_node-Node part_node-Node full_node_Below
      part_node_Below (omega arith) (omega arith) full_head part_head

-- A node holds a unit of round 0 besides, that no unit names and that reaches no other node.
abbrev lone : BftUnit
lone = record { round = 0; creator = 3; parents = []; data_hash = none }

abbrev wider : BTreeMap BftUnit
wider = graph ++ ((53, lone) ∷ [])

wider-IsClosed : IsClosed mint_of_four (look wider)
unfolding BTreeMap.get
wider-IsClosed = well_parented-IsClosed mint_of_four wider refl

wider_hash :
    (h : ℕ) (u : BftUnit)
    → BTreeMap.get h wider ≡ some u
    → ((if u.creator == 3 then 53 else 10 * u.round + u.creator) == h) ≡ true
wider_hash h u k =
    tested (λ g w. (if w.creator == 3 then 53 else 10 * w.round + w.creator) == g) wider h u refl k

wider-Faults : Faults mint_of_four all_honest (look wider)
wider-Faults = record {
  few = unfold tally in omega arith;
  single = λ g h u w kg kh r c hon. ground (arith, wider_hash g u kg, wider_hash h w kh);
}

abbrev wide_node : Engine ℕ
wide_node = record (stored wider) {
  rounds =
      (0, 0 ∷ 1 ∷ 2 ∷ 53 ∷ [])
      ∷ (1, 10 ∷ 11 ∷ 12 ∷ [])
      ∷ (2, 20 ∷ 21 ∷ 22 ∷ [])
      ∷ (3, 30 ∷ 31 ∷ 32 ∷ [])
      ∷ [];
  extended = wider;
  own_top = some (3, 30);
}

wide_node_runs :
    extend_all 9 (0 ∷ 1 ∷ 2 ∷ 53 ∷ []) (index_units wider (stored wider)) ≡ some wide_node
unfolding extend_all try_extend extend_rounds sweep maybe_extend index_units BTreeMap.get
    BTreeMap.insert BTreeSet.insert
wide_node_runs = refl

wide_node-Kept : Kept toy_crypto 9 (λ e. Unit) wide_node
wide_node-Kept =
    extend_all-Kept toy_crypto 9 9 (any_property toy_crypto 9 9) (0 ∷ 1 ∷ 2 ∷ 53 ∷ []) _ wide_node
      (indexed-Kept toy_crypto 9 0 5 mint_of_four toy_keychain wider (payloads wider)
        (signatures wider) (λ e. Unit) tt (Saved-as wider refl (ground arith)))
      wide_node_runs

wide_node-Node : Node toy_crypto (look wider) mint_of_four wide_node
wide_node-Node = record {
  valid = Inv-IsValid toy_crypto wide_node wide_node-Kept.0;
  size = refl;
  within = λ h u k. k;
}

wider-Node : Node toy_crypto (look wider) mint_of_four full_node
wider-Node = record {
  valid = full_node-IsValid;
  size = refl;
  within = λ h u k. get-append h u graph ((53, lone) ∷ []) k;
}

abbrev ruled_out : Engine ℕ
ruled_out = record wide_node {
  votes = (53, 22, false) ∷ (53, 21, false) ∷ (53, 20, false) ∷ [];
  decided = (53, (false, 3)) ∷ [];
}

lone_decided : decide toy_crypto 9 wide_node 53 ≡ some (some false, ruled_out)
unfolding decide decide_rounds decide_units vote vote_all common_vote extended_at keep_extended
    BTreeMap.get BTreeMap.insert PairMap.get PairMap.insert
lone_decided = refl

decide-unseen_example : false ≡ false
unfolding BTreeMap.get
decide-unseen_example =
    decide-unseen toy_crypto 9 9 wider-IsClosed wider-Faults full_node wide_node ruled_out 53 30
      lone (made 3 0) false wider-Node wide_node-Node refl refl refl refl
      (Tall-Below wide_node 9 wide_node-Kept.0.tables wide_node-Kept.1) (omega arith) lone_decided

abbrev emitted_before : BTreeSet
emitted_before = 1 ∷ []

abbrev marked_now : BTreeSet
marked_now = 0 ∷ 1 ∷ 2 ∷ 10 ∷ []

abbrev batch : List ℕ
batch = 2 ∷ 0 ∷ 10 ∷ []

batch_found : bfs_batch 9 graph emitted_before 10 ≡ some (marked_now, batch)
unfolding bfs_batch bfs_loop enqueue BTreeMap.get BTreeSet.insert BTreeSet.contains
batch_found = refl

bfs_batch-once_example :
    ((h : ℕ) → times h batch + marks h emitted_before ≡ marks h marked_now)
    × (older : List ℕ) × (batch ≡ older ++ (10 ∷ []))
bfs_batch-once_example = bfs_batch-once 9 graph emitted_before 10 marked_now batch batch_found
