-- ===== src/Tests/Graph.antt =====
-- A graph of four rounds for picomint-bft, and the engine that has extended it.
use picomint.Prelude.{
  ℕ, zero, suc, ◌+◌, ◌*◌, ◌≡◌, refl, true, none, some, List, [], ◌∷◌, ◌++◌, map, ◌==◌,
}
use picomint.Collections.BTreeMap
use picomint.Collections.BTreeMap.{BTreeMap}
use picomint.Collections.BTreeSet
use picomint.Collections.BTreeSet.{BTreeSet}
use picomint.Nodes.{NumNodes}
use picomint.Bft.Units.{BftUnit}
use picomint.Bft.State.{Engine, Crypto, Keychain, new}
use picomint.Collections.PairMap
use picomint.Bft.Vote.{vote, vote_all, common_vote}
use picomint.Bft.State.{extended_at, keep_extended}
use picomint.Bft.Extender.{
  extend_round, choose_head, walk, decide, decide_rounds, decide_units, commit, bfs_batch, bfs_loop,
  enqueue, emit_all, emit,
}
use picomint.Bft.Engine.{maybe_extend, sweep, extend_rounds, try_extend}
use picomint.Bft.Engine.Run.{index_units, extend_all}

abbrev pub mint_of_four : NumNodes
mint_of_four = record { evil = 1 }

abbrev pub made : ℕ → ℕ → BftUnit
made zero creator = record { round = 0; creator = creator; parents = []; data_hash = none }
made (suc r) creator = record {
  round = suc r;
  creator = creator;
  parents = (0, 10 * r) ∷ (1, 10 * r + 1) ∷ (2, 10 * r + 2) ∷ [];
  data_hash = none;
}

abbrev pub row : ℕ → BTreeMap BftUnit
row r = (10 * r, made r 0) ∷ (10 * r + 1, made r 1) ∷ (10 * r + 2, made r 2) ∷ []

abbrev pub graph : BTreeMap BftUnit
graph = row 0 ++ row 1 ++ row 2 ++ row 3

abbrev pub toy_crypto : Crypto ℕ
toy_crypto = record {
  hash_byte = λ r c. 0;
  hash_unit = λ u. 10 * u.round + u.creator;
  hash_items = λ xs. 7;
  digest = λ s u. 10 * u.round + u.creator;
  schnorr_sign = λ k m. k + m;
  schnorr_verify = λ s m k. s == k + m;
}

abbrev pub toy_keychain : Keychain
toy_keychain = record { keypair = 100; pubkeys = (0, 100) ∷ (1, 101) ∷ (2, 102) ∷ (3, 103) ∷ [] }

abbrev pub payloads : BTreeMap BftUnit → BTreeMap (List ℕ)
payloads units = map (λ e. (e.0, e.0 ∷ [])) units

abbrev pub signatures : BTreeMap BftUnit → BTreeMap ℕ
signatures units = map (λ e. (e.0, 100 + e.0)) units

-- What a second node holds: the unit 32 has not reached it.
abbrev pub part : BTreeMap BftUnit
part = row 0 ++ row 1 ++ row 2 ++ ((30, made 3 0) ∷ (31, made 3 1) ∷ [])

abbrev pub stored : BTreeMap BftUnit → Engine ℕ
stored units = new 0 5 mint_of_four toy_keychain units (payloads units) (signatures units)

-- The engine once it has extended all that is stored.
abbrev pub booted : BTreeMap BftUnit → BTreeSet → Engine ℕ
booted units tops = record (stored units) {
  rounds = (0, 0 ∷ 1 ∷ 2 ∷ []) ∷ (1, 10 ∷ 11 ∷ 12 ∷ []) ∷ (2, 20 ∷ 21 ∷ 22 ∷ []) ∷ (3, tops) ∷ [];
  extended = units;
  own_top = some (3, 30);
}

abbrev pub full_node : Engine ℕ
full_node = booted graph (30 ∷ 31 ∷ 32 ∷ [])

abbrev pub part_node : Engine ℕ
part_node = booted part (30 ∷ 31 ∷ [])

pub full_node_runs :
    extend_all 9 (0 ∷ 1 ∷ 2 ∷ []) (index_units graph (stored graph)) ≡ some full_node
unfolding extend_all try_extend extend_rounds sweep maybe_extend index_units BTreeMap.get
    BTreeMap.insert BTreeSet.insert
full_node_runs = refl

pub part_node_runs : extend_all 9 (0 ∷ 1 ∷ 2 ∷ []) (index_units part (stored part)) ≡ some part_node
unfolding extend_all try_extend extend_rounds sweep maybe_extend index_units BTreeMap.get
    BTreeMap.insert BTreeSet.insert
part_node_runs = refl

-- The engine once it has also committed the head of round 0.
abbrev pub committed : Engine ℕ → Engine ℕ
committed e = record e {
  emitted = 0 ∷ [];
  ordered = (0, 0, 0) ∷ [];
  next_decide_round = 1;
  decided = (0, (true, 2)) ∷ [];
}

pub full_node_commits : extend_round toy_crypto 9 full_node ≡ some (true, committed full_node)
unfolding extend_round choose_head walk decide decide_rounds decide_units vote vote_all common_vote
    extended_at keep_extended commit bfs_batch bfs_loop enqueue emit_all emit BTreeMap.get
    BTreeMap.insert BTreeMap.remove BTreeSet.insert BTreeSet.contains BTreeSet.remove PairMap.get
    PairMap.insert
full_node_commits = refl

pub part_node_commits : extend_round toy_crypto 9 part_node ≡ some (true, committed part_node)
unfolding extend_round choose_head walk decide decide_rounds decide_units vote vote_all common_vote
    extended_at keep_extended commit bfs_batch bfs_loop enqueue emit_all emit BTreeMap.get
    BTreeMap.insert BTreeMap.remove BTreeSet.insert BTreeSet.contains BTreeSet.remove PairMap.get
    PairMap.insert
part_node_commits = refl
