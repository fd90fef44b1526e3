-- ===== src/Bft/Extender.antt =====
-- The ordering rule of picomint-bft/src/extender.rs over the engine's state. `none` is a failed
-- `expect` or `assert!`, or fuel that ran out; `limit` is the fuel of each inner loop.
pub mod Inv
pub mod Growth
pub mod Decide
pub mod Head
pub mod Agreement
pub mod Batch
pub mod Marks
pub mod Order
pub mod Promises
pub mod Answers
use picomint.Prelude.{
  ℕ, zero, suc, ◌+◌, Bool, true, false, Option, none, some, List, [], ◌∷◌, ◌++◌, map, iff, count,
  leb, ◌==◌, if◌then◌else◌, ◌>>=◌,
}
use mathlib.Core.List.{reverse}
use picomint.Collections.BTreeMap
use picomint.Collections.BTreeMap.{BTreeMap, values}
use picomint.Collections.BTreeSet
use picomint.Collections.BTreeSet.{BTreeSet}
use picomint.Nodes.{threshold}
use picomint.Bft.Units.{BftUnit, u32}
use picomint.Bft.Vote.{Votes, common_vote, vote, vote_all}
use picomint.Bft.State.{Engine, Crypto, extended_at}

-- Emission: each item of a unit with the unit's round and creator.
abbrev pub tagged : {D : Type 0} → BftUnit → List D → List (ℕ × ℕ × D)
tagged u items = map (λ item. (u.round, u.creator, item)) items

-- The inner loop of `bfs_batch`: mark and queue the parents that are not marked.
unfoldable pub enqueue : List ℕ → BTreeSet → List ℕ → BTreeSet × List ℕ
enqueue [] emitted queue = (emitted, queue)
enqueue (p ∷ ps) emitted queue =
    let seen = enqueue ps emitted queue in
    let fresh = enqueue ps (BTreeSet.insert p emitted) (queue ++ (p ∷ [])) in
    if BTreeSet.contains p emitted then seen else fresh

-- The `while let` loop of `bfs_batch`.
unfoldable pub bfs_loop :
    ℕ → BTreeMap BftUnit → BTreeSet → List ℕ → List ℕ → Option (BTreeSet × List ℕ)
bfs_loop fuel extended emitted [] batch = some (emitted, reverse batch)
bfs_loop zero extended emitted (hash ∷ queue) batch = none
bfs_loop (suc fuel) extended emitted (hash ∷ queue) batch = BTreeMap.get hash extended >>= λ unit.
    let r = enqueue (values unit.parents) emitted queue in
    bfs_loop fuel extended r.0 r.1 (batch ++ (hash ∷ []))

unfoldable pub bfs_batch : ℕ → BTreeMap BftUnit → BTreeSet → ℕ → Option (BTreeSet × List ℕ)
bfs_batch limit extended emitted head =
    if BTreeSet.contains head emitted
    then none
    else bfs_loop limit extended (BTreeSet.insert head emitted) (head ∷ []) []

module _ {D : Type 0} (crypto : Crypto D) (limit : ℕ) where
  -- The inner loop of `decide`: whether one of the units decides, with the cache.
  unfoldable pub decide_units :
      ℕ → BTreeMap BftUnit → ℕ → Bool → List ℕ → Votes → Option (Bool × Votes)
  decide_units quorum extended candidate v [] votes = some (false, votes)
  decide_units quorum extended candidate v (unit ∷ units) votes =
      BTreeMap.get unit extended >>= λ x.
      vote_all crypto.hash_byte
        (λ vs parent. vote crypto.hash_byte limit extended vs candidate parent) votes
        (values x.parents)
      >>= λ r.
          let matching = count (λ bit. iff bit v) r.0 in
          let rest = decide_units quorum extended candidate v units r.1 in
          if leb quorum matching then some (true, r.1) else rest

  -- The outer loop of `decide`, over the rounds.
  unfoldable pub decide_rounds : ℕ → Engine D → ℕ → ℕ → ℕ → Option (Option Bool × Engine D)
  decide_rounds zero e candidate candidate_round round = none
  decide_rounds (suc fuel) e candidate candidate_round round =
      elim (extended_at e.rounds e.extended round) [
        | [] ↦ some (none, e)
        | unit ∷ units ↦
            let v = common_vote crypto.hash_byte candidate candidate_round round in
            decide_units (threshold e.n) e.extended candidate v (unit ∷ units) e.votes >>= λ r.
            elim r.0 [
              | true ↦ some (
                some v,
                record e { votes = r.1; decided = BTreeMap.insert candidate (v, round) e.decided },
              )
              | false ↦
                  decide_rounds fuel (record e { votes = r.1 }) candidate candidate_round
                    (u32 (round + 1))
            ]
      ]

  unfoldable pub decide : Engine D → ℕ → Option (Option Bool × Engine D)
  decide e candidate = elim (BTreeMap.get candidate e.decided) [
    | some decision ↦ some (some decision.0, e)
    | none ↦ BTreeMap.get candidate e.extended >>= λ c.
        decide_rounds limit e candidate c.round (u32 (c.round + 2))
  ]

  -- The walk of `choose_head` over the candidates.
  unfoldable pub walk : List ℕ → Engine D → Option (Option ℕ × Engine D)
  walk [] e = some (none, e)
  walk (candidate ∷ candidates) e = decide e candidate >>= λ r. elim r.0 [
    | none ↦ some (none, r.1)
    | some bit ↦ elim bit [ true ↦ some (some candidate, r.1) | false ↦ walk candidates r.1 ]
  ]

  unfoldable pub choose_head : Engine D → ℕ → Option (Option ℕ × Engine D)
  choose_head e round = elim (extended_at e.rounds e.extended (u32 (round + 3))) [
    | [] ↦ some (none, e)
    | _ ∷ _ ↦ walk (extended_at e.rounds e.extended round) e
  ]

  -- The body of `run_extender`'s `for` loop.
  unfoldable pub emit : Engine D → ℕ → Option (Engine D)
  emit e hash = BTreeMap.get hash e.extended >>= λ unit.
      BTreeMap.get hash e.unit_data_table >>= λ items. some (record e {
        ordered = e.ordered ++ tagged unit items;
        unordered_own_data =
            if unit.creator == e.id
            then BTreeSet.remove unit.round e.unordered_own_data
            else e.unordered_own_data;
      })

  unfoldable pub emit_all : List ℕ → Engine D → Option (Engine D)
  emit_all [] e = some e
  emit_all (hash ∷ hashes) e = emit e hash >>= λ e'. emit_all hashes e'

  -- The body of `run_extender`'s `while let`: emit the head's batch and move the cursor on.
  unfoldable pub commit : Engine D → ℕ → Option (Engine D)
  commit e head = bfs_batch limit e.extended e.emitted head >>= λ b.
      emit_all b.1 (record e { emitted = b.0 }) >>= λ e'.
      some (record e' { next_decide_round = u32 (e'.next_decide_round + 1) })

  -- Its test: `false` where no head is chosen.
  unfoldable pub extend_round : Engine D → Option (Bool × Engine D)
  extend_round e = choose_head e e.next_decide_round >>= λ r. elim r.0 [
    | none ↦ some (false, r.1)
    | some head ↦ commit r.1 head >>= λ e'. some (true, e')
  ]

  unfoldable pub run_extender : ℕ → Engine D → Option (Engine D)
  run_extender zero e = none
  run_extender (suc fuel) e =
      extend_round e >>= λ r. elim r.0 [ true ↦ run_extender fuel r.1 | false ↦ some r.1 ]
