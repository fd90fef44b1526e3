-- ===== src/Bft/Extender/Promises.antt =====
-- What `vote`, `decide` and `choose_head` of picomint-bft/src/extender.rs promise.
use picomint.Prelude.{ℕ, ◌+◌, ◌≤◌, ◌<◌, ◌^◌, ◌≡◌, Bool, true, Option, none, some, ap, some_unique}
use picomint.Collections.BTreeMap.{BTreeMap}
use picomint.Nodes.{NumNodes}
use picomint.Bft.Units.{BftUnit}
use picomint.Bft.Dag.{IsClosed, Faults, Within}
use picomint.Bft.Vote.{Votes, vote}
use picomint.Bft.Ballot.{ballot, Certificate}
use picomint.Bft.Ballot.Memo.{IsSound, vote-ballot}
use picomint.Bft.Ballot.Coverage.{unseen-Certificate}
use picomint.Bft.State.{Engine, Crypto}
use picomint.Bft.Extender.{decide, choose_head}
use picomint.Bft.Extender.Inv.{look, Decision, Below, IsValid}
use picomint.Bft.Extender.Decide.{decide-Decides}
use picomint.Bft.Extender.Head.{Chosen, choose_head-Chooses}

-- With a cache whose entries are right, and fuel for the rounds between the two units, `vote` returns
-- the ballot that the graph alone defines, and leaves a cache whose entries are right.
pub vote_answers :
    (hash_byte : ℕ → ℕ → ℕ) (extended : BTreeMap BftUnit) (n : NumNodes) (fuel d c u : ℕ)
    (cand voter : BftUnit) (votes : Votes)
    → IsClosed n (look extended)
    → look extended c ≡ some cand
    → look extended u ≡ some voter
    → voter.round ≡ cand.round + 1 + d
    → d < fuel
    → IsSound hash_byte (look extended) votes
    → (votes' : Votes) × (vote hash_byte fuel extended votes c u
        ≡ some (ballot hash_byte (look extended) c cand d u, votes'))
      × IsSound hash_byte (look extended) votes'
vote_answers hash_byte extended n fuel d c u cand voter votes closed ec eu er l good =
    vote-ballot hash_byte extended closed fuel d c cand ec l u voter eu er votes good

module _ {D : Type 0} (crypto : Crypto D) (limit top : ℕ) where
  -- With fuel for every extended round, `decide` returns on each extended candidate, without a failed
  -- `expect`, and leaves a state whose index and caches are right.
  pub decide_returns :
      (e : Engine D) (c : ℕ) (cand : BftUnit)
      → IsValid crypto e
      → look e.extended c ≡ some cand
      → Below (look e.extended) top
      → top ≤ limit
      → (bit : Option Bool) × (e' : Engine D) × (decide crypto limit e c ≡ some (bit, e'))
        × IsValid crypto e'
  decide_returns e c cand valid ec below big =
      let x = decide-Decides crypto limit top c cand e valid ec below big in
      (x.bit, _, x.answer, x.valid)

  -- A bit that `decide` returns is certified: an extended unit two or more rounds above the candidate
  -- has a quorum of parents that vote it, and it is the common vote of that unit's round.
  pub decide-Decision :
      (e e' : Engine D) (c : ℕ) (cand : BftUnit) (v : Bool)
      → IsValid crypto e
      → look e.extended c ≡ some cand
      → Below (look e.extended) top
      → top ≤ limit
      → decide crypto limit e c ≡ some (some v, e')
      → Decision crypto.hash_byte (look e.extended) e.n c v
  decide-Decision e e' c cand v valid ec below big p =
      let x = decide-Decides crypto limit top c cand e valid ec below big in
      x.decision v (ap (λ (r : Option Bool × Engine D). r.0) (some_unique _ _ x.answer p))

  -- With fuel for every extended round, `choose_head` returns, without a failed `expect`, and leaves a
  -- state whose index and caches are right.
  pub choose_head_returns :
      (e : Engine D) (r : ℕ)
      → IsValid crypto e
      → Below (look e.extended) top
      → top ≤ limit
      → r + 3 < 2 ^ 32
      → (head : Option ℕ) × (e' : Engine D) × (choose_head crypto limit e r ≡ some (head, e'))
        × IsValid crypto e'
  choose_head_returns e r valid below big small =
      let x = choose_head-Chooses crypto limit top r e valid below big small in
      (x.head, _, x.answer, x.valid)

  -- A head that `choose_head` returns is the first unit of its round, by hash, that is decided in, all
  -- units before it are decided out, and a unit three rounds up is extended.
  pub choose_head-Chosen :
      (e e' : Engine D) (r head : ℕ)
      → IsValid crypto e
      → Below (look e.extended) top
      → top ≤ limit
      → r + 3 < 2 ^ 32
      → choose_head crypto limit e r ≡ some (some head, e')
      → Chosen crypto e r head
  choose_head-Chosen e e' r head valid below big small p =
      let x = choose_head-Chooses crypto limit top r e valid below big small in
      x.chosen head (ap (λ (r : Option ℕ × Engine D). r.0) (some_unique _ _ x.answer p))

-- A candidate that is missing from a closed part of the graph, when the part has a unit three rounds
-- above it, is decided in by no unit of the whole graph.
pub unseen_candidate :
    (hash_byte : ℕ → ℕ → ℕ) (n : NumNodes) (honest : ℕ → Bool) (part whole : ℕ → Option BftUnit)
    (c w : ℕ) (cand top : BftUnit)
    → IsClosed n part
    → Within part whole
    → part c ≡ none
    → IsClosed n whole
    → Faults n honest whole
    → part w ≡ some top
    → top.round ≡ cand.round + 3
    → (d : ℕ) → ¬ Certificate hash_byte whole c cand n d true
unseen_candidate hash_byte n honest part whole c w cand top closed_part within absent closed faults
      held up d =
    unseen-Certificate hash_byte c cand closed_part within absent closed faults w top held up d
