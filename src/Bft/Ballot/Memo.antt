-- ===== src/Bft/Ballot/Memo.antt =====
-- `vote` of picomint-bft/src/extender.rs, with its cache and its recursion, against `ballot`.
use picomint.Prelude.{
  ℕ, zero, suc, ◌+◌, ◌<◌, ◌≡◌, refl, Bool, Option, some, [], ◌∷◌, map, All, arith, inl, inr, ◌∙◌,
  ap, ◌==◌, ◌>>=◌, Option-cases, some_unique, Bool-cases, ◌&&◌,
}
use picomint.Collections.BTreeMap
use picomint.Collections.BTreeMap.{BTreeMap, values}
use picomint.Collections.PairMap
use picomint.Nodes.{NumNodes}
use picomint.Bft.Units.{BftUnit}
use picomint.Bft.Dag.{IsParent, IsClosed}
use picomint.Bft.Vote.{Votes, vote_all, vote}
use picomint.Bft.Ballot.{ballot}

-- A call of `f` that answers `b` and leaves a good cache.
abbrev pub Answers :
    (Votes → Type 0) → (Votes → ℕ → Option (Bool × Votes)) → (ℕ → Bool) → ℕ → Type 0
Answers Good f g p = (vs : Votes) → Good vs → (vs' : Votes) × (f vs p ≡ some (g p, vs')) × Good vs'

module _ (Good : Votes → Type 0) (f : Votes → ℕ → Option (Bool × Votes)) (g : ℕ → Bool) where
  -- Over all parents the answers are collected in order.
  pub vote_all-map :
      (hash_byte : ℕ → ℕ → ℕ) (m : BTreeMap ℕ)
      → All (λ e. Answers Good f g e.1) m
      → (vs : Votes) → Good vs
      → (vs' : Votes) × (vote_all hash_byte f vs (values m) ≡ some (map g (values m), vs'))
        × Good vs'
  unfolding vote_all
  vote_all-map hash_byte [] h vs good = (vs, refl, good)
  vote_all-map hash_byte (e ∷ m) h vs good =
      let (vs1, e1, good1) = h.0 vs good in
      let (vs2, e2, good2) = vote_all-map hash_byte m h.1 vs1 good1 in
      (vs2, rw (e1, ◌>>=◌, e2, ◌>>=◌), good2)

module _ (hash_byte : ℕ → ℕ → ℕ) (look : ℕ → Option BftUnit) where
  -- What an entry of the cache says.
  pub record Remembered (c u : ℕ) (b : Bool) : Type 0 where
    pub cand : BftUnit
    pub voter : BftUnit
    pub depth : ℕ
    pub candidate_known : look c ≡ some cand
    pub voter_known : look u ≡ some voter
    pub above : voter.round ≡ cand.round + 2 + depth
    pub bit : b ≡ ballot hash_byte look c cand (suc depth) u

  abbrev pub IsSound : Votes → Type 0
  IsSound votes = (c u : ℕ) (b : Bool) → PairMap.get c u votes ≡ some b → Remembered c u b

  recall :
      (c u d : ℕ) (b : Bool) (cand voter : BftUnit)
      → Remembered c u b
      → look c ≡ some cand
      → look u ≡ some voter
      → voter.round ≡ cand.round + 2 + d
      → b ≡ ballot hash_byte look c cand (suc d) u
  recall c u d b cand voter r ec eu er =
      let same_c : r.cand ≡ cand = some_unique r.cand cand r.candidate_known ec in
      let same_u : r.voter ≡ voter = some_unique r.voter voter r.voter_known eu in
      let same_d : r.depth ≡ d = omega (
        arith,
        r.above,
        ap (λ (x : BftUnit). x.round) same_c,
        ap (λ (x : BftUnit). x.round) same_u,
      ) in
      r.bit
      ∙ ap (λ x. ballot hash_byte look c x (suc r.depth) u) same_c
      ∙ ap (λ x. ballot hash_byte look c cand (suc x) u) same_d

  insert-IsSound :
      (c u : ℕ) (b : Bool) (votes : Votes)
      → Remembered c u b
      → IsSound votes
      → IsSound (PairMap.insert c u b votes)
  insert-IsSound c u b votes r s c' u' b' e = elim (Bool-cases (c == c' && u == u')) [
    | inl h ↦
        let same_c : c ≡ c' = ground arith in
        let same_u : u ≡ u' = ground arith in
        let same_b : b ≡ b' = ground (arith, PairMap.get-insert c u c' u' b votes) in
        record {
          cand = r.cand;
          voter = r.voter;
          depth = r.depth;
          candidate_known = rw (← same_c) r.candidate_known;
          voter_known = rw (← same_u) r.voter_known;
          above = r.above;
          bit = rw (← same_c, ← same_u, ← same_b) r.bit;
        }
    | inr h ↦ s c' u' b' (ground (arith, PairMap.get-insert c u c' u' b votes))
  ]

module _ (hash_byte : ℕ → ℕ → ℕ) (extended : BTreeMap BftUnit) where
  abbrev look : ℕ → Option BftUnit
  look h = BTreeMap.get h extended

  -- `vote` for `c` answers the ballot of every unit that stands `d + 1` rounds above.
  abbrev pub VotesAt : ℕ → ℕ → ℕ → BftUnit → Type 0
  VotesAt fuel d c cand =
      (u : ℕ) (voter : BftUnit)
      → look u ≡ some voter
      → voter.round ≡ cand.round + 1 + d
      → Answers (IsSound hash_byte look) (λ vs x. vote hash_byte fuel extended vs c x)
          (ballot hash_byte look c cand d) u

  pub All-Answers :
      (n : NumNodes) (fuel d c r : ℕ) (cand : BftUnit) (m : BTreeMap ℕ)
      → VotesAt fuel d c cand
      → r ≡ cand.round + 2 + d
      → All (IsParent n look r) m
      → All
          (λ e.
            Answers
              (IsSound hash_byte look)
              (λ vs x. vote hash_byte fuel extended vs c x)
              (ballot hash_byte look c cand d)
              e.1)
          m
  All-Answers n fuel d c r cand [] h er ps = tt
  All-Answers n fuel d c r cand (e ∷ m) h er ps =
      let (_, q, known, _, below) = ps.0 in
      (h e.1 q known (omega arith), All-Answers n fuel d c r cand m h er ps.1)

  module _ {n : NumNodes} (closed : IsClosed n look) where
    vote_near : (fuel c : ℕ) (cand : BftUnit) → look c ≡ some cand → VotesAt (suc fuel) 0 c cand
    unfolding vote ballot
    vote_near fuel c cand ec u voter eu er vs good =
        (vs, ground (arith, (closed.closed u voter eu).low), good)

    vote_far :
        (fuel d c : ℕ) (cand : BftUnit)
        → look c ≡ some cand
        → VotesAt fuel d c cand
        → VotesAt (suc fuel) (suc d) c cand
    unfolding vote ballot
    vote_far fuel d c cand ec below u voter eu er vs good =
        let wf = closed.closed u voter eu in
        elim (Option-cases (PairMap.get c u vs)) [
          | inr (bit, found) ↦ (
            vs,
            ground (
              arith,
              wf.low,
              recall hash_byte look c u d bit cand voter (good c u bit found) ec eu (omega arith),
            ),
            good,
          )
          | inl missing ↦
              let (vs', e, good') =
                vote_all-map (IsSound hash_byte look) (λ vs x. vote hash_byte fuel extended vs c x)
                  (ballot hash_byte look c cand d) hash_byte voter.parents
                  (All-Answers n fuel d c voter.round cand voter.parents below (omega arith)
                    wf.parents)
                  vs good in
              let bit = ballot hash_byte look c cand (suc d) u in
              let same_round : voter.round ≡ cand.round + (d + 2) = omega arith in
              (
                PairMap.insert c u bit vs',
                ground (arith, wf.low, same_round),
                insert-IsSound hash_byte look c u bit vs'
                    (record {
                      cand = cand;
                      voter = voter;
                      depth = d;
                      candidate_known = ec;
                      voter_known = eu;
                      above = omega arith;
                      bit = refl;
                    })
                    good',
              )
        ]

    -- `vote` answers the ballot, whatever sound cache it is given, and leaves a sound one. Its
    -- recursion is as deep as the voter stands above the candidate.
    pub vote-ballot :
        (fuel d c : ℕ) (cand : BftUnit) → look c ≡ some cand → d < fuel → VotesAt fuel d c cand
    vote-ballot zero d c cand ec l = absurd (omega arith)
    vote-ballot (suc fuel) zero c cand ec l = vote_near fuel c cand ec
    vote-ballot (suc fuel) (suc d) c cand ec l =
        vote_far fuel d c cand ec (vote-ballot fuel d c cand ec (omega arith))
