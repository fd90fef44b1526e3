-- ===== src/Bft/Vote.antt =====
-- The votes of picomint-bft/src/extender.rs.
use picomint.Prelude.{
  ℕ, zero, suc, ◌+◌, ◌-◌, ◌%◌, ◌^◌, Bool, true, false, not, Option, none, some, List, [], ◌∷◌, all,
  ◌==◌, if◌then◌else◌, ◌>>=◌,
}
use picomint.Collections.BTreeMap
use picomint.Collections.BTreeMap.{BTreeMap, values}
use picomint.Collections.PairMap
use picomint.Collections.PairMap.{PairMap}
use picomint.Bft.Units.{BftUnit, u32}

-- `self.votes`: by candidate and voter.
abbrev pub Votes : Type 0
Votes = PairMap Bool

-- `parents.get(..) == Some(&candidate)`
abbrev pub is_hash : Option ℕ → ℕ → Bool
is_hash none candidate = false
is_hash (some p) candidate = p == candidate

-- The aggregation of `vote`: what all parents vote, and `default` where they differ.
abbrev pub unanimous : List Bool → Bool → Bool
unanimous votes default =
    if all (λ v. v) votes then true else if all (λ v. not v) votes then false else default

-- The first byte of the hash of a round and a candidate, by SHA-256, is a parameter.
module _ (hash_byte : ℕ → ℕ → ℕ) where
  unfoldable pub common_vote : ℕ → ℕ → ℕ → Bool
  common_vote candidate candidate_round round =
      let distance = u32 (round + 2 ^ 32 - candidate_round) in
      if distance == 2
      then true
      else if distance == 3
      then false
      else hash_byte round candidate % 2 == 1

  -- `voter.parents.values().map(..).collect()`, with the cache passed along.
  unfoldable pub vote_all :
      (Votes → ℕ → Option (Bool × Votes)) → Votes → List ℕ → Option (List Bool × Votes)
  vote_all f votes [] = some ([], votes)
  vote_all f votes (parent ∷ parents) =
      f votes parent >>= λ r. vote_all f r.1 parents >>= λ s. some (r.0 ∷ s.0, s.1)

  -- `none` is a failed `expect`, or fuel that ran out.
  unfoldable pub vote : ℕ → BTreeMap BftUnit → Votes → ℕ → ℕ → Option (Bool × Votes)
  vote zero extended votes candidate unit = none
  vote (suc fuel) extended votes candidate unit = BTreeMap.get candidate extended >>= λ cand.
      BTreeMap.get unit extended >>= λ voter. elim (voter.round == u32 (cand.round + 1)) [
        | true ↦ some (is_hash (BTreeMap.get cand.creator voter.parents) candidate, votes)
        | false ↦ elim (PairMap.get candidate unit votes) [
          | some bit ↦ some (bit, votes)
          | none ↦
              let default = common_vote candidate cand.round voter.round in
              vote_all (λ vs parent. vote fuel extended vs candidate parent) votes
                (values voter.parents)
              >>= λ r.
                  let bit = unanimous r.0 default in
                  some (bit, PairMap.insert candidate unit bit r.1)
        ]
      ]
