-- ===== src/Bft/Extender/Growth.antt =====
-- The caches of picomint-bft/src/extender.rs never go stale: they stay right as units are extended.
use picomint.Prelude.{ℕ, suc, Bool, Option, [], ◌∷◌, All, arith, ◌∙◌}
use picomint.Collections.BTreeMap.{BTreeMap}
use picomint.Nodes.{NumNodes}
use picomint.Bft.Units.{BftUnit}
use picomint.Bft.Dag.{IsParent, WellParented, IsClosed, Within}
use picomint.Bft.Vote.{Votes}
use picomint.Bft.Ballot.Within.{ballot-Within, Certificate-Within}
use picomint.Bft.Ballot.Memo.{IsSound}
use picomint.Bft.Extender.Inv.{Decision}

module _ (n : NumNodes) {part whole : ℕ → Option BftUnit} (within : Within part whole) where
  All-IsParent-Within :
      (r : ℕ) (m : BTreeMap ℕ) → All (IsParent n part r) m → All (IsParent n whole r) m
  All-IsParent-Within r [] h = tt
  All-IsParent-Within r (e ∷ m) ((l, q, known, c, b), h) =
      ((l, q, within e.1 q known, c, b), All-IsParent-Within r m h)

  pub WellParented-Within : (u : BftUnit) → WellParented n part u → WellParented n whole u
  WellParented-Within u w = record {
    member = w.member;
    low = w.low;
    sorted = w.sorted;
    root = w.root;
    quorum = w.quorum;
    parents = All-IsParent-Within u.round u.parents w.parents;
  }

  module _ (closed : IsClosed n part) (hash_byte : ℕ → ℕ → ℕ) where
    pub IsSound-Within :
        (votes : Votes) → IsSound hash_byte part votes → IsSound hash_byte whole votes
    IsSound-Within votes s c u b e =
        let r = s c u b e in
        record {
          cand = r.cand;
          voter = r.voter;
          depth = r.depth;
          candidate_known = within c r.cand r.candidate_known;
          voter_known = within u r.voter r.voter_known;
          above = r.above;
          bit =
              r.bit
              ∙ ballot-Within closed within hash_byte c r.cand (suc r.depth) u r.voter r.voter_known
                  (omega (arith, r.above));
        }

    pub Decision-Within :
        (c : ℕ) (v : Bool) → Decision hash_byte part n c v → Decision hash_byte whole n c v
    Decision-Within c v x = record {
      cand = x.cand;
      known = within c x.cand x.known;
      depth = x.depth;
      certificate = Certificate-Within closed within hash_byte c x.cand x.certificate;
    }
