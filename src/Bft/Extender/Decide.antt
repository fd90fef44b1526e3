-- ===== src/Bft/Extender/Decide.antt =====
-- `decide` of picomint-bft/src/extender.rs ends, and what it answers is certified.
use picomint.Prelude.{
  ℕ, zero, suc, ◌+◌, ◌≤◌, ◌<◌, ◌≡◌, refl, Bool, true, false, Option, none, some, List, [], ◌∷◌, map,
  count, iff, leb, leb→le, All, arith, inl, inr, ap, Option-cases, List-cases, some_unique,
  Bool-cases, ◌==◌,
}
use mathlib.Core.Path.{subst}
use picomint.Collections.BTreeMap
use picomint.Collections.BTreeMap.{BTreeMap, values}
use picomint.Nodes.{NumNodes, threshold}
use picomint.Bft.Units.{BftUnit, u32}
use picomint.Bft.Dag.{IsClosed}
use picomint.Bft.Vote.{Votes, vote, common_vote}
use picomint.Bft.Ballot.{coin, ballot, Certificate}
use picomint.Bft.Ballot.Memo.{IsSound, vote_all-map, All-Answers, vote-ballot}
use picomint.Bft.State.{Engine, Crypto, extended_at}
use picomint.Bft.Extender.{decide_units, decide_rounds, decide}
use picomint.Bft.Extender.Inv.{look, Decision, IsAt, Below, IsValid}

count-map :
    (f : ℕ → Bool) (v : Bool) (xs : List ℕ)
    → count (λ b. iff b v) (map f xs) ≡ count (λ p. iff (f p) v) xs
count-map f v [] = refl
count-map f v (x ∷ xs) = ground (arith, count-map f v xs)

-- The engine with other caches.
abbrev pub cached : {D : Type 0} → Engine D → Votes → BTreeMap (Bool × ℕ) → Engine D
cached e votes decided = record e { votes = votes; decided = decided }

module _ {D : Type 0} (crypto : Crypto D) (limit : ℕ) where
  module _ (extended : BTreeMap BftUnit) (n : NumNodes) (c : ℕ) (cand : BftUnit) (d : ℕ) where
    abbrev Cert : Bool → Type 0
    Cert v = Certificate crypto.hash_byte (look extended) c cand n d v

    -- The answer of the inner loop.
    record Tallied (v : Bool) (r : Option (Bool × Votes)) : Type 0 where
      found : Bool
      votes : Votes
      answer : r ≡ some (found, votes)
      sound : IsSound crypto.hash_byte (look extended) votes
      certified : found ≡ true → Cert v

    decide_units-Tallied :
        (v : Bool)
        → IsClosed n (look extended)
        → look extended c ≡ some cand
        → d < limit
        → coin crypto.hash_byte (look extended) c cand (d + 2) ≡ v
        → (units : List ℕ) → All (IsAt (look extended) (cand.round + 2 + d)) units
        → (vs : Votes) → IsSound crypto.hash_byte (look extended) vs
        → Tallied v (decide_units crypto limit (threshold n) extended c v units vs)
    unfolding decide_units
    decide_units-Tallied v closed ec l common [] h vs good = record {
      found = false;
      votes = vs;
      answer = refl;
      sound = good;
      certified = λ e. cc;
    }
    decide_units-Tallied v closed ec l common (u ∷ us) h vs good =
        let (x, eu, er) = h.0 in
        let wf = closed.closed u x eu in
        let (vs', e, good') =
          vote_all-map (IsSound crypto.hash_byte (look extended))
            (λ vs x. vote crypto.hash_byte limit extended vs c x)
            (ballot crypto.hash_byte (look extended) c cand d) crypto.hash_byte x.parents
            (All-Answers crypto.hash_byte extended n limit d c x.round cand x.parents
              (vote-ballot crypto.hash_byte extended closed limit d c cand ec l) (omega arith)
              wf.parents)
            vs good in
        let rest = decide_units-Tallied v closed ec l common us h.1 vs' good' in
        let bits = map (ballot crypto.hash_byte (look extended) c cand d) (values x.parents) in
        elim (Bool-cases (leb (threshold n) (count (λ b. iff b v) bits))) [
          | inl many ↦ record {
            found = true;
            votes = vs';
            answer = ground arith;
            sound = good';
            certified = λ _. record {
              hash = u;
              unit = x;
              known = eu;
              above = er;
              common = common;
              enough = omega (
                arith,
                leb→le _ _ many,
                count-map (ballot crypto.hash_byte (look extended) c cand d) v (values x.parents),
              );
            };
          }
          | inr few ↦ record {
            found = rest.found;
            votes = rest.votes;
            answer = ground (arith, rest.answer);
            sound = rest.sound;
            certified = rest.certified;
          }
        ]

  -- The answer of `decide`: only the caches change, and a bit that is answered is certified.
  pub record Decides (e : Engine D) (c : ℕ) (r : Option (Option Bool × Engine D)) : Type 0 where
    pub bit : Option Bool
    pub votes : Votes
    pub decided : BTreeMap (Bool × ℕ)
    pub answer : r ≡ some (bit, cached e votes decided)
    pub valid : IsValid crypto (cached e votes decided)
    pub decision : (v : Bool) → bit ≡ some v → Decision crypto.hash_byte (look e.extended) e.n c v

  with_votes :
      (e : Engine D) (votes : Votes)
      → IsValid crypto e
      → IsSound crypto.hash_byte (look e.extended) votes
      → IsValid crypto (record e { votes = votes })
  with_votes e votes valid good = record {
    closed = valid.closed;
    sound = good;
    decisions = valid.decisions;
    indexed = valid.indexed;
    listed = valid.listed;
    ascending = valid.ascending;
  }

  with-Decision :
      (e : Engine D) (c round : ℕ) (v : Bool)
      → IsValid crypto e
      → Decision crypto.hash_byte (look e.extended) e.n c v
      → IsValid crypto (record e { decided = BTreeMap.insert c (v, round) e.decided })
  with-Decision e c round v valid x = record {
    closed = valid.closed;
    sound = valid.sound;
    decisions = λ c' v' r' h. elim (Bool-cases (c == c')) [
      | inl same ↦
          let same_c : c ≡ c' = ground arith in
          let same_v : v ≡ v' = ground (arith, BTreeMap.get-insert c c' (v, round) e.decided) in
          rw (← same_c, ← same_v) x
      | inr other ↦
          valid.decisions c' v' r' (ground (arith, BTreeMap.get-insert c c' (v, round) e.decided))
    ];
    indexed = valid.indexed;
    listed = valid.listed;
    ascending = valid.ascending;
  }

  decide_rounds-Decides :
      (fuel top d c round : ℕ) (cand : BftUnit) (e : Engine D)
      → IsValid crypto e
      → look e.extended c ≡ some cand
      → Below (look e.extended) top
      → top ≤ limit
      → round ≡ cand.round + 2 + d
      → round ≤ top + 1
      → top + 1 < round + fuel
      → Decides e c (decide_rounds crypto limit fuel e c cand.round round)
  unfolding decide_rounds
  decide_rounds-Decides zero top d c round cand e valid ec below big er lo hi = absurd (omega arith)
  decide_rounds-Decides (suc fuel) top d c round cand e valid ec below big er lo hi =
      elim (List-cases (extended_at e.rounds e.extended round)) [
        | inl empty ↦ record {
          bit = none;
          votes = e.votes;
          decided = e.decided;
          answer = ground arith;
          valid = valid;
          decision = λ v h. cc;
        }
        | inr (u, us, some_units) ↦
            let units = rw some_units at (valid.indexed round) in
            let v = common_vote crypto.hash_byte c cand.round round in
            let (x, eu, rx) = units.0 in
            let early = below u x eu in
            let low = (valid.closed.closed u x eu).low in
            let t =
              decide_units-Tallied e.extended e.n c cand d v valid.closed ec (omega arith)
                (ap (λ (r : ℕ). common_vote crypto.hash_byte c cand.round r) (omega arith)) (u ∷ us)
                (subst (λ r. All (IsAt (look e.extended) r) (u ∷ us)) er units) e.votes
                valid.sound in
            elim (Bool-cases t.found) [
              | inl found ↦
                  let y : Decision crypto.hash_byte (look e.extended) e.n c v = record {
                    cand = cand;
                    known = ec;
                    depth = d;
                    certificate = t.certified found;
                  } in
                  record {
                    bit = some v;
                    votes = t.votes;
                    decided = BTreeMap.insert c (v, round) e.decided;
                    answer = ground (arith, t.answer);
                    valid =
                        with-Decision (record e { votes = t.votes }) c round v
                          (with_votes e t.votes valid t.sound) y;
                    decision = λ v' h. rw (← (some_unique v v' refl h)) y;
                  }
              | inr missed ↦
                  let rest =
                    decide_rounds-Decides fuel top (suc d) c (u32 (round + 1)) cand
                      (record e { votes = t.votes }) (with_votes e t.votes valid t.sound) ec below
                      big (omega arith) (omega arith) (omega arith) in
                  record {
                    bit = rest.bit;
                    votes = rest.votes;
                    decided = rest.decided;
                    answer = ground (arith, t.answer, rest.answer);
                    valid = rest.valid;
                    decision = rest.decision;
                  }
            ]
      ]

  -- With fuel for every extended round, `decide` answers, and keeps the caches sound.
  pub decide-Decides :
      (top c : ℕ) (cand : BftUnit) (e : Engine D)
      → IsValid crypto e
      → look e.extended c ≡ some cand
      → Below (look e.extended) top
      → top ≤ limit
      → Decides e c (decide crypto limit e c)
  unfolding decide
  decide-Decides top c cand e valid ec below big = elim (Option-cases (BTreeMap.get c e.decided)) [
    | inr ((v, r), known) ↦ record {
      bit = some v;
      votes = e.votes;
      decided = e.decided;
      answer = ground arith;
      valid = valid;
      decision = λ v' h. rw (← (some_unique v v' refl h)) (valid.decisions c v r known);
    }
    | inl fresh ↦
        let low = (valid.closed.closed c cand ec).low in
        let early = below c cand ec in
        let x =
          decide_rounds-Decides limit top 0 c (u32 (cand.round + 2)) cand e valid ec below big
            (omega arith) (omega arith) (omega arith) in
        record {
          bit = x.bit;
          votes = x.votes;
          decided = x.decided;
          answer = ground (arith, x.answer);
          valid = x.valid;
          decision = x.decision;
        }
  ]
