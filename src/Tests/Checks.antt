-- ===== src/Tests/Checks.antt =====
-- Boolean tests of a graph of units, and what passing them shows.
use picomint.Prelude.{
  ◌++◌, ℕ, suc, ◌+◌, ◌≡◌, ◌<◌, ◌^◌, refl, Bool, true, some, List, [], ◌∷◌, ltb, leb, arith, ◌==◌,
  ◌&&◌, all, All, length, inl, inr, Bool-cases, Option-cases, if◌then◌else◌,
}
use picomint.Collections.BTreeMap
use picomint.Collections.BTreeMap.{BTreeMap, keys}
use picomint.Nodes.{NumNodes, total, threshold, in_mint}
use picomint.Bft.Units.{BftUnit}
use picomint.Bft.Dag.{IsParent, IsClosed}
use picomint.Bft.Extender.Inv.{look}
use picomint.Bft.Engine.{parent_fed, parents_fed}
use picomint.Bft.Engine.Inv.{Admitted}

abbrev pub ascends : ℕ → BTreeMap ℕ → Bool
ascends lo [] = true
ascends lo ((k, v) ∷ m) = leb lo k && ascends (suc k) m

abbrev pub admissible : NumNodes → BftUnit → Bool
admissible n u =
    in_mint n u.creator
    && ltb (u.round + 4) (2 ^ 32)
    && ascends 0 u.parents
    && (if u.round == 0 then length u.parents == 0 else length u.parents == threshold n)
    && all (in_mint n) (keys u.parents)

ascends-SortedFrom : (lo : ℕ) (m : BTreeMap ℕ) → ascends lo m ≡ true → BTreeMap.SortedFrom lo m
ascends-SortedFrom lo [] h = tt
ascends-SortedFrom lo ((k, v) ∷ m) h = (ground arith, ascends-SortedFrom (suc k) m (ground arith))

keys-All :
    (n : NumNodes) (m : BTreeMap ℕ)
    → all (in_mint n) (keys m) ≡ true
    → All (λ (e : ℕ × ℕ). e.0 < total n) m
keys-All n [] h = tt
keys-All n (e ∷ m) h = (ground arith, keys-All n m (ground arith))

no_entries : (m : BTreeMap ℕ) → length m ≡ 0 → m ≡ []
no_entries [] h = refl
no_entries (e ∷ m) h = absurd (omega arith)

pub admissible-Admitted : (n : NumNodes) (u : BftUnit) → admissible n u ≡ true → Admitted n u
admissible-Admitted n u h = record {
  member = ground arith;
  low = ground arith;
  sorted = ascends-SortedFrom 0 u.parents (ground arith);
  root = λ e. no_entries u.parents (ground arith);
  quorum = λ e. ground arith;
  members = keys-All n u.parents (ground arith);
}

pub all-All : {A : Type 0} (p : A → Bool) (xs : List A) → all p xs ≡ true → All (λ a. p a ≡ true) xs
all-All p [] h = tt
all-All p (x ∷ xs) h = (ground arith, all-All p xs (ground arith))

-- What a test says of every row of a table it says of each unit that is found.
pub tested :
    (p : ℕ → BftUnit → Bool) (m : BTreeMap BftUnit) (h : ℕ) (u : BftUnit)
    → all (λ e. p e.0 e.1) m ≡ true
    → BTreeMap.get h m ≡ some u
    → p h u ≡ true
tested p m h u ok found =
    BTreeMap.All-get (λ e. p e.0 e.1 ≡ true) h u m (all-All (λ e. p e.0 e.1) m ok) found

abbrev pub well_parented : NumNodes → BTreeMap BftUnit → BftUnit → Bool
well_parented n m u = admissible n u && (if u.round == 0 then true else parents_fed m u)

fed-All :
    (n : NumNodes) (m : BTreeMap BftUnit) (r : ℕ) (ps : BTreeMap ℕ)
    → ((h : ℕ) (u : BftUnit) → BTreeMap.get h m ≡ some u → u.round + 4 < 2 ^ 32)
    → 0 < r
    → All (λ (e : ℕ × ℕ). e.0 < total n) ps
    → all (parent_fed m r) ps ≡ true
    → All (IsParent n (look m) r) ps
fed-All n m r [] low pos l h = tt
fed-All n m r (e ∷ ps) low pos l h = (
  elim (Option-cases (BTreeMap.get e.1 m)) [
    | inl gone ↦ absurd (ground arith)
    | inr (q, known) ↦ let small = low e.1 q known in (l.0, q, known, ground arith, ground arith)
  ],
  fed-All n m r ps low pos l.1 (ground arith),
)

pub well_parented-IsClosed :
    (n : NumNodes) (m : BTreeMap BftUnit)
    → all (λ e. well_parented n m e.1) m ≡ true
    → IsClosed n (look m)
well_parented-IsClosed n m ok =
    let good = tested (λ h u. well_parented n m u) m in
    record {
      closed = λ h u k.
          let one = good h u ok k in
          let a = admissible-Admitted n u (ground arith) in
          record {
            member = a.member;
            low = a.low;
            sorted = a.sorted;
            root = a.root;
            quorum = a.quorum;
            parents = elim (Bool-cases (u.round == 0)) [
              | inl first ↦ rw (a.root (ground arith)) tt
              | inr later ↦
                  fed-All n m u.round u.parents
                    (λ g w kw. (admissible-Admitted n w (both _ _ (good g w ok kw))).low)
                    (ground arith) a.members (ground arith)
            ];
          };
    }
  where
    both : (a b : Bool) → (a && b) ≡ true → a ≡ true
    both a b h = ground arith

pub get-append :
    (h : ℕ) (u : BftUnit) (m rest : BTreeMap BftUnit)
    → BTreeMap.get h m ≡ some u
    → BTreeMap.get h (m ++ rest) ≡ some u
unfolding BTreeMap.get
get-append h u [] rest k = absurd (ground arith)
get-append h u (e ∷ m) rest k = ground (arith, get-append h u m rest)
