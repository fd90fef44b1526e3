-- ===== src/Bft/Extender/Agreement.antt =====
-- Two nodes that hold parts of one graph choose the same head of a round.
use picomint.Prelude.{
  ℕ, ◌<◌, ◌≡◌, Bool, true, false, Option, In, All-In, arith, inl, inr, ◌∙◌, ap, some_unique,
  Option-cases,
}
use mathlib.Core.Path.{subst}
use native.Mathlib.Decide.{dec_lt}
use picomint.Nodes.{NumNodes}
use picomint.Bft.Units.{BftUnit}
use picomint.Bft.Dag.{IsClosed, Faults, Within}
use picomint.Bft.Ballot.Within.{Certificate-Within}
use picomint.Bft.Ballot.Propagation.{Certificate-agree}
use picomint.Bft.Ballot.Coverage.{unseen-Certificate}
use picomint.Bft.State.{Engine, Crypto, extended_at}
use picomint.Bft.Extender.Inv.{look, IsAt, Decision, IsValid}
use picomint.Bft.Extender.Head.{Chosen}

module _ {whole : ℕ → Option BftUnit} {n : NumNodes} {honest : ℕ → Bool} (closed : IsClosed n whole)
    (faults : Faults n honest whole) (hash_byte : ℕ → ℕ → ℕ) where
  -- Decisions of two nodes on one candidate agree, where the extended units of both lie in one closed
  -- graph with at most `f` faulty creators.
  pub Decision-agree :
      {a b : ℕ → Option BftUnit}
      → IsClosed n a
      → IsClosed n b
      → Within a whole
      → Within b whole
      → (c : ℕ) (v w : Bool) → Decision hash_byte a n c v
      → Decision hash_byte b n c w
      → v ≡ w
  Decision-agree {a} {b} closed_a closed_b in_a in_b c v w x y =
      let same : x.cand ≡ y.cand =
        some_unique x.cand y.cand (in_a c x.cand x.known) (in_b c y.cand y.known) in
      let left = Certificate-Within closed_a in_a hash_byte c x.cand x.certificate in
      let right = Certificate-Within closed_b in_b hash_byte c y.cand y.certificate in
      Certificate-agree closed hash_byte c x.cand faults x.depth y.depth v w left (rw same right)

-- A node whose extended units lie in the whole graph.
pub record Node {D : Type 0} (crypto : Crypto D) (whole : ℕ → Option BftUnit) (n : NumNodes)
    (e : Engine D) : Type 0 where
  pub valid : IsValid crypto e
  pub size : e.n ≡ n
  pub within : Within (look e.extended) whole

module _ {D : Type 0} (crypto : Crypto D) {whole : ℕ → Option BftUnit} {n : NumNodes}
    {honest : ℕ → Bool} (closed : IsClosed n whole) (faults : Faults n honest whole) where
  not_before :
      (a b : Engine D) (r g h : ℕ)
      → Node crypto whole n a
      → Node crypto whole n b
      → Chosen crypto a r g
      → Chosen crypto b r h
      → g < h
      → ⊥
  not_before a b r g h na nb x y l =
      let closed_a : IsClosed n (look a.extended) = rw na.size at na.valid.closed in
      let closed_b : IsClosed n (look b.extended) = rw nb.size at nb.valid.closed in
      let in_a : Decision crypto.hash_byte (look a.extended) n g true =
        rw na.size at x.first.decided_in in
      let (_, ew, er) = y.tall in
      let place : IsAt (look a.extended) r g =
        All-In (IsAt (look a.extended) r) (extended_at a.rounds a.extended r) g (na.valid.indexed r)
          x.first.member in
      let same : in_a.cand ≡ place.0 = some_unique in_a.cand place.0 in_a.known place.1 in
      let row : in_a.cand.round ≡ r = ap (λ (u : BftUnit). u.round) same ∙ place.2 in
      elim (Option-cases (look b.extended g)) [
        | inl absent ↦
            unseen-Certificate crypto.hash_byte g in_a.cand closed_b nb.within absent closed faults
              y.witness _ ew (omega arith) in_a.depth
              (Certificate-Within closed_a na.within crypto.hash_byte g in_a.cand in_a.certificate)
        | inr (u, known) ↦
            let same_b : u ≡ in_a.cand =
              some_unique u in_a.cand (nb.within g u known) (na.within g in_a.cand in_a.known) in
            let same_row : u.round ≡ r = ap (λ (w : BftUnit). w.round) same_b ∙ row in
            let member : In g (extended_at b.rounds b.extended r) =
              subst (λ j. In g (extended_at b.rounds b.extended j)) same_row
                (nb.valid.listed g u known) in
            let out_b : Decision crypto.hash_byte (look b.extended) n g false =
              rw nb.size at (y.first.earlier g member l) in
            cc (
              Decision-agree closed faults crypto.hash_byte closed_a closed_b na.within nb.within g
                true false in_a out_b)
      ]

  -- Two nodes that hold parts of one closed graph with at most `f` faulty creators, and have each chosen a
  -- head of round `r`, have chosen the same.
  pub Chosen-agree :
      (a b : Engine D) (r g h : ℕ)
      → Node crypto whole n a
      → Node crypto whole n b
      → Chosen crypto a r g
      → Chosen crypto b r h
      → g ≡ h
  Chosen-agree a b r g h na nb x y = elim (dec_lt g h) [
    | yes l ↦ absurd (not_before a b r g h na nb x y l)
    | no l ↦ elim (dec_lt h g) [
      | yes k ↦ absurd (not_before b a r h g nb na y x k)
      | no k ↦ omega arith
    ]
  ]
