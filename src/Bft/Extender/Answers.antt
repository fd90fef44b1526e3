-- ===== src/Bft/Extender/Answers.antt =====
-- What the answers of `decide` and `choose_head` of picomint-bft/src/extender.rs at one node say of those at
-- another.
use picomint.Prelude.{
  ℕ, ◌+◌, ◌≤◌, ◌<◌, ◌^◌, ◌≡◌, Bool, true, false, Option, none, some, sym, ap, ◌∙◌, inl, inr,
  Bool-cases, some_unique,
}
use picomint.Nodes.{NumNodes}
use picomint.Bft.Units.{BftUnit}
use picomint.Bft.Dag.{IsClosed, Faults}
use picomint.Bft.Ballot.Within.{Certificate-Within}
use picomint.Bft.State.{Engine, Crypto}
use picomint.Bft.Extender.{decide, choose_head}
use picomint.Bft.Extender.Inv.{look, Decision, Below}
use picomint.Bft.Extender.Agreement.{Node, Decision-agree, Chosen-agree}
use picomint.Bft.Extender.Promises.{decide-Decision, choose_head-Chosen, unseen_candidate}

module _ {D : Type 0} (crypto : Crypto D) (limit top : ℕ) {whole : ℕ → Option BftUnit}
    {n : NumNodes} {honest : ℕ → Bool} (closed : IsClosed n whole)
    (faults : Faults n honest whole) where
  Node-Decision :
      (e e' : Engine D) (c : ℕ) (cand : BftUnit) (v : Bool)
      → Node crypto whole n e
      → look e.extended c ≡ some cand
      → Below (look e.extended) top
      → top ≤ limit
      → decide crypto limit e c ≡ some (some v, e')
      → Decision crypto.hash_byte (look e.extended) n c v
  Node-Decision e e' c cand v node held below big p =
      rw node.size at (decide-Decision crypto limit top e e' c cand v node.valid held below big p)

  -- Two nodes hold valid states, whose extended units lie in one closed graph with at most `f` faulty
  -- creators and are of rounds below the fuel. Where `decide` returns a bit at both on a candidate that
  -- both have extended, it is the same bit.
  pub decide_agree :
      (a a' b b' : Engine D) (c : ℕ) (cand cand' : BftUnit) (v w : Bool)
      → Node crypto whole n a
      → Node crypto whole n b
      → look a.extended c ≡ some cand
      → look b.extended c ≡ some cand'
      → Below (look a.extended) top
      → Below (look b.extended) top
      → top ≤ limit
      → decide crypto limit a c ≡ some (some v, a')
      → decide crypto limit b c ≡ some (some w, b')
      → v ≡ w
  decide_agree a a' b b' c cand cand' v w na nb ka kb low_a low_b big p q =
      Decision-agree closed faults crypto.hash_byte (rw na.size at na.valid.closed)
        (rw nb.size at nb.valid.closed) na.within nb.within c v w
        (Node-Decision a a' c cand v na ka low_a big p)
        (Node-Decision b b' c cand' w nb kb low_b big q)

  -- Two nodes hold valid states, whose extended units lie in one closed graph with at most `f` faulty
  -- creators and are of rounds below the fuel. Where one has not extended a candidate, but has extended a
  -- unit three rounds above it, a bit that `decide` returns on the candidate at the other is 0.
  pub decide-unseen :
      (a b b' : Engine D) (c w : ℕ) (cand tall : BftUnit) (v : Bool)
      → Node crypto whole n a
      → Node crypto whole n b
      → look a.extended c ≡ none
      → look a.extended w ≡ some tall
      → tall.round ≡ cand.round + 3
      → look b.extended c ≡ some cand
      → Below (look b.extended) top
      → top ≤ limit
      → decide crypto limit b c ≡ some (some v, b')
      → v ≡ false
  decide-unseen a b b' c w cand tall v na nb absent held up kb low big p = elim (Bool-cases v) [
    | inr out ↦ out
    | inl decided ↦
        let x : Decision crypto.hash_byte (look b.extended) n c true =
          rw decided at (Node-Decision b b' c cand v nb kb low big p) in
        let same : x.cand ≡ cand = some_unique x.cand cand x.known kb in
        absurd (
          unseen_candidate crypto.hash_byte n honest (look a.extended) whole c w x.cand tall
            (rw na.size at na.valid.closed) na.within absent closed faults held
            (up ∙ ap (λ (u : BftUnit). u.round + 3) (sym same)) x.depth
            (Certificate-Within (rw nb.size at nb.valid.closed) nb.within crypto.hash_byte c x.cand
              x.certificate))
  ]

  -- Two nodes hold valid states, whose extended units lie in one closed graph with at most `f` faulty
  -- creators and are of rounds below the fuel. Where `choose_head` returns a head of a round at both, with
  -- the round three up within 32 bits, it is the same head.
  pub choose_head_agree :
      (a a' b b' : Engine D) (r g h : ℕ)
      → Node crypto whole n a
      → Node crypto whole n b
      → Below (look a.extended) top
      → Below (look b.extended) top
      → top ≤ limit
      → r + 3 < 2 ^ 32
      → choose_head crypto limit a r ≡ some (some g, a')
      → choose_head crypto limit b r ≡ some (some h, b')
      → g ≡ h
  choose_head_agree a a' b b' r g h na nb low_a low_b big small p q =
      Chosen-agree crypto closed faults a b r g h na nb
        (choose_head-Chosen crypto limit top a a' r g na.valid low_a big small p)
        (choose_head-Chosen crypto limit top b b' r h nb.valid low_b big small q)
