-- ===== src/Bft/Extender/Order.antt =====
-- Histories of the rounds that the extender of picomint-bft/src/extender.rs commits.
use picomint.Prelude.{
  ℕ, ◌+◌, ◌<◌, ◌≤◌, ◌^◌, ◌≡◌, Bool, true, Option, some, List, [], ◌++◌, arith, sym, ◌∙◌, ap, inl,
  inr, >>=-eq-some, Option-cases,
}
use mathlib.Core.Path.{subst, ap₂}
use picomint.Collections.BTreeMap.{BTreeMap}
use picomint.Collections.BTreeSet.{BTreeSet}
use picomint.Nodes.{NumNodes}
use picomint.Bft.Units.{BftUnit, u32}
use picomint.Bft.Dag.{IsClosed, Faults, Within}
use picomint.Bft.Vote.{Votes}
use picomint.Bft.State.{Engine, Crypto}
use picomint.Bft.Extender.{bfs_batch, emit_all, commit, extend_round}
use picomint.Bft.Extender.Inv.{look, Below, IsValid}
use picomint.Bft.Extender.Decide.{cached}
use picomint.Bft.Extender.Head.{Chosen, choose_head-Chooses}
use picomint.Bft.Extender.Agreement.{Node, Chosen-agree}
use picomint.Bft.Extender.Batch.{
  Stores, transcript, bfs_batch_agree, emit_all-emitting, emit_all-ordered,
}

module _ {D : Type 0} (crypto : Crypto D) (limit : ℕ) where
  -- `commit`, taken apart.
  pub record Parts (e : Engine D) (head : ℕ) (e' : Engine D) : Type 0 where
    pub marked : BTreeSet
    pub batch : List ℕ
    pub found : bfs_batch limit e.extended e.emitted head ≡ some (marked, batch)
    pub last : Engine D
    pub sent : emit_all crypto limit batch (record e { emitted = marked }) ≡ some last
    pub result : e' ≡ record last { next_decide_round = u32 (last.next_decide_round + 1) }

  pub commit-Parts :
      (e : Engine D) (head : ℕ) (e' : Engine D)
      → commit crypto limit e head ≡ some e'
      → Parts e head e'
  unfolding commit
  commit-Parts e head e' p =
      let (b, found, p') = >>=-eq-some (bfs_batch limit e.extended e.emitted head) _ p in
      let (last, sent, q) =
        >>=-eq-some (emit_all crypto limit b.1 (record e { emitted = b.0 })) _ p' in
      record {
        marked = b.0;
        batch = b.1;
        found = found;
        last = last;
        sent = sent;
        result = ground arith;
      }

  -- A round of `run_extender` that commits, taken apart.
  pub record Commits (e e' : Engine D) : Type 0 where
    pub head : ℕ
    pub chosen : Chosen crypto e e.next_decide_round head
    pub votes : Votes
    pub decided : BTreeMap (Bool × ℕ)
    pub valid : IsValid crypto (cached e votes decided)
    pub parts : Parts (cached e votes decided) head e'

  pub extend_round-Commits :
      (top : ℕ) (e e' : Engine D)
      → IsValid crypto e
      → Below (look e.extended) top
      → top ≤ limit
      → e.next_decide_round + 3 < 2 ^ 32
      → extend_round crypto limit e ≡ some (true, e')
      → Commits e e'
  unfolding extend_round
  extend_round-Commits top e e' valid below big small p =
      let x = choose_head-Chooses crypto limit top e.next_decide_round e valid below big small in
      elim (Option-cases x.head) [
        | inl missing ↦ absurd (ground (arith, x.answer))
        | inr (head, elected) ↦
            let done : commit crypto limit (cached e x.votes x.decided) head ≡ some e' =
              ground (arith, x.answer) in
            record {
              head = head;
              chosen = x.chosen head elected;
              votes = x.votes;
              decided = x.decided;
              valid = x.valid;
              parts = commit-Parts (cached e x.votes x.decided) head e' done;
            }
      ]

  -- A node's history: it starts empty, its set of extended units grows, and it commits rounds.
  -- `whole` is every unit that some node has extended, and `payload` what each hash stands for.
  module _ (whole : ℕ → Option BftUnit) (payload : ℕ → List D) (n : NumNodes) where
    pub record Sane (e : Engine D) : Type 0 where
      pub node : Node crypto whole n e
      pub stores : Stores crypto limit payload e
      pub top : ℕ
      pub below : Below (look e.extended) top
      pub fuel : top ≤ limit

    pub record SameLog (a b : Engine D) : Type 0 where
      pub emitted : a.emitted ≡ b.emitted
      pub ordered : a.ordered ≡ b.ordered
      pub cursor : a.next_decide_round ≡ b.next_decide_round

    -- What a commit does to the log.
    pub record Advance (e e' : Engine D) (marked : BTreeSet) (batch : List ℕ) : Type 0 where
      pub emitted : e'.emitted ≡ marked
      pub ordered : e'.ordered ≡ e.ordered ++ transcript crypto limit whole payload batch
      pub cursor : e'.next_decide_round ≡ u32 (e.next_decide_round + 1)

    Parts-Advance :
        (e e' : Engine D) (head : ℕ)
        → Within (look e.extended) whole
        → Stores crypto limit payload e
        → (x : Parts e head e') → Advance e e' x.marked x.batch
    Parts-Advance e e' head inside stores x =
        let from : Engine D = record e { emitted = x.marked } in
        let same = emit_all-emitting crypto limit x.batch from x.last x.sent in
        record {
          emitted =
              ap (λ (z : Engine D). z.emitted) x.result ∙ ap (λ (z : Engine D). z.emitted) same;
          ordered =
              ap (λ (z : Engine D). z.ordered) x.result
              ∙ emit_all-ordered crypto limit x.batch from x.last inside stores x.sent;
          cursor =
              ap (λ (z : Engine D). z.next_decide_round) x.result
              ∙ ap (λ (z : Engine D). u32 (z.next_decide_round + 1)) same;
        }

    pub data History : Engine D → Type 0 where
      start : (e : Engine D) → e.emitted ≡ [] → e.ordered ≡ [] → e.next_decide_round ≡ 0 → History e
      grow : (e e' : Engine D) → History e → SameLog e e' → History e'
      commits :
          (e e' : Engine D)
          → History e
          → Sane e
          → e.next_decide_round + 3 < 2 ^ 32
          → extend_round crypto limit e ≡ some (true, e')
          → History e'

  module _ {whole : ℕ → Option BftUnit} {payload : ℕ → List D} {n : NumNodes} where
    SameLog-trans :
        {a b c : Engine D}
        → SameLog whole payload n a b
        → SameLog whole payload n b c
        → SameLog whole payload n a c
    SameLog-trans s t = record {
      emitted = s.emitted ∙ t.emitted;
      ordered = s.ordered ∙ t.ordered;
      cursor = s.cursor ∙ t.cursor;
    }

    SameLog-sym : {a b : Engine D} → SameLog whole payload n a b → SameLog whole payload n b a
    SameLog-sym s = record {
      emitted = sym s.emitted;
      ordered = sym s.ordered;
      cursor = sym s.cursor;
    }

    Commits-cursor :
        (e e' : Engine D)
        → Sane whole payload n e
        → Commits e e'
        → e'.next_decide_round ≡ u32 (e.next_decide_round + 1)
    Commits-cursor e e' sane x =
        (Parts-Advance whole payload n (cached e x.votes x.decided) e' x.head sane.node.within
          sane.stores x.parts).cursor

    taken_apart :
        (e e' : Engine D)
        → Sane whole payload n e
        → e.next_decide_round + 3 < 2 ^ 32
        → extend_round crypto limit e ≡ some (true, e')
        → Commits e e'
    taken_apart e e' sane small p =
        extend_round-Commits sane.top e e' sane.node.valid sane.below sane.fuel small p

    module _ {honest : ℕ → Bool} (closed : IsClosed n whole) (faults : Faults n honest whole) where
      -- Two nodes with one log that both commit have one log again.
      commit_agree :
          (a a' b b' : Engine D)
          → Sane whole payload n a
          → Sane whole payload n b
          → SameLog whole payload n a b
          → Commits a a'
          → Commits b b'
          → SameLog whole payload n a' b'
      commit_agree a a' b b' sa sb log x y =
          let chosen_b : Chosen crypto b a.next_decide_round y.head =
            subst (λ r. Chosen crypto b r y.head) (sym log.cursor) y.chosen in
          let same_head =
            Chosen-agree crypto closed faults a b a.next_decide_round x.head y.head sa.node sb.node
              x.chosen chosen_b in
          let found_b : bfs_batch limit b.extended a.emitted x.head
              ≡ some (y.parts.marked, y.parts.batch) =
            rw (log.emitted, same_head) y.parts.found in
          let same : (x.parts.marked, x.parts.batch) ≡ (y.parts.marked, y.parts.batch) =
            bfs_batch_agree a.extended b.extended sa.node.within sb.node.within limit limit
              a.emitted x.head _ _ x.parts.found found_b in
          let p =
            Parts-Advance whole payload n (cached a x.votes x.decided) a' x.head sa.node.within
              sa.stores x.parts in
          let q =
            Parts-Advance whole payload n (cached b y.votes y.decided) b' y.head sb.node.within
              sb.stores y.parts in
          record {
            emitted = p.emitted ∙ ap (λ (z : BTreeSet × List ℕ). z.0) same ∙ sym q.emitted;
            ordered =
                p.ordered
                ∙ ap₂ (λ l (z : BTreeSet × List ℕ). l ++ transcript crypto limit whole payload z.1)
                    log.ordered same
                ∙ sym q.ordered;
            cursor = p.cursor ∙ ap (λ r. u32 (r + 1)) log.cursor ∙ sym q.cursor;
          }

      -- The total order. The units that all nodes extend form a closed graph with at most `f` faulty
      -- creators, and honest creators sign one unit in a round. Two nodes with histories in that graph,
      -- which have committed the same number of rounds, have the same emitted set and have sent the same
      -- items in the same order, whatever units each held at each commit.
      pub History_agree :
          (a b : Engine D)
          → History whole payload n a
          → History whole payload n b
          → a.next_decide_round ≡ b.next_decide_round
          → SameLog whole payload n a b
      History_agree a b (start _ ea oa ca) (start _ eb ob cb) h = record {
        emitted = ea ∙ sym eb;
        ordered = oa ∙ sym ob;
        cursor = h;
      }
      History_agree a b (start _ ea oa ca) (grow e _ hb s) h =
          SameLog-trans (History_agree a e (start a ea oa ca) hb (h ∙ sym s.cursor)) s
      History_agree a b (start _ ea oa ca) (commits e _ hb sane small p) h =
          absurd (omega (arith, Commits-cursor e b sane (taken_apart e b sane small p)))
      History_agree a b (grow e _ ha s) hb h =
          SameLog-trans (SameLog-sym s) (History_agree e b ha hb (s.cursor ∙ h))
      History_agree a b (commits e _ ha sane small p) (start _ eb ob cb) h =
          absurd (omega (arith, Commits-cursor e a sane (taken_apart e a sane small p)))
      History_agree a b (commits e _ ha sane small p) (grow e2 _ hb s) h =
          SameLog-trans (History_agree a e2 (commits e a ha sane small p) hb (h ∙ sym s.cursor)) s
      History_agree a b (commits e _ ha sane small p) (commits e2 _ hb sane2 small2 p2) h =
          let x = taken_apart e a sane small p in
          let y = taken_apart e2 b sane2 small2 p2 in
          commit_agree e a e2 b sane sane2
            (History_agree e e2 ha hb
              (omega (arith, Commits-cursor e a sane x, Commits-cursor e2 b sane2 y)))
            x y
