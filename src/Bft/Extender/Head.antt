-- ===== src/Bft/Extender/Head.antt =====
-- `choose_head` of picomint-bft/src/extender.rs: it answers, and a head that it answers is the first
-- unit of its round that is decided in.
use picomint.Prelude.{
  ℕ, suc, ◌+◌, ◌≤◌, ◌<◌, ◌^◌, ◌≡◌, refl, Bool, true, false, Option, none, some, List, [], ◌∷◌, All,
  In, arith, inl, inr, some_unique, ◌⊎◌, List-cases,
}
use picomint.Collections.BTreeMap.{BTreeMap}
use picomint.Collections.BTreeSet.{SortedFrom}
use native.Mathlib.Nat.{le_refl}
use picomint.Nodes.{NumNodes}
use picomint.Bft.Units.{BftUnit, u32}
use picomint.Bft.Vote.{Votes}
use picomint.Bft.State.{Engine, Crypto, extended_at}
use picomint.Bft.Extender.{walk, choose_head}
use picomint.Bft.Extender.Inv.{look, Decision, IsAt, Below, IsValid}
use picomint.Bft.Extender.Decide.{cached, decide-Decides}

In-SortedFrom : (lo h : ℕ) (xs : List ℕ) → SortedFrom lo xs → In h xs → lo ≤ h
In-SortedFrom lo h [] s m = absurd m
In-SortedFrom lo h (x ∷ xs) s (inl e) = omega arith
In-SortedFrom lo h (x ∷ xs) s (inr m) = omega (arith, In-SortedFrom (suc x) h xs s.1 m)

verdict_cases : (o : Option Bool) → (o ≡ none) ⊎ (o ≡ some true) ⊎ (o ≡ some false)
verdict_cases none = inl refl
verdict_cases (some true) = inr (inl refl)
verdict_cases (some false) = inr (inr refl)

module _ (hash_byte : ℕ → ℕ → ℕ) (lk : ℕ → Option BftUnit) (n : NumNodes) where
  -- The first member of a row that is decided in, all before it being decided out.
  pub record IsFirst (row : List ℕ) (h : ℕ) : Type 0 where
    pub member : In h row
    pub decided_in : Decision hash_byte lk n h true
    pub earlier : (g : ℕ) → In g row → g < h → Decision hash_byte lk n g false

  IsFirst-head :
      (lo c : ℕ) (cs : List ℕ)
      → SortedFrom lo (c ∷ cs)
      → Decision hash_byte lk n c true
      → IsFirst (c ∷ cs) c
  IsFirst-head lo c cs asc x = record {
    member = inl refl;
    decided_in = x;
    earlier = λ g m l. absurd (omega (arith, In-SortedFrom c g (c ∷ cs) (le_refl c, asc.1) m));
  }

  later_head :
      (c h : ℕ) (cs : List ℕ) → Decision hash_byte lk n c false → IsFirst cs h → IsFirst (c ∷ cs) h
  later_head c h cs x f = record {
    member = inr f.member;
    decided_in = f.decided_in;
    earlier = λ g m l. go g l m;
  }
    where
      go : (g : ℕ) → g < h → In g (c ∷ cs) → Decision hash_byte lk n g false
      go g l (inl e) = rw e x
      go g l (inr m) = f.earlier g m l

module _ {D : Type 0} (crypto : Crypto D) where
  -- The answer of `walk` and of `choose_head`: only the caches change.
  pub record Chooses (e : Engine D) (Post : ℕ → Type 0) (r : Option (Option ℕ × Engine D))
      : Type 0 where
    pub head : Option ℕ
    pub votes : Votes
    pub decided : BTreeMap (Bool × ℕ)
    pub answer : r ≡ some (head, cached e votes decided)
    pub valid : IsValid crypto (cached e votes decided)
    pub chosen : (h : ℕ) → head ≡ some h → Post h

  -- What `choose_head` has seen when it answers a head of round `r`.
  pub record Chosen (e : Engine D) (r h : ℕ) : Type 0 where
    pub first : IsFirst crypto.hash_byte (look e.extended) e.n (extended_at e.rounds e.extended r) h
    pub witness : ℕ
    pub tall : IsAt (look e.extended) (r + 3) witness

  module _ (limit : ℕ) where
    abbrev FirstIn : Engine D → List ℕ → ℕ → Type 0
    FirstIn e = IsFirst crypto.hash_byte (look e.extended) e.n

    walk-Chooses :
        (row : List ℕ) (top lo r : ℕ) (e : Engine D)
        → IsValid crypto e
        → Below (look e.extended) top
        → top ≤ limit
        → All (IsAt (look e.extended) r) row
        → SortedFrom lo row
        → Chooses e (FirstIn e row) (walk crypto limit row e)
    unfolding walk
    walk-Chooses [] top lo r e valid below big at asc = record {
      head = none;
      votes = e.votes;
      decided = e.decided;
      answer = refl;
      valid = valid;
      chosen = λ h q. cc;
    }
    walk-Chooses (c ∷ cs) top lo r e valid below big at asc =
        let (cand, ec, _) = at.0 in
        let x = decide-Decides crypto limit top c cand e valid ec below big in
        elim (verdict_cases x.bit) [
          | inl q ↦ record {
            head = none;
            votes = x.votes;
            decided = x.decided;
            answer = ground (arith, x.answer);
            valid = x.valid;
            chosen = λ h p. cc;
          }
          | inr (inl q) ↦ record {
            head = some c;
            votes = x.votes;
            decided = x.decided;
            answer = ground (arith, x.answer);
            valid = x.valid;
            chosen = λ h p. rw (← (some_unique c h refl p)) (
                IsFirst-head crypto.hash_byte (look e.extended) e.n lo c cs asc
                  (x.decision true q));
          }
          | inr (inr q) ↦
              let y =
                walk-Chooses cs top (suc c) r (cached e x.votes x.decided) x.valid below big at.1
                  asc.1 in
              record {
                head = y.head;
                votes = y.votes;
                decided = y.decided;
                answer = ground (arith, x.answer, y.answer);
                valid = y.valid;
                chosen = λ h p.
                    later_head crypto.hash_byte (look e.extended) e.n c h cs (x.decision false q)
                      (y.chosen h p);
              }
        ]

    -- With fuel for every extended round `choose_head` answers, and keeps the caches sound.
    pub choose_head-Chooses :
        (top r : ℕ) (e : Engine D)
        → IsValid crypto e
        → Below (look e.extended) top
        → top ≤ limit
        → r + 3 < 2 ^ 32
        → Chooses e (Chosen e r) (choose_head crypto limit e r)
    unfolding choose_head
    choose_head-Chooses top r e valid below big small =
        let wrap : u32 (r + 3) ≡ r + 3 = omega arith in
        elim (List-cases (extended_at e.rounds e.extended (r + 3))) [
          | inl empty ↦ record {
            head = none;
            votes = e.votes;
            decided = e.decided;
            answer = ground arith;
            valid = valid;
            chosen = λ h q. cc;
          }
          | inr (w, ws, tall) ↦
              let x =
                walk-Chooses (extended_at e.rounds e.extended r) top 0 r e valid below big
                  (valid.indexed r) (valid.ascending r) in
              record {
                head = x.head;
                votes = x.votes;
                decided = x.decided;
                answer = ground (arith, x.answer);
                valid = x.valid;
                chosen = λ h q. record {
                  first = x.chosen h q;
                  witness = w;
                  tall = (rw tall at (valid.indexed (r + 3))).0;
                };
              }
        ]
