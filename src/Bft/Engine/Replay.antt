-- ===== src/Bft/Engine/Replay.antt =====
-- `replay` of picomint-bft/src/engine.rs rebuilds what the engine keeps from its tables.
use picomint.Prelude.{
  ℕ, suc, ◌+◌, ◌≤◌, ◌<◌, ◌≡◌, refl, Bool, true, false, some, List, [], ◌∷◌, arith, sym, ◌∙◌, ap,
  inl, inr, Bool-cases, >>=-eq-some, ◌||◌, ◌&&◌, ◌==◌,
}
use mathlib.Core.Path.{subst}
use picomint.Collections.BTreeMap
use picomint.Collections.BTreeMap.{BTreeMap, contains_key, values}
use picomint.Collections.BTreeSet
use picomint.Collections.PairMap
use picomint.Collections.BTreeSet.{BTreeSet}
use picomint.Nodes.{NumNodes, max_evil}
use picomint.Bft.Units.{BftUnit}
use picomint.Bft.State.{Engine, Crypto, Keychain, new, round_units}
use picomint.Bft.Engine.{try_extend}
use picomint.Bft.Engine.Run.{index_unit, index_units, extend_all, replay}
use picomint.Bft.Engine.Inv.{Admitted, Inv, Tall}
use picomint.Bft.Engine.Store.{row-contains, row-SortedFrom}
use picomint.Bft.Engine.Sweep.{try_extend-Inv}
use picomint.Bft.Engine.Advance.{run_extender-Inv}
use picomint.Bft.Engine.Kept.{Kept, Carried}

-- Whether a table has the unit `h` of round `r`.
abbrev holds : ℕ → ℕ → BTreeMap BftUnit → Bool
holds h r [] = false
holds h r ((k, u) ∷ rows) = (u.round == r && k == h) || holds h r rows

holds→get :
    (lo h r : ℕ) (rows : BTreeMap BftUnit)
    → BTreeMap.SortedFrom lo rows
    → holds h r rows ≡ true
    → (lo ≤ h) × (u : BftUnit) × (BTreeMap.get h rows ≡ some u) × (u.round ≡ r)
unfolding BTreeMap.get
holds→get lo h r [] asc p = absurd (ground arith)
holds→get lo h r ((k, u) ∷ rows) asc p = elim (Bool-cases (u.round == r && k == h)) [
  | inl here ↦ (ground (arith, asc.0), u, ground arith, ground arith)
  | inr later ↦
      let (above, w, found, row) = holds→get (suc k) h r rows asc.1 (ground arith) in
      (omega (arith, asc.0), w, ground arith, row)
]

get→holds :
    (h : ℕ) (u : BftUnit) (rows : BTreeMap BftUnit)
    → BTreeMap.get h rows ≡ some u
    → holds h u.round rows ≡ true
unfolding BTreeMap.get
get→holds h u [] p = absurd (ground arith)
get→holds h u ((k, w) ∷ rows) p = ground (arith, get→holds h u rows)

module _ {D : Type 0} where
  abbrev pub indexed : Engine D → Engine D → Engine D
  indexed e z = record e {
    rounds = z.rounds;
    unordered_own_data = z.unordered_own_data;
    own_top = z.own_top;
  }

  pub index_units-indexed :
      (rows : BTreeMap BftUnit) (e : Engine D) → index_units rows e ≡ indexed e (index_units rows e)
  unfolding index_units
  index_units-indexed [] e = refl
  index_units-indexed ((h, u) ∷ rows) e = index_units-indexed rows (index_unit h u e)

  index_units-contains :
      (rows : BTreeMap BftUnit) (e : Engine D) (h r : ℕ)
      → BTreeSet.contains h (round_units r (index_units rows e).rounds)
        ≡ holds h r rows || BTreeSet.contains h (round_units r e.rounds)
  unfolding index_units
  index_units-contains [] e h r = refl
  index_units-contains ((k, u) ∷ rows) e h r =
      index_units-contains rows (index_unit k u e) h r
      ∙ ap (λ b. holds h r rows || b) (row-contains u.round r k h e.rounds)
      ∙ ground arith

  index_units-SortedFrom :
      (rows : BTreeMap BftUnit) (e : Engine D)
      → ((r : ℕ) → BTreeSet.SortedFrom 0 (round_units r e.rounds))
      → (r : ℕ) → BTreeSet.SortedFrom 0 (round_units r (index_units rows e).rounds)
  unfolding index_units
  index_units-SortedFrom [] e asc r = asc r
  index_units-SortedFrom ((k, u) ∷ rows) e asc r =
      index_units-SortedFrom rows (index_unit k u e)
        (λ q. row-SortedFrom u.round q k e.rounds (asc q)) r

-- What the database holds when a node starts.
pub record Saved {D : Type 0} (n : NumNodes) (units : BTreeMap BftUnit)
    (payloads : BTreeMap (List D)) (top : ℕ) : Type 0 where
  pub mint : 1 ≤ max_evil n
  pub sorted : BTreeMap.SortedFrom 0 units
  pub admitted : (h : ℕ) (u : BftUnit) → BTreeMap.get h units ≡ some u → Admitted n u
  pub tall : (h : ℕ) (u : BftUnit) → BTreeMap.get h units ≡ some u → u.round + 1 < top
  pub paid :
      (h : ℕ) (items : List D)
      → BTreeMap.get h payloads ≡ some items
      → (u : BftUnit) × (BTreeMap.get h units ≡ some u)

module _ {D : Type 0} (crypto : Crypto D) (top id session : ℕ) (n : NumNodes) (keychain : Keychain)
    (units : BTreeMap BftUnit) (payloads : BTreeMap (List D)) (signatures : BTreeMap ℕ) where
  abbrev start : Engine D
  start = new id session n keychain units payloads signatures

  start-contains :
      (h r : ℕ)
      → BTreeSet.contains h (round_units r (index_units units start).rounds)
        ≡ holds h r units || false
  start-contains h r =
      index_units-contains units start h r ∙ unfold BTreeMap.get BTreeSet.contains in refl

  pub indexed-Kept :
      (X : Engine D → Type 0)
      → X (index_units units start)
      → Saved n units payloads top
      → Kept crypto top X (index_units units start)
  indexed-Kept X xe saved =
      let z = index_units units start in
      let same : z ≡ indexed start z = index_units-indexed units start in
      let asc = index_units-SortedFrom units start (λ r. unfold BTreeMap.get in tt) in
      let (inv, tall) : Inv crypto z × Tall z top =
        subst (λ (y : Engine D). Inv crypto y × Tall y top) (sym same)
          (
            record {
              tables = record {
                mint = saved.mint;
                admitted = saved.admitted;
                stored = λ r h k.
                    let (_, u, found, row) =
                      holds→get 0 h r units saved.sorted (ground (arith, start-contains h r)) in
                    (u, found, row);
                indexed = λ h u k. ground (arith, start-contains h u.round, get→holds h u units k);
                ascending = asc;
                known = λ h u k. unfold BTreeMap.get in cc;
                paid = saved.paid;
              };
              caches = record {
                closed = record { closed = λ h u k. unfold BTreeMap.get in cc };
                sound = λ c u b k. unfold PairMap.get in cc;
                decisions = λ c v r k. unfold BTreeMap.get in cc;
                cursor = omega arith;
              };
            },
            λ h u k. (omega (arith, saved.tall h u k), λ _. saved.tall h u k),
          ) in
      (inv, tall, xe)

pub extend_all-Kept :
    {D : Type 0} (crypto : Crypto D) (limit top : ℕ) {X : Engine D → Type 0}
    (c : Carried crypto limit top X) (hashes : List ℕ) (e e' : Engine D)
    → Kept crypto top X e
    → extend_all limit hashes e ≡ some e'
    → Kept crypto top X e'
unfolding extend_all
extend_all-Kept crypto limit top {X} c [] e e' steady p =
    let same : e ≡ e' = ground arith in subst (Kept crypto top X) same steady
extend_all-Kept crypto limit top c (h ∷ hashes) e e' (inv, tall, xe) p =
    let (x, ex, p') = >>=-eq-some (try_extend limit e h) _ p in
    let (inv', grows) = try_extend-Inv crypto limit e h x ex inv in
    extend_all-Kept crypto limit top c hashes x e' (inv', rw grows.rest tall, c.grows e x grows xe)
      p'

pub replay-Kept :
    {D : Type 0} (crypto : Crypto D) (limit top : ℕ) {X : Engine D → Type 0}
    (c : Carried crypto limit top X) (id session : ℕ) (n : NumNodes) (keychain : Keychain)
    (units : BTreeMap BftUnit) (payloads : BTreeMap (List D)) (signatures : BTreeMap ℕ)
    (e : Engine D)
    → X (index_units units (new id session n keychain units payloads signatures))
    → Saved n units payloads top
    → top ≤ limit
    → replay crypto limit (new id session n keychain units payloads signatures) ≡ some e
    → Kept crypto top X e
unfolding replay
replay-Kept crypto limit top {X} c id session n keychain units payloads signatures e xe saved big
      p =
    let z = index_units units (new id session n keychain units payloads signatures) in
    let first =
      indexed-Kept crypto top id session n keychain units payloads signatures X xe saved in
    let (x, ex, p') = >>=-eq-some (extend_all limit (round_units 0 z.rounds) z) _ p in
    let (inv, tall, xx) =
      extend_all-Kept crypto limit top c (round_units 0 z.rounds) z x first ex in
    let (inv', same) = run_extender-Inv crypto limit limit top x e inv tall big p' in
    (inv', rw same tall, c.orders limit x e inv tall p' xx)
