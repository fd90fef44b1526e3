-- ===== src/Tests/Facts.antt =====
-- The two nodes of the test graph of picomint-bft meet what the theorems ask of them.
use picomint.Prelude.{
  ℕ, ◌+◌, ◌*◌, ◌≡◌, ◌<◌, refl, Bool, true, some, List, [], ◌∷◌, ltb, inl, inr, Bool-cases, arith,
  ◌==◌, ◌&&◌, all,
}
use picomint.Collections.BTreeMap
use picomint.Collections.BTreeMap.{BTreeMap}
use picomint.Nodes.{tally}
use picomint.Bft.Units.{BftUnit}
use picomint.Bft.Dag.{IsClosed, Faults, Within}
use picomint.Bft.Extender.Inv.{look, Below, IsValid}
use picomint.Bft.Extender.Agreement.{Node}
use picomint.Bft.Extender.Order.{Sane}
use picomint.Bft.Engine.Inv.{Inv-IsValid, Tall-Below}
use picomint.Bft.Engine.Kept.{Steady, Kept, any_property}
use picomint.Bft.Engine.Replay.{Saved, indexed-Kept, extend_all-Kept}
use picomint.Tests.Checks.{
  admissible, admissible-Admitted, tested, well_parented-IsClosed, get-append,
}
use picomint.Tests.Graph.{
  mint_of_four, made, graph, part, toy_crypto, toy_keychain, payloads, signatures, full_node,
  part_node, full_node_runs, part_node_runs,
}

pub graph-IsClosed : IsClosed mint_of_four (look graph)
unfolding BTreeMap.get
graph-IsClosed = well_parented-IsClosed mint_of_four graph refl

abbrev pub all_honest : ℕ → Bool
all_honest i = true

-- In the graph the hash tells round and creator.
hash_of :
    (h : ℕ) (u : BftUnit) → BTreeMap.get h graph ≡ some u → (h == 10 * u.round + u.creator) ≡ true
hash_of h u k = tested (λ g w. g == 10 * w.round + w.creator) graph h u refl k

pub graph-Faults : Faults mint_of_four all_honest (look graph)
graph-Faults = record {
  few = unfold tally in omega arith;
  single = λ g h u w kg kh r c hon. ground (arith, hash_of g u kg, hash_of h w kh);
}

pub part-IsClosed : IsClosed mint_of_four (look part)
unfolding BTreeMap.get
part-IsClosed = well_parented-IsClosed mint_of_four part refl

pub part-Within : Within (look part) (look graph)
part-Within h u k = get-append h u part ((32, made 3 2) ∷ []) k

payload-paid :
    (units : BTreeMap BftUnit) (h : ℕ) (items : List ℕ)
    → BTreeMap.get h (payloads units) ≡ some items
    → (u : BftUnit) × (BTreeMap.get h units ≡ some u)
unfolding BTreeMap.get
payload-paid [] h items k = absurd (ground arith)
payload-paid ((g, w) ∷ units) h items k = elim (Bool-cases (g == h)) [
  | inl same ↦ (w, ground arith)
  | inr apart ↦ let (u, row) = payload-paid units h items (ground arith) in (u, ground arith)
]

pub Saved-as :
    (units : BTreeMap BftUnit)
    → all (λ e. admissible mint_of_four e.1 && ltb (e.1.round + 1) 9) units ≡ true
    → BTreeMap.SortedFrom 0 units
    → Saved mint_of_four units (payloads units) 9
Saved-as units ok sorted = record {
  mint = omega arith;
  sorted = sorted;
  admitted = λ h u k.
      let one = tested (λ g w. admissible mint_of_four w && ltb (w.round + 1) 9) units h u ok k in
      admissible-Admitted mint_of_four u (first _ _ one);
  tall = λ h u k.
      let one = tested (λ g w. admissible mint_of_four w && ltb (w.round + 1) 9) units h u ok k in
      second _ _ one;
  paid = payload-paid units;
}
  where
    first : (a b : Bool) → (a && b) ≡ true → a ≡ true
    first a b h = ground arith

    second : (a : Bool) (r : ℕ) → (a && ltb r 9) ≡ true → r < 9
    second a r h = ground arith

pub graph-Saved : Saved mint_of_four graph (payloads graph) 9
graph-Saved = Saved-as graph refl (ground arith)

full_node-Kept : Kept toy_crypto 9 (λ e. Unit) full_node
full_node-Kept =
    extend_all-Kept toy_crypto 9 9 (any_property toy_crypto 9 9) (0 ∷ 1 ∷ 2 ∷ []) _ full_node
      (indexed-Kept toy_crypto 9 0 5 mint_of_four toy_keychain graph (payloads graph)
        (signatures graph) (λ e. Unit) tt graph-Saved)
      full_node_runs

pub full_node-Steady : Steady toy_crypto 9 full_node
full_node-Steady = (full_node-Kept.0, full_node-Kept.1)

part_node-Kept : Kept toy_crypto 9 (λ e. Unit) part_node
part_node-Kept =
    extend_all-Kept toy_crypto 9 9 (any_property toy_crypto 9 9) (0 ∷ 1 ∷ 2 ∷ []) _ part_node
      (indexed-Kept toy_crypto 9 0 5 mint_of_four toy_keychain part (payloads part)
        (signatures part) (λ e. Unit) tt (Saved-as part refl (ground arith)))
      part_node_runs

pub part_node-Steady : Steady toy_crypto 9 part_node
part_node-Steady = (part_node-Kept.0, part_node-Kept.1)

pub full_node-IsValid : IsValid toy_crypto full_node
full_node-IsValid = Inv-IsValid toy_crypto full_node full_node-Steady.0

pub part_node-IsValid : IsValid toy_crypto part_node
part_node-IsValid = Inv-IsValid toy_crypto part_node part_node-Steady.0

pub full_node-Node : Node toy_crypto (look graph) mint_of_four full_node
full_node-Node = record { valid = full_node-IsValid; size = refl; within = λ h u k. k }

pub part_node-Node : Node toy_crypto (look graph) mint_of_four part_node
part_node-Node = record { valid = part_node-IsValid; size = refl; within = part-Within }

pub full_node_Below : Below (look full_node.extended) 9
full_node_Below = Tall-Below full_node 9 full_node-Steady.0.tables full_node-Steady.1

pub part_node_Below : Below (look part_node.extended) 9
part_node_Below = Tall-Below part_node 9 part_node-Steady.0.tables part_node-Steady.1

-- The payload of a unit is its own hash.
abbrev pub own_hash : ℕ → List ℕ
own_hash h = h ∷ []

payload-own :
    (units : BTreeMap BftUnit) (h : ℕ) (items : List ℕ)
    → BTreeMap.get h (payloads units) ≡ some items
    → own_hash h ≡ items
unfolding BTreeMap.get
payload-own [] h items k = absurd (ground arith)
payload-own (e ∷ units) h items k = ground (arith, payload-own units h items)

pub full_node-Sane : Sane toy_crypto 9 (look graph) own_hash mint_of_four full_node
full_node-Sane = record {
  node = full_node-Node;
  stores = payload-own graph;
  top = 9;
  below = full_node_Below;
  fuel = omega arith;
}

pub part_node-Sane : Sane toy_crypto 9 (look graph) own_hash mint_of_four part_node
part_node-Sane = record {
  node = part_node-Node;
  stores = payload-own part;
  top = 9;
  below = part_node_Below;
  fuel = omega arith;
}
