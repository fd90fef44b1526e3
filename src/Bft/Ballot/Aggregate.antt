-- ===== src/Bft/Ballot/Aggregate.antt =====
-- `unanimous` over the values of a map, and counts that are full.
use picomint.Prelude.{
  ℕ, ◌≤◌, ◌<◌, ◌≡◌, refl, Bool, true, false, not, some, [], ◌∷◌, map, arith, all, count,
  count-le-length, All, length,
}
use picomint.Collections.BTreeMap
use picomint.Collections.BTreeMap.{BTreeMap, values}
use picomint.Bft.Vote.{unanimous}

pub length-values {ℓ} : {V : Type ℓ} (m : BTreeMap V) → length (values m) ≡ length m
length-values [] = refl
length-values (e ∷ m) = ground (arith, length-values m)

all-map :
    (f : ℕ → Bool) (m : BTreeMap ℕ) (t : Bool → Bool)
    → All (λ e. t (f e.1) ≡ true) m
    → all t (map f (values m)) ≡ true
all-map f [] t h = refl
all-map f ((k, p) ∷ m) t h = ground (arith, all-map f m t h.1)

not_all-map :
    (f : ℕ → Bool) (m : BTreeMap ℕ) (t : Bool → Bool) (k p : ℕ)
    → BTreeMap.get k m ≡ some p
    → t (f p) ≡ false
    → all t (map f (values m)) ≡ false
unfolding BTreeMap.get
not_all-map f [] t k p e h = cc
not_all-map f ((j, q) ∷ m) t k p e h = ground (arith, not_all-map f m t k p)

All_negate :
    (f : ℕ → Bool) (m : BTreeMap ℕ) → All (λ e. f e.1 ≡ false) m → All (λ e. not (f e.1) ≡ true) m
All_negate f [] h = tt
All_negate f (e ∷ m) h = (ground arith, All_negate f m h.1)

-- A vote that all parents share is taken, whatever the default.
pub unanimous_all :
    (f : ℕ → Bool) (m : BTreeMap ℕ) (v default : Bool)
    → 0 < length m
    → All (λ e. f e.1 ≡ v) m
    → unanimous (map f (values m)) default ≡ v
unanimous_all f [] v default pos h = absurd (omega arith)
unanimous_all f (e ∷ m) true default pos h = rw (all-map f (e ∷ m) (λ v. v) h, unanimous)
unanimous_all f (e ∷ m) false default pos h =
    ground (arith, all-map f (e ∷ m) (λ v. not v) (All_negate f (e ∷ m) h))

-- A parent that votes for the default is enough.
pub unanimous_one :
    (f : ℕ → Bool) (m : BTreeMap ℕ) (v : Bool) (k p : ℕ)
    → BTreeMap.get k m ≡ some p
    → f p ≡ v
    → unanimous (map f (values m)) v ≡ v
unanimous_one f m true k p e h = ground (arith, not_all-map f m (λ v. not v) k p e)
unanimous_one f m false k p e h = ground (arith, not_all-map f m (λ v. v) k p e)

-- Where the count reaches the length, every entry passes.
pub count-full :
    (t : ℕ → Bool) (m : BTreeMap ℕ) (k p : ℕ)
    → length m ≤ count t (values m)
    → BTreeMap.get k m ≡ some p
    → t p ≡ true
unfolding BTreeMap.get
count-full t [] k p h e = cc
count-full t ((j, q) ∷ m) k p h e =
    ground (arith, count-le-length t (values m), length-values m, count-full t m k p)

-- A map with an entry has a first one.
pub first_entry : (m : BTreeMap ℕ) → 0 < length m → (k : ℕ) × (p : ℕ) × (BTreeMap.get k m ≡ some p)
unfolding BTreeMap.get
first_entry [] h = absurd (omega arith)
first_entry ((k, p) ∷ m) h = (k, p, ground arith)
