-- ===== src/Bft/Engine/Own.antt =====
-- The units that a node of picomint-bft/src/engine.rs makes: they pass its own checks, and are extended.
use picomint.Prelude.{
  ℕ, zero, suc, ◌+◌, ◌<◌, ◌^◌, ◌≡◌, refl, true, Option, none, some, List, [], ◌∷◌, All, all, length,
  arith, ◌==◌, ◌&&◌, if◌then◌else◌,
}
use picomint.Collections.BTreeMap
use picomint.Collections.BTreeMap.{BTreeMap, contains_key, keys}
use picomint.Nodes.{NumNodes, total, threshold, in_mint}
use picomint.Bft.Units.{BftUnit, UnitEnvelope}
use picomint.Bft.Dag.{IsParent}
use picomint.Bft.State.{Engine, Crypto, verify}
use picomint.Bft.Extender.Inv.{look, IsValid}
use picomint.Bft.Engine.{parent_fed, parents_fed, parents_for}
use picomint.Bft.Engine.Messages.{accepted, same_hash}
use picomint.Bft.Engine.Handlers.{validate_unit, next_own_round, own_envelope, commitment}
use picomint.Bft.Engine.Parents.{parents_for-Fits}

same_hash_refl : (o : Option ℕ) → same_hash o o ≡ true
same_hash_refl none = refl
same_hash_refl (some a) = ground arith

All-in_mint :
    (n : NumNodes) (lk : ℕ → Option BftUnit) (r : ℕ) (m : BTreeMap ℕ)
    → All (IsParent n lk r) m
    → all (in_mint n) (keys m) ≡ true
All-in_mint n lk r [] h = refl
All-in_mint n lk r (e ∷ m) h = ground (arith, All-in_mint n lk r m h.1, h.0.0)

All-fed :
    (n : NumNodes) (extended : BTreeMap BftUnit) (r : ℕ) (m : BTreeMap ℕ)
    → r < 2 ^ 32
    → All (IsParent n (look extended) r) m
    → all (parent_fed extended r) m ≡ true
All-fed n extended r [] l h = refl
All-fed n extended r (e ∷ m) l h =
    let (_, q, known, same, below) = h.0 in ground (arith, All-fed n extended r m l h.1)

module _ {D : Type 0} (crypto : Crypto D) where
  shape :
      (e : Engine D) (round : ℕ) (parents : BTreeMap ℕ)
      → IsValid crypto e
      → parents_for e round ≡ some parents
      → (if round == 0
          then length parents == 0
          else length parents == threshold e.n && all (in_mint e.n) (keys parents))
        ≡ true
  shape e zero parents valid p =
      let first : parents ≡ [] = unfold parents_for in ground arith in rw first refl
  shape e (suc r) parents valid p =
      let x = parents_for-Fits crypto e r parents valid p in
      ground (arith, x.quorum, All-in_mint e.n (look e.extended) (r + 1) parents x.entries)

  passes :
      (e : Engine D) (ev : UnitEnvelope D)
      → in_mint e.n ev.unit.creator ≡ true
      → (if ev.unit.round == 0
          then length ev.unit.parents == 0
          else length ev.unit.parents == threshold e.n && all (in_mint e.n) (keys ev.unit.parents))
        ≡ true
      → verify crypto e.keychain e.session ev.unit ev.signature ev.unit.creator ≡ true
      → same_hash ev.unit.data_hash (commitment crypto ev.items) ≡ true
      → validate_unit crypto e ev ≡ accepted
  unfolding validate_unit
  passes e ev member ok signed same = ground arith

  -- The unit that `try_create_unit` builds passes `validate_unit`, if the node is a member of the mint,
  -- the keychain lists its key, and a signature by that key verifies: the `expect` on `insert_unit` does
  -- not fail for any of these checks.
  pub validate_unit-own_envelope :
      (e : Engine D) (parents : BTreeMap ℕ) (items : List D) (pk : ℕ)
      → IsValid crypto e
      → e.id < total e.n
      → parents_for e (next_own_round crypto e) ≡ some parents
      → BTreeMap.get e.id e.keychain.pubkeys ≡ some pk
      → ((m : ℕ) → crypto.schnorr_verify (crypto.schnorr_sign e.keychain.keypair m) m pk ≡ true)
      → validate_unit crypto e (own_envelope crypto e parents items) ≡ accepted
  validate_unit-own_envelope e parents items pk valid member p listed signs =
      let ev = own_envelope crypto e parents items in
      let signed : verify crypto e.keychain e.session ev.unit ev.signature ev.unit.creator ≡ true =
        rw (listed, verify) (signs (crypto.digest e.session ev.unit)) in
      passes e ev (ground arith) (shape e (next_own_round crypto e) parents valid p) signed
        (same_hash_refl (commitment crypto items))

  -- The unit that `try_create_unit` builds is extended as soon as it is stored: every parent that
  -- `parents_for` picks is an extended unit of the creator it stands under, one round down.
  pub parents_fed-own_envelope :
      (e : Engine D) (parents : BTreeMap ℕ) (items : List D)
      → IsValid crypto e
      → next_own_round crypto e < 2 ^ 32
      → parents_for e (next_own_round crypto e) ≡ some parents
      → parents_fed e.extended (own_envelope crypto e parents items).unit ≡ true
  parents_fed-own_envelope e parents items valid small p = go (next_own_round crypto e) small p
    where
      go :
          (round : ℕ)
          → round < 2 ^ 32
          → parents_for e round ≡ some parents
          → all (parent_fed e.extended round) parents ≡ true
      go zero l q = let first : parents ≡ [] = unfold parents_for in ground arith in rw first refl
      go (suc r) l q =
          let x = parents_for-Fits crypto e r parents valid q in
          let one_more : suc r ≡ r + 1 = omega arith in
          rw one_more (All-fed e.n e.extended (r + 1) parents (omega arith) x.entries)
