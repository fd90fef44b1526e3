-- ===== src/Bft/Engine/Handlers.antt =====
-- The handlers of picomint-bft/src/engine.rs. `none` is a failed `expect`, or fuel that ran out.
use picomint.Prelude.{
  ℕ, zero, suc, ◌+◌, Bool, true, false, not, ◌&&◌, Option, none, some, List, [], ◌∷◌, all, length,
  ◌==◌, if◌then◌else◌, ◌>>=◌,
}
use picomint.Collections.BTreeMap.{BTreeMap, keys}
use picomint.Collections.BTreeSet
use picomint.Collections.BTreeSet.{BTreeSet}
use picomint.Nodes.{threshold, in_mint}
use picomint.Bft.Units.{BftUnit, UnitEnvelope, Message, unit, request, everyone, u32}
use picomint.Bft.State.{Engine, Crypto, sign, verify, round_units}
use picomint.Bft.Extender.{run_extender}
use picomint.Bft.Engine.{try_extend, parents_for}
use picomint.Bft.Engine.Messages.{
  creator_not_in_mint, root_has_parents, not_threshold_parents, parent_not_in_mint,
  invalid_signature, payload_mismatch, Verdict, accepted, rejected, same_hash, store_unit,
  roll_back, send, handle_request, cascade_parents,
}

module _ {D : Type 0} (crypto : Crypto D) where
  -- `(!items.is_empty()).then(|| items.consensus_hash_sha256())`
  abbrev pub commitment : List D → Option ℕ
  commitment [] = none
  commitment (x ∷ xs) = some (crypto.hash_items (x ∷ xs))

  unfoldable pub validate_unit : Engine D → UnitEnvelope D → Verdict
  validate_unit e ev =
      let u = ev.unit in
      let sealed =
        if verify crypto e.keychain e.session u ev.signature u.creator
        then if same_hash u.data_hash (commitment ev.items)
          then accepted
          else rejected payload_mismatch
        else rejected invalid_signature in
      if not (in_mint e.n u.creator)
      then rejected creator_not_in_mint
      else if u.round == 0
      then if length u.parents == 0 then sealed else rejected root_has_parents
      else if not (length u.parents == threshold e.n)
      then rejected not_threshold_parents
      else if all (in_mint e.n) (keys u.parents)
      then sealed
      else rejected parent_not_in_mint

  unfoldable pub insert_unit : Engine D → UnitEnvelope D → ℕ → Verdict × Engine D
  insert_unit e ev hash = elim (validate_unit e ev) [
    | accepted ↦ store_unit e ev hash
    | rejected r ↦ (rejected r, e)
  ]

  -- The rest of the arm for a unit, once it is valid and its ancestors are asked for. A rejection by
  -- `store_unit` drops the transaction.
  unfoldable pub admit_unit : ℕ → Engine D → UnitEnvelope D → Option (Verdict × Engine D)
  admit_unit limit e ev =
      let hash = crypto.hash_unit ev.unit in
      let s = store_unit e ev hash in
      if BTreeSet.contains hash (round_units ev.unit.round e.rounds)
      then some (accepted, e)
      else elim s.0 [
        | rejected r ↦ some (rejected r, roll_back e s.1)
        | accepted ↦ try_extend limit s.1 hash >>= λ x.
            run_extender crypto limit limit x >>= λ y. some (accepted, y)
      ]

  unfoldable pub handle_unit : ℕ → ℕ → Engine D → ℕ → UnitEnvelope D → Option (Verdict × Engine D)
  handle_unit limit now e sender ev = elim (validate_unit e ev) [
    | rejected r ↦ some (rejected r, e)
    | accepted ↦ cascade_parents limit now e sender ev.unit >>= λ x. admit_unit limit x ev
  ]

  unfoldable pub handle_message : ℕ → ℕ → Engine D → ℕ → Message D → Option (Verdict × Engine D)
  handle_message limit now e sender (unit ev) = handle_unit limit now e sender ev
  handle_message limit now e sender (request hash) =
      handle_request e sender hash >>= λ e'. some (accepted, e')

  abbrev pub is_empty : List D → Bool
  is_empty [] = true
  is_empty (x ∷ xs) = false

  abbrev pub has_unordered_own_data : Engine D → Bool
  has_unordered_own_data e = elim e.unordered_own_data [ [] ↦ false | _ ∷ _ ↦ true ]

  abbrev pub next_own_round : Engine D → ℕ
  next_own_round e = elim e.own_top [ none ↦ 0 | some top ↦ u32 (top.0 + 1) ]

  -- The unit that `try_create_unit` signs.
  abbrev pub own_envelope : Engine D → BTreeMap ℕ → List D → UnitEnvelope D
  own_envelope e parents items =
      let u : BftUnit = record {
        round = next_own_round e;
        creator = e.id;
        parents = parents;
        data_hash = commitment items;
      } in
      record { unit = u; items = items; signature = sign crypto e.keychain e.session u }

  -- `items` is what `get_data` yields.
  unfoldable pub try_create_unit : ℕ → Engine D → List D → Option (Bool × Engine D)
  try_create_unit limit e items = elim (parents_for e (next_own_round e)) [
    | none ↦ some (false, e)
    | some parents ↦
        let ev = own_envelope e parents items in
        let hash = crypto.hash_unit ev.unit in
        let s = insert_unit e ev hash in
        if is_empty items && not (has_unordered_own_data e) then some (false, e) else elim s.0 [
          | rejected r ↦ none
          | accepted ↦
              let marked = record (s.1) {
                unordered_own_data =
                    if is_empty items
                    then s.1.unordered_own_data
                    else BTreeSet.insert ev.unit.round s.1.unordered_own_data;
              } in
              try_extend limit marked hash >>= λ x.
              run_extender crypto limit limit x >>= λ y. some (true, send y everyone (unit ev))
        ]
  ]

  abbrev pub next_draw : List (List D) → List D
  next_draw [] = []
  next_draw (items ∷ draws) = items

  abbrev pub later_draws : List (List D) → List (List D)
  later_draws [] = []
  later_draws (items ∷ draws) = draws

  -- `draws` is what the data provider yields at each call, and nothing from its end on.
  unfoldable pub create_units : ℕ → ℕ → Engine D → List (List D) → Option (Engine D)
  create_units limit zero e draws = none
  create_units limit (suc fuel) e draws = try_create_unit limit e (next_draw draws) >>= λ r.
      let rest = create_units limit fuel r.1 (later_draws draws) in if r.0 then rest else some r.1
