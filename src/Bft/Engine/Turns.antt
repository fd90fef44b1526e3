-- ===== src/Bft/Engine/Turns.antt =====
-- Every run of the event loop of picomint-bft/src/engine.rs keeps the invariant.
use picomint.Prelude.{
  ℕ, ◌+◌, ◌≤◌, ◌<◌, ◌^◌, ◌≡◌, some, List, arith, inl, inr, Option-cases, >>=-eq-some,
}
use mathlib.Core.Path.{subst}
use picomint.Collections.BTreeMap
use picomint.Collections.BTreeMap.{BTreeMap}
use picomint.Nodes.{NumNodes}
use picomint.Bft.Units.{BftUnit, Message, unit, request}
use picomint.Bft.State.{Engine, Crypto, Keychain, new}
use picomint.Bft.Engine.Messages.{Verdict, envelope, handle_request, broadcast_anti_entropy}
use picomint.Bft.Engine.Handlers.{handle_message, create_units}
use picomint.Bft.Engine.Run.{index_units, Event, message, data_ready, anti_entropy, turn, replay}
use picomint.Bft.Engine.Quiet.{quiet, Verdict-cases}
use picomint.Bft.Engine.Kept.{Steady, Kept, Carried, any_property}
use picomint.Bft.Engine.Preserve.{handle_unit-Kept, quiet-Kept}
use picomint.Bft.Engine.Create.{create_units-Kept}
use picomint.Bft.Engine.Replay.{Saved, replay-Kept}

module _ {D : Type 0} where
  handle_request-quiet :
      (e : Engine D) (requester hash : ℕ) (e' : Engine D)
      → handle_request e requester hash ≡ some e'
      → e' ≡ quiet e e'
  unfolding handle_request
  handle_request-quiet e requester hash e' p =
      let (found, _, p') = >>=-eq-some (envelope e hash) _ p in
      elim (Option-cases found) [ inl gone ↦ ground arith | inr (ev, there) ↦ ground arith ]

  broadcast_anti_entropy-quiet :
      (e e' : Engine D) → broadcast_anti_entropy e ≡ some e' → e' ≡ quiet e e'
  unfolding broadcast_anti_entropy
  broadcast_anti_entropy-quiet e e' p = elim (Option-cases e.own_top) [
    | inl none_yet ↦ ground arith
    | inr (own, there) ↦ ground arith
  ]

  -- What the wire format and the length of a session give of a message.
  abbrev pub Sound : ℕ → Message D → Type 0
  Sound top (unit ev) = BTreeMap.SortedFrom 0 ev.unit.parents × (ev.unit.round + 1 < top)
  Sound top (request hash) = Unit

  abbrev pub SoundEvent : ℕ → Event D → Type 0
  SoundEvent top (message now sender m) = Sound top m
  SoundEvent top data_ready = Unit
  SoundEvent top anti_entropy = Unit

module _ {D : Type 0} (crypto : Crypto D) (limit top : ℕ) {X : Engine D → Type 0}
    (c : Carried crypto limit top X) where
  handle_message-Kept :
      (now : ℕ) (e : Engine D) (sender : ℕ) (m : Message D) (v : Verdict) (e' : Engine D)
      → Kept crypto top X e
      → top ≤ limit
      → top + 4 ≤ 2 ^ 32
      → Sound top m
      → handle_message crypto limit now e sender m ≡ some (v, e')
      → Kept crypto top X e'
  unfolding handle_message
  handle_message-Kept now e sender (unit ev) v e' steady big small (asc, low) p =
      handle_unit-Kept crypto limit now top c e sender ev v e' steady big small asc low p
  handle_message-Kept now e sender (request hash) v e' kept big small s p =
      let (x, ex, p') = >>=-eq-some (handle_request e sender hash) _ p in
      let same : x ≡ e' = ground arith in
      subst (Kept crypto top X) same
        (quiet-Kept crypto limit 0 top c e x kept (handle_request-quiet e sender hash x ex))

  pub turn-Kept :
      (e : Engine D) (event : Event D) (draws : List (List D)) (e' : Engine D)
      → Kept crypto top X e
      → 1 < top
      → top ≤ limit
      → top + 4 ≤ 2 ^ 32
      → SoundEvent top event
      → turn crypto limit e event draws ≡ some e'
      → Kept crypto top X e'
  unfolding turn
  turn-Kept e (message now sender m) draws e' steady two big small s p =
      let ((v, x), ex, p') = >>=-eq-some (handle_message crypto limit now e sender m) _ p in
      let steady' = handle_message-Kept now e sender m v x steady big small s ex in
      elim (Verdict-cases v) [
        | inl good ↦
            create_units-Kept crypto limit top c limit x draws e' steady' two big small
              (ground arith)
        | inr (r, bad) ↦ let same : x ≡ e' = ground arith in subst (Kept crypto top X) same steady'
      ]
  turn-Kept e data_ready draws e' steady two big small s p =
      create_units-Kept crypto limit top c limit e draws e' steady two big small p
  turn-Kept e anti_entropy draws e' kept two big small s p =
      quiet-Kept crypto limit 0 top c e e' kept (broadcast_anti_entropy-quiet e e' p)

module _ {D : Type 0} (crypto : Crypto D) (limit top : ℕ) where
  -- A run: the start from the stored tables, the first creation, and turns.
  pub data Runs : Engine D → Type 0 where
    started :
        (id session : ℕ) (n : NumNodes) (keychain : Keychain) (units : BTreeMap BftUnit)
        (payloads : BTreeMap (List D)) (signatures : BTreeMap ℕ) (draws : List (List D))
        (e e' : Engine D)
        → Saved n units payloads top
        → replay crypto limit (new id session n keychain units payloads signatures) ≡ some e
        → create_units crypto limit limit e draws ≡ some e'
        → Runs e'
    turned :
        (e : Engine D) (event : Event D) (draws : List (List D)) (e' : Engine D)
        → Runs e
        → SoundEvent top event
        → turn crypto limit e event draws ≡ some e'
        → Runs e'

  -- A property that a start has and that every step carries over holds throughout a run.
  pub Runs-Kept :
      {X : Engine D → Type 0} (c : Carried crypto limit top X) (e : Engine D)
      → ((id session : ℕ) (n : NumNodes) (keychain : Keychain) (units : BTreeMap BftUnit)
            (payloads : BTreeMap (List D)) (signatures : BTreeMap ℕ)
          → X (index_units units (new id session n keychain units payloads signatures)))
      → 1 < top
      → top ≤ limit
      → top + 4 ≤ 2 ^ 32
      → Runs e
      → Kept crypto top X e
  Runs-Kept c e begins two big small
        (started id session n keychain units payloads signatures draws x _ saved p q) =
      create_units-Kept crypto limit top c limit x draws e
        (replay-Kept crypto limit top c id session n keychain units payloads signatures x
          (begins id session n keychain units payloads signatures) saved big p)
        two big small q
  Runs-Kept c e begins two big small (turned x event draws _ run sound p) =
      turn-Kept crypto limit top c x event draws e (Runs-Kept c x begins two big small run) two big
        small sound p

  -- Whatever the messages, the timer and the data do, the tables, the row index, the extended set and the
  -- caches of a running engine agree, and every stored round stays below `top`. `top` is above 1, at least 4
  -- below 2^32 and no more than the fuel. The units stored at the start pass the checks on a unit by itself, in
  -- a table that ascends, and the stored payloads are theirs. Of the units stored at the start and of those
  -- received the rounds are below `top - 1`, and the parent maps ascend.
  pub Runs-Steady :
      (e : Engine D) → 1 < top → top ≤ limit → top + 4 ≤ 2 ^ 32 → Runs e → Steady crypto top e
  Runs-Steady e two big small run =
      let (inv, tall, _) =
        Runs-Kept (any_property crypto limit top) e
          (λ id session n keychain units payloads signatures. tt) two big small run in
      (inv, tall)
