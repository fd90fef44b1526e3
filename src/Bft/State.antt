-- ===== src/Bft/State.antt =====
-- The state of picomint-bft/src/engine.rs, the keychain of picomint-bft/src/keychain.rs, and the
-- reads that the engine and the extender share.
use picomint.Prelude.{ℕ, Bool, false, Option, none, some, List, [], ◌∷◌, if◌then◌else◌}
use picomint.Collections.BTreeMap
use picomint.Collections.BTreeMap.{BTreeMap, contains_key}
use picomint.Collections.BTreeSet.{BTreeSet}
use picomint.Nodes.{NumNodes}
use picomint.Bft.Units.{BftUnit, Message, Recipient}
use picomint.Bft.Vote.{Votes}

-- SHA-256 over the consensus encoding, and Schnorr signatures, are other libraries' code.
pub record Crypto (D : Type 0) : Type 0 where
  -- the first byte of the hash of `(round, candidate)`
  pub hash_byte : ℕ → ℕ → ℕ
  pub hash_unit : BftUnit → ℕ
  pub hash_items : List D → ℕ
  -- the hash of `(session, unit)`
  pub digest : ℕ → BftUnit → ℕ
  pub schnorr_sign : ℕ → ℕ → ℕ
  pub schnorr_verify : ℕ → ℕ → ℕ → Bool

pub record Keychain : Type 0 where
  pub keypair : ℕ
  pub pubkeys : BTreeMap ℕ

module _ {D : Type 0} (crypto : Crypto D) where
  abbrev pub sign : Keychain → ℕ → BftUnit → ℕ
  sign keychain session unit = crypto.schnorr_sign keychain.keypair (crypto.digest session unit)

  abbrev pub verify : Keychain → ℕ → BftUnit → ℕ → ℕ → Bool
  verify keychain session unit signature node =
      let message = crypto.digest session unit in
      elim (BTreeMap.get node keychain.pubkeys) [
        | none ↦ false
        | some pk ↦ crypto.schnorr_verify signature message pk
      ]

-- The three tables stand for what the open transaction sees. `ordered` and `sent` are what has gone
-- into the channel of ordered items and to the network, oldest first.
pub record Engine (D : Type 0) : Type 0 where
  pub id : ℕ
  pub session : ℕ
  pub n : NumNodes
  pub keychain : Keychain
  pub unit_table : BTreeMap BftUnit
  pub unit_data_table : BTreeMap (List D)
  pub unit_signature_table : BTreeMap ℕ
  pub rounds : BTreeMap BTreeSet
  pub extended : BTreeMap BftUnit
  pub emitted : BTreeSet
  pub next_decide_round : ℕ
  pub decided : BTreeMap (Bool × ℕ)
  pub votes : Votes
  pub unordered_own_data : BTreeSet
  pub own_top : Option (ℕ × ℕ)
  pub request_sent_at : BTreeMap ℕ
  pub ordered : List (ℕ × ℕ × D)
  pub sent : List (Recipient × Message D)

-- `Engine::new`, over the tables that the database holds.
abbrev pub new :
    {D : Type 0}
    → ℕ
    → ℕ
    → NumNodes
    → Keychain
    → BTreeMap BftUnit
    → BTreeMap (List D)
    → BTreeMap ℕ
    → Engine D
new id session n keychain units payloads signatures = record {
  id = id;
  session = session;
  n = n;
  keychain = keychain;
  unit_table = units;
  unit_data_table = payloads;
  unit_signature_table = signatures;
  rounds = [];
  extended = [];
  emitted = [];
  next_decide_round = 0;
  decided = [];
  votes = [];
  unordered_own_data = [];
  own_top = none;
  request_sent_at = [];
  ordered = [];
  sent = [];
}

-- `round_units`
abbrev pub round_units : ℕ → BTreeMap BTreeSet → BTreeSet
round_units round rounds = elim (BTreeMap.get round rounds) [ some s ↦ s | none ↦ [] ]

-- The units among `hashes` that are extended, in the same order.
unfoldable pub keep_extended : BTreeMap BftUnit → BTreeSet → BTreeSet
keep_extended extended [] = []
keep_extended extended (h ∷ hs) =
    if contains_key h extended then h ∷ keep_extended extended hs else keep_extended extended hs

-- `extended_at`
unfoldable pub extended_at : BTreeMap BTreeSet → BTreeMap BftUnit → ℕ → BTreeSet
extended_at rounds extended round = keep_extended extended (round_units round rounds)
