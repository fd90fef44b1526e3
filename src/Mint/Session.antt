-- ===== src/Mint/Session.antt =====
-- A session's items: picomint-core/src/session.rs, and `process_consensus_item`, the ordering loop and
-- `validate_session_outcome` of picomint-node-daemon/src/consensus/engine.rs.
use picomint.Prelude.{
  ℕ, ◌+◌, Bool, true, false, not, Option, none, some, List, [], ◌∷◌, all, length, leb, ltb, ◌==◌,
  ◌>>=◌, if◌then◌else◌,
}
use picomint.Collections.BTreeMap
use picomint.Collections.BTreeMap.{BTreeMap, contains_key, values}
use picomint.Collections.BTreeSet
use picomint.Collections.BTreeSet.{BTreeSet}
use picomint.Nodes.{NumNodes, threshold}
use picomint.Mint.Amounts.{u64}
use picomint.Mint.Ledger.{Scheme, Keys, ok, err}
use picomint.Mint.Server.{WireInput, WireOutput, Transaction, TxError, Onchain, Books, process_tx}
use picomint.Mint.Votes.{consensus_block_height, consensus_version}

-- `M` is the onchain module's consensus item.
pub data ConsensusItem (I O M : Type 0) : Type 0 where
  tx_item : Transaction I O → ConsensusItem I O M
  module_item : M → ConsensusItem I O M
  block_height : ℕ → ConsensusItem I O M
  version_vote : ℕ → ConsensusItem I O M

pub record AcceptedItem (I O M : Type 0) : Type 0 where
  pub node : ℕ
  pub item : ConsensusItem I O M

-- SHA-256 of the encodings, and the length of an item's encoding.
pub record Digest (A : Type 0) : Type 0 where
  pub of_session : ℕ → ℕ
  pub fold_in : ℕ → A → ℕ
  pub size : A → ℕ

pub record SessionState : Type 0 where
  pub index : ℕ
  pub header : ℕ
  pub bytes : ℕ

module _ {A : Type 0} (digest : Digest A) where
  -- `SessionState::new`
  abbrev pub new_session : ℕ → SessionState
  new_session session = record { index = 0; header = digest.of_session session; bytes = 0 }

  -- `SessionState::fold`
  abbrev pub fold_item : SessionState → A → SessionState
  fold_item s item = record {
    index = u64 (s.index + 1);
    header = digest.fold_in s.header item;
    bytes = u64 (s.bytes + digest.size item);
  }

  unfoldable pub fold_items : SessionState → List A → SessionState
  fold_items s [] = s
  fold_items s (item ∷ items) = fold_items (fold_item s item) items

  unfoldable pub fold_header : ℕ → List A → ℕ
  fold_header header [] = header
  fold_header header (item ∷ items) = fold_header (digest.fold_in header item) items

  unfoldable pub session_header : ℕ → List A → ℕ
  session_header session items = fold_header (digest.of_session session) items

  -- The first test and the signatures of `validate_session_outcome`; `verify` checks a node's signature
  -- over a header of this session.
  unfoldable pub validate_session_outcome :
      NumNodes → (ℕ → ℕ → ℕ → Bool) → ℕ → List A → BTreeMap ℕ → Bool
  validate_session_outcome n verify session items signatures =
      if not (length signatures == threshold n)
      then false
      else all (λ e. verify (session_header session items) e.1 e.0) signatures

abbrev pub rounds_per_session : ℕ
rounds_per_session = 1000

abbrev pub session_outcome_byte_target : ℕ
session_outcome_byte_target = 1000000

-- The tables of the running session and the votes. `rejected` is kept in memory.
pub record Chain (S I O M : Type 0) : Type 0 where
  pub books : Books S
  pub accepted_txids : BTreeSet
  pub height_votes : BTreeMap ℕ
  pub version_votes : BTreeMap ℕ
  pub accepted_items : BTreeMap (AcceptedItem I O M)
  pub resume_index : ℕ
  pub rejected : BTreeMap TxError

-- The node's configuration, and the onchain module's operations: those of a transaction, with the
-- answer of `consensus_block_height`, and those on a consensus item and on a new height.
pub record Setup (S I O M : Type 0) : Type 0 where
  pub identity : ℕ
  pub n : NumNodes
  pub default_version : ℕ
  pub consensus_version_max : ℕ
  pub scheme : Scheme
  pub keys : Keys
  pub onchain : Option ℕ → Onchain S I O
  pub txid_of : List (WireInput I) → List (WireOutput O) → ℕ
  pub process_module_ci : S → ℕ → M → Option (Option S)
  pub initialize_block_height : S → ℕ → ℕ → S
  pub digest : Digest (AcceptedItem I O M)

abbrev pub vote_or : ℕ → ℕ → BTreeMap ℕ → ℕ
vote_or default node votes = elim (BTreeMap.get node votes) [ none ↦ default | some v ↦ v ]

module _ {S I O M : Type 0} (setup : Setup S I O M) where
  abbrev with_onchain : Chain S I O M → S → Chain S I O M
  with_onchain c s = record c { books = record (c.books) { onchain = s } }

  -- The answer tells whether the item was accepted; of a rejected one only the record of the error of our
  -- own transaction stays. `none` is a failed assertion.
  unfoldable pub process_consensus_item :
      Chain S I O M → ℕ → ConsensusItem I O M → Option (Bool × Chain S I O M)
  process_consensus_item c node (tx_item tx) =
      let txid = setup.txid_of tx.inputs tx.outputs in
      if BTreeSet.contains txid c.accepted_txids
      then some (false, c)
      else process_tx setup.scheme setup.keys
          (setup.onchain (consensus_block_height setup.n c.height_votes)) setup.txid_of c.books tx
        >>= λ r. elim r [
          | err e ↦ some (
            false,
            if node == setup.identity
                then record c { rejected = BTreeMap.insert txid e c.rejected }
                else c,
          )
          | ok b ↦
              some (
                true,
                record c { books = b; accepted_txids = BTreeSet.insert txid c.accepted_txids },
              )
        ]
  process_consensus_item c node (module_item ci) =
      setup.process_module_ci c.books.onchain node ci >>= λ r. elim r [
        | none ↦ some (false, c)
        | some s ↦ some (true, with_onchain c s)
      ]
  process_consensus_item c node (block_height vote) =
      let votes = BTreeMap.insert node vote c.height_votes in
      let voted = record c { height_votes = votes } in
      consensus_block_height setup.n c.height_votes >>= λ old.
      if not (ltb (vote_or 0 node c.height_votes) vote)
      then some (false, c)
      else consensus_block_height setup.n votes >>= λ fresh.
          if not (leb old fresh)
          then none
          else if fresh == old
          then some (true, voted)
          else some
              (true, with_onchain voted (setup.initialize_block_height c.books.onchain old fresh))
  process_consensus_item c node (version_vote vote) =
      let votes = BTreeMap.insert node vote c.version_votes in
      if not (ltb (vote_or setup.default_version node c.version_votes) vote)
      then some (false, c)
      else consensus_version setup.n setup.default_version votes >>= λ v.
          if leb v setup.consensus_version_max
          then some (true, record c { version_votes = votes })
          else none

  -- The loop of `order_items_until_cut` over what arrives, each with its position. The header at the cut,
  -- or nothing where the stream ends first.
  unfoldable pub order_items :
      ℕ
      → Chain S I O M
      → SessionState
      → ℕ
      → List (ℕ × ℕ × ConsensusItem I O M)
      → Option (Option ℕ × Chain S I O M)
  order_items resume_from c state index [] =
      if leb session_outcome_byte_target state.bytes
      then some (some state.header, c)
      else some (none, c)
  order_items resume_from c state index ((round, node, item) ∷ deliveries) =
      let skip = order_items resume_from c state (index + 1) deliveries in
      let begun = record c { resume_index = index + 1 } in
      let accepted : AcceptedItem I O M = record { node = node; item = item } in
      if leb session_outcome_byte_target state.bytes
      then some (some state.header, c)
      else if ltb index resume_from
      then skip
      else if leb rounds_per_session round
      then some (some state.header, c)
      else process_consensus_item begun node item >>= λ r. elim r.0 [
        | false ↦
            order_items resume_from (record (r.1) { resume_index = c.resume_index }) state
              (index + 1) deliveries
        | true ↦
            order_items resume_from
              (record (r.1) {
                accepted_items = BTreeMap.insert state.index accepted c.accepted_items;
              })
              (fold_item setup.digest state accepted) (index + 1) deliveries
      ]

  unfoldable pub order_items_until_cut :
      Chain S I O M → ℕ → List (ℕ × ℕ × ConsensusItem I O M) → Option (Option ℕ × Chain S I O M)
  order_items_until_cut c session deliveries =
      order_items c.resume_index c
        (fold_items setup.digest (new_session setup.digest session) (values c.accepted_items)) 0
        deliveries
