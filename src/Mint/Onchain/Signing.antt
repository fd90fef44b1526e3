-- ===== src/Mint/Onchain/Signing.antt =====
-- The signing of the mint's transactions in picomint-node-daemon/src/consensus/onchain/mod.rs: the log of
-- nonces, the sessions that it is cut into, and the signature shares.
use picomint.Prelude.{
  ℕ, zero, suc, ◌+◌, ◌-◌, ◌*◌, ◌/◌, Bool, true, false, not, Option, none, some, List, [], ◌∷◌, map,
  length, take, drop, count, get_elem?, ltb, ◌==◌, if◌then◌else◌, ◌>>=◌,
}
use picomint.Collections.BTreeMap
use picomint.Collections.BTreeMap.{BTreeMap, values}
use picomint.Nodes.{NumNodes, threshold}
use picomint.Mint.Amounts.{u64}
use picomint.Mint.Ledger.{Result, ok, err}
use picomint.Mint.Onchain.Values.{
  TxIn, TxOut, SpentTxOut, MintTx, NonceEntry, Wallet, OnchainConsensusItem, nonces,
  signature_shares, Bitcoin, tweak_public_key, tweaked_script_pubkey, txid_of_tx,
}

-- The threshold signatures of picomint-tss.
pub record Tss : Type 0 where
  -- message, signer, key share, signature share, nonces of the session, aggregate key
  pub verify_signature_share : ℕ → ℕ → ℕ → ℕ → BTreeMap ℕ → ℕ → Bool
  -- message, nonces of the session, shares, aggregate key
  pub aggregate_signature_shares : ℕ → BTreeMap ℕ → BTreeMap ℕ → ℕ → ℕ
  -- message, signature, aggregate key
  pub verify : ℕ → ℕ → ℕ → Bool
  -- message, secret key share, secret nonce, nonces of the session, own index, aggregate key
  pub sign_share : ℕ → ℕ → ℕ → BTreeMap ℕ → ℕ → ℕ → ℕ
  -- secret key share, txid, generation, input
  pub derive_nonce : ℕ → ℕ → ℕ → ℕ → ℕ
  pub derive_public_nonce : ℕ → ℕ
  pub add_tweak : ℕ → ℕ → Option ℕ

-- What `Server` holds for the module.
pub record Server : Type 0 where
  pub n : NumNodes
  pub identity : ℕ
  pub agg_pk : ℕ
  pub pks : BTreeMap ℕ
  pub sks : ℕ

-- The errors of `process_consensus_item`.
pub data ItemError : Type 0 where
  wrong_height : ItemError
  already_voted : ItemError
  redundant_feerate : ItemError
  no_unsigned_tx : ItemError
  wrong_txid : ItemError
  wrong_number_of_nonces : ItemError
  redundant_nonces : ItemError
  wrong_number_of_shares : ItemError
  no_nonce_entry : ItemError
  session_forming : ItemError
  invalid_share : ItemError
  duplicate_shares : ItemError

-- `iter_rev(..).next().map_or(0, |entry| entry.0 + 1)`
unfoldable pub next_index : {V : Type 0} → BTreeMap V → ℕ
next_index [] = 0
next_index ((k, v) ∷ []) = u64 (k + 1)
next_index (e ∷ x ∷ m) = next_index (x ∷ m)

-- The index of the last entry of a node.
unfoldable pub latest_entry : ℕ → BTreeMap NonceEntry → Option ℕ
latest_entry node [] = none
latest_entry node ((k, e) ∷ log) = elim (latest_entry node log) [
  | some later ↦ some later
  | none ↦ if e.node == node then some k else none
]

-- `all(|entry| entry.1.0 != node)`
abbrev pub has_no_entry : ℕ → BTreeMap NonceEntry → Bool
has_no_entry node log = elim (latest_entry node log) [ none ↦ true | some _ ↦ false ]

-- The entries of a session.
abbrev pub session_chunk : ℕ → ℕ → BTreeMap NonceEntry → List NonceEntry
session_chunk t session log = values (BTreeMap.range (session * t) ((session + 1) * t) log)

-- `collect` into a map, from `column` on. `none` is a failed `expect`.
unfoldable pub nonce_column_from : List NonceEntry → ℕ → BTreeMap ℕ → Option (BTreeMap ℕ)
nonce_column_from [] index column = some column
nonce_column_from (entry ∷ chunk) index column = get_elem? entry.nonces index >>= λ nonce.
    nonce_column_from chunk index (BTreeMap.insert entry.node nonce column)

abbrev pub nonce_column : List NonceEntry → ℕ → Option (BTreeMap ℕ)
nonce_column chunk index = nonce_column_from chunk index []

unfoldable pub process_nonces : Bitcoin → Wallet → ℕ → ℕ → List ℕ → Result ItemError Wallet
process_nonces bitcoin w node txid public_nonces = elim w.unsigned_tx [
  | none ↦ err no_unsigned_tx
  | some unsigned ↦
      if not (txid_of_tx bitcoin unsigned.tx == txid)
      then err wrong_txid
      else if not (length public_nonces == length unsigned.spent_tx_outs)
      then err wrong_number_of_nonces
      else if not (has_no_entry node w.nonce_log)
      then err redundant_nonces
      else ok (record w {
        nonce_log =
            BTreeMap.insert (next_index w.nonce_log)
              (record { node = node; nonces = public_nonces }) w.nonce_log;
      })
]

module _ (bitcoin : Bitcoin) (tss : Tss) (server : Server) where
  -- `script_pubkey`
  abbrev pub script_pubkey : ℕ → ℕ
  script_pubkey tweak = tweaked_script_pubkey bitcoin server.agg_pk tweak

  abbrev pub tweaked_agg_pk : ℕ → ℕ
  tweaked_agg_pk tweak = tweak_public_key bitcoin server.agg_pk tweak

  -- `none` is a failed `expect`.
  abbrev pub tweaked_pks : ℕ → ℕ → Option ℕ
  tweaked_pks node tweak =
      BTreeMap.get node server.pks >>= λ pks. some (tweak_public_key bitcoin pks tweak)

  -- `none` is a failed `expect`.
  abbrev pub tweaked_sks : ℕ → Option ℕ
  tweaked_sks tweak = tss.add_tweak server.sks tweak

  abbrev pub prevouts : List SpentTxOut → List TxOut
  prevouts [] = []
  prevouts (utxo ∷ utxos) =
      record { value = utxo.value; script_pubkey = script_pubkey utxo.tweak } ∷ prevouts utxos

  -- The hashes of the inputs from an index on. `none` is a failed `expect`.
  unfoldable pub sighashes_from : MintTx → ℕ → ℕ → Option (List ℕ)
  sighashes_from unsigned index zero = some []
  sighashes_from unsigned index (suc left) =
      bitcoin.taproot_key_spend_signature_hash unsigned.tx index (prevouts unsigned.spent_tx_outs)
      >>= λ msg. sighashes_from unsigned (index + 1) left >>= λ msgs. some (msg ∷ msgs)

  abbrev pub sighashes : MintTx → Option (List ℕ)
  sighashes unsigned = sighashes_from unsigned 0 (length unsigned.spent_tx_outs)

  -- The loop over the inputs in `process_signature_shares`.
  unfoldable pub verify_shares :
      ℕ → List NonceEntry → ℕ → List SpentTxOut → List ℕ → List ℕ → Option Bool
  verify_shares node chunk index [] msgs shares = some true
  verify_shares node chunk index (utxo ∷ utxos) [] shares = some true
  verify_shares node chunk index (utxo ∷ utxos) (msg ∷ msgs) [] = some true
  verify_shares node chunk index (utxo ∷ utxos) (msg ∷ msgs) (share ∷ shares) =
      tweaked_pks node utxo.tweak >>= λ pks. nonce_column chunk index >>= λ column.
      elim (tss.verify_signature_share msg node pks share column (tweaked_agg_pk utxo.tweak)) [
        | false ↦ some false
        | true ↦ verify_shares node chunk (index + 1) utxos msgs shares
      ]

  -- The shares of one input by signer, collected from `column` on.
  unfoldable pub share_column_from :
      List NonceEntry → List (List ℕ) → ℕ → BTreeMap ℕ → Option (BTreeMap ℕ)
  share_column_from [] responses index column = some column
  share_column_from (entry ∷ chunk) [] index column = some column
  share_column_from (entry ∷ chunk) (response ∷ responses) index column =
      get_elem? response index >>= λ share.
      share_column_from chunk responses index (BTreeMap.insert entry.node share column)

  -- The loop of `finalize_tx`: the inputs with their witnesses.
  unfoldable pub finalize_inputs :
      List NonceEntry
      → List (List ℕ)
      → ℕ
      → List SpentTxOut
      → List ℕ
      → List TxIn
      → Option (List TxIn)
  finalize_inputs chunk responses index [] msgs inputs = some inputs
  finalize_inputs chunk responses index (utxo ∷ utxos) [] inputs = some inputs
  finalize_inputs chunk responses index (utxo ∷ utxos) (msg ∷ msgs) [] = none
  finalize_inputs chunk responses index (utxo ∷ utxos) (msg ∷ msgs) (input ∷ inputs) =
      share_column_from chunk responses index [] >>= λ shares.
      nonce_column chunk index >>= λ column.
      let agg_pk = tweaked_agg_pk utxo.tweak in
      let signature = tss.aggregate_signature_shares msg column shares agg_pk in
      if not (tss.verify msg signature agg_pk)
      then none
      else finalize_inputs chunk responses (index + 1) utxos msgs inputs >>= λ rest.
          some (record input { witness = some signature } ∷ rest)

  unfoldable pub finalize_tx : MintTx → List NonceEntry → List (List ℕ) → Option MintTx
  finalize_tx mint_tx chunk responses =
      if not (length mint_tx.spent_tx_outs == length mint_tx.tx.input)
      then none
      else sighashes mint_tx >>= λ msgs.
          finalize_inputs chunk responses 0 mint_tx.spent_tx_outs msgs mint_tx.tx.input
          >>= λ inputs. some (record mint_tx { tx = record (mint_tx.tx) { input = inputs } })

  -- What follows shares that are valid: they are stored, the node enters the log again, and a session
  -- with a response to each of its entries signs the transaction.
  unfoldable pub store_shares :
      Wallet → MintTx → ℕ → ℕ → List ℕ → List ℕ → ℕ → Option (Result ItemError Wallet)
  store_shares w unsigned node txid shares fresh_nonces latest =
      let t = threshold server.n in
      let session = latest / t in
      let chunk = session_chunk t session w.nonce_log in
      let all_shares = BTreeMap.insert latest shares w.shares in
      let responses = values (BTreeMap.range (session * t) ((session + 1) * t) all_shares) in
      let log =
        BTreeMap.insert (next_index w.nonce_log) (record { node = node; nonces = fresh_nonces })
          w.nonce_log in
      elim (BTreeMap.get latest w.shares) [
        | some _ ↦ some (err duplicate_shares)
        | none ↦
            if length responses == t
            then (finalize_tx unsigned chunk responses >>= λ signed. some (
                ok (record w {
                  unsigned_tx = none;
                  nonce_log = [];
                  shares = [];
                  unconfirmed = BTreeMap.insert txid signed w.unconfirmed;
                })))
            else some (ok (record w { nonce_log = log; shares = all_shares }))
      ]

  -- `none` is a failed `expect` or assertion.
  unfoldable pub process_signature_shares :
      Wallet → ℕ → ℕ → List ℕ → List ℕ → Option (Result ItemError Wallet)
  process_signature_shares w node txid shares fresh_nonces = elim w.unsigned_tx [
    | none ↦ some (err no_unsigned_tx)
    | some unsigned ↦
        let t = threshold server.n in
        if not (txid_of_tx bitcoin unsigned.tx == txid)
        then some (err wrong_txid)
        else if not (length shares == length unsigned.spent_tx_outs)
        then some (err wrong_number_of_shares)
        else if not (length fresh_nonces == length unsigned.spent_tx_outs)
        then some (err wrong_number_of_nonces)
        else elim (latest_entry node w.nonce_log) [
          | none ↦ some (err no_nonce_entry)
          | some latest ↦
              let chunk = session_chunk t (latest / t) w.nonce_log in
              if not (length chunk == t)
              then some (err session_forming)
              else sighashes unsigned >>= λ msgs.
                  verify_shares node chunk 0 unsigned.spent_tx_outs msgs shares >>= λ valid.
                  if not valid
                  then some (err invalid_share)
                  else store_shares w unsigned node txid shares fresh_nonces latest
        ]
  ]

  -- `derive_secret_nonces`
  unfoldable pub secret_nonces_from : ℕ → ℕ → ℕ → ℕ → List ℕ
  secret_nonces_from txid generation input zero = []
  secret_nonces_from txid generation input (suc left) =
      tss.derive_nonce server.sks txid generation input
      ∷ secret_nonces_from txid generation (input + 1) left

  abbrev pub derive_secret_nonces : ℕ → ℕ → ℕ → List ℕ
  derive_secret_nonces txid generation inputs = secret_nonces_from txid generation 0 inputs

  -- `sign_tx`, from an index on.
  unfoldable pub sign_tx_from :
      List NonceEntry → ℕ → List SpentTxOut → List ℕ → List ℕ → Option (List ℕ)
  sign_tx_from chunk index [] msgs secrets = some []
  sign_tx_from chunk index (utxo ∷ utxos) [] secrets = some []
  sign_tx_from chunk index (utxo ∷ utxos) (msg ∷ msgs) [] = some []
  sign_tx_from chunk index (utxo ∷ utxos) (msg ∷ msgs) (secret ∷ secrets) =
      tweaked_sks utxo.tweak >>= λ sks. nonce_column chunk index >>= λ column.
      sign_tx_from chunk (index + 1) utxos msgs secrets >>= λ rest.
      some (tss.sign_share msg sks secret column server.identity (tweaked_agg_pk utxo.tweak) ∷ rest)

  -- `none` is a failed `expect`, `some none` no item.
  unfoldable pub signing_session_proposal : Wallet → Option (Option OnchainConsensusItem)
  signing_session_proposal w = elim w.unsigned_tx [
    | none ↦ some none
    | some unsigned ↦
        let t = threshold server.n in
        let txid = txid_of_tx bitcoin unsigned.tx in
        let inputs = length unsigned.spent_tx_outs in
        elim (latest_entry server.identity w.nonce_log) [
          | none ↦ some (
              some (nonces txid (map tss.derive_public_nonce (derive_secret_nonces txid 0 inputs))))
          | some latest ↦
              let chunk = take t (drop (latest / t * t) (values w.nonce_log)) in
              if ltb (length chunk) t
              then some none
              else let generation =
                  count (λ (e : ℕ × NonceEntry). e.1.node == server.identity) w.nonce_log - 1 in
                sighashes unsigned >>= λ msgs.
                sign_tx_from chunk 0 unsigned.spent_tx_outs msgs
                  (derive_secret_nonces txid generation inputs)
                >>= λ shares. some (
                    some (
                      signature_shares txid shares (
                        map tss.derive_public_nonce
                          (derive_secret_nonces txid (generation + 1) inputs))))
        ]
  ]
