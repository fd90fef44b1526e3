-- ===== src/Tests/Minting.antt =====
-- Runs of the theorems on the ledger, the contracts, the votes and the sessions of a mint.
use picomint.Prelude.{
  ℕ, length, ◌*◌, ◌+◌, ◌≤◌, ◌≡◌, refl, some, none, List, [], ◌∷◌, arith, ◌==◌, leb, ltb, count,
}
use picomint.Collections.BTreeMap
use picomint.Collections.BTreeMap.{BTreeMap, values}
use picomint.Collections.BTreeSet
use picomint.Collections.PairMap
use picomint.Nodes.{total, threshold, max_evil}
use picomint.Mint.Funding.{add_input, add_output, verify_funding}
use picomint.Mint.Ledger.{
  IncomingContract, OutgoingContract, claim, cancel, incoming_input, outgoing_input,
  incoming_output, outgoing_output, OutPoint, Ledger, Scheme, Keys, Result, ok, err,
}
use picomint.Mint.Ecash.{process_ecash_input, process_ecash_output}
use picomint.Mint.Lightning.{
  LightningInputError, unknown_contract, open_outgoing, process_lightning_input,
  process_lightning_output,
}
use picomint.Mint.Server.{
  WireInput, ecash_input, WireOutput, ecash_output, Transaction, Onchain, Books, process_input,
  process_output, process_inputs, process_outputs, check_signatures, finish_tx, process_tx,
}
use picomint.Mint.Balance.{Accepted, process_tx-Accepted}
use picomint.Mint.Nonces.{Accepts, Accepts-spend_once, spends_of, held}
use picomint.Mint.Onchain.Values.{unknown_output_index, no_mint_utxo}
use picomint.Mint.Indexes.{Reached, empty, funded, opened, Reached-returns}
use picomint.Mint.Contracts.{outgoing_once, incoming_once}
use picomint.Mint.Votes.{
  consensus_block_height, consensus_version, all_versions, consensus_block_height-count,
  consensus_version-count, sort_descending, insert_descending,
}
use picomint.Mint.Session.{
  ConsensusItem, tx_item, block_height, session_header, fold_items, Chain, Setup,
  process_consensus_item, order_items, order_items_until_cut,
}
use picomint.Mint.Header.{order_items_until_cut-session_header}
use picomint.Tests.Graph.{mint_of_four}

abbrev toy_scheme : Scheme
toy_scheme = record {
  tbs_verify = λ nonce signature key. signature == nonce + key;
  sign_nonce = λ nonce key. nonce + key;
  schnorr_verify = λ signature message key. signature == message + key;
  hash = λ x. x + 1;
  contract_id = λ c. c.payment_hash;
  preimage = λ c. c.amount;
}

abbrev toy_keys : Keys
toy_keys = record { tbs_agg_pks = (10, 5) ∷ []; tbs_sks = (9, 3) ∷ [] }

abbrev no_onchain : Onchain ℕ ℕ ℕ
no_onchain = record {
  process_input = λ s i. some (err unknown_output_index);
  process_output = λ s o p. some (err no_mint_utxo);
}

abbrev toy_txid : List (WireInput ℕ) → List (WireOutput ℕ) → ℕ
toy_txid inputs outputs = 1000

abbrev no_ledger : Ledger
no_ledger = record {
  note_nonces = [];
  blinded_nonces = [];
  signature_shares = [];
  restore_shares = [];
  outgoing = [];
  preimages = [];
  incoming = [];
  incoming_index = [];
  incoming_stream = [];
  incoming_stream_next = none;
  incoming_payments = [];
}

-- A note of 1024 msat for one of 512.
abbrev swap : Transaction ℕ ℕ
swap = record {
  inputs =
      ecash_input (record { note = record { denomination = 10; nonce = 77; signature = 82 } }) ∷ [];
  outputs = ecash_output (record { denomination = 9; nonce = 5 }) ∷ [];
  signatures = 1077 ∷ [];
}

abbrev at_first : Books ℕ
at_first = record { ledger = no_ledger; onchain = 0 }

abbrev swapped : Books ℕ
swapped = record {
  ledger = record no_ledger {
    note_nonces = 77 ∷ [];
    blinded_nonces = (5, 9) ∷ [];
    signature_shares = (1000, 0, 8) ∷ [];
    restore_shares = (5, 8) ∷ [];
  };
  onchain = 0;
}

swap_runs : process_tx toy_scheme toy_keys no_onchain toy_txid at_first swap ≡ some (ok swapped)
unfolding process_tx finish_tx process_inputs process_outputs process_input process_output
    process_ecash_input process_ecash_output check_signatures add_input add_output verify_funding
    BTreeMap.get BTreeMap.insert BTreeSet.contains BTreeSet.insert PairMap.insert
swap_runs = refl

process_tx-Accepted_example : Accepted toy_scheme toy_keys no_onchain toy_txid at_first swap swapped
process_tx-Accepted_example =
    process_tx-Accepted toy_scheme toy_keys no_onchain toy_txid at_first swapped swap swap_runs

swap_accepted : Accepts toy_scheme toy_keys no_onchain toy_txid 77 at_first (swap ∷ []) swapped
swap_accepted = (swapped, swap_runs, refl)

Accepts-spend_once_example :
    spends_of toy_scheme toy_keys no_onchain toy_txid 77 (swap ∷ []) + held 77 no_ledger ≤ 1
Accepts-spend_once_example =
    Accepts-spend_once toy_scheme toy_keys no_onchain toy_txid 77 (swap ∷ []) at_first swapped
      swap_accepted

abbrev receipt : IncomingContract
receipt = record { amount = 900; fee = 50; claim_pk = 4; ephemeral_pk = 6 }

abbrev outpoint : OutPoint
outpoint = (3, 1)

abbrev with_receipt : Ledger
with_receipt = record no_ledger {
  incoming = (3, 1, receipt) ∷ [];
  incoming_index = (3, 1, 0) ∷ [];
  incoming_stream = (0, (outpoint, receipt)) ∷ [];
  incoming_stream_next = some 1;
  incoming_payments = (901, 900) ∷ [];
}

receipt_funds :
    process_lightning_output toy_scheme no_ledger (incoming_output receipt) outpoint
    ≡ ok (850, with_receipt)
unfolding process_lightning_output PairMap.insert BTreeMap.insert
receipt_funds = refl

abbrev receipt_claimed : Ledger
receipt_claimed = record no_ledger {
  incoming_stream_next = some 1;
  incoming_payments = (901, 900) ∷ [];
}

receipt_claims :
    process_lightning_input toy_scheme with_receipt (incoming_input outpoint)
    ≡ some (ok ((850, 4), receipt_claimed))
unfolding process_lightning_input PairMap.get PairMap.remove BTreeMap.remove
receipt_claims = refl

receipt_opened : Reached toy_scheme receipt_claimed
receipt_opened =
    opened with_receipt (incoming_input outpoint) 850 4 receipt_claimed
      (funded no_ledger (incoming_output receipt) outpoint 850 with_receipt (empty no_ledger refl)
        receipt_funds)
      receipt_claims

-- The receipt is funded a second time.
abbrev receipt_again : Ledger
receipt_again = record receipt_claimed {
  incoming = (3, 1, receipt) ∷ [];
  incoming_index = (3, 1, 1) ∷ [];
  incoming_stream = (1, (outpoint, receipt)) ∷ [];
  incoming_stream_next = some 2;
}

receipt_funds_again :
    process_lightning_output toy_scheme receipt_claimed (incoming_output receipt) outpoint
    ≡ ok (850, receipt_again)
unfolding process_lightning_output PairMap.insert BTreeMap.insert
receipt_funds_again = refl

Reached-returns_example :
    (r : Result LightningInputError ((ℕ × ℕ) × Ledger)) × (process_lightning_input toy_scheme
        receipt_again
        (incoming_input outpoint)
      ≡ some r)
Reached-returns_example = Reached-returns toy_scheme receipt_again (incoming_input outpoint) (
    funded receipt_claimed (incoming_output receipt) outpoint 850 receipt_again receipt_opened
      receipt_funds_again)

abbrev worth : ℕ
worth = 850

abbrev claim_key : ℕ
claim_key = 4

incoming_once_example :
    (worth ≡ worth)
    × (claim_key ≡ receipt.claim_pk)
    × (process_lightning_input toy_scheme receipt_claimed (incoming_input outpoint)
        ≡ some (err unknown_contract))
incoming_once_example =
    incoming_once toy_scheme no_ledger receipt outpoint 850 with_receipt 850 4 receipt_claimed
      receipt_funds receipt_claims

abbrev payment : OutgoingContract
payment = record {
  payment_hash = 21;
  amount = 700;
  fee = 30;
  claim_pk = 8;
  refund_pk = 9;
  invoice = 2;
}

abbrev with_payment : Ledger
with_payment = record no_ledger { outgoing = (3, 1, payment) ∷ [] }

payment_funds :
    process_lightning_output toy_scheme no_ledger (outgoing_output payment) outpoint
    ≡ ok (730, with_payment)
unfolding process_lightning_output PairMap.insert
payment_funds = refl

abbrev payment_claimed : Ledger
payment_claimed = record no_ledger { preimages = (3, 1, 20) ∷ [] }

payment_claims :
    process_lightning_input toy_scheme with_payment (outgoing_input outpoint (claim 20))
    ≡ some (ok ((730, 8), payment_claimed))
unfolding process_lightning_input open_outgoing PairMap.get PairMap.remove PairMap.insert
payment_claims = refl

abbrev paid : ℕ
paid = 730

outgoing_once_example :
    (paid ≡ paid)
    × (process_lightning_input toy_scheme payment_claimed (outgoing_input outpoint (cancel 29))
        ≡ some (err unknown_contract))
outgoing_once_example =
    outgoing_once toy_scheme no_ledger payment outpoint 730 with_payment (claim 20) (cancel 29) 730
      8 payment_claimed payment_funds payment_claims

abbrev heights : BTreeMap ℕ
heights = (0, 90) ∷ (1, 95) ∷ (3, 93) ∷ []

heights_number : length (values heights) ≤ total mint_of_four
heights_number = omega arith

consensus_block_height-count_example :
    (h : ℕ) × (consensus_block_height mint_of_four heights ≡ some h)
    × (leb 90 h ≡ leb (threshold mint_of_four) (count (λ v. leb 90 v) (values heights)))
consensus_block_height-count_example =
    consensus_block_height-count mint_of_four heights 90 heights_number (omega arith)

consensus_version-count_example :
    (v : ℕ) × (consensus_version mint_of_four 2 heights ≡ some v)
    × (leb 90 v
        ≡ leb (count (λ w. ltb w 90) (all_versions mint_of_four 2 heights)) (max_evil mint_of_four))
consensus_version-count_example = consensus_version-count mint_of_four 2 heights 90

abbrev Item : Type 0
Item = ConsensusItem ℕ ℕ ℕ

-- Every item's encoding is taken as 600000 bytes long, so that two cut a session.
abbrev setup : Setup ℕ ℕ ℕ ℕ
setup = record {
  identity = 0;
  n = mint_of_four;
  default_version = 0;
  consensus_version_max = 3;
  scheme = toy_scheme;
  keys = toy_keys;
  onchain = λ height. no_onchain;
  txid_of = toy_txid;
  process_module_ci = λ s node ci. some none;
  initialize_block_height = λ s old fresh. s;
  digest = record {
    of_session = λ session. session;
    fold_in = λ header x. 10 * header + x.node;
    size = λ x. 600000;
  };
}

abbrev chain : Chain ℕ ℕ ℕ ℕ
chain = record {
  books = at_first;
  accepted_txids = [];
  height_votes = [];
  version_votes = [];
  accepted_items = [];
  resume_index = 0;
  rejected = [];
}

abbrev deliveries : List (ℕ × ℕ × Item)
deliveries =
    (0, 1, tx_item swap)
    ∷ (0, 2, tx_item swap)
    ∷ (1, 2, block_height 90)
    ∷ (1, 3, block_height 91)
    ∷ []

abbrev cut : Chain ℕ ℕ ℕ ℕ
cut = record chain {
  books = swapped;
  accepted_txids = 1000 ∷ [];
  height_votes = (2, 90) ∷ [];
  accepted_items =
      (0, record { node = 1; item = tx_item swap })
      ∷ (1, record { node = 2; item = block_height 90 })
      ∷ [];
  resume_index = 3;
}

session_cuts : order_items_until_cut setup chain 7 deliveries ≡ some (some 712, cut)
unfolding order_items_until_cut order_items process_consensus_item fold_items consensus_block_height
    sort_descending insert_descending process_tx finish_tx process_inputs process_outputs
    process_input process_output process_ecash_input process_ecash_output check_signatures add_input
    add_output verify_funding BTreeMap.get BTreeMap.insert BTreeSet.contains BTreeSet.insert
    PairMap.insert
session_cuts = refl

abbrev header : ℕ
header = 712

order_items_until_cut-session_header_example :
    header ≡ session_header setup.digest 7 (values cut.accepted_items)
order_items_until_cut-session_header_example =
    order_items_until_cut-session_header setup chain 7 deliveries 712 cut tt (omega arith)
      session_cuts
