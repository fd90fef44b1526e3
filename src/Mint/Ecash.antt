-- ===== src/Mint/Ecash.antt =====
-- `process_input` and `process_output` of picomint-node-daemon/src/consensus/ecash/mod.rs.
use picomint.Prelude.{ℕ, Bool, not, none, some, if◌then◌else◌}
use picomint.Collections.BTreeMap
use picomint.Collections.BTreeMap.{BTreeMap, contains_key}
use picomint.Collections.BTreeSet
use picomint.Collections.PairMap
use picomint.Mint.Ledger.{
  Note, EcashInput, EcashOutput, amount_of, OutPoint, Ledger, Scheme, Keys, Result, ok, err,
}

pub data EcashInputError : Type 0 where
  spent_coin : EcashInputError
  invalid_denomination : EcashInputError
  invalid_note_signature : EcashInputError

pub data EcashOutputError : Type 0 where
  reused_nonce : EcashOutputError
  unknown_denomination : EcashOutputError

module _ (scheme : Scheme) (keys : Keys) where
  -- `verify_note`
  abbrev pub verify_note : Note → ℕ → Bool
  verify_note note pk = scheme.tbs_verify note.nonce note.signature pk

  unfoldable pub process_ecash_input :
      Ledger → EcashInput → Result EcashInputError ((ℕ × ℕ) × Ledger)
  process_ecash_input l input =
      let note = input.note in
      if BTreeSet.contains note.nonce l.note_nonces
      then err spent_coin
      else elim (BTreeMap.get note.denomination keys.tbs_agg_pks) [
        | none ↦ err invalid_denomination
        | some pk ↦
            if not (verify_note note pk)
            then err invalid_note_signature
            else ok (
              (amount_of note.denomination, note.nonce),
              record l { note_nonces = BTreeSet.insert note.nonce l.note_nonces },
            )
      ]

  unfoldable pub process_ecash_output :
      Ledger → EcashOutput → OutPoint → Result EcashOutputError (ℕ × Ledger)
  process_ecash_output l output outpoint =
      if contains_key output.nonce l.blinded_nonces
      then err reused_nonce
      else elim (BTreeMap.get output.denomination keys.tbs_sks) [
        | none ↦ err unknown_denomination
        | some key ↦
            let signature = scheme.sign_nonce output.nonce key in
            ok (
              amount_of output.denomination,
              record l {
                blinded_nonces = BTreeMap.insert output.nonce output.denomination l.blinded_nonces;
                signature_shares =
                    PairMap.insert outpoint.0 outpoint.1 signature l.signature_shares;
                restore_shares = BTreeMap.insert output.nonce signature l.restore_shares;
              },
            )
      ]
