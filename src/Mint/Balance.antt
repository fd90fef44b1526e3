-- ===== src/Mint/Balance.antt =====
-- What a transaction that picomint-node-daemon/src/consensus/server.rs accepts has spent and made.
use picomint.Prelude.{
  ℕ, ◌+◌, ◌≤◌, ◌≡◌, refl, Bool, true, false, Option, none, some, List, [], ◌∷◌, length, arith, ◌⊎◌,
  inl, inr, Bool-cases, Option-cases, >>=-eq-some, ◌>>=◌,
}
use mathlib.Core.Path.{subst}
use picomint.Mint.Funding.{FundingVerifier, no_funds, add_input, add_output, verify_funding}
use picomint.Mint.Ledger.{Scheme, Keys, Result, ok, err}
use picomint.Mint.Server.{
  WireInput, WireOutput, Transaction, Onchain, Books, input_fee, output_fee, process_input,
  process_output, process_inputs, process_outputs, finish_tx, process_tx, check_signatures, TxError,
  settle,
}

abbrev pub total_of : List ℕ → ℕ
total_of [] = 0
total_of (a ∷ amounts) = a + total_of amounts

abbrev pub input_fees : {I : Type 0} → List (WireInput I) → ℕ
input_fees [] = 0
input_fees (i ∷ inputs) = input_fee i + input_fees inputs

abbrev pub output_fees : {O : Type 0} → List (WireOutput O) → ℕ
output_fees [] = 0
output_fees (o ∷ outputs) = output_fee o + output_fees outputs

pub Result-cases :
    {E A : Type 0} (r : Result E A) → ((e : E) × (r ≡ err e)) ⊎ ((a : A) × (r ≡ ok a))
Result-cases (ok a) = inr (a, refl)
Result-cases (err e) = inl (e, refl)

add_input-exact :
    (v v' : FundingVerifier) (amount fee : ℕ)
    → add_input v amount fee ≡ some v'
    → (v'.inputs ≡ v.inputs + amount) × (v'.fees ≡ v.fees + fee) × (v'.outputs ≡ v.outputs)
unfolding add_input
add_input-exact v v' amount fee p = ground arith

add_output-exact :
    (v v' : FundingVerifier) (amount fee : ℕ)
    → add_output v amount fee ≡ some v'
    → (v'.outputs ≡ v.outputs + amount) × (v'.fees ≡ v.fees + fee) × (v'.inputs ≡ v.inputs)
unfolding add_output
add_output-exact v v' amount fee p = ground arith

module _ {S I O : Type 0} (scheme : Scheme) (keys : Keys) (onchain : Onchain S I O)
    (txid_of : List (WireInput I) → List (WireOutput O) → ℕ) where
  -- The inputs, one after another, each with its amount and the key that it wants a signature of.
  abbrev pub Spends : Books S → List (WireInput I) → List ℕ → List ℕ → Books S → Type 0
  Spends b [] [] [] b' = b ≡ b'
  Spends b (i ∷ inputs) (a ∷ amounts) (pk ∷ pks) b' =
      (x : Books S) × (process_input scheme keys onchain txid_of b i ≡ some (ok ((a, pk), x)))
      × Spends x inputs amounts pks b'
  Spends b [] [] (pk ∷ pks) b' = ⊥
  Spends b [] (a ∷ amounts) pks b' = ⊥
  Spends b (i ∷ inputs) [] pks b' = ⊥
  Spends b (i ∷ inputs) (a ∷ amounts) [] b' = ⊥

  -- The outputs, from an index on, each with its amount.
  abbrev pub Makes : Books S → ℕ → ℕ → List (WireOutput O) → List ℕ → Books S → Type 0
  Makes b txid out_idx [] [] b' = b ≡ b'
  Makes b txid out_idx (o ∷ outputs) (a ∷ amounts) b' =
      (x : Books S) × (process_output scheme keys onchain txid_of b o (txid, out_idx)
        ≡ some (ok (a, x)))
      × Makes x txid (out_idx + 1) outputs amounts b'
  Makes b txid out_idx [] (a ∷ amounts) b' = ⊥
  Makes b txid out_idx (o ∷ outputs) [] b' = ⊥

  pub record Spent (b : Books S) (v : FundingVerifier) (inputs : List (WireInput I))
      (v' : FundingVerifier) (pks : List ℕ) (b' : Books S) : Type 0 where
    pub amounts : List ℕ
    pub spends : Spends b inputs amounts pks b'
    pub in_total : v'.inputs ≡ v.inputs + total_of amounts
    pub fee_total : v'.fees ≡ v.fees + input_fees inputs
    pub same : v'.outputs ≡ v.outputs

  process_inputs-Spent :
      (inputs : List (WireInput I)) (b b' : Books S) (v v' : FundingVerifier) (pks : List ℕ)
      → process_inputs scheme keys onchain txid_of b v inputs ≡ some (ok ((v', pks), b'))
      → Spent b v inputs v' pks b'
  unfolding process_inputs
  process_inputs-Spent [] b b' v v' pks p =
      let no_keys : [] ≡ pks = ground arith in
      subst (λ z. Spent b v [] v' z b') no_keys
        (record {
          amounts = [];
          spends = ground arith;
          in_total = ground arith;
          fee_total = ground arith;
          same = ground arith;
        })
  process_inputs-Spent (i ∷ inputs) b b' v v' pks p =
      let (r, er, p1) = >>=-eq-some (process_input scheme keys onchain txid_of b i) _ p in
      elim (Result-cases r) [
        | inl (e, bad) ↦ absurd (ground arith)
        | inr (((a, pk), x), good) ↦ elim (Option-cases (add_input v a (input_fee i))) [
          | inl over ↦ absurd (ground arith)
          | inr (w, added) ↦
              elim (Option-cases (process_inputs scheme keys onchain txid_of x w inputs)) [
                | inl panic ↦ absurd (ground arith)
                | inr (s, rest) ↦ elim (Result-cases s) [
                  | inl (e, bad) ↦ absurd (ground arith)
                  | inr (((v2, pks2), b2), fine) ↦
                      let exact = add_input-exact v w a (input_fee i) added in
                      let same_keys : pk ∷ pks2 ≡ pks = ground arith in
                      let same_funds : v2 ≡ v' = ground arith in
                      let same_books : b2 ≡ b' = ground arith in
                      let tail = process_inputs-Spent inputs x b2 w v2 pks2 (ground arith) in
                      subst (λ z. Spent b v (i ∷ inputs) v' z b') same_keys
                        (record {
                          amounts = a ∷ tail.amounts;
                          spends = (x, ground arith, rw (← same_books) tail.spends);
                          in_total = ground (arith, tail.in_total);
                          fee_total = ground (arith, tail.fee_total);
                          same = ground (arith, tail.same);
                        })
                ]
              ]
        ]
      ]

  pub record Made (b : Books S) (v : FundingVerifier) (txid out_idx : ℕ)
      (outputs : List (WireOutput O)) (v' : FundingVerifier) (b' : Books S) : Type 0 where
    pub amounts : List ℕ
    pub makes : Makes b txid out_idx outputs amounts b'
    pub out_total : v'.outputs ≡ v.outputs + total_of amounts
    pub fee_total : v'.fees ≡ v.fees + output_fees outputs
    pub same : v'.inputs ≡ v.inputs

  process_outputs-Made :
      (outputs : List (WireOutput O)) (b b' : Books S) (v v' : FundingVerifier) (txid out_idx : ℕ)
      → process_outputs scheme keys onchain txid_of b v txid out_idx outputs ≡ some (ok (v', b'))
      → Made b v txid out_idx outputs v' b'
  unfolding process_outputs
  process_outputs-Made [] b b' v v' txid out_idx p = record {
    amounts = [];
    makes = ground arith;
    out_total = ground arith;
    fee_total = ground arith;
    same = ground arith;
  }
  process_outputs-Made (o ∷ outputs) b b' v v' txid out_idx p =
      let (r, er, p1) =
        >>=-eq-some (process_output scheme keys onchain txid_of b o (txid, out_idx)) _ p in
      elim (Result-cases r) [
        | inl (e, bad) ↦ absurd (ground arith)
        | inr ((a, x), good) ↦ elim (Option-cases (add_output v a (output_fee o))) [
          | inl over ↦ absurd (ground arith)
          | inr (w, added) ↦
              let exact = add_output-exact v w a (output_fee o) added in
              let tail = process_outputs-Made outputs x b' w v' txid (out_idx + 1) (ground arith) in
              record {
                amounts = a ∷ tail.amounts;
                makes = (x, ground arith, tail.makes);
                out_total = ground (arith, tail.out_total);
                fee_total = ground (arith, tail.fee_total);
                same = ground (arith, tail.same);
              }
        ]
      ]

  -- What an accepted transaction has done.
  pub record Accepted (b : Books S) (tx : Transaction I O) (b' : Books S) : Type 0 where
    pub spent : List ℕ
    pub made : List ℕ
    pub keys_wanted : List ℕ
    pub between : Books S
    pub spends : Spends b tx.inputs spent keys_wanted between
    pub makes : Makes between (txid_of tx.inputs tx.outputs) 0 tx.outputs made b'
    pub funded : total_of made + input_fees tx.inputs + output_fees tx.outputs ≤ total_of spent
    pub one_each : length keys_wanted ≡ length tx.signatures
    pub signed :
        check_signatures
          (λ s pk. scheme.schnorr_verify s (txid_of tx.inputs tx.outputs) pk)
          keys_wanted
          tx.signatures
        ≡ true

  verify_funding-true :
      (v : FundingVerifier) → verify_funding v ≡ some true → v.outputs + v.fees ≤ v.inputs
  unfolding verify_funding
  verify_funding-true v p = ground arith

  verdicts : (o : Option Bool) → (o ≡ none) ⊎ (o ≡ some false) ⊎ (o ≡ some true)
  verdicts none = inl refl
  verdicts (some false) = inr (inl refl)
  verdicts (some true) = inr (inr refl)

  -- The second part of a transaction that is accepted.
  pub record Finished (v : FundingVerifier) (pks : List ℕ) (b : Books S) (tx : Transaction I O)
      (b' : Books S) : Type 0 where
    pub funds : FundingVerifier
    pub outputs : Made b v (txid_of tx.inputs tx.outputs) 0 tx.outputs funds b'
    pub enough : funds.outputs + funds.fees ≤ funds.inputs
    pub one_each : length pks ≡ length tx.signatures
    pub signed :
        check_signatures
          (λ s pk. scheme.schnorr_verify s (txid_of tx.inputs tx.outputs) pk)
          pks
          tx.signatures
        ≡ true

  finish_tx-Finished :
      (v : FundingVerifier) (pks : List ℕ) (b b' : Books S) (tx : Transaction I O)
      → finish_tx scheme keys onchain txid_of v pks b tx ≡ some (ok b')
      → Finished v pks b tx b'
  unfolding finish_tx
  finish_tx-Finished v pks b b' tx p =
      let txid = txid_of tx.inputs tx.outputs in
      elim (Bool-cases
        (check_signatures (λ s pk. scheme.schnorr_verify s txid pk) pks tx.signatures)) [
          | inr unsigned ↦ absurd (ground arith)
          | inl signed ↦
              let settled : Result TxError (FundingVerifier × Books S)
                  → Option (Result TxError (Books S)) =
                λ r. elim r [
                  | err e ↦ some (err e)
                  | ok y ↦ some (settle scheme keys onchain txid_of y.0 y.1)
                ] in
              let go : (process_outputs scheme keys onchain txid_of b v txid 0 tx.outputs
                    >>= settled)
                  ≡ some (ok b') =
                ground arith in
              let (r, er, p1) =
                >>=-eq-some (process_outputs scheme keys onchain txid_of b v txid 0 tx.outputs) _
                  go in
              elim (Result-cases r) [
                | inl (e, bad) ↦ absurd (ground arith)
                | inr ((w, y), good) ↦ elim (verdicts (verify_funding w)) [
                  | inl over ↦ absurd (ground arith)
                  | inr (inl under) ↦ absurd (ground arith)
                  | inr (inr enough) ↦
                      let same : y ≡ b' = ground arith in
                      record {
                        funds = w;
                        outputs = process_outputs-Made tx.outputs b b' v w txid 0 (ground arith);
                        enough = verify_funding-true w enough;
                        one_each = ground arith;
                        signed = signed;
                      }
                ]
              ]
        ]

  accepted_parts :
      (b b' : Books S) (tx : Transaction I O)
      → process_tx scheme keys onchain txid_of b tx ≡ some (ok b')
      → (x : (FundingVerifier × List ℕ) × Books S) × (process_inputs scheme keys onchain txid_of b
            no_funds tx.inputs
          ≡ some (ok x))
        × (finish_tx scheme keys onchain txid_of x.0.0 x.0.1 x.1 tx ≡ some (ok b'))
  unfolding process_tx
  accepted_parts b b' tx p =
      elim (Option-cases (process_inputs scheme keys onchain txid_of b no_funds tx.inputs)) [
        | inl panic ↦ absurd (ground arith)
        | inr (r, done) ↦ elim (Result-cases r) [
          | inl (e, bad) ↦ absurd (ground arith)
          | inr (x, good) ↦ (x, ground arith, ground arith)
        ]
      ]

  -- A transaction that is accepted has spent each of its inputs in turn and made each of its outputs in
  -- turn. What its inputs are worth covers, without any overflow, what its outputs are worth and the fees
  -- of all inputs and outputs; and each input's key has signed it, one signature for each.
  pub process_tx-Accepted :
      (b b' : Books S) (tx : Transaction I O)
      → process_tx scheme keys onchain txid_of b tx ≡ some (ok b')
      → Accepted b tx b'
  process_tx-Accepted b b' tx p =
      let (((v, pks), x), spent, made) = accepted_parts b b' tx p in
      let s = process_inputs-Spent tx.inputs b x no_funds v pks spent in
      let m = finish_tx-Finished v pks x b' tx made in
      record {
        spent = s.amounts;
        made = m.outputs.amounts;
        keys_wanted = pks;
        between = x;
        spends = s.spends;
        makes = m.outputs.makes;
        funded = omega (
          arith, m.enough, m.outputs.out_total, m.outputs.fee_total, m.outputs.same, s.in_total,
          s.fee_total, s.same,
        );
        one_each = m.one_each;
        signed = m.signed;
      }
