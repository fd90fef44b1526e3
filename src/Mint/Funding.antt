-- ===== src/Mint/Funding.antt =====
-- The `FundingVerifier` of picomint-node-daemon/src/consensus/tx.rs.
use picomint.Prelude.{ℕ, Bool, Option, some, ◌>>=◌, leb}
use picomint.Mint.Amounts.{checked_add}

pub record FundingVerifier : Type 0 where
  pub inputs : ℕ
  pub outputs : ℕ
  pub fees : ℕ

abbrev pub no_funds : FundingVerifier
no_funds = record { inputs = 0; outputs = 0; fees = 0 }

-- `none` is `TxError::Overflow`.
unfoldable pub add_input : FundingVerifier → ℕ → ℕ → Option FundingVerifier
add_input v amount fee = checked_add v.inputs amount >>= λ inputs.
    checked_add v.fees fee >>= λ fees. some (record v { inputs = inputs; fees = fees })

unfoldable pub add_output : FundingVerifier → ℕ → ℕ → Option FundingVerifier
add_output v amount fee = checked_add v.outputs amount >>= λ outputs.
    checked_add v.fees fee >>= λ fees. some (record v { outputs = outputs; fees = fees })

-- `none` is an overflow, and `false` is `TxError::Underfunded`.
unfoldable pub verify_funding : FundingVerifier → Option Bool
verify_funding v = checked_add v.outputs v.fees >>= λ total. some (leb total v.inputs)
