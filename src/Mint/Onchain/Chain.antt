-- ===== src/Mint/Onchain/Chain.antt =====
-- The mint's transactions, each of which spends the wallet into a new one:
-- picomint-node-daemon/src/consensus/onchain/mod.rs.
use picomint.Prelude.{
  ℕ, ◌+◌, ◌<◌, ◌^◌, ◌≡◌, refl, Option, none, some, List, [], ◌∷◌, ◌++◌, length, arith, sym, ◌∙◌,
  ◌⊎◌, inl, inr, Bool-cases, ◌==◌,
}
use mathlib.Core.Path.{subst}
use picomint.Collections.BTreeMap
use picomint.Collections.BTreeMap.{BTreeMap, values}
use picomint.Collections.Dense.{Dense, insert_next, length-values}
use picomint.Mint.Onchain.Values.{MintUtxo, TxInfo, Wallet, Bitcoin}
use picomint.Mint.Onchain.Signing.{Tss, Server, next_index}
use picomint.Mint.Onchain.Rows.{next_index-length, item-tended}
use picomint.Mint.Onchain.Claims.{deposit-cases, process_input-Claims, process_output-Pays}
use picomint.Mint.Onchain.Money.{Runs, begun, tracked, ordered, claimed, paid}

-- The transactions are numbered from `k` on, each spends what the one before has left, from `v` on, and
-- the last leaves `end`.
abbrev pub Linked : ℕ → ℕ → List TxInfo → ℕ → Type 0
Linked k v [] end = v ≡ end
Linked k v (info ∷ infos) end =
    (info.index ≡ k) × (info.input ≡ v) × Linked (k + 1) info.output infos end

Linked-append :
    (k v : ℕ) (infos : List TxInfo) (mid : ℕ) (info : TxInfo)
    → Linked k v infos mid
    → info.index ≡ k + length infos
    → info.input ≡ mid
    → Linked k v (infos ++ (info ∷ [])) info.output
Linked-append k v [] mid info l at from = (omega arith, from ∙ sym l, refl)
Linked-append k v (x ∷ infos) mid info l at from =
    (l.0, l.1, Linked-append (k + 1) x.output infos mid info l.2 (omega arith) from)

-- The row of the wallet and the table of the transactions. Without a wallet there is no transaction.
abbrev pub ChainedRows : Option MintUtxo → BTreeMap TxInfo → Type 0
ChainedRows utxo rows =
    Dense 0 rows
    × (((utxo ≡ none) × (rows ≡ []))
        ⊎ ((first : ℕ) × (u : MintUtxo) × (utxo ≡ some u) × Linked 0 first (values rows) u.value))

abbrev pub Chained : Wallet → Type 0
Chained w = ChainedRows w.mint_utxo w.tx_info

-- A wallet that a transaction has spent.
extended :
    (utxo : Option MintUtxo) (rows : BTreeMap TxInfo) (old new : MintUtxo) (info : TxInfo)
    → ChainedRows utxo rows
    → utxo ≡ some old
    → length rows + 1 < 2 ^ 64
    → info.index ≡ next_index rows
    → info.input ≡ old.value
    → info.output ≡ new.value
    → ChainedRows (some new) (BTreeMap.insert (next_index rows) info rows)
extended utxo rows old new info (dense, linked) held room at from to =
    let next = next_index-length rows dense (omega arith) in
    let (dense', vals, len) = insert_next 0 (next_index rows) rows info dense (omega arith) in
    elim linked [
      | inl (gone, _) ↦ absurd (ground arith)
      | inr (first, u, there, chain) ↦
          let same : info.input ≡ u.value = ground arith in
          let longer =
            Linked-append 0 first (values rows) u.value info chain
              (omega (arith, length-values rows)) same in
          (dense', inr (first, new, refl, rw vals (subst (Linked 0 first _) to longer)))
    ]

chain_of_none : (rows : BTreeMap TxInfo) (v : ℕ) → rows ≡ [] → Linked 0 v (values rows) v
chain_of_none [] v e = refl
chain_of_none (x ∷ rows) v e = absurd (ground arith)

module _ (bitcoin : Bitcoin) (tss : Tss) (server : Server) where
  -- The transactions of the wallet form one chain: they are numbered from 0, each spends just what the one
  -- before has left to the wallet, and the wallet holds what the last has left.
  pub Runs-Chained :
      (w : Wallet) (claims : List (ℕ × ℕ)) (payments : List ℕ)
      → Runs bitcoin tss server w claims payments
      → Chained w
  Runs-Chained _ claims payments begun = (tt, inl (refl, refl))
  Runs-Chained _ claims payments (tracked w old fresh _ _ run) =
      let before = Runs-Chained w claims payments run in
      elim (Bool-cases (old == 0)) [ inl first ↦ rw first before | inr later ↦ rw later before ]
  Runs-Chained _ claims payments (ordered w node item w' _ _ run room p) =
      subst Chained (sym (item-tended bitcoin tss server w node item w' p))
        (Runs-Chained w claims payments run)
  Runs-Chained _ _ payments (claimed w created i amount pk w' claims _ run room p) =
      let x = process_input-Claims bitcoin server w created i amount pk w' p in
      let before = Runs-Chained w claims payments run in
      elim (deposit-cases bitcoin server _ created i x.tracked x.output_value w' x.kept) [
        | inl (first, same) ↦ elim (before.1) [
          | inl (none_yet, empty) ↦ subst Chained (sym same) (
            before.0,
            inr (x.tracked.out.value, _, refl, chain_of_none w.tx_info x.tracked.out.value empty),
          )
          | inr (v, utxo, there, chain) ↦ absurd (ground arith)
        ]
        | inr s ↦
            subst Chained (sym s.result)
              (extended w.mint_utxo w.tx_info s.wallet _ _ before s.held room refl refl refl)
      ]
  Runs-Chained _ claims _ (paid w created o p amount w' _ payments run room q) =
      let x = process_output-Pays bitcoin server w created o p amount w' q in
      let before = Runs-Chained w claims payments run in
      subst Chained (sym x.result)
        (extended w.mint_utxo w.tx_info x.wallet _ _ before x.held room refl refl refl)
