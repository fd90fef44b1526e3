-- ===== src/Mint/Header.antt =====
-- The header that a session is signed over, in picomint-node-daemon/src/consensus/engine.rs.
use picomint.Prelude.{
  ℕ, ◌+◌, ◌<◌, ◌^◌, ◌≡◌, refl, true, false, some, List, [], ◌∷◌, ◌++◌, length, leb, ltb, arith, sym,
  ◌∙◌, ap, inl, inr, Bool-cases, Option-cases,
}
use picomint.Collections.BTreeMap
use picomint.Collections.BTreeMap.{BTreeMap, values}
use picomint.Collections.BTreeSet
use picomint.Collections.Dense.{Dense, insert_next, length-values}
use picomint.Mint.Server.{process_tx}
use picomint.Mint.Balance.{Result-cases}
use picomint.Mint.Votes.{consensus_block_height}
use picomint.Mint.Session.{
  ConsensusItem, tx_item, module_item, block_height, version_vote, AcceptedItem, Digest,
  SessionState, new_session, fold_item, fold_items, fold_header, session_header, Chain, Setup,
  process_consensus_item, order_items, order_items_until_cut, session_outcome_byte_target,
  rounds_per_session,
}

module _ {A : Type 0} (digest : Digest A) where
  fold-append :
      (s : SessionState) (xs : List A) (x : A)
      → fold_items digest s (xs ++ (x ∷ [])) ≡ fold_item digest (fold_items digest s xs) x
  unfolding fold_items
  fold-append s [] x = refl
  fold-append s (y ∷ xs) x = fold-append (fold_item digest s y) xs x

  fold-header :
      (s : SessionState) (xs : List A)
      → (fold_items digest s xs).header ≡ fold_header digest s.header xs
  unfolding fold_items fold_header
  fold-header s [] = refl
  fold-header s (x ∷ xs) = fold-header (fold_item digest s x) xs

  fold-index :
      (s : SessionState) (xs : List A)
      → s.index + length xs < 2 ^ 64
      → (fold_items digest s xs).index ≡ s.index + length xs
  unfolding fold_items
  fold-index s [] l = omega arith
  fold-index s (x ∷ xs) l = fold-index (fold_item digest s x) xs (omega arith) ∙ omega arith

module _ {S I O M : Type 0} (setup : Setup S I O M) where
  -- An item that is not accepted leaves the session's items.
  item-kept :
      (c : Chain S I O M) (node : ℕ) (item : ConsensusItem I O M) (c' : Chain S I O M)
      → process_consensus_item setup c node item ≡ some (false, c')
      → c'.accepted_items ≡ c.accepted_items
  unfolding process_consensus_item
  item-kept c node (tx_item tx) c' p =
      let txid = setup.txid_of tx.inputs tx.outputs in
      elim (Bool-cases (BTreeSet.contains txid c.accepted_txids)) [
        | inl again ↦ ground arith
        | inr fresh ↦
            elim (Option-cases (
              process_tx setup.scheme setup.keys
                (setup.onchain (consensus_block_height setup.n c.height_votes)) setup.txid_of
                c.books tx)) [
                  | inl panic ↦ absurd (ground arith)
                  | inr (r, done) ↦ elim (Result-cases r) [
                    | inl (e, bad) ↦ ground arith
                    | inr (b, good) ↦ absurd (ground arith)
                  ]
                ]
      ]
  item-kept c node (module_item ci) c' p = ground arith
  item-kept c node (block_height vote) c' p = ground arith
  item-kept c node (version_vote vote) c' p = ground arith

  -- The state stands for the session's items so far.
  abbrev Follows : ℕ → Chain S I O M → SessionState → Type 0
  Follows session c state =
      Dense 0 c.accepted_items
      × (state
          ≡ fold_items setup.digest (new_session setup.digest session) (values c.accepted_items))

  next-Follows :
      (session : ℕ) (c : Chain S I O M) (state : SessionState) (x : AcceptedItem I O M)
      → Follows session c state
      → length c.accepted_items < 2 ^ 64
      → Dense 0 (BTreeMap.insert state.index x c.accepted_items)
        × (fold_item setup.digest state x
            ≡ fold_items setup.digest
                (new_session setup.digest session)
                (values (BTreeMap.insert state.index x c.accepted_items)))
        × (length (BTreeMap.insert state.index x c.accepted_items) ≡ length c.accepted_items + 1)
  next-Follows session c state x (dense, same) small =
      let start = new_session setup.digest session in
      let len = length-values c.accepted_items in
      let at : state.index ≡ 0 + length c.accepted_items =
        ap (λ (s : SessionState). s.index) same
        ∙ fold-index setup.digest start (values c.accepted_items) (omega arith)
        ∙ omega arith in
      let (dense', vals, more) = insert_next 0 state.index c.accepted_items x dense at in
      (
        dense',
        ap (λ s. fold_item setup.digest s x) same
            ∙ sym (fold-append setup.digest start (values c.accepted_items) x)
            ∙ ap (fold_items setup.digest start) (sym vals),
        more,
      )

  Follows-header :
      (session : ℕ) (c : Chain S I O M) (state : SessionState)
      → Follows session c state
      → state.header ≡ session_header setup.digest session (values c.accepted_items)
  unfolding session_header
  Follows-header session c state (dense, same) =
      ap (λ (s : SessionState). s.header) same
      ∙ fold-header setup.digest (new_session setup.digest session) (values c.accepted_items)

  order_items-header :
      (deliveries : List (ℕ × ℕ × ConsensusItem I O M)) (session resume_from index : ℕ)
      (c : Chain S I O M) (state : SessionState) (h : ℕ) (c' : Chain S I O M)
      → Follows session c state
      → length c.accepted_items + length deliveries < 2 ^ 64
      → order_items setup resume_from c state index deliveries ≡ some (some h, c')
      → h ≡ session_header setup.digest session (values c'.accepted_items)
  unfolding order_items
  order_items-header [] session resume_from index c state h c' follows small p =
      let at = Follows-header session c state follows in
      elim (Bool-cases (leb session_outcome_byte_target state.bytes)) [
        | inl cut ↦
            let same : c ≡ c' = ground arith in
            let head : state.header ≡ h = ground arith in
            sym head
            ∙ at
            ∙ ap
                (λ (z : Chain S I O M).
                  session_header setup.digest session (values z.accepted_items))
                same
        | inr more_room ↦ absurd (ground arith)
      ]
  order_items-header ((round, node, item) ∷ deliveries) session resume_from index c state h c'
        follows small p =
      let at = Follows-header session c state follows in
      let begun : Chain S I O M = record c { resume_index = index + 1 } in
      let x : AcceptedItem I O M = record { node = node; item = item } in
      elim (Bool-cases (leb session_outcome_byte_target state.bytes)) [
        | inl cut ↦
            let same : c ≡ c' = ground arith in
            let head : state.header ≡ h = ground arith in
            sym head
            ∙ at
            ∙ ap
                (λ (z : Chain S I O M).
                  session_header setup.digest session (values z.accepted_items))
                same
        | inr more_room ↦ elim (Bool-cases (ltb index resume_from)) [
          | inl old ↦
              order_items-header deliveries session resume_from (index + 1) c state h c' follows
                (omega arith) (ground arith)
          | inr new ↦ elim (Bool-cases (leb rounds_per_session round)) [
            | inl cap ↦
                let same : c ≡ c' = ground arith in
                let head : state.header ≡ h = ground arith in
                sym head
                ∙ at
                ∙ ap
                    (λ (z : Chain S I O M).
                      session_header setup.digest session (values z.accepted_items))
                    same
            | inr low ↦ elim (Option-cases (process_consensus_item setup begun node item)) [
              | inl panic ↦ absurd (ground arith)
              | inr ((false, y), done) ↦
                  let kept = item-kept begun node item y done in
                  order_items-header deliveries session resume_from (index + 1)
                    (record y { resume_index = c.resume_index }) state h c' (rw kept follows)
                    (rw kept (omega arith)) (ground arith)
              | inr ((true, y), done) ↦
                  let (dense, same, more) = next-Follows session c state x follows (omega arith) in
                  order_items-header deliveries session resume_from (index + 1)
                    (record y { accepted_items = BTreeMap.insert state.index x c.accepted_items })
                    (fold_item setup.digest state x) h c' (dense, same) (omega (arith, more))
                    (ground arith)
            ]
          ]
        ]
      ]

  -- At the cut of a session the header is that of the session's accepted items, whether they were accepted
  -- in this run or before a restart, if the positions of those before are dense and the session stays below
  -- 2^64 items.
  pub order_items_until_cut-session_header :
      (c : Chain S I O M) (session : ℕ) (deliveries : List (ℕ × ℕ × ConsensusItem I O M)) (h : ℕ)
      (c' : Chain S I O M)
      → Dense 0 c.accepted_items
      → length c.accepted_items + length deliveries < 2 ^ 64
      → order_items_until_cut setup c session deliveries ≡ some (some h, c')
      → h ≡ session_header setup.digest session (values c'.accepted_items)
  unfolding order_items_until_cut
  order_items_until_cut-session_header c session deliveries h c' dense small p =
      order_items-header deliveries session c.resume_index 0 c
        (fold_items setup.digest (new_session setup.digest session) (values c.accepted_items)) h c'
        (dense, refl) small p
