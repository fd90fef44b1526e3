-- ===== src/Encoding/Entries.antt =====
-- What the decoder of `BTreeMap` in picomint-encoding/src/lib.rs takes.
use picomint.Prelude.{
  ℕ, zero, suc, ◌≡◌, refl, sym, ap, ◌∙◌, false, some, List, [], ◌∷◌, ◌++◌, length, All, >>=-eq-some,
  some_unique, arith, Bool-cases, Option-cases, inl, inr,
}
use mathlib.Core.List.{append_assoc, append-nil}
use mathlib.Core.Path.{subst}
use picomint.Encoding.Codec.{Codec, IsCanonical, IsByte, All-rest}
use picomint.Encoding.Integers.{int}
use picomint.Encoding.Values.{pair}
use picomint.Encoding.Tags.{same_parts}
use picomint.Encoding.Sequences.{encode_length, encode_items}
use picomint.Encoding.Lengths.{length_encoded, length_decoded}
use picomint.Encoding.Maps.{Order, IsOrder, not_after, last_key, insert, decode_entries, btree_map}

module _ {K V : Type 0} (order : Order K) where
  -- All keys are below one.
  abbrev pub Below : K → List (K × V) → Type 0
  Below k = All (λ (e : K × V). order.leb k e.0 ≡ false)

  abbrev pub Ascends : List (K × V) → Type 0
  Ascends [] = Unit
  Ascends ((k, v) ∷ entries) =
      All (λ (e : K × V). order.leb e.0 k ≡ false) entries × Ascends entries

  insert-Below :
      (k : K) (v : V) (entries : List (K × V))
      → Below k entries
      → insert order k v entries ≡ (entries ++ ((k, v) ∷ []), false)
  unfolding insert
  insert-Below k v [] h = refl
  insert-Below k v ((j, w) ∷ entries) h = ground (arith, h.0, insert-Below k v entries h.1)

  Below-last_key :
      IsOrder order
      → (k : K) (entries : List (K × V)) → Ascends entries
      → not_after order k (last_key order entries) ≡ false
      → Below k entries
  unfolding last_key
  Below-last_key law k [] a h = tt
  Below-last_key law k ((j, w) ∷ []) a h = (h, tt)
  Below-last_key law k ((j, w) ∷ (i, u) ∷ entries) a h =
      let tail = Below-last_key law k ((i, u) ∷ entries) a.1 h in
      elim (Bool-cases (order.leb k j)) [
        | inl under ↦ let over = law.trans k j i under (law.total i j (a.0).0) in cc (over, tail.0)
        | inr above ↦ (above, tail)
      ]

  last_key-Below :
      (k : K) (entries : List (K × V))
      → Below k entries
      → not_after order k (last_key order entries) ≡ false
  unfolding last_key
  last_key-Below k [] h = refl
  last_key-Below k ((j, w) ∷ []) h = h.0
  last_key-Below k ((j, w) ∷ e ∷ entries) h = last_key-Below k (e ∷ entries) h.1

  Ascends-append :
      (k : K) (v : V) (entries : List (K × V))
      → Ascends entries
      → Below k entries
      → Ascends (entries ++ ((k, v) ∷ []))
  Ascends-append k v [] a h = (tt, tt)
  Ascends-append k v ((j, w) ∷ entries) a h =
      (all_append entries a.0 h.0, Ascends-append k v entries a.1 h.1)
    where
      all_append :
          (m : List (K × V))
          → All (λ (e : K × V). order.leb e.0 j ≡ false) m
          → order.leb k j ≡ false
          → All (λ (e : K × V). order.leb e.0 j ≡ false) (m ++ ((k, v) ∷ []))
      all_append [] g last = (last, tt)
      all_append (e ∷ m) g last = (g.0, all_append m g.1 last)

  -- The keys before an entry of an ascending list are below its key.
  Ascends-Below :
      (k : K) (v : V) (front back : List (K × V))
      → Ascends (front ++ ((k, v) ∷ back))
      → Below k front
  Ascends-Below k v [] back a = tt
  Ascends-Below k v ((j, w) ∷ front) back a = (member front a.0, Ascends-Below k v front back a.1)
    where
      member :
          (m : List (K × V))
          → All (λ (e : K × V). order.leb e.0 j ≡ false) (m ++ ((k, v) ∷ back))
          → order.leb k j ≡ false
      member [] g = g.0
      member (e ∷ m) g = member m g.1

module _ {K V : Type 0} (order : Order K) (VK : K → Type 0) (VV : V → Type 0) (key : Codec K)
    (value : Codec V) (law : IsOrder order) (key_law : IsCanonical key VK)
    (value_law : IsCanonical value VV) where
  abbrev AllValid : List (K × V) → Type 0
  AllValid = All (λ (e : K × V). VK e.0 × VV e.1)

  -- One round of the loop.
  decode_entry :
      (len : ℕ) (front : List (K × V)) (k : K) (v : V) (bytes middle rest : List ℕ)
      → Below order k front
      → key.decode_partial bytes ≡ some (k, middle)
      → value.decode_partial middle ≡ some (v, rest)
      → decode_entries order key value (suc len) front bytes
        ≡ decode_entries order key value len (front ++ ((k, v) ∷ [])) rest
  unfolding decode_entries
  decode_entry len front k v bytes middle rest below p q =
      ground (arith, p, last_key-Below order k front below, q, insert-Below order k v front below)

  -- What a round that does not fail has read.
  record Round (len : ℕ) (front : List (K × V)) (bytes : List ℕ) (out : List (K × V) × List ℕ)
      : Type 0 where
    k : K
    v : V
    middle : List ℕ
    rest : List ℕ
    below : Below order k front
    key_read : key.decode_partial bytes ≡ some (k, middle)
    value_read : value.decode_partial middle ≡ some (v, rest)
    others : decode_entries order key value len (front ++ ((k, v) ∷ [])) rest ≡ some out

  decode_entries-Round :
      (len : ℕ) (front : List (K × V)) (bytes : List ℕ) (out : List (K × V) × List ℕ)
      → Ascends order front
      → decode_entries order key value (suc len) front bytes ≡ some out
      → Round len front bytes out
  unfolding decode_entries
  decode_entries-Round len front bytes out a p =
      let (r, got, fin) = >>=-eq-some (key.decode_partial bytes) _ p in
      elim (Bool-cases (not_after order r.0 (last_key order front))) [
        | inl early ↦ absurd (cc (early, fin))
        | inr later ↦
            let below = Below-last_key order law r.0 front a later in
            elim (Option-cases (value.decode_partial r.1)) [
              | inl failed ↦ absurd (ground (arith, fin))
              | inr (s, also) ↦ record {
                k = r.0;
                v = s.0;
                middle = r.1;
                rest = s.1;
                below = below;
                key_read = got;
                value_read = also;
                others = ground (arith, fin, insert-Below order r.0 s.0 front below);
              }
            ]
      ]

  entries_encoded :
      (entries front : List (K × V)) (bytes rest : List ℕ)
      → Ascends order (front ++ entries)
      → AllValid entries
      → encode_items (pair key value) entries ≡ some bytes
      → decode_entries order key value (length entries) front (bytes ++ rest)
        ≡ some (front ++ entries, rest)
  unfolding encode_items
  entries_encoded [] front bytes rest a valid p =
      rw (← some_unique [] bytes refl p, append-nil front) (unfold decode_entries in refl)
  entries_encoded ((k, v) ∷ entries) front bytes rest a valid p =
      let (first, got, fin) = >>=-eq-some ((pair key value).encode (k, v)) _ p in
      let (others, also, end) = >>=-eq-some (encode_items (pair key value) entries) _ fin in
      let (ek, got_k, fin_k) = >>=-eq-some (key.encode k) _ got in
      let (ev, got_v, fin_v) = >>=-eq-some (value.encode v) _ fin_k in
      let whole = append_assoc front ((k, v) ∷ []) entries in
      let split : bytes ++ rest ≡ ek ++ (ev ++ (others ++ rest)) =
        ap (λ z. z ++ rest) (sym (some_unique (first ++ others) bytes refl end))
        ∙ append_assoc first others rest
        ∙ ap (λ z. z ++ (others ++ rest)) (sym (some_unique (ek ++ ev) first refl fin_v))
        ∙ append_assoc ek ev (others ++ rest) in
      ap (decode_entries order key value (suc (length entries)) front) split
      ∙ decode_entry (length entries) front k v _ (ev ++ (others ++ rest)) (others ++ rest)
          (Ascends-Below order k v front entries a)
          (key_law.decode_encoded k ek (ev ++ (others ++ rest)) (valid.0).0 got_k)
          (value_law.decode_encoded v ev (others ++ rest) (valid.0).1 got_v)
      ∙ entries_encoded entries (front ++ ((k, v) ∷ [])) others rest
          (subst (Ascends order) (sym whole) a) valid.1 also
      ∙ ap (λ z. some (z, rest)) whole

  entries_decoded :
      (len : ℕ) (front whole : List (K × V)) (bytes rest : List ℕ)
      → Ascends order front
      → All IsByte bytes
      → decode_entries order key value len front bytes ≡ some (whole, rest)
      → (entries : List (K × V)) × (front ++ entries ≡ whole)
        × (length entries ≡ len)
        × AllValid entries
        × Ascends order whole
        × (e : List ℕ) × (encode_items (pair key value) entries ≡ some e)
        × (bytes ≡ e ++ rest)
  unfolding encode_items
  entries_decoded zero front whole bytes rest a h p =
      let (same, after) = same_parts front whole bytes rest (unfold decode_entries in p) in
      ([], append-nil front ∙ same, refl, tt, subst (Ascends order) same a, [], refl, after)
  entries_decoded (suc len) front whole bytes rest a h p =
      let x = decode_entries-Round len front bytes (whole, rest) a p in
      let (vk, ek, encoded_k, split_k) = key_law.encode_decoded x.k bytes x.middle h x.key_read in
      let middle_bytes = All-rest key key_law x.k bytes x.middle h x.key_read in
      let (vv, ev, encoded_v, split_v) =
        value_law.encode_decoded x.v x.middle x.rest middle_bytes x.value_read in
      let rest_bytes = All-rest value value_law x.v x.middle x.rest middle_bytes x.value_read in
      let longer = Ascends-append order x.k x.v front a x.below in
      let (entries, joined, sized, valid, ascends, e, encoded, split) =
        entries_decoded len (front ++ ((x.k, x.v) ∷ [])) whole x.rest rest longer rest_bytes
          x.others in
      (
        (x.k, x.v) ∷ entries,
        sym (append_assoc front ((x.k, x.v) ∷ []) entries) ∙ joined,
        ap suc sized,
        ((vk, vv), valid),
        ascends,
        (ek ++ ev) ++ e,
        rw (encoded_k, encoded_v, encoded) refl,
        split_k
            ∙ ap (λ z. ek ++ z) (split_v ∙ ap (λ z. ev ++ z) split)
            ∙ sym (append_assoc ek ev (e ++ rest))
            ∙ sym (append_assoc (ek ++ ev) e rest),
      )

  -- A map decodes just from the encoding of an ascending list of valid entries.
  pub btree_map-IsCanonical :
      IsCanonical (btree_map order key value) (λ entries. Ascends order entries × AllValid entries)
  btree_map-IsCanonical = record {
    decode_encoded = λ entries bytes rest valid p.
        let (len, got, fin) = >>=-eq-some (encode_length (length entries)) _ p in
        let (items, also, end) = >>=-eq-some (encode_items (pair key value) entries) _ fin in
        rw
          (
            ← some_unique (len ++ items) bytes refl end,
            append_assoc len items rest,
            length_encoded (length entries) len (items ++ rest) got,
          )
          (entries_encoded entries [] items rest valid.0 valid.1 also);
    encode_decoded = λ entries bytes rest h p.
        let (len, got, fin) = >>=-eq-some ((int 4).decode_partial bytes) _ p in
        let (left, e, first, split) = length_decoded len.0 bytes len.1 h got in
        let (read, same, sized, valid, ascends, f, items, cut) =
          entries_decoded len.0 [] entries len.1 rest tt left fin in
        (
          (ascends, subst AllValid same valid),
          e ++ f,
          rw (← same, sized, first, items) refl,
          split ∙ ap (λ z. e ++ z) cut ∙ sym (append_assoc e f rest),
        );
  }
