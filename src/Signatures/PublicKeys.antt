-- ===== src/Signatures/PublicKeys.antt =====
-- The public key of each row of a multi-signature
-- (rust/processor/src/models/user_transactions_models/signatures.rs).
use aptos_indexer_processors.Prelude.{
  ℕ, zero, suc, ◌+◌, ◌≡◌, ◌↔◌, ◌∙◌, refl, sym, ap, some, done, unwrap, done-injective, >>=-eq-done,
  unwrap-eq-done, List, [], ◌∷◌, map, nth, arith, Text, bytes,
}
use aptos_indexer_processors.Protos.Signatures.{
  MultiEd25519Signature, MultiKeySignature, IndexedSignature, AnyPublicKey,
}
use aptos_indexer_processors.Signatures.Account.{
  Signature, Signing, row_of, hex, multi_ed25519_rows, parse_multi_ed25519_signature,
  multi_key_rows, parse_multi_key_signature,
}

-- The key that the index in place `n` names.
abbrev pub KeyOf : MultiEd25519Signature → ℕ → Text → Type 0
KeyOf s n key = (k : ℕ) × (nth n s.public_key_indices ≡ some k) × (nth k s.public_keys ≡ some key)

-- A row for the signature in a place, with that key.
abbrev pub RowOf : (Text → Text) → List Signature → ℕ → ℕ → Text → Text → Type 0
RowOf encode rows place n key sig =
    (row : Signature) × (nth place rows ≡ some row)
    × (row.multi_sig_index ≡ n)
    × (row.public_key ≡ hex encode key)
    × (row.signature ≡ hex encode sig)

-- A row in a place whose key is the one of index `n` in the list of keys.
abbrev pub PositionalRow : (Text → Text) → MultiKeySignature → List Signature → ℕ → ℕ → Type 0
PositionalRow encode s rows place n =
    (key : AnyPublicKey) × (nth n s.public_keys ≡ some key)
    × ((row : Signature) × (nth place rows ≡ some row)
        × (row.multi_sig_index ≡ n)
        × (row.public_key ≡ hex encode key.public_key)
        × (row.public_key_indices ≡ map (λ i. i.index) s.signatures))

module _ (encode : Text → Text) (a : Signing) where
  ed25519_rows_from :
      (s : MultiEd25519Signature) (n : ℕ) (sigs : List Text) (rows : List Signature)
      → multi_ed25519_rows encode a s n sigs ≡ done rows
      → (i : ℕ) (sig : Text) → nth i sigs ≡ some sig
      → (key : Text) × KeyOf s (i + n) key × RowOf encode rows i (i + n) key sig
  unfolding multi_ed25519_rows row_of
  ed25519_rows_from s n [] rows e i sig there = cc
  ed25519_rows_from s n (x ∷ sigs) rows e zero sig there =
      let (k, e0, e1) = >>=-eq-done (unwrap (nth n s.public_key_indices)) _ e in
      let (key, e2, e3) = >>=-eq-done (unwrap (nth k s.public_keys)) _ e1 in
      let (rest, e4, e5) = >>=-eq-done (multi_ed25519_rows encode a s (n + 1) sigs) _ e3 in
      let same : x ≡ sig = cc in
      let from : n ≡ 0 + n = omega arith in
      rw (← from) (
        key,
        (k, unwrap-eq-done _ e0, unwrap-eq-done _ e2),
        (_, ap (nth 0) (sym (done-injective e5)), refl, refl, ap (hex encode) same),
      )
  ed25519_rows_from s n (x ∷ sigs) rows e (suc i) sig there =
      let (k, _, e1) = >>=-eq-done (unwrap (nth n s.public_key_indices)) _ e in
      let (key, _, e3) = >>=-eq-done (unwrap (nth k s.public_keys)) _ e1 in
      let (rest, e4, e5) = >>=-eq-done (multi_ed25519_rows encode a s (n + 1) sigs) _ e3 in
      let place : i + (n + 1) ≡ suc i + n = omega arith in
      let (named, of_index, found) = ed25519_rows_from s (n + 1) sigs rest e4 i sig there in
      let (row, at_place, here, keyed, signed) = found in
      rw (← place) (
        named,
        of_index,
        (row, ap (nth (suc i)) (sym (done-injective e5)) ∙ at_place, here, keyed, signed),
      )

  ed25519_rows_total :
      (s : MultiEd25519Signature) (n : ℕ) (sigs : List Text)
      → ((i : ℕ) (sig : Text) → nth i sigs ≡ some sig → (key : Text) × KeyOf s (i + n) key)
      → (rows : List Signature) × (multi_ed25519_rows encode a s n sigs ≡ done rows)
  unfolding multi_ed25519_rows
  ed25519_rows_total s n [] keyed = ([], refl)
  ed25519_rows_total s n (x ∷ sigs) keyed =
      let from : 0 + n ≡ n = omega arith in
      let (key, at_n) = keyed 0 x refl in
      let (k, index, there) = at_n in
      let (rest, e) = ed25519_rows_total s (n + 1) sigs (λ i sig h.
        let place : suc i + n ≡ i + (n + 1) = omega arith in rw place at (keyed (suc i) sig h)) in
      let row =
        row_of a n (bytes "multi_ed25519_signature") (hex encode key) (hex encode x) s.threshold
          s.public_key_indices in
      (row ∷ rest, rw (rw from at index, there, e))

  -- The rows of a MultiEd25519 signature exist exactly when each signature has an index that names a key
  -- (it panics otherwise); the row of a signature then stands in its place, with that index and that key.
  pub parse_multi_ed25519_signature-keys :
      (s : MultiEd25519Signature)
      → (((rows : List Signature) × (parse_multi_ed25519_signature encode a s ≡ done rows))
          ↔ ((i : ℕ) (sig : Text) → nth i s.signatures ≡ some sig → (key : Text) × KeyOf s i key))
        × ((rows : List Signature)
            → parse_multi_ed25519_signature encode a s ≡ done rows
            → (i : ℕ) (sig : Text) → nth i s.signatures ≡ some sig
            → (key : Text) × KeyOf s i key × RowOf encode rows i i key sig)
  unfolding parse_multi_ed25519_signature
  parse_multi_ed25519_signature-keys s =
      let rows_of : (rows : List Signature)
          → parse_multi_ed25519_signature encode a s ≡ done rows
          → (i : ℕ) (sig : Text) → nth i s.signatures ≡ some sig
          → (key : Text) × KeyOf s i key × RowOf encode rows i i key sig =
        λ rows e i sig h.
          let place : i + 0 ≡ i = omega arith in
          rw place at (ed25519_rows_from s 0 s.signatures rows e i sig h) in
      (
        (
          λ found i sig h. let (key, named, _) = rows_of found.0 found.1 i sig h in (key, named),
          λ keyed.
              ed25519_rows_total s 0 s.signatures
                (λ i sig h. let place : i ≡ i + 0 = omega arith in rw place at (keyed i sig h)),
        ),
        rows_of,
      )

  multi_key_rows_from :
      (s : MultiKeySignature) (n : ℕ) (sigs : List IndexedSignature) (rows : List Signature)
      → multi_key_rows encode a s n sigs ≡ done rows
      → (i : ℕ) (sig : IndexedSignature) → nth i sigs ≡ some sig
      → PositionalRow encode s rows i (i + n)
  unfolding multi_key_rows row_of
  multi_key_rows_from s n [] rows e i sig there = cc
  multi_key_rows_from s n (x ∷ sigs) rows e zero sig there =
      let (key, e0, e1) = >>=-eq-done (unwrap (nth n s.public_keys)) _ e in
      let (_, _, e3) = >>=-eq-done (unwrap x.signature) _ e1 in
      let (rest, e4, e5) = >>=-eq-done (multi_key_rows encode a s (n + 1) sigs) _ e3 in
      let from : n ≡ 0 + n = omega arith in
      rw (← from)
        (key, unwrap-eq-done _ e0, (_, ap (nth 0) (sym (done-injective e5)), refl, refl, refl))
  multi_key_rows_from s n (x ∷ sigs) rows e (suc i) sig there =
      let (key, _, e1) = >>=-eq-done (unwrap (nth n s.public_keys)) _ e in
      let (_, _, e3) = >>=-eq-done (unwrap x.signature) _ e1 in
      let (rest, e4, e5) = >>=-eq-done (multi_key_rows encode a s (n + 1) sigs) _ e3 in
      let place : i + (n + 1) ≡ suc i + n = omega arith in
      let (named, of_index, found) = multi_key_rows_from s (n + 1) sigs rest e4 i sig there in
      let (row, at_place, here, keyed, listed) = found in
      rw (← place) (
        named,
        of_index,
        (row, ap (nth (suc i)) (sym (done-injective e5)) ∙ at_place, here, keyed, listed),
      )

  -- When a MultiKey signature gives its rows, the row in a place has the public key of that place in the
  -- list of keys, whatever index its signature names; all indices are listed in every row.
  pub parse_multi_key_signature-keys :
      (s : MultiKeySignature) (rows : List Signature)
      → parse_multi_key_signature encode a s ≡ done rows
      → (i : ℕ) (sig : IndexedSignature) → nth i s.signatures ≡ some sig
      → PositionalRow encode s rows i i
  unfolding parse_multi_key_signature
  parse_multi_key_signature-keys s rows e i sig h =
      let place : i + 0 ≡ i = omega arith in
      rw place at (multi_key_rows_from s 0 s.signatures rows e i sig h)
