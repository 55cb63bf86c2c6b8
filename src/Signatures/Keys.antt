-- ===== src/Signatures/Keys.antt =====
-- The primary keys of the rows for one account's signature
-- (rust/processor/src/models/user_transactions_models/signatures.rs).
use aptos_indexer_processors.Prelude.{
  ℕ, ◌+◌, ◌≤◌, ◌<◌, ◌≡◌, ◌⊎◌, refl, sym, inr, done, unwrap, done-injective, >>=-eq-done, List, [],
  ◌∷◌, nth, All, All-map, true, false, arith, Text,
}
use aptos_indexer_processors.Protos.Signatures.{
  AccountSignatureEnum, ed25519, multi_ed25519, single_key_signature, multi_key_signature,
  MultiEd25519Signature, MultiKeySignature, IndexedSignature,
}
use aptos_indexer_processors.Signatures.Account.{
  Signature, Signing, row_of, parse_ed25519_signature, multi_ed25519_rows,
  parse_multi_ed25519_signature, parse_single_key_signature, multi_key_rows,
  parse_multi_key_signature, account_rows,
}

-- The order of the rows: the sender first, then by agent, then by signature.
abbrev pub Before : Signature → Signature → Type 0
Before r t =
    ((r.is_sender_primary ≡ true) × (t.is_sender_primary ≡ false))
    ⊎ ((r.is_sender_primary ≡ t.is_sender_primary)
        × ((r.multi_agent_index < t.multi_agent_index)
            ⊎ ((r.multi_agent_index ≡ t.multi_agent_index)
                × (r.multi_sig_index < t.multi_sig_index))))

-- Each row stands before all that follow it, so no two have one key.
abbrev pub Ordered : List Signature → Type 0
Ordered [] = Unit
Ordered (r ∷ rs) = All (Before r) rs × Ordered rs

-- The version and the part of the key that one account's rows share, and where their index starts.
abbrev pub Shares : Signing → ℕ → Signature → Type 0
Shares a n r =
    (r.transaction_version ≡ a.transaction_version)
    × (r.is_sender_primary ≡ a.is_sender_primary)
    × (r.multi_agent_index ≡ a.multi_agent_index)
    × (n ≤ r.multi_sig_index)

-- Rows of one account whose index rises.
abbrev pub Block : Signing → ℕ → List Signature → Type 0
Block a n rows = All (Shares a n) rows × Ordered rows

next-Block :
    (a : Signing) (n : ℕ) (t k s : Text) (threshold : ℕ) (indices : List ℕ) (rows : List Signature)
    → Block a (n + 1) rows
    → Block a n (row_of a n t k s threshold indices ∷ rows)
unfolding row_of
next-Block a n t k s threshold indices rows block =
    let r = row_of a n t k s threshold indices in
    (
      (
        (refl, refl, refl, omega arith),
        All-map (Shares a (n + 1)) (Shares a n) rows (λ x h. (h.0, h.1, h.2, omega (arith, h.3)))
            block.0,
      ),
      (
        All-map (Shares a (n + 1)) (Before r) rows
            (λ x h. inr (sym h.1, inr (sym h.2, omega (arith, h.3)))) block.0,
        block.1,
      ),
    )

module _ (encode : Text → Text) where
  multi_ed25519-Block :
      (a : Signing) (s : MultiEd25519Signature) (n : ℕ) (sigs : List Text) (rows : List Signature)
      → multi_ed25519_rows encode a s n sigs ≡ done rows
      → Block a n rows
  unfolding multi_ed25519_rows
  multi_ed25519-Block a s n [] rows e = rw (← done-injective e) (tt, tt)
  multi_ed25519-Block a s n (sig ∷ sigs) rows e =
      let (k, _, e1) = >>=-eq-done (unwrap (nth n s.public_key_indices)) _ e in
      let (key, _, e2) = >>=-eq-done (unwrap (nth k s.public_keys)) _ e1 in
      let (rest, e3, e4) = >>=-eq-done (multi_ed25519_rows encode a s (n + 1) sigs) _ e2 in
      rw (← done-injective e4)
        (next-Block a n _ _ _ _ _ rest (multi_ed25519-Block a s (n + 1) sigs rest e3))

  multi_key-Block :
      (a : Signing) (s : MultiKeySignature) (n : ℕ) (sigs : List IndexedSignature)
      (rows : List Signature)
      → multi_key_rows encode a s n sigs ≡ done rows
      → Block a n rows
  unfolding multi_key_rows
  multi_key-Block a s n [] rows e = rw (← done-injective e) (tt, tt)
  multi_key-Block a s n (sig ∷ sigs) rows e =
      let (k, _, e1) = >>=-eq-done (unwrap (nth n s.public_keys)) _ e in
      let (x, _, e2) = >>=-eq-done (unwrap sig.signature) _ e1 in
      let (rest, e3, e4) = >>=-eq-done (multi_key_rows encode a s (n + 1) sigs) _ e2 in
      rw (← done-injective e4)
        (next-Block a n _ _ _ _ _ rest (multi_key-Block a s (n + 1) sigs rest e3))

  pub account-Block :
      (a : Signing) (s : AccountSignatureEnum) (rows : List Signature)
      → account_rows encode a s ≡ done rows
      → Block a 0 rows
  unfolding account_rows parse_ed25519_signature parse_multi_ed25519_signature
      parse_single_key_signature parse_multi_key_signature
  account-Block a (ed25519 s) rows e =
      rw (← done-injective e) (next-Block a 0 _ _ _ _ _ [] (tt, tt))
  account-Block a (multi_ed25519 s) rows e = multi_ed25519-Block a s 0 s.signatures rows e
  account-Block a (single_key_signature s) rows e =
      let (row, e1, e2) = >>=-eq-done (parse_single_key_signature encode a s) _ e in
      let (_, _, e3) = >>=-eq-done (unwrap s.signature) _ e1 in
      let (_, _, e4) = >>=-eq-done (unwrap s.public_key) _ e3 in
      rw (← done-injective e2) (rw (← done-injective e4) (next-Block a 0 _ _ _ _ _ [] (tt, tt)))
  account-Block a (multi_key_signature s) rows e = multi_key-Block a s 0 s.signatures rows e
