-- ===== src/Signatures/Distinct.antt =====
-- The rows of a transaction's signatures have different primary keys
-- (rust/processor/src/models/user_transactions_models/signatures.rs).
use aptos_indexer_processors.Prelude.{
  ℕ, ◌+◌, ◌≤◌, ◌≡◌, ◌∙◌, refl, sym, ap, inl, inr, Option, none, some, Outcome, done, unwrap, ◌>>=◌,
  done-injective, >>=-eq-done, List, [], ◌∷◌, ◌++◌, nth, Option-cases, All, All-map, All-append,
  false, arith, Text,
}
use aptos_indexer_processors.Prelude.Int.{ℤ}
use aptos_indexer_processors.Protos.Signatures.{
  MultiAgentSignature, AccountSignatureEnum, ed25519, AccountSignature, SignatureEnum, user_ed25519,
  user_multi_ed25519, multi_agent, fee_payer, single_sender, TransactionSignature,
}
use aptos_indexer_processors.Signatures.Account.{Signature, Signing, account_rows}
use aptos_indexer_processors.Signatures.Agreement.{
  without_payer, parse_fee_payer_signature_agree, single_sender_rows_agree,
}
use aptos_indexer_processors.Signatures.User.{
  primary, secondary, prepend, parse_multi_agent_signature_helper, secondary_rows,
  parse_multi_agent_signature, single_sender_rows, parse_single_sender, rows_of_kind,
  from_user_transaction,
}
use aptos_indexer_processors.Signatures.Keys.{Before, Ordered, Shares, Block, account-Block}

-- The rows of the secondary signers from `n` on.
abbrev From : ℤ → ℕ → Signature → Type 0
From v n r = (r.transaction_version ≡ v) × (r.is_sender_primary ≡ false) × (n ≤ r.multi_agent_index)

abbrev pub OfVersion : ℤ → Signature → Type 0
OfVersion v r = r.transaction_version ≡ v

Ordered-append :
    (xs ys : List Signature)
    → Ordered xs
    → Ordered ys
    → All (λ x. All (Before x) ys) xs
    → Ordered (xs ++ ys)
Ordered-append [] ys hx hy between = hy
Ordered-append (x ∷ xs) ys hx hy between =
    (All-append (Before x) xs ys hx.0 between.0, Ordered-append xs ys hx.1 hy between.1)

prepended :
    (rows : List Signature) (more : Option (List Signature)) (all : List Signature)
    → prepend rows more ≡ some all
    → (m : List Signature) × (more ≡ some m) × (rows ++ m ≡ all)
unfolding prepend
prepended rows none all e = cc
prepended rows (some m) all e = (m, refl, cc)

module _ (encode : Text → Text) (sender : Text) (v height : ℤ) where
  helper-Block :
      (a : Signing) (s : AccountSignature) (rows : List Signature)
      → parse_multi_agent_signature_helper encode a s ≡ done rows
      → Block a 0 rows
  unfolding parse_multi_agent_signature_helper
  helper-Block a s rows e =
      let (kind, _, e1) = >>=-eq-done (unwrap s.signature) _ e in
      account-Block encode a kind rows e1

  secondary-Ordered :
      (s : MultiAgentSignature) (n : ℕ) (addresses : List Text) (rows : List Signature)
      → secondary_rows encode sender v height s n addresses ≡ done (some rows)
      → All (From v n) rows × Ordered rows
  unfolding secondary_rows secondary
  secondary-Ordered s n [] rows e =
      let same : [] ≡ rows = cc (done-injective e) in rw (← same) (tt, tt)
  secondary-Ordered s n (address ∷ addresses) rows e =
      elim (Option-cases (nth n s.secondary_signers)) [
        | inl missing ↦
            let stop : done none ≡ done (some rows) = rw (missing, secondary_rows) at e in cc
        | inr (signer, there) ↦
            let a = secondary sender v height n address in
            let (first, e1, e2) =
              >>=-eq-done (parse_multi_agent_signature_helper encode a signer) _
                (rw (there, secondary_rows) at e) in
            let (more, e3, e4) =
              >>=-eq-done (secondary_rows encode sender v height s (n + 1) addresses) _ e2 in
            let (m, is_some, whole) = prepended first more rows (done-injective e4) in
            let (later, ordered) = secondary-Ordered s (n + 1) addresses m (e3 ∙ ap done is_some) in
            let block = helper-Block a signer first e1 in
            rw (← whole) (
              All-append (From v n) first m
                  (All-map (Shares a 0) (From v n) first (λ r h. (h.0, h.1, omega (arith, h.2)))
                    block.0)
                  (All-map (From v (n + 1)) (From v n) m (λ r h. (h.0, h.1, omega (arith, h.2)))
                    later),
              Ordered-append first m block.1 ordered (
                  All-map (Shares a 0) (λ r. All (Before r) m) first
                    (λ r h.
                      All-map (From v (n + 1)) (Before r) m
                        (λ t k. inr (h.1 ∙ sym k.1, inl (omega (arith, h.2, k.2)))) later)
                    block.0),
            )
      ]

  -- Rows in order, all of the version.
  abbrev pub Sound : List Signature → Type 0
  Sound rows = Ordered rows × All (OfVersion v) rows

  Block-Sound : (rows : List Signature) → Block (primary sender v height) 0 rows → Sound rows
  unfolding primary
  Block-Sound rows block = (
    block.1,
    All-map (Shares (primary sender v height) 0) (OfVersion v) rows (λ r h. h.0) block.0,
  )

  agent-Sound :
      (s : MultiAgentSignature) (rows : List Signature)
      → parse_multi_agent_signature encode s sender v height ≡ done (some rows)
      → Sound rows
  unfolding parse_multi_agent_signature primary
  agent-Sound s rows e =
      let (signer, _, e1) = >>=-eq-done (unwrap s.sender) _ e in
      let a = primary sender v height in
      let (mine, e2, e3) = >>=-eq-done (parse_multi_agent_signature_helper encode a signer) _ e1 in
      let (more, e4, e5) =
        >>=-eq-done (secondary_rows encode sender v height s 0 s.secondary_signer_addresses) _ e3 in
      let (m, is_some, whole) = prepended mine more rows (done-injective e5) in
      let (later, ordered) =
        secondary-Ordered s 0 s.secondary_signer_addresses m (e4 ∙ ap done is_some) in
      let block = helper-Block a signer mine e2 in
      rw (← whole) (
        Ordered-append mine m block.1 ordered (
            All-map (Shares a 0) (λ r. All (Before r) m) mine
              (λ r h. All-map (From v 0) (Before r) m (λ t k. inl (h.1, k.1)) later) block.0),
        All-append (OfVersion v) mine m
            (All-map (Shares a 0) (OfVersion v) mine (λ r h. h.0) block.0)
            (All-map (From v 0) (OfVersion v) m (λ r h. h.0) later),
      )

  single-Sound :
      (kind : Option AccountSignatureEnum) (rows : List Signature)
      → single_sender_rows encode (primary sender v height) kind ≡ done rows
      → Sound rows
  unfolding single_sender_rows
  single-Sound none rows e = rw (← done-injective e) (tt, tt)
  single-Sound (some kind) rows e =
      let a = primary sender v height in
      Block-Sound rows (
        account-Block encode a kind rows
          (sym (single_sender_rows_agree encode sender v height a kind) ∙ e))

  no_error_rows :
      (m : Outcome (List Signature)) (rows : List Signature)
      → (m >>= λ r. done (some r)) ≡ done (some rows)
      → m ≡ done rows
  no_error_rows m rows e =
      let (r, e1, e2) = >>=-eq-done m _ e in
      let same : r ≡ rows = cc (done-injective e2) in e1 ∙ ap done same

  kind-Sound :
      (kind : SignatureEnum) (rows : List Signature)
      → rows_of_kind encode kind sender v height ≡ done (some rows)
      → Sound rows
  unfolding rows_of_kind parse_single_sender account_rows
  kind-Sound (user_ed25519 s) rows e = Block-Sound rows (
      account-Block encode (primary sender v height) (ed25519 s) rows
        (ap done (cc (done-injective e))))
  kind-Sound (user_multi_ed25519 s) rows e = Block-Sound rows (
      account-Block encode (primary sender v height) (AccountSignatureEnum.multi_ed25519 s) rows
        (no_error_rows _ rows e))
  kind-Sound (multi_agent s) rows e = agent-Sound s rows e
  kind-Sound (fee_payer s) rows e =
      agent-Sound (without_payer s) rows
        (sym (parse_fee_payer_signature_agree encode sender v height s) ∙ e)
  kind-Sound (single_sender s) rows e =
      let (signer, _, e1) = >>=-eq-done (unwrap s.sender) _ (no_error_rows _ rows e) in
      single-Sound signer.signature rows e1

  -- The rows of a transaction's signatures, whatever their kinds, carry its version and stand in the
  -- order of their keys: the sender's first, then by agent, then by signature. No two have one key.
  pub from_user_transaction-Ordered :
      (s : TransactionSignature) (rows : List Signature)
      → from_user_transaction encode s sender v height ≡ done (some rows)
      → Ordered rows × All (OfVersion v) rows
  unfolding from_user_transaction
  from_user_transaction-Ordered s rows e =
      let (kind, _, e1) = >>=-eq-done (unwrap s.signature) _ e in kind-Sound kind rows e1
