-- ===== src/Events/Collision.antt =====
-- Two rows with one primary key from one transaction
-- (rust/processor/src/processors/events_processor.rs).
use aptos_indexer_processors.Prelude.{
  ◌≡◌, ◌∙◌, sym, ap, inl, inr, some, done, unwrap, unwrap-eq-done, done-injective, >>=-eq-done,
  List, [], ◌∷◌, ◌++◌, length, All, Has, Bool, true, false, nat_eq, Bool-cases,
}
use aptos_indexer_processors.Events.Keys.{
  OfVersion, from_event_key, from_events_keys, push_multisig_extends,
}
use mathlib.Core.List.{append_assoc}
use aptos_indexer_processors.Prelude.Chunks.{retain}
use aptos_indexer_processors.Protos.{
  Event, UserTransactionRequest, WriteResource, TransactionInfo, Transaction,
}
use aptos_indexer_processors.GrpcStream.Response.{as_i64}
use aptos_indexer_processors.Events.Model.{EventModel, Libraries, from_event, from_events}
use aptos_indexer_processors.Events.Collect.{
  is_wanted, multisig_resources, multisig_event, push_multisig, push_user,
}

Has-append_right : {A : Type 0} (a : A) (xs ys : List A) → Has a ys → Has a (xs ++ ys)
Has-append_right a [] ys h = h
Has-append_right a (x ∷ xs) ys h = inr (Has-append_right a xs ys h)

Has-retain :
    {A : Type 0} (p : A → Bool) (a : A) (xs : List A) → Has a xs → p a ≡ true → Has a (retain p xs)
unfolding retain
Has-retain p a [] h wanted = h
Has-retain p a (x ∷ xs) h wanted = elim (Bool-cases (p x)) [
  | inl kept ↦
      rw (kept, retain)
        (elim h [ inl e ↦ inl e | inr later ↦ inr (Has-retain p a xs later wanted) ])
  | inr left ↦
      rw (left, retain)
        (elim h [
          | inl e ↦ let clash : true ≡ false = sym wanted ∙ ap p e ∙ left in cc
          | inr later ↦ Has-retain p a xs later wanted
        ])
]

All-Has : {A : Type 0} (P : A → Type 0) (a : A) (xs : List A) → All P xs → Has a xs → P a
All-Has P a [] h m = absurd m
All-Has P a (x ∷ xs) h (inl e) = rw e h.0
All-Has P a (x ∷ xs) h (inr m) = All-Has P a xs h.1 m

module _ {Json D : Type 0} (lib : Libraries Json D) where
  -- The primary key of the table `events`.
  abbrev pub SameKey : EventModel Json D → EventModel Json D → Type 0
  SameKey a b = (a.transaction_version ≡ b.transaction_version) × (a.event_index ≡ b.event_index)

  -- A user transaction that changes a multisig account gives a row whose index is the number of the
  -- batch's rows so far. Where the transaction has an event of that index that is wanted, the batch has
  -- two rows with one primary key.
  pub multisig_row_shares_key :
      (txn : Transaction) (request : UserTransactionRequest) (raw : List Event)
      (events rows own : List (EventModel Json D)) (info : TransactionInfo) (w : WriteResource)
      (ws : List WriteResource) (r : EventModel Json D)
      → txn.info ≡ some info
      → multisig_resources info.changes ≡ done (w ∷ ws)
      → from_events lib raw
          (as_i64 txn.version)
          (as_i64 txn.block_height)
          (some request)
          txn.timestamp
          0
        ≡ done own
      → Has r own
      → r.event_index ≡ length events
      → is_wanted r ≡ true
      → push_user lib txn request raw events ≡ done rows
      → (m : EventModel Json D) × (more : List (EventModel Json D)) × (rows ≡ events ++ m ∷ more)
        × Has r more
        × SameKey m r
  unfolding push_user push_multisig
  multisig_row_shares_key txn request raw events rows own info w ws r there found from has index
        wanted made =
      let (info', e0, e1) = >>=-eq-done (unwrap txn.info) _ made in
      let same : info' ≡ info = cc (unwrap-eq-done txn.info e0) in
      let (ws', e2, e3) = >>=-eq-done (multisig_resources info'.changes) _ e1 in
      let changes : w ∷ ws ≡ ws' =
        done-injective (sym found ∙ ap (λ k. multisig_resources k.changes) (sym same) ∙ e2) in
      let (events', e4, e5) = >>=-eq-done (push_multisig lib txn request ws' events) _ e3 in
      let pushed : push_multisig lib txn request (w ∷ ws) events ≡ done events' =
        ap (λ k. push_multisig lib txn request k events) changes ∙ e4 in
      let (m, e8, e9) =
        >>=-eq-done
          (from_event lib (multisig_event request w) (as_i64 txn.version) (as_i64 txn.block_height)
            (length events) (some request) txn.timestamp)
          _ pushed in
      let (more, eq) = push_multisig_extends lib txn request ws (events ++ m ∷ []) events' e9 in
      let (own', e6, e7) =
        >>=-eq-done
          (from_events lib raw (as_i64 txn.version) (as_i64 txn.block_height) (some request)
            txn.timestamp 0)
          _ e5 in
      let same_own : own ≡ own' = done-injective (sym from ∙ e6) in
      let kept = retain is_wanted own in
      let (_, versions) =
        from_events_keys lib raw (as_i64 txn.version) (as_i64 txn.block_height) request
          txn.timestamp 0 own from in
      let (version, at) =
        from_event_key lib (multisig_event request w) (as_i64 txn.version) (as_i64 txn.block_height)
          (length events) request txn.timestamp m e8 in
      let r_version = All-Has (OfVersion (as_i64 txn.version)) r own versions has in
      (
        m,
        more ++ kept,
        sym (done-injective e7)
            ∙ ap (λ k. events' ++ retain is_wanted k) (sym same_own)
            ∙ ap (λ k. k ++ kept) eq
            ∙ ap (λ k. k ++ kept) (append_assoc events (m ∷ []) more)
            ∙ append_assoc events (m ∷ more) kept,
        Has-append_right r more kept (Has-retain is_wanted r own has wanted),
        (version ∙ sym r_version, at ∙ sym index),
      )
