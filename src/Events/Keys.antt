-- ===== src/Events/Keys.antt =====
-- The primary keys (version, index) of the rows of one transaction
-- (rust/processor/src/processors/events_processor.rs).
use aptos_indexer_processors.Prelude.{
  nth, ℕ, ◌+◌, ◌≤◌, ◌≡◌, ◌∙◌, refl, sym, ap, inl, inr, Option, some, done, unwrap, unwrap-eq-done,
  done-injective, >>=-eq-done, List, [], ◌∷◌, ◌++◌, length, All, Bool, true, arith, Text, nat_eq,
  Option-cases, Bool-cases,
}
use mathlib.Core.List.{append-nil, append_assoc}
use aptos_indexer_processors.Prelude.Int.{ℤ}
use aptos_indexer_processors.Prelude.Chunks.{retain}
use aptos_indexer_processors.Protos.{
  Timestamp, Event, UserTransactionRequest, WriteResource, TransactionInfo, Transaction,
}
use aptos_indexer_processors.GrpcStream.Response.{as_i64}
use aptos_indexer_processors.Util.Truncate.{truncate_str}
use aptos_indexer_processors.Events.Model.{
  EventModel, Libraries, event_type_max_length, timestamp_to_naive, event_row, from_event,
  from_events, split, or_empty, call_of,
}
use aptos_indexer_processors.Events.Collect.{
  is_wanted, multisig_resources, multisig_event, push_multisig, push_user,
}

module _ {Json D : Type 0} where
  -- The version of the row.
  abbrev pub OfVersion : ℤ → EventModel Json D → Type 0
  OfVersion v r = r.transaction_version ≡ v

  -- The indices of the rows rise strictly, from `n` on.
  abbrev pub Rising : ℕ → List (EventModel Json D) → Type 0
  Rising n [] = Unit
  Rising n (r ∷ rs) = (n ≤ r.event_index) × Rising (r.event_index + 1) rs

  Rising-weaken : (m n : ℕ) (rs : List (EventModel Json D)) → m ≤ n → Rising n rs → Rising m rs
  Rising-weaken m n [] le h = tt
  Rising-weaken m n (r ∷ rs) le h = (omega (arith, h.0), h.1)

  Rising-retain :
      (p : EventModel Json D → Bool) (n : ℕ) (rs : List (EventModel Json D))
      → Rising n rs
      → Rising n (retain p rs)
  unfolding retain
  Rising-retain p n [] h = tt
  Rising-retain p n (r ∷ rs) h = elim (Bool-cases (p r)) [
    | inl kept ↦ rw (kept, retain) (h.0, Rising-retain p (r.event_index + 1) rs h.1)
    | inr left ↦
        rw (left, retain)
          (Rising-retain p n rs (Rising-weaken n (r.event_index + 1) rs (omega (arith, h.0)) h.1))
  ]

  All-retain :
      (P : EventModel Json D → Type 0) (p : EventModel Json D → Bool)
      (rs : List (EventModel Json D))
      → All P rs
      → All (λ r. P r × (p r ≡ true)) (retain p rs)
  unfolding retain
  All-retain P p [] h = tt
  All-retain P p (r ∷ rs) h = elim (Bool-cases (p r)) [
    | inl kept ↦ rw (kept, retain) ((h.0, kept), All-retain P p rs h.1)
    | inr left ↦ rw (left, retain) (All-retain P p rs h.1)
  ]

module _ {Json D : Type 0} (lib : Libraries Json D) where
  event_row_key :
      (e : Event) (v h : ℤ) (i : ℕ) (at : Option Timestamp) (m : Text) (call : Text × Json × Text)
      (r : EventModel Json D)
      → event_row lib e v h i at m call ≡ done r
      → (r.transaction_version ≡ v) × (r.event_index ≡ i)
  unfolding event_row
  event_row_key e v h i at m (sender, payload, function) r made =
      let (_, _, e1) = >>=-eq-done (unwrap e.key) _ made in
      let (_, _, e2) = >>=-eq-done (unwrap (lib.from_str e.data_json)) _ e1 in
      let (_, _, e3) = >>=-eq-done (truncate_str e.type_str event_type_max_length) _ e2 in
      let (_, _, e4) = >>=-eq-done (timestamp_to_naive lib at) _ e3 in
      rw (← done-injective e4) (refl, refl)

  pub from_event_key :
      (e : Event) (v h : ℤ) (i : ℕ) (request : UserTransactionRequest) (at : Option Timestamp)
      (r : EventModel Json D)
      → from_event lib e v h i (some request) at ≡ done r
      → (r.transaction_version ≡ v) × (r.event_index ≡ i)
  unfolding from_event
  from_event_key e v h i request at r made = elim (Option-cases request.payload) [
    | inl none_ ↦
        let (m, _, e1) =
          >>=-eq-done (unwrap (nth 1 (split e.type_str))) _ (rw (none_, from_event) at made) in
        event_row_key e v h i at m _ r e1
    | inr (wrapper, there) ↦
        let (payload, _, e1) =
          >>=-eq-done (unwrap wrapper.payload) _ (rw (there, from_event) at made) in
        event_row_key e v h i at (or_empty (nth 1 (split e.type_str)))
          (call_of lib request.sender payload) r e1
  ]

  pub from_events_keys :
      (es : List Event) (v h : ℤ) (request : UserTransactionRequest) (at : Option Timestamp) (i : ℕ)
      (rs : List (EventModel Json D))
      → from_events lib es v h (some request) at i ≡ done rs
      → Rising i rs × All (OfVersion v) rs
  unfolding from_events
  from_events_keys [] v h request at i rs made = rw (← done-injective made) (tt, tt)
  from_events_keys (e ∷ es) v h request at i rs made =
      let (r, e1, rest) = >>=-eq-done (from_event lib e v h i (some request) at) _ made in
      let (rs', e2, e3) = >>=-eq-done (from_events lib es v h (some request) at (i + 1)) _ rest in
      let (version, index) = from_event_key e v h i request at r e1 in
      let (rising, versions) = from_events_keys es v h request at (i + 1) rs' e2 in
      rw (← done-injective e3) ((omega (arith, index), rw index rising), (version, versions))

  -- The rows of a user transaction that changes no multisig account: the earlier rows, then rows of this
  -- version whose indices rise strictly, each of a wanted kind. Their keys are all different.
  pub plain_rows :
      (txn : Transaction) (request : UserTransactionRequest) (raw : List Event)
      (events rows : List (EventModel Json D)) (info : TransactionInfo)
      → txn.info ≡ some info
      → multisig_resources info.changes ≡ done []
      → push_user lib txn request raw events ≡ done rows
      → (more : List (EventModel Json D)) × (rows ≡ events ++ more)
        × Rising 0 more
        × All (λ r. OfVersion (as_i64 txn.version) r × (is_wanted r ≡ true)) more
  unfolding push_user push_multisig
  plain_rows txn request raw events rows info there none_ made =
      let (info', e0, e1) = >>=-eq-done (unwrap txn.info) _ made in
      let same : info' ≡ info = cc (unwrap-eq-done txn.info e0) in
      let (ws, e2, e3) = >>=-eq-done (multisig_resources info'.changes) _ e1 in
      let empty : [] ≡ ws =
        done-injective (sym none_ ∙ ap (λ k. multisig_resources k.changes) (sym same) ∙ e2) in
      let (events', e4, e5) = >>=-eq-done (push_multisig lib txn request ws events) _ e3 in
      let kept : events ≡ events' =
        done-injective (ap (λ k. push_multisig lib txn request k events) empty ∙ e4) in
      let (own, e6, e7) =
        >>=-eq-done
          (from_events lib raw (as_i64 txn.version) (as_i64 txn.block_height) (some request)
            txn.timestamp 0)
          _ e5 in
      let (rising, versions) =
        from_events_keys raw (as_i64 txn.version) (as_i64 txn.block_height) request txn.timestamp 0
          own e6 in
      (
        retain is_wanted own,
        sym (done-injective e7) ∙ ap (λ k. k ++ retain is_wanted own) (sym kept),
        Rising-retain is_wanted 0 own rising,
        All-retain (OfVersion (as_i64 txn.version)) is_wanted own versions,
      )

  pub push_multisig_extends :
      (txn : Transaction) (request : UserTransactionRequest) (ws : List WriteResource)
      (events rows : List (EventModel Json D))
      → push_multisig lib txn request ws events ≡ done rows
      → (more : List (EventModel Json D)) × (rows ≡ events ++ more)
  unfolding push_multisig
  push_multisig_extends txn request [] events rows made =
      ([], sym (done-injective made) ∙ sym (append-nil events))
  push_multisig_extends txn request (w ∷ ws) events rows made =
      let (r, _, e1) =
        >>=-eq-done
          (from_event lib (multisig_event request w) (as_i64 txn.version) (as_i64 txn.block_height)
            (length events) (some request) txn.timestamp)
          _ made in
      let (more, eq) = push_multisig_extends txn request ws (events ++ r ∷ []) rows e1 in
      (r ∷ more, eq ∙ append_assoc events (r ∷ []) more)
