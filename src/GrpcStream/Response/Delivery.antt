-- ===== src/GrpcStream/Response/Delivery.antt =====
-- The messages of one response (rust/processor/src/grpc_stream.rs) carry its filtered transactions.
use aptos_indexer_processors.Prelude.{
  ℕ, ◌≤◌, ◌≡◌, ◌∙◌, ap, sym, refl, inl, inr, done, done-injective, panic-ne-done, >>=-eq-done,
  panic, List, [], ◌∷◌, ◌++◌, map, arith, Bool, true, false, length, concat, All, Bool-cases, ltb,
  ◌==◌, nat_eq, u64, ◌/◌, ◌*◌, suc, Option, Text,
}
use mathlib.Core.List.{append-nil}
use aptos_indexer_processors.Prelude.Int.{ℤ}
use aptos_indexer_processors.Prelude.Chunks.{chunks, retain, concat-chunks, All-chunks, IsChunk}
use aptos_indexer_processors.Protos.{Timestamp, Transaction, TransactionsResponse}
use aptos_indexer_processors.GrpcStream.Response.{
  TransactionsPbResponse, Header, header, message, messages, check_and_split, iso_or_default,
  handle_response, eq_ℤ, plus_one, as_i64,
}

-- The transactions of the messages, one after the other.
abbrev pub payload : List TransactionsPbResponse → List Transaction
payload [] = []
payload (m ∷ ms) = m.transactions ++ payload ms

-- A message with the header's versions and at most `n` transactions.
abbrev pub Carries : Header → ℕ → TransactionsPbResponse → Type 0
Carries h n m =
    (m.start_version ≡ h.start_version)
    × (m.end_version ≡ h.end_version)
    × (m.chain_id ≡ h.chain_id)
    × (length m.transactions ≤ n)

-- The messages of a response: one at least, each with the header of the response and within the chunk
-- size, and together the filtered transactions in their order.
abbrev pub Delivers :
    (Transaction → Bool) → ℕ → List Transaction → Header → List TransactionsPbResponse → Type 0
Delivers include n txns h ms =
    (1 ≤ length ms) × All (Carries h n) ms × (payload ms ≡ retain include txns)

map_messages :
    (h : Header) (n : ℕ) (size : ℕ → ℕ) (cs : List (List Transaction))
    → All (IsChunk n) cs
    → let ms = map (λ txns. message h (size (length txns)) txns) cs in
      All (Carries h n) ms × (payload ms ≡ concat cs) × (length ms ≡ length cs)
unfolding message
map_messages h n size [] ok = (tt, refl, refl)
map_messages h n size (c ∷ cs) ok =
    let (carries, same, len) = map_messages h n size cs ok.1 in
    (((refl, refl, refl, ok.0.1), carries), ap (λ r. c ++ r) same, ap suc len)

concat_pos : (cs : List (List Transaction)) → 1 ≤ length (concat cs) → 1 ≤ length cs
concat_pos [] h = absurd (omega arith)
concat_pos (c ∷ cs) h = omega arith

long : (n : ℕ) (kept : List Transaction) → ltb (length kept) n ≡ false → n ≤ length kept
long n kept h = ground arith

messages_deliver :
    (include : Transaction → Bool) (h : Header) (size num n : ℕ) (txns : List Transaction)
    (ms : List TransactionsPbResponse)
    → messages h size num n (retain include txns) ≡ done ms
    → Delivers include n txns h ms
unfolding messages
messages_deliver include h size num n txns ms e =
    elim (Bool-cases (ltb (length (retain include txns)) n)) [
      | inl few ↦
          let eq : message h size (retain include txns) ∷ [] ≡ ms = done-injective (rw few at e) in
          rw (← eq)
            (omega arith, ((refl, refl, refl, ground arith), tt), append-nil (retain include txns))
      | inr many ↦ elim (Bool-cases (n == 0)) [
        | inl none_ ↦
            let stop : panic ≡ done ms = rw (many, none_) at e in absurd (panic-ne-done stop)
        | inr pos ↦
            let kept = retain include txns in
            let one : 1 ≤ n = ground arith in
            let eq : map (λ txns. message h (u64 (size / num * length txns)) txns) (chunks n kept)
                ≡ ms =
              done-injective (rw (many, pos) at e) in
            let (carries, same, len) =
              map_messages h n (λ l. u64 (size / num * l)) (chunks n kept)
                (All-chunks n kept one) in
            let whole = concat-chunks n kept one in
            rw (← eq) (
              omega (arith, len, concat_pos (chunks n kept), ap length whole, long n kept many),
              carries,
              same ∙ whole,
            )
      ]
    ]

check_and_split-Delivers :
    (include : Transaction → Bool) (n : ℕ) (last_fetched : ℤ) (r : TransactionsResponse)
    (h : Header) (ms : List TransactionsPbResponse)
    → check_and_split h include n last_fetched r ≡ done ms
    → (eq_ℤ (plus_one last_fetched) (as_i64 h.start_version) ≡ true)
      × Delivers include n r.transactions h ms
unfolding check_and_split
check_and_split-Delivers include n last_fetched r h ms e =
    elim (Bool-cases (eq_ℤ (plus_one last_fetched) (as_i64 h.start_version))) [
      | inl meets ↦ (
        meets,
        messages_deliver include h r.encoded_len (length r.transactions) n r.transactions ms
            (rw meets at e),
      )
      | inr gap ↦ let stop : panic ≡ done ms = rw gap at e in absurd (panic-ne-done stop)
    ]

-- A response that is handled without a panic: it starts where the last one ended, and its messages
-- carry exactly its filtered transactions, in order, in pieces within the chunk size.
pub handle_response-Delivers :
    (from_timestamp_opt : ℤ → ℕ → Option Text) (include : Transaction → Bool) (n : ℕ)
    (last_fetched : ℤ) (r : TransactionsResponse) (h : Header) (ms : List TransactionsPbResponse)
    → handle_response from_timestamp_opt include n last_fetched r ≡ done (h, ms)
    → (header r ≡ done h)
      × (eq_ℤ (plus_one last_fetched) (as_i64 h.start_version) ≡ true)
      × Delivers include n r.transactions h ms
unfolding handle_response
handle_response-Delivers from_timestamp_opt include n last_fetched r h ms e =
    let (h', eh, e1) = >>=-eq-done (header r) _ e in
    let (start_iso, _, e3) =
      >>=-eq-done (iso_or_default from_timestamp_opt h'.start_txn_timestamp) _ e1 in
    let (end_iso, _, e4) =
      >>=-eq-done (iso_or_default from_timestamp_opt h'.end_txn_timestamp) _ e3 in
    let (ms', em, e2) = >>=-eq-done (check_and_split h' include n last_fetched r) _ e4 in
    let pair : (h', ms') ≡ (h, ms) = done-injective e2 in
    let same_h : h' ≡ h = ap (λ p. p.0) pair in
    let same_ms : ms' ≡ ms = ap (λ p. p.1) pair in
    let split : check_and_split h include n last_fetched r ≡ done ms =
      ap (λ k. check_and_split k include n last_fetched r) (sym same_h) ∙ em ∙ ap done same_ms in
    let (meets, delivers) = check_and_split-Delivers include n last_fetched r h ms split in
    let same_header : header r ≡ done h = eh ∙ ap done same_h in (same_header, meets, delivers)

-- The timestamp, if there is one, can be written as a text.
abbrev pub CanBeWritten : (ℤ → ℕ → Option Text) → Option Timestamp → Type 0
CanBeWritten from_timestamp_opt timestamp =
    (text : Text) × (iso_or_default from_timestamp_opt timestamp ≡ done text)

-- A response with transactions and a chain, that starts where the last one ended, is handled without a
-- panic where the chunk size is positive and the timestamps of its first and last transaction can be
-- written to the log.
pub handle_response_returns :
    (from_timestamp_opt : ℤ → ℕ → Option Text) (include : Transaction → Bool) (n : ℕ)
    (last_fetched : ℤ) (r : TransactionsResponse) (h : Header)
    → 1 ≤ n
    → header r ≡ done h
    → CanBeWritten from_timestamp_opt h.start_txn_timestamp
    → CanBeWritten from_timestamp_opt h.end_txn_timestamp
    → eq_ℤ (plus_one last_fetched) (as_i64 h.start_version) ≡ true
    → (ms : List TransactionsPbResponse) × (handle_response from_timestamp_opt include n
          last_fetched r
        ≡ done (h, ms))
unfolding handle_response check_and_split messages
handle_response_returns from_timestamp_opt include n last_fetched r h one at (start_iso, starts)
      (end_iso, ends) meets =
    let size : (n == 0) ≡ false = ground arith in
    let kept = retain include r.transactions in
    elim (Bool-cases (ltb (length kept) n)) [
      | inl few ↦ (
        message h r.encoded_len kept ∷ [],
        rw (at, starts, ends, handle_response)
            (rw (meets, check_and_split) (rw (few, messages) refl)),
      )
      | inr many ↦ (
        map (λ txns. message h (u64 (r.encoded_len / length r.transactions * length txns)) txns)
            (chunks n kept),
        rw (at, starts, ends, handle_response)
            (rw (meets, check_and_split) (rw (many, messages) (rw size refl))),
      )
    ]
