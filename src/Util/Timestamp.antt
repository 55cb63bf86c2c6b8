-- ===== src/Util/Timestamp.antt =====
-- `parse_timestamp` and `parse_timestamp_secs` of rust/processor/src/utils/util.rs. `chrono` is the
-- parameter `from_timestamp_opt`.
use aptos_indexer_processors.Prelude.{
  ℕ, ◌-◌, ◌%◌, ◌^◌, ◌≤◌, ◌<◌, ◌≡◌, inl, inr, Option, some, Text, Outcome, done, unwrap, arith, leb,
  if◌then◌else◌, lt_or_le, true,
}
use aptos_indexer_processors.Prelude.Int.{ℤ, pos, negsuc, leb_ℤ}
use aptos_indexer_processors.Protos.{Timestamp}

-- 9999-12-31 23:59:59
abbrev pub max_timestamp_secs : ℕ
max_timestamp_secs = 253402300799

-- `nanos as u32` of an `i32`.
abbrev pub as_u32 : ℤ → ℕ
as_u32 (pos n) = n % 2 ^ 32
as_u32 (negsuc n) = (2 ^ 32 - 1 - n % 2 ^ 32) % 2 ^ 32

unfoldable pub clamp : Timestamp → Timestamp
clamp ts =
    if leb_ℤ (pos max_timestamp_secs) ts.seconds
    then record { seconds = pos max_timestamp_secs; nanos = pos 0 }
    else ts

clamp_late :
    (ts : Timestamp) (s : ℕ)
    → ts.seconds ≡ pos s
    → max_timestamp_secs ≤ s
    → clamp ts ≡ record { seconds = pos max_timestamp_secs; nanos = pos 0 }
unfolding clamp
clamp_late ts s e late = ground arith

clamp_early : (ts : Timestamp) (s : ℕ) → ts.seconds ≡ pos s → s < max_timestamp_secs → clamp ts ≡ ts
unfolding clamp
clamp_early ts s e early = ground arith

module _ {NaiveDateTime : Type 0} (from_timestamp_opt : ℤ → ℕ → Option NaiveDateTime) where
  unfoldable pub parse_timestamp : Timestamp → Outcome NaiveDateTime
  parse_timestamp ts = unwrap (from_timestamp_opt (clamp ts).seconds (as_u32 (clamp ts).nanos))

  pub parse_timestamp_secs : ℕ → Outcome NaiveDateTime
  parse_timestamp_secs ts =
      unwrap
        (from_timestamp_opt (pos (if leb ts max_timestamp_secs then ts else max_timestamp_secs)) 0)

  -- What `chrono` documents of its range: it holds the seconds of the years up to 9999 after the epoch with
  -- nanoseconds below one second. (More nanoseconds, of a leap second, it takes at second 59 only.)
  module _
      (accepts : (s n : ℕ)
        → s ≤ max_timestamp_secs
        → n < 1000000000
        → (d : NaiveDateTime) × (from_timestamp_opt (pos s) n ≡ some d)) where
    -- Where `chrono` accepts the years up to 9999, neither function panics at a time since the epoch
    -- with fewer than 10^9 nanoseconds, however large its seconds.
    pub parse_timestamp_total :
        (ts : Timestamp) (s n : ℕ)
        → ts.seconds ≡ pos s
        → ts.nanos ≡ pos n
        → n < 1000000000
        → ((d : NaiveDateTime) × (parse_timestamp ts ≡ done d))
          × ((d : NaiveDateTime) × (parse_timestamp_secs s ≡ done d))
    unfolding parse_timestamp parse_timestamp_secs
    parse_timestamp_total ts s n es en small = elim (lt_or_le s max_timestamp_secs) [
      | inl early ↦
          let (d, e) = accepts s n (omega arith) (omega arith) in
          let (d', e') = accepts s 0 (omega arith) (omega arith) in
          let width : n % 2 ^ 32 ≡ n = omega arith in
          let test : leb s max_timestamp_secs ≡ true = ground arith in
          (
            (d, rw (clamp_early ts s es early) (rw (es, en) (rw width (rw e)))),
            (d', rw test (rw e')),
          )
      | inr late ↦
          let (d, e) = accepts max_timestamp_secs 0 (omega arith) (omega arith) in
          let top : (if leb s max_timestamp_secs then s else max_timestamp_secs)
              ≡ max_timestamp_secs =
            ground arith in
          ((d, rw (clamp_late ts s es late) (rw e)), (d, rw top (rw e)))
    ]

module _ (from_timestamp_opt : ℤ → ℕ → Option Text) where
  -- The text of the parsed timestamp; the parameter gives dates as their texts.
  unfoldable pub timestamp_to_iso : Timestamp → Outcome Text
  unfolding parse_timestamp
  timestamp_to_iso timestamp = parse_timestamp from_timestamp_opt timestamp
