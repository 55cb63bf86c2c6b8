-- ===== src/GapDetector/Drain.antt =====
-- The loop of `update_prev_batch` (rust/processor/src/gap_detector.rs): its invariant rule, with the
-- end that the loop's fuel reaches.
use aptos_indexer_processors.Prelude.{
  ℕ, zero, suc, ◌≤◌, ◌≡◌, ◌≢◌, Option, none, some, inl, inr, arith, length, Option-cases, nat_eq,
}
use aptos_indexer_processors.Prelude.Dict.{
  Dict, lookup, insert, remove, length-remove_lt, lookup-pos,
}
use aptos_indexer_processors.GapDetector.{
  ProcessingResult, GapDetector, next_version, drain, update_prev_batch, advance,
}

some-ne-none : {A : Type 0} {o : Option A} {a : A} → o ≡ some a → o ≢ none
some-ne-none e h = cc

-- A property of the map and the batch that each round keeps holds at the end, and the loop ends
-- because no batch in the map follows, not because its fuel is used up.
pub drain_inv :
    (P : Dict ℕ ProcessingResult → ProcessingResult → Type 0)
    → ((seen : Dict ℕ ProcessingResult) (b n : ProcessingResult)
        → P seen b
        → lookup (next_version b) seen ≡ some n
        → P (remove (next_version b) seen) n)
    → (fuel : ℕ) (seen : Dict ℕ ProcessingResult) (b : ProcessingResult) → length seen ≤ fuel
    → P seen b
    → P (drain fuel seen b).0 (drain fuel seen b).1
      × (lookup (next_version (drain fuel seen b).1) (drain fuel seen b).0 ≡ none)
unfolding drain
drain_inv P keep zero seen b short h = elim (Option-cases (lookup (next_version b) seen)) [
  | inl e ↦ (h, e)
  | inr (n, e) ↦ absurd (omega (arith, lookup-pos (next_version b) seen (some-ne-none e)))
]
drain_inv P keep (suc fuel) seen b short h = elim (Option-cases (lookup (next_version b) seen)) [
  | inl e ↦ rw (e, drain) (h, e)
  | inr (n, e) ↦
      rw (e, drain)
        (drain_inv P keep fuel (remove (next_version b) seen) n
          (omega (arith, length-remove_lt (next_version b) seen (some-ne-none e)))
          (keep seen b n h e))
]

-- The two branches of `process_versions`.
pub advance_next :
    (g : GapDetector) (r : ProcessingResult)
    → g.next_version_to_process ≡ r.start_version
    → advance g r ≡ update_prev_batch g r
unfolding advance
advance_next g r e = ground arith

pub advance_gap :
    (g : GapDetector) (r : ProcessingResult)
    → ¬ (g.next_version_to_process ≡ r.start_version)
    → advance g r ≡ record g { seen_versions = insert r.start_version r g.seen_versions }
unfolding advance
advance_gap g r ne = ground arith
