-- ===== src/MovingAverage.antt =====
-- rust/moving-average/src/lib.rs: a window of `(timestamp_millis, value)` pairs with their sum. The
-- numbers are `u64` and wrap; the division of `f64` is a parameter. `chrono`'s clock is the argument
-- `now` of `new` and the timestamp of `tick`.
pub mod Window
mod Tests
use aptos_indexer_processors.Prelude.{
  ℕ, suc, ◌+◌, ◌-◌, ◌*◌, ◌<◌, ◌≤◌, List, [], ◌∷◌, ◌++◌, length, u64, u64_mod, ltb, if◌then◌else◌,
}

pub record MovingAverage : Type 0 where
  pub window_millis : ℕ
  pub values : List (ℕ × ℕ)
  pub sum : ℕ

pub new : ℕ → ℕ → MovingAverage
new now window_millis = record { window_millis = window_millis; values = (now, 0) ∷ []; sum = 0 }

-- The `while` loop of `tick`, over the queue from its front.
pub evict : ℕ → ℕ → List (ℕ × ℕ) → ℕ → List (ℕ × ℕ) × ℕ
evict timestamp_millis window_millis [] sum = ([], sum)
evict timestamp_millis window_millis ((ts, val) ∷ rest) sum =
    let popped = evict timestamp_millis window_millis rest (u64 (sum + u64_mod - val)) in
    if ltb 2 (suc (length rest))
    then (if ltb window_millis (u64 (timestamp_millis + u64_mod - ts))
        then popped
        else ((ts, val) ∷ rest, sum))
    else ((ts, val) ∷ rest, sum)

-- The state after `tick`.
pub tick : MovingAverage → ℕ → ℕ → MovingAverage
tick m timestamp_millis value =
    let (values, sum) =
      evict timestamp_millis m.window_millis (m.values ++ (timestamp_millis, value) ∷ [])
        (u64 (m.sum + value)) in
    record m { values = values; sum = sum }

-- The timestamp at the back of the queue, and at its front.
pub back : ℕ → List (ℕ × ℕ) → ℕ
back ts [] = ts
back ts ((t, v) ∷ rest) = back t rest

module _ {F : Type 0} (zero_f : F) (div : ℕ → ℕ → F) where
  avg_of : List (ℕ × ℕ) → ℕ → F
  avg_of [] sum = zero_f
  avg_of (x ∷ []) sum = zero_f
  avg_of ((ts, v) ∷ y ∷ rest) sum = div (u64 (sum * 1000)) (u64 (back ts (y ∷ rest) + u64_mod - ts))

  -- `div` is the quotient of two `u64`, cast to `f64`.
  pub avg : MovingAverage → F
  unfolding avg_of
  avg m = avg_of m.values m.sum
