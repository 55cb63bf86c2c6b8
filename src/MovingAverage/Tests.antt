-- ===== src/MovingAverage/Tests.antt =====
-- Runs of the moving average, and its theorems at concrete values.
use aptos_indexer_processors.Prelude.{ℕ, ◌≤◌, ◌≡◌, refl, [], ◌∷◌, ◌++◌, arith, length, drop}
use aptos_indexer_processors.MovingAverage.{new, evict, tick, back, avg_of, avg}
use aptos_indexer_processors.MovingAverage.Window.{IsValid, FrontRecent, new-IsValid, tick_window}

-- A window of ten milliseconds at work: the entries of time 1 and 5 leave at time 17.
ticks_then_avg :
    let m = tick (tick (tick (new 1 10) 5 100) 12 40) 17 60 in
    (m.values ≡ ((12, 40) ∷ (17, 60) ∷ [])) × (m.sum ≡ 100) × (avg 0 (λ a b. a) m ≡ 100000)
unfolding new tick evict avg avg_of back
ticks_then_avg = (refl, refl, refl)

tick_window_example :
    let m' = tick (new 1 10) 5 100 in
    IsValid m'
    × (2 ≤ length m'.values)
    × FrontRecent 5 (new 1 10).window_millis m'.values
    × ((n : ℕ) × (m'.values ≡ drop n ((new 1 10).values ++ (5, 100) ∷ [])))
unfolding new
tick_window_example =
    tick_window (new 1 10) 5 100 (new-IsValid 1 10) (omega arith, tt) (omega arith) (omega arith)
