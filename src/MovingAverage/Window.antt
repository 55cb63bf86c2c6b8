-- ===== src/MovingAverage/Window.antt =====
-- What the window of rust/moving-average/src/lib.rs holds after `tick`.
use aptos_indexer_processors.Prelude.{
  ℕ, suc, ◌+◌, ◌-◌, ◌<◌, ◌≤◌, ◌≡◌, refl, ◌⊎◌, inl, inr, List, [], ◌∷◌, ◌++◌, arith, length, u64,
  u64_mod, drop, zero, length-append, ltb, Bool-cases, All,
}
use aptos_indexer_processors.MovingAverage.{MovingAverage, new, evict, tick}

-- The sum of the values, with no bound on it.
abbrev pub total : List (ℕ × ℕ) → ℕ
total [] = 0
total ((ts, v) ∷ rest) = v + total rest

total-append : (xs ys : List (ℕ × ℕ)) → total (xs ++ ys) ≡ total xs + total ys
total-append [] ys = omega arith
total-append ((ts, v) ∷ xs) ys = omega (arith, total-append xs ys)

pub record IsValid (m : MovingAverage) : Type 0 where
  pub nonempty : 1 ≤ length m.values
  pub sum_eq : m.sum ≡ total m.values
  pub sum_fits : m.sum < u64_mod

-- The front of the window is recent, unless only two entries are left.
abbrev pub FrontRecent : ℕ → ℕ → List (ℕ × ℕ) → Type 0
FrontRecent now window [] = Unit
FrontRecent now window ((ts, v) ∷ rest) = (suc (length rest) ≤ 2) ⊎ (now ≤ ts + window)

abbrev NotLater : ℕ → ℕ × ℕ → Type 0
NotLater now e = e.0 ≤ now

-- The loop drops a prefix; the sum follows; it stops at a recent front or at two entries.
record Evicted (now window : ℕ) (before : List (ℕ × ℕ)) (after : List (ℕ × ℕ) × ℕ) : Type 0 where
  dropped : ℕ
  suffix : after.0 ≡ drop dropped before
  sum_eq : after.1 ≡ total after.0
  keeps_two : 2 ≤ length before → 2 ≤ length after.0
  front : FrontRecent now window after.0

Evicted-more :
    {now window : ℕ} {x : ℕ × ℕ} {rest : List (ℕ × ℕ)} {after : List (ℕ × ℕ) × ℕ}
    → Evicted now window rest after
    → 2 ≤ length rest
    → Evicted now window (x ∷ rest) after
Evicted-more h long = record {
  dropped = suc h.dropped;
  suffix = h.suffix;
  sum_eq = h.sum_eq;
  keeps_two = λ _. h.keeps_two long;
  front = h.front;
}

evict-Evicted :
    (now window : ℕ) (before : List (ℕ × ℕ)) (sum : ℕ)
    → now < u64_mod
    → All (NotLater now) before
    → sum < u64_mod
    → sum ≡ total before
    → Evicted now window before (evict now window before sum)
unfolding evict
evict-Evicted now window [] sum fits order bound e = record {
  dropped = 0;
  suffix = refl;
  sum_eq = e;
  keeps_two = λ h. h;
  front = tt;
}
evict-Evicted now window ((ts, v) ∷ rest) sum fits order bound e =
    elim (Bool-cases (ltb 2 (suc (length rest)))) [
      | inl more ↦ elim (Bool-cases (ltb window (u64 (now + u64_mod - ts)))) [
        | inl old ↦
            rw (more, old)
              (Evicted-more
                (evict-Evicted now window rest (u64 (sum + u64_mod - v)) fits order.1 (omega arith)
                  (omega arith))
                (ground arith))
        | inr recent ↦
            rw (more, recent)
              (record {
                dropped = 0;
                suffix = refl;
                sum_eq = e;
                keeps_two = λ h. h;
                front = inr (ground arith);
              })
      ]
      | inr two ↦ rw two (record {
        dropped = 0;
        suffix = refl;
        sum_eq = e;
        keeps_two = λ h. h;
        front = inl (ground arith);
      })
    ]

-- The state of a new window.
pub new-IsValid : (now window : ℕ) → IsValid (new now window)
unfolding new
new-IsValid now window = record { nonempty = omega arith; sum_eq = refl; sum_fits = omega arith }

All-append :
    (now : ℕ) (xs ys : List (ℕ × ℕ))
    → All (NotLater now) xs
    → All (NotLater now) ys
    → All (NotLater now) (xs ++ ys)
All-append now [] ys hx hy = hy
All-append now (x ∷ xs) ys hx hy = (hx.0, All-append now xs ys hx.1 hy)

total-drop : (n : ℕ) (xs : List (ℕ × ℕ)) → total (drop n xs) ≤ total xs
total-drop zero xs = omega arith
total-drop (suc n) [] = omega arith
total-drop (suc n) ((ts, v) ∷ xs) = omega (arith, total-drop n xs)

-- A tick at a time that is not before the recorded ones, whose value the sum has room for, keeps the
-- sum equal to that of the values, leaves a suffix of the old values with the new one of at least two
-- entries, and leaves an old front only where no third entry is left.
pub tick_window :
    (m : MovingAverage) (now value : ℕ)
    → IsValid m
    → All (NotLater now) m.values
    → now < u64_mod
    → m.sum + value < u64_mod
    → let m' = tick m now value in
      IsValid m'
      × (2 ≤ length m'.values)
      × FrontRecent now m.window_millis m'.values
      × ((n : ℕ) × (m'.values ≡ drop n (m.values ++ (now, value) ∷ [])))
unfolding tick
tick_window m now value h order fits room =
    let queue = m.values ++ (now, value) ∷ [] in
    let sum = total-append m.values ((now, value) ∷ []) in
    let long = length-append m.values ((now, value) ∷ []) in
    let ev =
      evict-Evicted now m.window_millis queue (u64 (m.sum + value)) fits
        (All-append now m.values ((now, value) ∷ []) order (omega arith, tt)) (omega arith)
        (omega (arith, h.sum_eq, sum)) in
    let two = ev.keeps_two (omega (arith, h.nonempty, long)) in
    (
      record {
        nonempty = omega (arith, two);
        sum_eq = ev.sum_eq;
        sum_fits =
            rw ev.sum_eq (rw ev.suffix (omega (arith, total-drop ev.dropped queue, sum, h.sum_eq)));
      },
      two,
      ev.front,
      (ev.dropped, ev.suffix),
    )
