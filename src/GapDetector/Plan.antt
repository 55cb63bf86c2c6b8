-- ===== src/GapDetector/Plan.antt =====
-- Sequences of batches that tile a range of versions, which is what the fetcher hands to the tasks
-- (rust/processor/src/grpc_stream.rs) and the gap detector expects back.
use aptos_indexer_processors.Prelude.{
  ℕ, ◌+◌, ◌≤◌, ◌<◌, ◌≡◌, ◌∙◌, sym, refl, ◌⊎◌, inl, inr, List, [], ◌∷◌, arith, Has,
}
use aptos_indexer_processors.GapDetector.{ProcessingResult}

-- The batches follow one another from version `s` up to `e`, which is not included.
abbrev pub Tiles : ℕ → List ProcessingResult → ℕ → Type 0
Tiles s [] e = s ≡ e
Tiles s (r ∷ rs) e = (r.start_version ≡ s) × (s ≤ r.end_version) × Tiles (r.end_version + 1) rs e

-- No batch is reported twice.
abbrev pub Distinct : List ProcessingResult → Type 0
Distinct [] = Unit
Distinct (r ∷ rs) = (¬ Has r rs) × Distinct rs

abbrev pub Within : ℕ → ℕ → ProcessingResult → Type 0
Within s e r = (s ≤ r.start_version) × (r.start_version ≤ r.end_version) × (r.end_version < e)

Tiles-le : (s e : ℕ) (plan : List ProcessingResult) → Tiles s plan e → s ≤ e
Tiles-le s e [] h = omega arith
Tiles-le s e (x ∷ plan) h = omega (arith, Tiles-le (x.end_version + 1) e plan h.2)

pub Tiles-Within :
    (s e : ℕ) (plan : List ProcessingResult) (r : ProcessingResult)
    → Tiles s plan e
    → Has r plan
    → Within s e r
Tiles-Within s e [] r h m = elim m [ ]
Tiles-Within s e (x ∷ plan) r h (inl p) = ground (arith, Tiles-le (x.end_version + 1) e plan h.2)
Tiles-Within s e (x ∷ plan) r h (inr m) =
    omega (arith, Tiles-Within (x.end_version + 1) e plan r h.2 m)

-- Two batches of the plan are the same, or one ends before the other starts.
abbrev pub Apart : ProcessingResult → ProcessingResult → Type 0
Apart a b = (a ≡ b) ⊎ ((a.end_version < b.start_version) ⊎ (b.end_version < a.start_version))

pub Tiles-Apart :
    (s e : ℕ) (plan : List ProcessingResult) (a b : ProcessingResult)
    → Tiles s plan e
    → Has a plan
    → Has b plan
    → Apart a b
Tiles-Apart s e [] a b h m n = elim m [ ]
Tiles-Apart s e (x ∷ plan) a b h (inl p) (inl q) = inl (p ∙ sym q)
Tiles-Apart s e (x ∷ plan) a b h (inl p) (inr q) =
    inr (inl (rw p (omega (arith, Tiles-Within (x.end_version + 1) e plan b h.2 q))))
Tiles-Apart s e (x ∷ plan) a b h (inr p) (inl q) =
    inr (inr (rw q (omega (arith, Tiles-Within (x.end_version + 1) e plan a h.2 p))))
Tiles-Apart s e (x ∷ plan) a b h (inr p) (inr q) =
    Tiles-Apart (x.end_version + 1) e plan a b h.2 p q

-- A place where the plan ends or a batch of it starts.
abbrev pub Boundary : List ProcessingResult → ℕ → ℕ → Type 0
Boundary plan e x = (x ≡ e) ⊎ ((n : ProcessingResult) × Has n plan × (n.start_version ≡ x))

pub Tiles-first : (s e : ℕ) (plan : List ProcessingResult) → Tiles s plan e → Boundary plan e s
Tiles-first s e [] h = inl h
Tiles-first s e (x ∷ plan) h = inr (x, inl refl, h.0)

Boundary-later :
    (x : ProcessingResult) (plan : List ProcessingResult) (e v : ℕ)
    → Boundary plan e v
    → Boundary (x ∷ plan) e v
Boundary-later x plan e v (inl h) = inl h
Boundary-later x plan e v (inr (n, m, q)) = inr (n, inr m, q)

pub Tiles-next :
    (s e : ℕ) (plan : List ProcessingResult) (r : ProcessingResult)
    → Tiles s plan e
    → Has r plan
    → Boundary plan e (r.end_version + 1)
Tiles-next s e [] r h m = elim m [ ]
Tiles-next s e (x ∷ plan) r h (inl p) =
    rw p (Boundary-later x plan e (x.end_version + 1) (Tiles-first (x.end_version + 1) e plan h.2))
Tiles-next s e (x ∷ plan) r h (inr m) =
    Boundary-later x plan e (r.end_version + 1) (Tiles-next (x.end_version + 1) e plan r h.2 m)
