-- ===== src/Database/Retry.antt =====
-- When `execute_in_chunks` (rust/processor/src/utils/database.rs) succeeds, and when it panics.
use aptos_indexer_processors.Prelude.{
  ℕ, ◌+◌, ◌≤◌, ◌≡◌, ◌↔◌, ◌⊎◌, refl, inl, inr, Option, Outcome, done, panic, ◌>>=◌, done-injective,
  panic-ne-done, sym, >>=-eq-done, ap, ◌∙◌, Bool-cases, List, [], ◌∷◌, arith, Bool, true, false,
  Text, ◌==◌, nat_eq,
}
use aptos_indexer_processors.Prelude.Chunks.{chunks}
use aptos_indexer_processors.Database.{
  execute_with_better_error, clean_rows, clean_data_for_db, execute_or_retry_cleaned, run_task,
  try_join_all, all_ok, execute_in_chunks,
}

-- Some row cannot be cleaned.
abbrev pub SomePanics : {T : Type 0} → (T → Outcome T) → List T → Type 0
SomePanics remove [] = ⊥
SomePanics remove (x ∷ xs) = (remove x ≡ panic) ⊎ SomePanics remove xs

-- The rows one by one, cleaned.
abbrev pub Cleaned : {T : Type 0} → (T → Outcome T) → List T → List T → Type 0
Cleaned remove [] [] = Unit
Cleaned remove (x ∷ xs) (y ∷ ys) = (remove x ≡ done y) × Cleaned remove xs ys
Cleaned remove [] (y ∷ ys) = ⊥
Cleaned remove (x ∷ xs) [] = ⊥

-- Each chunk, and some chunk, counted from `k` on.
abbrev pub EachFrom : {A : Type 0} → (ℕ → A → Type 0) → ℕ → List A → Type 0
EachFrom P k [] = Unit
EachFrom P k (x ∷ xs) = P k x × EachFrom P (k + 1) xs

abbrev pub SomeFrom : {A : Type 0} → (ℕ → A → Type 0) → ℕ → List A → Type 0
SomeFrom P k [] = ⊥
SomeFrom P k (x ∷ xs) = P k x ⊎ SomeFrom P (k + 1) xs

-- Two results in a row.
cons_panics :
    {A : Type 0} (a : Outcome A) (rest : Outcome (List A)) {P Q : Type 0}
    → (a ≡ panic) ↔ P
    → (rest ≡ panic) ↔ Q
    → ((a >>= λ r. rest >>= λ rs. done (r ∷ rs)) ≡ panic) ↔ (P ⊎ Q)
cons_panics panic rest p q = (λ h. inl (p.0 refl), λ h. refl)
cons_panics (done r) panic p q = (λ h. inr (q.0 refl), λ h. refl)
cons_panics (done r) (done rs) p q = (
  λ h. elim (panic-ne-done (sym h)) [ ],
  λ h. elim h [
    | inl x ↦ elim (panic-ne-done (sym (p.1 x))) [ ]
    | inr y ↦ elim (panic-ne-done (sym (q.1 y))) [ ]
  ],
)

conclude_panics :
    (results : Outcome (List Bool)) {P : Type 0}
    → (results ≡ panic) ↔ P
    → ((results >>= λ rs. done (all_ok rs)) ≡ panic) ↔ P
conclude_panics panic p = (λ h. p.0 refl, λ h. refl)
conclude_panics (done rs) p =
    (λ h. elim (panic-ne-done (sym h)) [ ], λ x. elim (panic-ne-done (sym (p.1 x))) [ ])

cons_succeeds :
    (a : Outcome Bool) (rest : Outcome (List Bool)) {P Q : Type 0}
    → (a ≡ done true) ↔ P
    → ((rest >>= λ rs. done (all_ok rs)) ≡ done true) ↔ Q
    → (((a >>= λ r. rest >>= λ rs. done (r ∷ rs)) >>= λ rs. done (all_ok rs)) ≡ done true) ↔ (P × Q)
unfolding all_ok
cons_succeeds panic rest p q = (λ h. elim (panic-ne-done h) [ ], λ h. p.1 h.0)
cons_succeeds (done r) panic p q = (λ h. elim (panic-ne-done h) [ ], λ h. q.1 h.1)
cons_succeeds (done true) (done rs) p q = (λ h. (p.0 refl, q.0 h), λ h. q.1 h.1)
cons_succeeds (done false) (done rs) p q = (
  λ h. let no : false ≡ true = done-injective h in cc,
  λ h. let no : false ≡ true = done-injective (p.1 h.0) in cc,
)

module _ {T Query : Type 0} (debug_query : Query → Text)
    (answers : ℕ → ℕ → Query → Option Text → Bool) (remove_null_bytes : T → Outcome T)
    (build_query : List T → Query × Option Text) where
  -- Whether the query for the rows succeeds at the attempt `n` of the task `k`.
  abbrev pub stored_at : ℕ → ℕ → List T → Bool
  stored_at k n items =
      execute_with_better_error debug_query (answers k n) (build_query items).0
        (build_query items).1

  -- The rows are stored as they are, or else they can be cleaned and are stored then.
  abbrev pub StoredOrCleaned : ℕ → List T → Type 0
  StoredOrCleaned k items =
      (stored_at k 0 items ≡ true)
      ⊎ ((cleaned : List T) × Cleaned remove_null_bytes items cleaned
          × (stored_at k 1 cleaned ≡ true))

  -- The rows are not stored as they are, and one of them cannot be cleaned.
  abbrev pub CannotBeCleaned : ℕ → List T → Type 0
  CannotBeCleaned k items = (stored_at k 0 items ≡ false) × SomePanics remove_null_bytes items

  clean_rows_panics :
      (items : List T)
      → (clean_rows remove_null_bytes items ≡ panic) ↔ SomePanics remove_null_bytes items
  unfolding clean_rows
  clean_rows_panics [] = (λ h. elim (panic-ne-done (sym h)) [ ], λ h. elim h [ ])
  clean_rows_panics (x ∷ xs) =
      cons_panics (remove_null_bytes x) (clean_rows remove_null_bytes xs) (λ h. h, λ h. h)
        (clean_rows_panics xs)

  clean_rows_done :
      (items cleaned : List T)
      → (clean_rows remove_null_bytes items ≡ done cleaned)
        ↔ Cleaned remove_null_bytes items cleaned
  unfolding clean_rows
  clean_rows_done [] [] = (λ h. tt, λ h. refl)
  clean_rows_done [] (y ∷ ys) =
      (λ h. let no : [] ≡ y ∷ ys = done-injective h in cc, λ h. elim h [ ])
  clean_rows_done (x ∷ xs) [] = (
    λ h.
        let (a, e, e1) = >>=-eq-done (remove_null_bytes x) _ h in
        let (b, e2, e3) = >>=-eq-done (clean_rows remove_null_bytes xs) _ e1 in
        let no : a ∷ b ≡ [] = done-injective e3 in cc,
    λ h. elim h [ ],
  )
  clean_rows_done (x ∷ xs) (y ∷ ys) = (
    λ h.
        let (a, e, e1) = >>=-eq-done (remove_null_bytes x) _ h in
        let (b, e2, e3) = >>=-eq-done (clean_rows remove_null_bytes xs) _ e1 in
        let same : a ∷ b ≡ y ∷ ys = done-injective e3 in
        let head : a ≡ y = cc in
        let tail : b ≡ ys = cc in (e ∙ ap done head, (clean_rows_done xs ys).0 (e2 ∙ ap done tail)),
    λ h. rw (h.0, (clean_rows_done xs ys).1 h.1) refl,
  )

  run_task_done :
      (k : ℕ) (items : List T)
      → (run_task debug_query remove_null_bytes build_query (answers k) items ≡ done true)
        ↔ StoredOrCleaned k items
  unfolding run_task execute_or_retry_cleaned clean_data_for_db
  run_task_done k items = elim (Bool-cases (stored_at k 0 items)) [
    | inl stored ↦ (λ h. inl stored, λ h. rw (stored, run_task, execute_or_retry_cleaned) refl)
    | inr fails ↦ (
      λ h.
          let (cleaned, e, e1) =
            >>=-eq-done (clean_rows remove_null_bytes items) _
              (rw (fails, run_task, execute_or_retry_cleaned) at h) in
          inr (cleaned, (clean_rows_done items cleaned).0 e, done-injective e1),
      λ h. elim h [
        | inl stored ↦ cc
        | inr (cleaned, each, stored) ↦
            rw (fails, run_task, execute_or_retry_cleaned)
              (rw ((clean_rows_done items cleaned).1 each) (ap done stored))
      ],
    )
  ]

  run_task_panics :
      (k : ℕ) (items : List T)
      → (run_task debug_query remove_null_bytes build_query (answers k) items ≡ panic)
        ↔ CannotBeCleaned k items
  unfolding run_task execute_or_retry_cleaned clean_data_for_db
  run_task_panics k items = elim (Bool-cases (stored_at k 0 items)) [
    | inl stored ↦ (
      λ h.
          let no : done true ≡ panic = rw (stored, run_task, execute_or_retry_cleaned) at h in
          elim (panic-ne-done (sym no)) [ ],
      λ h. cc,
    )
    | inr fails ↦ (
      λ h. (
        fails,
        (clean_rows_panics items).0
            (bound_panics _ _ (rw (fails, run_task, execute_or_retry_cleaned) at h)),
      ),
      λ h.
          rw (fails, run_task, execute_or_retry_cleaned)
            (rw ((clean_rows_panics items).1 h.1) refl),
    )
  ]
    where
      bound_panics :
          {A B : Type 0} (m : Outcome A) (f : A → B) → (m >>= λ x. done (f x)) ≡ panic → m ≡ panic
      bound_panics panic f h = refl
      bound_panics (done x) f h = elim (panic-ne-done (sym h)) [ ]

  joined : ℕ → List (List T) → Outcome (List Bool)
  joined k cs = try_join_all debug_query remove_null_bytes build_query answers k cs

  all_done :
      (k : ℕ) (cs : List (List T))
      → ((joined k cs >>= λ rs. done (all_ok rs)) ≡ done true) ↔ EachFrom StoredOrCleaned k cs
  unfolding joined try_join_all all_ok
  all_done k [] = (λ h. tt, λ h. refl)
  all_done k (c ∷ cs) =
      cons_succeeds (run_task debug_query remove_null_bytes build_query (answers k) c)
        (joined (k + 1) cs) (run_task_done k c) (all_done (k + 1) cs)

  join_panics : (k : ℕ) (cs : List (List T)) → (joined k cs ≡ panic) ↔ SomeFrom CannotBeCleaned k cs
  unfolding joined try_join_all
  join_panics k [] = (λ h. elim (panic-ne-done (sym h)) [ ], λ h. elim h [ ])
  join_panics k (c ∷ cs) =
      cons_panics (run_task debug_query remove_null_bytes build_query (answers k) c)
        (joined (k + 1) cs) (run_task_panics k c) (join_panics (k + 1) cs)

  -- With a positive chunk size `execute_in_chunks` succeeds exactly when the rows of each chunk are stored
  -- as they are or, where that attempt fails, can all be cleaned and are stored then; and it panics exactly
  -- when in some chunk the first attempt fails and a row cannot be cleaned. The database may answer each
  -- attempt of each chunk as it likes.
  pub execute_in_chunks_iff :
      (items : List T) (chunk_size : ℕ)
      → 1 ≤ chunk_size
      → ((execute_in_chunks debug_query remove_null_bytes build_query answers items chunk_size
            ≡ done true)
          ↔ EachFrom StoredOrCleaned 0 (chunks chunk_size items))
        × ((execute_in_chunks debug_query remove_null_bytes build_query answers items chunk_size
              ≡ panic)
            ↔ SomeFrom CannotBeCleaned 0 (chunks chunk_size items))
  unfolding execute_in_chunks joined
  execute_in_chunks_iff items chunk_size one =
      let positive : (chunk_size == 0) ≡ false = ground arith in
      rw positive (
        all_done 0 (chunks chunk_size items),
        conclude_panics (joined 0 (chunks chunk_size items))
            (join_panics 0 (chunks chunk_size items)),
      )
