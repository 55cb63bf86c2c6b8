-- ===== src/GrpcStream/Connect/Retries.antt =====
-- How often `get_stream` of rust/processor/src/grpc_stream.rs tries.
use aptos_indexer_processors.Prelude.{
  ℕ, zero, suc, ◌+◌, ◌≤◌, ◌<◌, ◌≡◌, ◌↔◌, ◌∙◌, ap, sym, refl, false, inl, inr, done, panic, arith,
  leb, if◌then◌else◌, lt_or_le, eq_or_ne,
}
use aptos_indexer_processors.GrpcStream.Connect.{
  Attempt, timed_out, refused, answered, reconnection_max_retries, retry,
}

module _ {A : Type 0} (attempt : ℕ → Attempt A) where
  -- The first attempt from the k-th on that does not time out is one of the first five and returns `a`.
  abbrev pub AnsweredFrom : ℕ → A → Type 0
  AnsweredFrom k a =
      (i : ℕ) × (k ≤ i)
      × (i < reconnection_max_retries)
      × (attempt i ≡ answered a)
      × ((j : ℕ) → k ≤ j → j < i → attempt j ≡ timed_out)

  retry_sound :
      (fuel k : ℕ) (a : A)
      → k < reconnection_max_retries
      → retry fuel attempt k ≡ done a
      → AnsweredFrom k a
  unfolding retry
  retry_sound zero k a sum e = cc
  retry_sound (suc fuel) k a sum e = go (attempt k) refl (retry_sound fuel (k + 1) a)
    where
      go :
          (o : Attempt A)
          → attempt k ≡ o
          → (k + 1 < reconnection_max_retries
              → retry fuel attempt (k + 1) ≡ done a
              → AnsweredFrom (k + 1) a)
          → AnsweredFrom k a
      go (answered b) at ih =
          let e' : done b ≡ done a = rw (at, retry) at e in
          (k, omega arith, omega arith, cc, λ j lo hi. absurd (omega arith))
      go refused at ih = let e' : panic ≡ done a = rw (at, retry) at e in cc
      go timed_out at ih =
          let e' : (if leb reconnection_max_retries (k + 1)
                then panic
                else retry fuel attempt (k + 1))
              ≡ done a =
            rw (at, retry) at e in
          elim (lt_or_le (k + 1) reconnection_max_retries) [
            | inl more ↦
                let e'' : retry fuel attempt (k + 1) ≡ done a = ground arith in
                let (i, lo, hi, found, before) = ih (omega arith) e'' in
                (
                  i,
                  omega arith,
                  hi,
                  found,
                  λ j from to. elim (eq_or_ne j k) [
                    | inl same ↦ rw same at
                    | inr other ↦ before j (omega arith) to
                  ],
                )
            | inr last ↦ let e'' : panic ≡ done a = ground arith in cc
          ]

  retry_complete :
      (fuel k : ℕ) (a : A)
      → reconnection_max_retries ≤ fuel + k
      → AnsweredFrom k a
      → retry fuel attempt k ≡ done a
  unfolding retry
  retry_complete zero k a sum (i, lo, hi, found, before) = absurd (omega arith)
  retry_complete (suc fuel) k a sum (i, lo, hi, found, before) = elim (eq_or_ne i k) [
    | inl here ↦
        let at : attempt k ≡ answered a = ap attempt (sym here) ∙ found in rw (at, retry) refl
    | inr later ↦
        let at = before k (omega arith) (omega arith) in
        let more : leb reconnection_max_retries (k + 1) ≡ false = ground arith in
        rw (at, retry)
          (rw more (
            retry_complete fuel (k + 1) a (omega arith)
              (i, omega arith, hi, found, λ j from to. before j (omega arith) to)))
  ]

  -- However many rounds, five at least, either loop of `get_stream` may make, it returns `a` exactly when
  -- one of the first five attempts returns it and all attempts before that one time out. In every other
  -- case it panics: on an error, which is not tried again, and on five timeouts.
  pub retry_done_iff :
      (fuel : ℕ) (a : A)
      → reconnection_max_retries ≤ fuel
      → (retry fuel attempt 0 ≡ done a) ↔ AnsweredFrom 0 a
  retry_done_iff fuel a enough = (
    retry_sound fuel 0 a (omega (arith, enough)),
    retry_complete fuel 0 a (omega (arith, enough)),
  )
