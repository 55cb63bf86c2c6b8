-- ===== src/Worker/Chain.antt =====
-- `check_or_update_chain_id` of rust/processor/src/worker.rs keeps a database to one chain.
use aptos_indexer_processors.Prelude.{
  ℕ, Bool, ◌≡◌, ◌⊎◌, refl, sym, ap, ◌∙◌, inl, inr, Option, none, some, done, panic, unwrap,
  unwrap-eq-done, done-injective, >>=-eq-done, true, false, Option-cases, nat_beq_iff,
  if◌then◌else◌,
}
use aptos_indexer_processors.Prelude.Int.{ℤ, pos, negsuc}
use aptos_indexer_processors.GrpcStream.Response.{eq_ℤ}
use aptos_indexer_processors.StatusTracker.{as_u64}
use aptos_indexer_processors.Worker.{add_chain_id, check_or_update_chain_id}

eq_ℤ-eq : (a b : ℤ) → eq_ℤ a b ≡ true → a ≡ b
eq_ℤ-eq (pos m) (pos n) h = ap pos ((nat_beq_iff m n).0 h)
eq_ℤ-eq (negsuc m) (negsuc n) h = ap negsuc ((nat_beq_iff m n).0 h)
eq_ℤ-eq (pos m) (negsuc n) h = cc
eq_ℤ-eq (negsuc m) (pos n) h = cc

module _ {Db : Type 0} (get : Db → Option ℤ) (insert : ℤ → Db → Option Db) where
  -- What the code relies on in the table: a row that has been inserted into the empty table is found.
  abbrev pub InsertFound : Type 0
  InsertFound = (id : ℤ) (db db' : Db) → get db ≡ none → insert id db ≡ some db' → get db' ≡ some id

  passed : (b : Bool) {x y : ℕ × Db} → (if b then done x else panic) ≡ done y → (b ≡ true) × (x ≡ y)
  passed true e = (refl, done-injective e)
  passed false e = cc

  -- Where the check passes, the table names the stream's chain, it named no other one before, and the
  -- returned number is that chain's.
  pub check_or_update_chain_id_lem :
      (id : ℤ) (db db' : Db) (n : ℕ)
      → InsertFound
      → check_or_update_chain_id get insert id db ≡ done (n, db')
      → (get db' ≡ some id) × ((get db ≡ none) ⊎ (get db ≡ some id)) × (n ≡ as_u64 id)
  unfolding check_or_update_chain_id add_chain_id
  check_or_update_chain_id_lem id db db' n found e = elim (Option-cases (get db)) [
    | inl empty ↦
        let e0 : add_chain_id get insert id db ≡ done (n, db') =
          rw (empty, check_or_update_chain_id) at e in
        let (db'', e1, e2) = >>=-eq-done (unwrap (insert id db)) _ e0 in
        let pair : (as_u64 id, db'') ≡ (n, db') = done-injective e2 in
        let at : insert id db ≡ some db' =
          unwrap-eq-done (insert id db) e1 ∙ ap some (ap (λ p. p.1) pair) in
        (found id db db' empty at, inl empty, sym (ap (λ p. p.0) pair))
    | inr (c, there) ↦
        let (same, pair) =
          passed (eq_ℤ c id) {x = (as_u64 c, db)} (rw (there, check_or_update_chain_id) at e) in
        let kept = ap (λ p. p.1) pair in
        let number = ap (λ p. p.0) pair in
        let eq = eq_ℤ-eq c id same in
        (
          ap get (sym kept) ∙ there ∙ ap some eq,
          inr (there ∙ ap some eq),
          sym number ∙ ap as_u64 eq,
        )
  ]
