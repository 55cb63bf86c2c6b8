-- ===== src/Database/Limits.antt =====
-- The default chunk size of rust/processor/src/utils/database.rs keeps a query within the limit.
use aptos_indexer_processors.Prelude.{
  ℕ, false, ◌*◌, ◌/◌, ◌≤◌, ◌≡◌, refl, none, done, List, [], ◌∷◌, arith, length, concat, All, Text,
  ◌==◌, nat_eq, text_eq,
}
use native.Mathlib.Nat.{div-mul-le_self, le-div_iff_mul-le, mul-le-mul_right}
use aptos_indexer_processors.Prelude.Dict.{Dict, lookup}
use aptos_indexer_processors.Prelude.Chunks.{chunks, IsChunk, concat-chunks, All-chunks}
use aptos_indexer_processors.Database.{max_diesel_param_size, get_config_table_chunk_size}

-- A chunk whose rows have `field_count` columns binds at most the parameters that a query may have.
abbrev pub Fits : {T : Type 0} → ℕ → List T → Type 0
Fits field_count c = (1 ≤ length c) × (length c * field_count ≤ max_diesel_param_size)

module _ {T : Type 0} where
  All-Fits :
      (n field_count : ℕ) (cs : List (List T))
      → n * field_count ≤ max_diesel_param_size
      → All (IsChunk n) cs
      → All (Fits field_count) cs
  All-Fits n f [] h ok = tt
  All-Fits n f (c ∷ cs) h ok =
      ((ok.0.0, omega (arith, mul-le-mul_right f ok.0.1, h)), All-Fits n f cs h ok.1)

  -- Without a configured size for the table, and with one column at least and no more columns than
  -- parameters, the chunk size is positive: the chunks are the items, none is empty, and none binds
  -- more parameters than a query may have.
  pub default_chunks_fit :
      (field_count : ℕ) (table_name : Text) (sizes : Dict Text ℕ) (items : List T)
      → 1 ≤ field_count
      → field_count ≤ max_diesel_param_size
      → lookup table_name sizes ≡ none
      → (n : ℕ) × (get_config_table_chunk_size field_count table_name sizes ≡ done n)
        × (1 ≤ n)
        × (concat (chunks n items) ≡ items)
        × All (Fits field_count) (chunks n items)
  unfolding get_config_table_chunk_size
  default_chunks_fit field_count table_name sizes items one few missing =
      let n = max_diesel_param_size / field_count in
      let columns : (field_count == 0) ≡ false = ground arith in
      let size : 1 ≤ n = (le-div_iff_mul-le one).1 (omega (arith, few)) in
      (
        n,
        rw (missing, get_config_table_chunk_size) (rw columns refl),
        size,
        concat-chunks n items size,
        All-Fits n field_count (chunks n items) (div-mul-le_self max_diesel_param_size field_count)
            (All-chunks n items size),
      )
