-- ===== src/Coin/Keep.antt =====
-- `entry(key).or_insert(value)` for the infos of a transaction: the part of `process_transactions` in
-- rust/processor/src/processors/coin_processor.rs that keeps the first info of a coin.
use aptos_indexer_processors.Prelude.{
  ◌≡◌, inl, inr, refl, sym, ap, ◌∙◌, Option, none, some, [], ◌∷◌, text_eq, pair_eq, Text,
  Option-cases, Bool-cases, ◌==◌, if◌then◌else◌,
}
use aptos_indexer_processors.Prelude.Dict.{Dict, lookup, insert, or_insert, lookup-insert}
use aptos_indexer_processors.Prelude.Dict.Keyed.{
  Distinct, OwnKeys, or_else, insert-Distinct, insert-OwnKeys,
}
use aptos_indexer_processors.Prelude.Sorted.{text_order, pair_order}
use aptos_indexer_processors.Coin.Rows.{CoinInfo}
use aptos_indexer_processors.Coin.Batch.{keep_first, info_key}

-- One info per coin type, under its own.
abbrev pub Keyed : {D : Type 0} → Dict Text (CoinInfo D) → Type 0
Keyed infos = Distinct infos × OwnKeys info_key infos

module _ {D : Type 0} where
  pub insert-Keyed :
      (row : CoinInfo D) (infos : Dict Text (CoinInfo D))
      → Keyed infos
      → Keyed (insert row.coin_type row infos)
  insert-Keyed row infos h = (
    insert-Distinct row.coin_type row infos h.0,
    insert-OwnKeys info_key row.coin_type row infos refl h.1,
  )

  or_insert-absent :
      (key : Text) (row : CoinInfo D) (infos : Dict Text (CoinInfo D))
      → lookup key infos ≡ none
      → or_insert key row infos ≡ insert key row infos
  unfolding or_insert
  or_insert-absent key row infos absent = rw (or_insert, absent) refl

  or_insert-there :
      (key : Text) (row old : CoinInfo D) (infos : Dict Text (CoinInfo D))
      → lookup key infos ≡ some old
      → or_insert key row infos ≡ infos
  unfolding or_insert
  or_insert-there key row old infos there = rw (or_insert, there) refl

  or_insert-Keyed :
      (key : Text) (row : CoinInfo D) (infos : Dict Text (CoinInfo D))
      → row.coin_type ≡ key
      → Keyed infos
      → Keyed (or_insert key row infos)
  or_insert-Keyed key row infos own h = elim (Option-cases (lookup key infos)) [
    | inl absent ↦
        rw (or_insert-absent key row infos absent)
          (insert-Distinct key row infos h.0, insert-OwnKeys info_key key row infos own h.1)
    | inr (old, there) ↦ rw (or_insert-there key row old infos there) h
  ]

  pub keep_first-Keyed :
      (infos more : Dict Text (CoinInfo D))
      → Keyed infos
      → OwnKeys info_key more
      → Keyed (keep_first infos more)
  unfolding keep_first
  keep_first-Keyed infos [] h own = h
  keep_first-Keyed infos ((key, row) ∷ rest) h own =
      keep_first-Keyed (or_insert key row infos) rest (or_insert-Keyed key row infos own.0 h) own.1

  pub or_none : (o : Option (CoinInfo D)) → or_else o none ≡ o
  or_none none = refl
  or_none (some o) = refl

  lookup-or_insert :
      (at key : Text) (row : CoinInfo D) (infos : Dict Text (CoinInfo D))
      → lookup key (or_insert at row infos)
        ≡ or_else (lookup key infos) (if at == key then some row else none)
  lookup-or_insert at key row infos = elim (Option-cases (lookup at infos)) [
    | inl absent ↦ rw (or_insert-absent at row infos absent) (
        lookup-insert at key row infos ∙ (elim (Bool-cases (at == key)) [
          | inl same ↦
              let no_key : lookup key infos ≡ none =
                rw (← (text_eq.same_iff at key).0 same) absent in
              rw (same, no_key) refl
          | inr differ ↦ rw differ (sym (or_none (lookup key infos)))
        ]))
    | inr (old, there) ↦
        rw (or_insert-there at row old infos there) (elim (Bool-cases (at == key)) [
          | inl same ↦
              let has_key : lookup key infos ≡ some old =
                rw (← (text_eq.same_iff at key).0 same) there in
              rw (same, has_key) refl
          | inr differ ↦ rw differ (sym (or_none (lookup key infos)))
        ])
  ]

  pub lookup-keep_first :
      (key : Text) (infos more : Dict Text (CoinInfo D))
      → lookup key (keep_first infos more) ≡ or_else (lookup key infos) (lookup key more)
  unfolding keep_first lookup
  lookup-keep_first key infos [] = sym (or_none (lookup key infos))
  lookup-keep_first key infos ((at, row) ∷ rest) =
      lookup-keep_first key (or_insert at row infos) rest
      ∙ ap (λ o. or_else o (lookup key rest)) (lookup-or_insert at key row infos)
      ∙ elim (Bool-cases (at == key)) [
        | inl same ↦ rw same (of_both (lookup key infos) (some row) (lookup key rest))
        | inr differ ↦ rw differ (of_both (lookup key infos) none (lookup key rest))
      ]
    where
      of_both : (a b c : Option (CoinInfo D)) → or_else (or_else a b) c ≡ or_else a (or_else b c)
      of_both none b c = refl
      of_both (some a) b c = refl
