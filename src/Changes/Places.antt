-- ===== src/Changes/Places.antt =====
-- Each change's rows carry its place
-- (rust/processor/src/models/default_models/write_set_changes.rs).
use aptos_indexer_processors.Prelude.{
  ℕ, zero, suc, ◌+◌, ◌≡◌, ◌∙◌, refl, sym, ap, some, done, unwrap, done-injective, >>=-eq-done,
  unwrap-eq-done, List, [], ◌∷◌, nth, length, Bool, true, false, Text, arith,
}
use aptos_indexer_processors.Prelude.Int.{ℤ}
use aptos_indexer_processors.Protos.{
  Change, delete_module, delete_resource, delete_table_item, write_module, write_resource,
  write_table_item, WriteSetChange,
}
use aptos_indexer_processors.Changes.Models.{Libraries}
use aptos_indexer_processors.Changes.Details.{
  Place, convert_move_module_bytecode, from_write_module, from_delete_module, resource_from_write,
  from_delete_resource, table_items, items_from_write, from_delete_table_item, metadata_of,
}
use aptos_indexer_processors.Changes.Rows.{
  WriteSetChangeModel, WriteSetChangeDetail, module_detail, resource_detail, table_detail,
  get_write_set_change_type, change_row, row_and_detail, from_write_set_change, changes_from,
  from_write_set_changes,
}

-- The place in a detail's own row.
abbrev pub detail_place : {Json : Type 0} → WriteSetChangeDetail Json → Place
detail_place (module_detail m) =
    (m.transaction_version, m.write_set_change_index, m.transaction_block_height)
detail_place (resource_detail r) =
    (r.transaction_version, r.write_set_change_index, r.transaction_block_height)
detail_place (table_detail t _ _) =
    (t.transaction_version, t.write_set_change_index, t.transaction_block_height)

-- Table items have no address.
abbrev pub detail_address : {Json : Type 0} → WriteSetChangeDetail Json → Text
detail_address (module_detail m) = m.address
detail_address (resource_detail r) = r.address
detail_address (table_detail _ _ _) = []

abbrev pub detail_deleted : {Json : Type 0} → WriteSetChangeDetail Json → Bool
detail_deleted (module_detail m) = m.is_deleted
detail_deleted (resource_detail r) = r.is_deleted
detail_deleted (table_detail t _ _) = t.is_deleted

abbrev pub deletes : Change → Bool
deletes (delete_module _) = true
deletes (delete_resource _) = true
deletes (delete_table_item _) = true
deletes (write_module _) = false
deletes (write_resource _) = false
deletes (write_table_item _) = false

-- What the row and the detail of a change have in common.
abbrev pub Agree :
    {Json : Type 0} → Change → Place → WriteSetChangeModel × WriteSetChangeDetail Json → Type 0
Agree change place p =
    ((p.0.transaction_version, p.0.index, p.0.transaction_block_height) ≡ place)
    × (detail_place p.1 ≡ place)
    × (detail_address p.1 ≡ p.0.address)
    × (detail_deleted p.1 ≡ deletes change)

module _ {Json : Type 0} (lib : Libraries Json) where
  row_agrees :
      (change : Change) (type_ : Text) (place : Place)
      (p : WriteSetChangeModel × WriteSetChangeDetail Json)
      → row_and_detail lib change type_ place ≡ done p
      → Agree change place p × (p.0.type_ ≡ type_)
  unfolding row_and_detail change_row from_write_module from_delete_module resource_from_write
      from_delete_resource items_from_write from_delete_table_item table_items metadata_of
  row_agrees (write_module inner) type_ place p e =
      let (detail, e1, e2) = >>=-eq-done (from_write_module lib inner place) _ e in
      let (bytecode, _, e3) = >>=-eq-done (unwrap inner.module_data) _ e1 in
      let (parsed, _, e4) = >>=-eq-done (convert_move_module_bytecode lib bytecode) _ e3 in
      rw (← done-injective e2) (rw (← done-injective e4) ((refl, refl, refl, refl), refl))
  row_agrees (delete_module inner) type_ place p e =
      rw (← done-injective e) ((refl, refl, refl, refl), refl)
  row_agrees (write_resource inner) type_ place p e =
      let (detail, e1, e2) = >>=-eq-done (resource_from_write lib inner place) _ e in
      let (tag, _, e3) = >>=-eq-done (unwrap inner.type_) _ e1 in
      let (value, _, e4) = >>=-eq-done (unwrap (lib.from_str inner.data_json)) _ e3 in
      rw (← done-injective e2) (rw (← done-injective e4) ((refl, refl, refl, refl), refl))
  row_agrees (delete_resource inner) type_ place p e =
      let (detail, e1, e2) = >>=-eq-done (from_delete_resource lib inner place) _ e in
      let (tag, _, e3) = >>=-eq-done (unwrap inner.type_) _ e1 in
      rw (← done-injective e2) (rw (← done-injective e3) ((refl, refl, refl, refl), refl))
  row_agrees (write_table_item inner) type_ place p e =
      let (items, e1, e2) = >>=-eq-done (items_from_write lib inner place) _ e in
      let (metadata, _, e3) = >>=-eq-done (metadata_of inner) _ e2 in
      let (item, _, e4) = >>=-eq-done (unwrap inner.table_data) _ e1 in
      let (key, _, e5) = >>=-eq-done (unwrap (lib.from_str item.key)) _ e4 in
      let (value, _, e6) = >>=-eq-done (unwrap (lib.option_from_str item.value)) _ e5 in
      rw (← done-injective e3) (rw (← done-injective e6) ((refl, refl, refl, refl), refl))
  row_agrees (delete_table_item inner) type_ place p e =
      let (items, e1, e2) = >>=-eq-done (from_delete_table_item lib inner place) _ e in
      let (deleted, _, e3) = >>=-eq-done (unwrap inner.deleted_key) _ e1 in
      let (key, _, e4) = >>=-eq-done (unwrap (lib.from_str deleted)) _ e3 in
      rw (← done-injective e2) (rw (← done-injective e4) ((refl, refl, refl, refl), refl))

  -- The row and the detail for the change in a place.
  abbrev pub RowsAt :
      WriteSetChange
      → ℕ
      → Place
      → List WriteSetChangeModel × List (WriteSetChangeDetail Json)
      → Type 0
  RowsAt change i place out =
      (there : Change) × (row : WriteSetChangeModel) × (detail : WriteSetChangeDetail Json)
      × (change.change ≡ some there)
      × (nth i out.0 ≡ some row)
      × (nth i out.1 ≡ some detail)
      × (get_write_set_change_type change ≡ done row.type_)
      × Agree there place (row, detail)

  rows_at :
      (n : ℕ) (changes : List WriteSetChange) (version height : ℤ)
      (out : List WriteSetChangeModel × List (WriteSetChangeDetail Json))
      → changes_from lib n changes version height ≡ done out
      → (length out.0 ≡ length changes)
        × (length out.1 ≡ length changes)
        × ((i : ℕ) (change : WriteSetChange)
            → nth i changes ≡ some change
            → RowsAt change i (version, i + n, height) out)
  unfolding changes_from from_write_set_change
  rows_at n [] version height out e = rw (← done-injective e) (refl, refl, λ i change there. cc)
  rows_at n (first ∷ changes) version height out e =
      let (p, e1, e2) = >>=-eq-done (from_write_set_change lib first (version, n, height)) _ e in
      let (rest, e3, e4) = >>=-eq-done (changes_from lib (n + 1) changes version height) _ e2 in
      let (type_, e5, e6) = >>=-eq-done (get_write_set_change_type first) _ e1 in
      let (change, e7, e8) = >>=-eq-done (unwrap first.change) _ e6 in
      let (rows, details, each) = rows_at (n + 1) changes version height rest e3 in
      let (agree, typed) = row_agrees change type_ (version, n, height) p e8 in
      rw (← done-injective e4) (
        omega (arith, rows),
        omega (arith, details),
        λ i other there.
            place first changes n version height p rest change type_
              (unwrap-eq-done first.change e7) e5 agree typed each i other there,
      )
    where
      place :
          (first : WriteSetChange) (changes : List WriteSetChange) (n : ℕ) (version height : ℤ)
          (p : WriteSetChangeModel × WriteSetChangeDetail Json)
          (rest : List WriteSetChangeModel × List (WriteSetChangeDetail Json)) (change : Change)
          (type_ : Text)
          → first.change ≡ some change
          → get_write_set_change_type first ≡ done type_
          → Agree change (version, n, height) p
          → p.0.type_ ≡ type_
          → ((i : ℕ) (c : WriteSetChange)
              → nth i changes ≡ some c
              → RowsAt c i (version, i + (n + 1), height) rest)
          → (i : ℕ) (other : WriteSetChange) → nth i (first ∷ changes) ≡ some other
          → RowsAt other i (version, i + n, height) (p.0 ∷ rest.0, p.1 ∷ rest.1)
      place first changes n version height p rest change type_ is declared agree typed each zero
            other there =
          let same : first ≡ other = cc there in
          let from : n ≡ 0 + n = omega arith in
          rw (← same)
            (rw (← from) (change, p.0, p.1, is, refl, refl, declared ∙ ap done (sym typed), agree))
      place first changes n version height p rest change type_ is declared agree typed each (suc i)
            other there =
          let from : i + (n + 1) ≡ suc i + n = omega arith in rw (← from) (each i other there)

  -- When the changes of a transaction are converted, there is one row and one detail for each, in their
  -- order: both carry the version, the change's index and the block height, and agree on the address; the
  -- detail is marked as deleted just for a deletion, and the row's type is the declared one, whatever the
  -- change is.
  pub from_write_set_changes-RowsAt :
      (changes : List WriteSetChange) (version height : ℤ)
      (out : List WriteSetChangeModel × List (WriteSetChangeDetail Json))
      → from_write_set_changes lib changes version height ≡ done out
      → (length out.0 ≡ length changes)
        × (length out.1 ≡ length changes)
        × ((i : ℕ) (change : WriteSetChange)
            → nth i changes ≡ some change
            → RowsAt change i (version, i, height) out)
  unfolding from_write_set_changes
  from_write_set_changes-RowsAt changes version height out e =
      let (rows, details, each) = rows_at 0 changes version height out e in
      (
        rows,
        details,
        λ i change there. let from : i + 0 ≡ i = omega arith in rw from at (each i change there),
      )
