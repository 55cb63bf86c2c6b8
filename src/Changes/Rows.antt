-- ===== src/Changes/Rows.antt =====
-- `WriteSetChange` of rust/processor/src/models/default_models/write_set_changes.rs: a row and its detail for
-- each change.
use aptos_indexer_processors.Prelude.{
  ℕ, ◌+◌, Option, none, some, Outcome, done, panic, ◌>>=◌, unwrap, List, [], ◌∷◌, Text, bytes,
}
use aptos_indexer_processors.Prelude.Int.{ℤ}
use aptos_indexer_processors.Protos.{
  Change, delete_module, delete_resource, delete_table_item, write_module, write_resource,
  write_table_item, ChangeType, type_unspecified, type_delete_module, type_delete_resource,
  type_delete_table_item, type_write_module, type_write_resource, type_write_table_item,
  WriteSetChange,
}
use aptos_indexer_processors.Util.Address.{standardize_address}
use aptos_indexer_processors.Changes.Models.{
  Libraries, MoveModule, MoveResource, TableItem, CurrentTableItem, TableMetadata,
}
use aptos_indexer_processors.Changes.Details.{
  Place, from_write_module, from_delete_module, resource_from_write, from_delete_resource,
  items_from_write, from_delete_table_item, metadata_of,
}

-- A row of the table `write_set_changes`.
pub record WriteSetChangeModel : Type 0 where
  pub transaction_version : ℤ
  pub index : ℕ
  pub hash : Text
  pub transaction_block_height : ℤ
  pub type_ : Text
  pub address : Text

pub data WriteSetChangeDetail (Json : Type 0) : Type 0 where
  module_detail : MoveModule Json → WriteSetChangeDetail Json
  resource_detail : MoveResource Json → WriteSetChangeDetail Json
  table_detail :
      TableItem Json → CurrentTableItem Json → Option TableMetadata → WriteSetChangeDetail Json

unfoldable pub type_text : ChangeType → Outcome Text
type_text type_delete_module = done (bytes "delete_module")
type_text type_delete_resource = done (bytes "delete_resource")
type_text type_delete_table_item = done (bytes "delete_table_item")
type_text type_write_module = done (bytes "write_module")
type_text type_write_resource = done (bytes "write_resource")
type_text type_write_table_item = done (bytes "write_table_item")
type_text type_unspecified = panic

-- The text of the declared type, whatever the change is.
unfoldable pub get_write_set_change_type : WriteSetChange → Outcome Text
unfolding type_text
get_write_set_change_type t = do declared ← unwrap t.type_; type_text declared

module _ {Json : Type 0} (lib : Libraries Json) where
  unfoldable pub change_row : Place → Text → Text → Text → WriteSetChangeModel
  change_row place state_key_hash type_ address = record {
    transaction_version = place.0;
    index = place.1;
    hash = standardize_address (lib.encode state_key_hash);
    transaction_block_height = place.2;
    type_ = type_;
    address = address;
  }

  -- The `match` on the change.
  unfoldable pub row_and_detail :
      Change → Text → Place → Outcome (WriteSetChangeModel × WriteSetChangeDetail Json)
  unfolding from_write_module from_delete_module resource_from_write from_delete_resource
      items_from_write from_delete_table_item metadata_of
  row_and_detail (write_module inner) type_ place = do
    detail ← from_write_module lib inner place
    done (
      change_row place inner.state_key_hash type_ (standardize_address inner.address),
      module_detail detail,
    )
  row_and_detail (delete_module inner) type_ place = done (
    change_row place inner.state_key_hash type_ (standardize_address inner.address),
    module_detail (from_delete_module lib inner place),
  )
  row_and_detail (write_resource inner) type_ place = do
    detail ← resource_from_write lib inner place
    done (
      change_row place inner.state_key_hash type_ (standardize_address inner.address),
      resource_detail detail,
    )
  row_and_detail (delete_resource inner) type_ place = do
    detail ← from_delete_resource lib inner place
    done (
      change_row place inner.state_key_hash type_ (standardize_address inner.address),
      resource_detail detail,
    )
  row_and_detail (write_table_item inner) type_ place = do
    items ← items_from_write lib inner place
    metadata ← metadata_of inner
    done (
      change_row place inner.state_key_hash type_ [],
      table_detail items.0 items.1 (some metadata),
    )
  row_and_detail (delete_table_item inner) type_ place = do
    items ← from_delete_table_item lib inner place
    done (change_row place inner.state_key_hash type_ [], table_detail items.0 items.1 none)

  unfoldable pub from_write_set_change :
      WriteSetChange → Place → Outcome (WriteSetChangeModel × WriteSetChangeDetail Json)
  unfolding get_write_set_change_type row_and_detail
  from_write_set_change write_set_change place = do
    type_ ← get_write_set_change_type write_set_change
    change ← unwrap write_set_change.change
    row_and_detail change type_ place

  -- The changes from `index` on.
  unfoldable pub changes_from :
      ℕ
      → List WriteSetChange
      → ℤ
      → ℤ
      → Outcome (List WriteSetChangeModel × List (WriteSetChangeDetail Json))
  unfolding from_write_set_change
  changes_from index [] version height = done ([], [])
  changes_from index (change ∷ changes) version height = do
    first ← from_write_set_change change (version, index, height)
    rest ← changes_from (index + 1) changes version height
    done (first.0 ∷ rest.0, first.1 ∷ rest.1)

  unfoldable pub from_write_set_changes :
      List WriteSetChange
      → ℤ
      → ℤ
      → Outcome (List WriteSetChangeModel × List (WriteSetChangeDetail Json))
  unfolding changes_from
  from_write_set_changes changes version height = changes_from 0 changes version height
