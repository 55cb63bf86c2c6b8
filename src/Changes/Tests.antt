-- ===== src/Changes/Tests.antt =====
-- Two changes of a concrete transaction, for the theorem of Changes/Places.
use aptos_indexer_processors.Prelude.{
  ℕ, ◌≡◌, refl, none, some, Outcome, done, panic, List, [], ◌∷◌, nth, length, Text, bytes,
}
use aptos_indexer_processors.Prelude.Int.{pos}
use aptos_indexer_processors.Protos.{
  delete_module, write_table_item, type_delete_module, type_write_table_item, WriteSetChange,
}
use aptos_indexer_processors.Util.Address.{strip_0x, digits, pad, prefixed, standardize_address}
use aptos_indexer_processors.Changes.Models.{Libraries}
use aptos_indexer_processors.Changes.Details.{
  from_delete_module, items_from_write, table_items, metadata_of,
}
use aptos_indexer_processors.Changes.Rows.{
  WriteSetChangeModel, WriteSetChangeDetail, type_text, get_write_set_change_type, change_row,
  row_and_detail, from_write_set_change, changes_from, from_write_set_changes,
}
use aptos_indexer_processors.Changes.Places.{RowsAt, from_write_set_changes-RowsAt}

-- A value is its own text.
abbrev texts : Libraries Text
texts = record {
  from_str = λ t. some t;
  option_from_str = λ t. some (some t);
  to_value = λ t. some t;
  type_to_value = λ t. none;
  array = λ ts. [];
  encode = λ t. t;
  hash_str = λ t. t;
}

abbrev two_changes : List WriteSetChange
two_changes =
    record {
      type_ = some type_delete_module;
      change = some (
          delete_module (record {
            address = bytes "0x1";
            state_key_hash = bytes "a";
            module_name = some (bytes "coin");
          }));
    }
    ∷ record {
      type_ = some type_write_table_item;
      change = some (
          write_table_item (record {
            handle = bytes "0x2";
            key = bytes "k";
            state_key_hash = bytes "b";
            table_data = some (record {
              key = bytes "1";
              key_type = bytes "u8";
              value = bytes "2";
              value_type = bytes "u8";
            });
          }));
    }
    ∷ []

abbrev or_nothing :
    Outcome (List WriteSetChangeModel × List (WriteSetChangeDetail Text))
    → List WriteSetChangeModel × List (WriteSetChangeDetail Text)
or_nothing panic = ([], [])
or_nothing (done out) = out

two_rows : List WriteSetChangeModel × List (WriteSetChangeDetail Text)
two_rows = or_nothing (from_write_set_changes texts two_changes (pos 8) (pos 3))

two_rows_test : from_write_set_changes texts two_changes (pos 8) (pos 3) ≡ done two_rows
unfolding two_rows from_write_set_changes changes_from from_write_set_change
    get_write_set_change_type type_text row_and_detail change_row from_delete_module
    items_from_write table_items metadata_of standardize_address strip_0x digits pad prefixed
two_rows_test = refl

from_write_set_changes-RowsAt_example :
    (length two_rows.0 ≡ length two_changes)
    × (length two_rows.1 ≡ length two_changes)
    × ((i : ℕ) (change : WriteSetChange)
        → nth i two_changes ≡ some change
        → RowsAt texts change i (pos 8, i, pos 3) two_rows)
from_write_set_changes-RowsAt_example =
    from_write_set_changes-RowsAt texts two_changes (pos 8) (pos 3) two_rows two_rows_test
