-- ===== src/Util/NullBytes.antt =====
-- `remove_null_bytes` of rust/processor/src/utils/util.rs on the JSON value that `serde_json` makes of a
-- row. Texts are UTF-8 bytes; numbers and Booleans of JSON are left as they are.
pub mod Clean
use aptos_indexer_processors.Prelude.{
  ℕ, Bool, Option, none, some, List, [], ◌∷◌, Text, bytes, nat_eq, ◌==◌, if◌then◌else◌,
}

mutual
  pub data JsonValue : Type 0 where
    null : JsonValue
    bool : Bool → JsonValue
    number : Text → JsonValue
    string : Text → JsonValue
    array : Elements → JsonValue
    object : Members → JsonValue

  pub data Elements : Type 0 where
    no_elements : Elements
    element : JsonValue → Elements → Elements

  pub data Members : Type 0 where
    no_members : Members
    member : Text → JsonValue → Members → Members

-- `value.replace('\u{0000}', "")`
pub replace_null : Text → Text
replace_null [] = []
replace_null (c ∷ s) = let rest = replace_null s in if c == 0 then rest else c ∷ rest

-- What follows a prefix `p` of the text, if the text begins with it.
pub after_prefix : Text → Text → Option Text
after_prefix [] s = some s
after_prefix (c ∷ p) [] = none
after_prefix (c ∷ p) (d ∷ s) = if c == d then after_prefix p s else none

-- The six characters of the escape.
abbrev pub null_escape : Text
null_escape = bytes "\\u0000"

-- `value.replace("\\u0000", "")`: matches from the left that do not overlap. `skip` counts the bytes
-- of a match that are still to be dropped.
pub replace_escape : ℕ → Text → Text
unfolding after_prefix
replace_escape skip [] = []
replace_escape ℕ.zero (c ∷ s) = elim (after_prefix null_escape (c ∷ s)) [
  | some _ ↦ replace_escape 5 s
  | none ↦ c ∷ replace_escape 0 s
]
replace_escape (ℕ.suc skip) (c ∷ s) = replace_escape skip s

pub string_null_byte_replacement : Text → Text
unfolding replace_null replace_escape
string_null_byte_replacement value = replace_escape 0 (replace_null value)

unfoldable mutual
  unfolding string_null_byte_replacement

  pub recurse_remove_null_bytes_from_json : JsonValue → JsonValue
  recurse_remove_null_bytes_from_json null = null
  recurse_remove_null_bytes_from_json (bool b) = bool b
  recurse_remove_null_bytes_from_json (number n) = number n
  recurse_remove_null_bytes_from_json (string s) = string (string_null_byte_replacement s)
  recurse_remove_null_bytes_from_json (array items) = array (remove_elements items)
  recurse_remove_null_bytes_from_json (object fields) = object (remove_members fields)

  pub remove_elements : Elements → Elements
  remove_elements no_elements = no_elements
  remove_elements (element v items) =
      element (recurse_remove_null_bytes_from_json v) (remove_elements items)

  pub remove_members : Members → Members
  remove_members no_members = no_members
  remove_members (member k v fields) =
      member k (recurse_remove_null_bytes_from_json v) (remove_members fields)
