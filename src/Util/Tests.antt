-- ===== src/Util/Tests.antt =====
-- The helpers of rust/processor/src/utils/util.rs on concrete inputs, and their theorems there.
use aptos_indexer_processors.Prelude.{
  ℕ, ◌≡◌, refl, Option, none, some, done, panic, [], ◌∷◌, arith, length, Text, bytes,
}
use aptos_indexer_processors.Prelude.Int.{ℤ, pos}
use aptos_indexer_processors.Protos.{Timestamp, Payload, UserTransactionRequest, TransactionPayload}
use aptos_indexer_processors.Util.Address.{
  strip_0x, digits, char_count, pad, prefixed, standardize_address,
}
use aptos_indexer_processors.Util.Address.Canonical.{
  char_count-standardize_address, standardize_address_spellings,
}
use aptos_indexer_processors.Util.Truncate.{is_boundary, truncate_str}
use aptos_indexer_processors.Util.Truncate.Bounds.{Truncated, truncate_str_cases}
use aptos_indexer_processors.Util.NullBytes.{
  JsonValue, string, array, object, no_elements, element, no_members, member, null_escape,
  recurse_remove_null_bytes_from_json,
}
use aptos_indexer_processors.Util.NullBytes.Clean.{
  NoNullStrings, SameShape, remove_null_bytes_clean,
}
use aptos_indexer_processors.Util.Payload.{entry_function_of, get_entry_function_from_user_request}
use aptos_indexer_processors.Util.Payload.Recorded.{
  IsRecorded, get_entry_function_from_user_request-IsRecorded,
}
use aptos_indexer_processors.Util.Timestamp.{
  parse_timestamp, parse_timestamp_secs, parse_timestamp_total,
}

length-short_address : (length (standardize_address (bytes "0x1a")) ≡ 66) × (length null_escape ≡ 6)
unfolding standardize_address prefixed pad strip_0x
length-short_address = (refl, refl)

char_count-standardize_address_example : char_count (standardize_address (bytes "0x1a")) ≡ 66
unfolding digits strip_0x
char_count-standardize_address_example = char_count-standardize_address (bytes "0x1a") (omega arith)

standardize_address_spellings_example :
    standardize_address (bytes "0x001a") ≡ standardize_address (bytes "1a")
unfolding digits strip_0x
standardize_address_spellings_example =
    standardize_address_spellings 2 (bytes "1a") (omega arith) refl

-- The bytes of `aé`: a cut inside its last character panics.
abbrev accented : Text
accented = 97 ∷ 195 ∷ 169 ∷ []

truncate_two_bytes :
    (truncate_str accented 2 ≡ panic) × (truncate_str accented 1 ≡ done (bytes "a"))
unfolding truncate_str is_boundary
truncate_two_bytes = (refl, refl)

truncate_str_cases_example : Truncated accented 2 (truncate_str accented 2)
truncate_str_cases_example = truncate_str_cases accented 2

abbrev dirty : JsonValue
dirty =
    object (member (bytes "k") (array (element (string (97 ∷ 0 ∷ 98 ∷ [])) no_elements)) no_members)

remove_null_bytes_clean_example :
    NoNullStrings (recurse_remove_null_bytes_from_json dirty)
    × SameShape dirty (recurse_remove_null_bytes_from_json dirty)
remove_null_bytes_clean_example = remove_null_bytes_clean dirty

-- A clock that counts nanoseconds.
abbrev count_nanos : ℤ → ℕ → Option (ℤ × ℕ)
count_nanos s n = some (s, n)

abbrev late : Timestamp
late = record { seconds = pos 300000000000; nanos = pos 7 }

parse_timestamp_total_example :
    ((d : ℤ × ℕ) × (parse_timestamp count_nanos late ≡ done d))
    × ((d : ℤ × ℕ) × (parse_timestamp_secs count_nanos 300000000000 ≡ done d))
parse_timestamp_total_example =
    parse_timestamp_total count_nanos (λ s n hs hn. ((pos s, n), refl)) late 300000000000 7 refl
      refl (omega arith)

abbrev transfer : UserTransactionRequest
transfer = record {
  sender = bytes "0x7";
  sequence_number = 0;
  gas_unit_price = 100;
  signature = none;
  payload = some (record {
    payload = some (
        Payload.entry_function_payload (record {
          function = none;
          arguments = [];
          entry_function_id_str = bytes "0x1::coin::transfer";
        }));
  });
}

transfer_recorded :
    get_entry_function_from_user_request transfer ≡ done (some (bytes "0x1::coin::transfer"))
unfolding get_entry_function_from_user_request entry_function_of truncate_str
transfer_recorded = refl

get_entry_function_from_user_request-IsRecorded_example :
    (w : TransactionPayload) × (transfer.payload ≡ some w)
    × IsRecorded w.payload (bytes "0x1::coin::transfer")
get_entry_function_from_user_request-IsRecorded_example =
    get_entry_function_from_user_request-IsRecorded transfer (bytes "0x1::coin::transfer")
      transfer_recorded
