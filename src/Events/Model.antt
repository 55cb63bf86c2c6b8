-- ===== src/Events/Model.antt =====
-- `Event::from_event` and `from_events` of rust/processor/src/models/events_models/events.rs.
use aptos_indexer_processors.Prelude.{
  nth, ℕ, ◌+◌, Option, none, some, Outcome, done, ◌>>=◌, unwrap, List, [], ◌∷◌, Bool, true, false,
  ◌==◌, nat_eq, ◌&&◌, if◌then◌else◌, Text,
}
use aptos_indexer_processors.Prelude.Int.{ℤ, pos}
use aptos_indexer_processors.Protos.{
  Timestamp, Event, UserTransactionRequest, Payload, EntryFunctionPayload, entry_function_payload,
  script_payload, write_set_payload, multisig_payload,
}
use aptos_indexer_processors.GrpcStream.Response.{as_i64}
use aptos_indexer_processors.Util.Timestamp.{as_u32}
use aptos_indexer_processors.Util.Address.{standardize_address}
use aptos_indexer_processors.Util.Truncate.{truncate_str}

abbrev pub event_type_max_length : ℕ
event_type_max_length = 600

-- A row of the table `events`.
pub record EventModel (Json D : Type 0) : Type 0 where
  pub sequence_number : ℤ
  pub creation_number : ℤ
  pub account_address : Text
  pub transaction_version : ℤ
  pub transaction_block_height : ℤ
  pub type_ : Text
  pub data_json : Json
  pub event_index : ℕ
  pub indexed_type : Text
  pub from_ : Text
  pub entry_function_payload_json : Json
  pub entry_function_id_str : Text
  pub module_address : Text
  pub module_name : Text
  pub event_name : Text
  pub inserted_at : D

-- What the code uses of `serde_json` and `chrono`: `from_str`, `to_value` of a payload, `Value::Null`, and
-- the checked `from_timestamp_opt`, whose unchecked form panics where it gives none.
pub record Libraries (Json D : Type 0) : Type 0 where
  pub from_str : Text → Option Json
  pub to_value : EntryFunctionPayload → Option Json
  pub null_json : Json
  pub from_timestamp_opt : ℤ → ℕ → Option D

abbrev push_front : ℕ → List Text → List Text
push_front c [] = (c ∷ []) ∷ []
push_front c (part ∷ parts) = (c ∷ part) ∷ parts

-- `split("::")`; `inside` says that the second colon of a separator comes next.
unfoldable pub split_from : Bool → Text → List Text
split_from inside [] = [] ∷ []
split_from true (c ∷ s) = split_from false s
split_from false (c ∷ []) = (c ∷ []) ∷ []
split_from false (c ∷ d ∷ s) = elim (c == b':' && d == b':') [
  | true ↦ [] ∷ split_from true (d ∷ s)
  | false ↦ push_front c (split_from false (d ∷ s))
]

unfoldable pub split : Text → List Text
unfolding split_from
split t = split_from false t

abbrev pub or_empty : Option Text → Text
or_empty none = []
or_empty (some t) = t

-- `split("<").next()`
unfoldable pub before_angle : Text → Text
before_angle [] = []
before_angle (c ∷ s) = let rest = before_angle s in if c == b'<' then [] else c ∷ rest

module _ {Json D : Type 0} (lib : Libraries Json D) where
  unfoldable pub timestamp_to_naive : Option Timestamp → Outcome D
  timestamp_to_naive none = unwrap (lib.from_timestamp_opt (pos 0) 0)
  timestamp_to_naive (some t) = unwrap (lib.from_timestamp_opt t.seconds (as_u32 t.nanos))

  abbrev or_null : Option Json → Json
  or_null none = lib.null_json
  or_null (some j) = j

  -- The sender, the payload and the function of the request, for a payload that is there.
  unfoldable pub call_of : Text → Payload → Text × Json × Text
  call_of sender (entry_function_payload p) =
      (sender, or_null (lib.to_value p), p.entry_function_id_str)
  call_of sender (script_payload _) = (sender, lib.null_json, [])
  call_of sender write_set_payload = (sender, lib.null_json, [])
  call_of sender (multisig_payload _) = (sender, lib.null_json, [])

  -- The row for an event and its caller.
  unfoldable pub event_row :
      Event → ℤ → ℤ → ℕ → Option Timestamp → Text → Text × Json × Text → Outcome (EventModel Json D)
  unfolding timestamp_to_naive split before_angle
  event_row event version height index inserted_at module_name (sender, payload, function) = do
    key ← unwrap event.key
    value ← unwrap (lib.from_str event.data_json)
    indexed ← truncate_str event.type_str event_type_max_length
    at ← timestamp_to_naive inserted_at
    done (record {
      sequence_number = as_i64 event.sequence_number;
      creation_number = as_i64 key.creation_number;
      account_address = standardize_address key.account_address;
      transaction_version = version;
      transaction_block_height = height;
      type_ = event.type_str;
      data_json = value;
      event_index = index;
      indexed_type = indexed;
      from_ = sender;
      entry_function_payload_json = payload;
      entry_function_id_str = function;
      module_address = or_empty (nth 0 (split event.type_str));
      module_name = module_name;
      event_name = before_angle (or_empty (nth 2 (split event.type_str)));
      inserted_at = at;
    })

  -- With a payload wrapper the payload must be there; without one the type must have a module.
  unfoldable pub from_event :
      Event
      → ℤ
      → ℤ
      → ℕ
      → Option UserTransactionRequest
      → Option Timestamp
      → Outcome (EventModel Json D)
  unfolding event_row call_of split
  from_event event version height index none inserted_at = do
    module_name ← unwrap (nth 1 (split event.type_str))
    event_row event version height index inserted_at module_name ([], lib.null_json, [])
  from_event event version height index (some request) inserted_at = elim request.payload [
    | some wrapper ↦ do
      payload ← unwrap wrapper.payload
      event_row event version height index inserted_at (or_empty (nth 1 (split event.type_str)))
          (call_of request.sender payload)
    | none ↦ do
      module_name ← unwrap (nth 1 (split event.type_str))
      event_row event version height index inserted_at module_name ([], lib.null_json, [])
  ]

  -- `from_events` with the indices from `index` on.
  unfoldable pub from_events :
      List Event
      → ℤ
      → ℤ
      → Option UserTransactionRequest
      → Option Timestamp
      → ℕ
      → Outcome (List (EventModel Json D))
  unfolding from_event
  from_events [] version height request inserted_at index = done []
  from_events (e ∷ es) version height request inserted_at index = do
    row ← from_event e version height index request inserted_at
    rows ← from_events es version height request inserted_at (index + 1)
    done (row ∷ rows)
