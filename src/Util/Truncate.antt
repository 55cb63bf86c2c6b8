-- ===== src/Util/Truncate.antt =====
-- `truncate_str` of rust/processor/src/utils/util.rs. `String::truncate` counts bytes, and panics where
-- the cut falls inside a character.
pub mod Bounds
use aptos_indexer_processors.Prelude.{
  ℕ, Outcome, done, panic, [], ◌∷◌, Bool, true, length, take, drop, Text, ltb, leb, if◌then◌else◌,
  ◌||◌,
}

-- A byte that begins a character of UTF-8, i.e. no continuation byte 0b10xxxxxx.
abbrev pub begins_char : ℕ → Bool
begins_char b = ltb b 128 || leb 192 b

-- `is_char_boundary`: the end of the text, or a byte that begins a character.
unfoldable pub is_boundary : Text → Bool
is_boundary [] = true
is_boundary (b ∷ rest) = begins_char b

unfoldable pub truncate_str : Text → ℕ → Outcome Text
unfolding is_boundary
truncate_str val max_chars =
    if leb max_chars (length val)
    then (if is_boundary (drop max_chars val) then done (take max_chars val) else panic)
    else done val
