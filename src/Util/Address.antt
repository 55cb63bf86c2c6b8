-- ===== src/Util/Address.antt =====
-- `standardize_address` of rust/processor/src/utils/util.rs. A text is the bytes of its UTF-8 encoding, and
-- the padding of `{:0>64}` counts characters.
pub mod Canonical
use aptos_indexer_processors.Prelude.{
  ℕ, ◌-◌, Option, none, some, List, [], ◌∷◌, ◌++◌, length, replicate, Text, ◌==◌, nat_eq,
  if◌then◌else◌, ◌&&◌, ◌+◌,
}
use aptos_indexer_processors.Util.Truncate.{begins_char}

-- `str::strip_prefix("0x")`.
unfoldable pub strip_0x : Text → Option Text
strip_0x [] = none
strip_0x (c ∷ []) = none
strip_0x (c ∷ d ∷ rest) = if c == b'0' && d == b'x' then some rest else none

-- The text without its prefix, if it has one.
unfoldable pub digits : Text → Text
unfolding strip_0x
digits handle = elim (strip_0x handle) [ some rest ↦ rest | none ↦ handle ]

-- The number of characters, each of which has one byte that begins it.
abbrev pub char_count : Text → ℕ
char_count [] = 0
char_count (b ∷ s) = let rest = char_count s in if begins_char b then rest + 1 else rest

-- `format!("{:0>64}", s)`: zeros on the left, up to 64 characters.
unfoldable pub pad : Text → Text
pad s = replicate (64 - char_count s) b'0' ++ s

-- `format!("0x{:0>64}", handle)`
unfoldable pub prefixed : Text → Text
unfolding pad
prefixed handle = b'0' ∷ b'x' ∷ pad handle

unfoldable pub standardize_address : Text → Text
unfolding prefixed strip_0x
standardize_address handle = elim (strip_0x handle) [
  | some stripped ↦ prefixed stripped
  | none ↦ prefixed handle
]
