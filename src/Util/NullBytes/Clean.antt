-- ===== src/Util/NullBytes/Clean.antt =====
-- What `remove_null_bytes` (rust/processor/src/utils/util.rs) removes, and what it lets through.
use aptos_indexer_processors.Prelude.{
  ℕ, zero, suc, ◌≡◌, ◌≢◌, refl, inl, inr, [], ◌∷◌, arith, All, Text, Option-cases,
}
use aptos_indexer_processors.Util.NullBytes.{
  JsonValue, Elements, Members, null, bool, number, string, array, object, no_elements, element,
  no_members, member, replace_null, after_prefix, null_escape, replace_escape,
  string_null_byte_replacement, recurse_remove_null_bytes_from_json, remove_elements,
  remove_members,
}

-- No byte of the text is zero.
abbrev pub NoNull : Text → Type 0
NoNull s = All (λ c. c ≢ 0) s

replace_null-NoNull : (s : Text) → NoNull (replace_null s)
unfolding replace_null
replace_null-NoNull [] = tt
replace_null-NoNull (c ∷ s) = ground (arith, replace_null-NoNull s)

replace_escape-NoNull : (skip : ℕ) (s : Text) → NoNull s → NoNull (replace_escape skip s)
unfolding replace_escape
replace_escape-NoNull skip [] h = tt
replace_escape-NoNull zero (c ∷ s) h = elim (Option-cases (after_prefix null_escape (c ∷ s))) [
  | inl e ↦ rw (e, replace_escape) (h.0, replace_escape-NoNull 0 s h.1)
  | inr (r, e) ↦ rw (e, replace_escape) (replace_escape-NoNull 5 s h.1)
]
replace_escape-NoNull (suc skip) (c ∷ s) h = replace_escape-NoNull skip s h.1

string_null_byte_replacement-NoNull : (s : Text) → NoNull (string_null_byte_replacement s)
unfolding string_null_byte_replacement
string_null_byte_replacement-NoNull s =
    replace_escape-NoNull 0 (replace_null s) (replace_null-NoNull s)

-- No text in the value has a zero byte; the keys of objects are not asked for it.
unfoldable mutual
  pub NoNullStrings : JsonValue → Type 0
  NoNullStrings null = Unit
  NoNullStrings (bool b) = Unit
  NoNullStrings (number n) = Unit
  NoNullStrings (string s) = NoNull s
  NoNullStrings (array items) = NoNullElements items
  NoNullStrings (object fields) = NoNullMembers fields

  pub NoNullElements : Elements → Type 0
  NoNullElements no_elements = Unit
  NoNullElements (element v items) = NoNullStrings v × NoNullElements items

  pub NoNullMembers : Members → Type 0
  NoNullMembers no_members = Unit
  NoNullMembers (member k v fields) = NoNullStrings v × NoNullMembers fields

-- The same tree, with the same keys, numbers and Booleans: only texts may differ.
unfoldable mutual
  pub SameShape : JsonValue → JsonValue → Type 0
  SameShape null null = Unit
  SameShape (bool b) (bool c) = b ≡ c
  SameShape (number n) (number m) = n ≡ m
  SameShape (string s) (string t) = Unit
  SameShape (array xs) (array ys) = SameElements xs ys
  SameShape (object xs) (object ys) = SameMembers xs ys
  SameShape _ _ = ⊥

  pub SameElements : Elements → Elements → Type 0
  SameElements no_elements no_elements = Unit
  SameElements (element v xs) (element w ys) = SameShape v w × SameElements xs ys
  SameElements _ _ = ⊥

  pub SameMembers : Members → Members → Type 0
  SameMembers no_members no_members = Unit
  SameMembers (member k v xs) (member l w ys) = (k ≡ l) × SameShape v w × SameMembers xs ys
  SameMembers _ _ = ⊥

mutual
  unfolding NoNullStrings NoNullElements NoNullMembers SameShape SameElements SameMembers
      recurse_remove_null_bytes_from_json remove_elements remove_members

  clean_value :
      (v : JsonValue)
      → NoNullStrings (recurse_remove_null_bytes_from_json v)
        × SameShape v (recurse_remove_null_bytes_from_json v)
  clean_value null = (tt, tt)
  clean_value (bool b) = (tt, refl)
  clean_value (number n) = (tt, refl)
  clean_value (string s) = (string_null_byte_replacement-NoNull s, tt)
  clean_value (array items) = clean_elements items
  clean_value (object fields) = clean_members fields

  clean_elements :
      (xs : Elements) → NoNullElements (remove_elements xs) × SameElements xs (remove_elements xs)
  clean_elements no_elements = (tt, tt)
  clean_elements (element v xs) =
      let (n, s) = clean_value v in let (ns, ss) = clean_elements xs in ((n, ns), (s, ss))

  clean_members :
      (xs : Members) → NoNullMembers (remove_members xs) × SameMembers xs (remove_members xs)
  clean_members no_members = (tt, tt)
  clean_members (member k v xs) =
      let (n, s) = clean_value v in let (ns, ss) = clean_members xs in ((n, ns), (refl, s, ss))

-- Cleaning leaves no zero byte in any text of a JSON value, at any depth, and keeps its shape, its
-- keys, its numbers and its Booleans.
pub remove_null_bytes_clean :
    (v : JsonValue)
    → NoNullStrings (recurse_remove_null_bytes_from_json v)
      × SameShape v (recurse_remove_null_bytes_from_json v)
remove_null_bytes_clean v = clean_value v
