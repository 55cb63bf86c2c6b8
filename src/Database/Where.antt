-- ===== src/Database/Where.antt =====
-- When `execute_with_better_error` (rust/processor/src/utils/database.rs) drops the where clause.
use aptos_indexer_processors.Prelude.{
  ℕ, ◌≡◌, refl, Option, none, List, [], ◌∷◌, ◌++◌, true, false, Text, bytes, Bool, ◌&&◌, ◌||◌, leb,
  ap, ◌∙◌, Has, arith,
}
use aptos_indexer_processors.Database.{
  lower, to_lowercase, starts_with, contains, effective_clause, execute_with_better_error,
}

contains-append :
    (before after p : Text) → contains after p ≡ true → contains (before ++ after) p ≡ true
unfolding contains
contains-append [] after p h = h
contains-append (c ∷ before) after p h =
    or_true (starts_with (c ∷ before ++ after) p) (contains-append before after p h)
  where
    or_true : (a : Bool) {b : Bool} → b ≡ true → (a || b) ≡ true
    or_true true h = refl
    or_true false h = h

to_lowercase-append : (s t : Text) → to_lowercase (s ++ t) ≡ to_lowercase s ++ to_lowercase t
unfolding to_lowercase
to_lowercase-append [] t = refl
to_lowercase-append (c ∷ s) t = ap (λ r. lower c ∷ r) (to_lowercase-append s t)

where_found : (after : Text) → contains (bytes "where" ++ after) (bytes "where") ≡ true
unfolding contains starts_with
where_found after = refl

-- The word in any spelling, anywhere.
spelling_found :
    (before word after : Text)
    → to_lowercase word ≡ bytes "where"
    → contains (to_lowercase (before ++ (word ++ after))) (bytes "where") ≡ true
spelling_found before word after spells =
    ap (λ t. contains t (bytes "where"))
      (to_lowercase-append before (word ++ after)
        ∙ ap (λ t. to_lowercase before ++ t)
            (to_lowercase-append word after ∙ ap (λ t. t ++ to_lowercase after) spells))
    ∙ contains-append (to_lowercase before) (bytes "where" ++ to_lowercase after) (bytes "where")
        (where_found (to_lowercase after))

abbrev pub is_letter : ℕ → Bool
is_letter c = (leb 65 c && leb c 90) || (leb 97 c && leb c 122)

-- A text of ASCII letters.
abbrev pub letters : Text → Bool
letters [] = true
letters (c ∷ s) = is_letter c && letters s

letter_of_lower : (c : ℕ) → is_letter (lower c) ≡ true → is_letter c ≡ true
letter_of_lower c h = ground (arith, h)

letters_of_lowercase : (s : Text) → letters (to_lowercase s) ≡ true → letters s ≡ true
unfolding to_lowercase
letters_of_lowercase [] h = refl
letters_of_lowercase (c ∷ s) h =
    both (is_letter (lower c)) (letter_of_lower c) (letters_of_lowercase s) h
  where
    both :
        (a : Bool) {b c d : Bool}
        → (a ≡ true → b ≡ true)
        → (c ≡ true → d ≡ true)
        → (a && c) ≡ true
        → (b && d) ≡ true
    both true p q h = rw (p refl) (q h)
    both false p q h = cc

module _ {T Query : Type 0} (debug_query : Query → Text)
    (build_query : List T → Query × Option Text) (texts_of : T → List Text)
    -- `diesel` documents that the text of a query ends with its bound values, which for a text prints
    -- the letters in it as they are.
    (prints_values : (rows : List T) (row : T) (value before word after : Text)
      → Has row rows
      → Has value (texts_of row)
      → value ≡ before ++ (word ++ after)
      → letters word ≡ true
      → (sql : Text) × (rest : Text) × (debug_query (build_query rows).0
          ≡ sql ++ (word ++ rest))) where
  -- The test for a clause reads the bound values too: where a text of a row holds the word `where`, in
  -- whatever spelling and place, the query for its chunk goes to the database without the where clause.
  pub clause_dropped_by_data :
      (rows : List T) (row : T) (value before word after : Text)
      → Has row rows
      → Has value (texts_of row)
      → value ≡ before ++ (word ++ after)
      → to_lowercase word ≡ bytes "where"
      → (answer : Query → Option Text → Bool)
      → execute_with_better_error debug_query answer (build_query rows).0 (build_query rows).1
        ≡ answer (build_query rows).0 none
  unfolding execute_with_better_error effective_clause
  clause_dropped_by_data rows row value before word after among holds is spells answer =
      let in_word : letters word ≡ true = letters_of_lowercase word (ap letters spells) in
      let (sql, rest, text) =
        prints_values rows row value before word after among holds is in_word in
      rw (text, spelling_found sql word rest spells) refl
