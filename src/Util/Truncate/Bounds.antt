-- ===== src/Util/Truncate/Bounds.antt =====
-- When `truncate_str` (rust/processor/src/utils/util.rs) panics, and what it returns otherwise.
use aptos_indexer_processors.Prelude.{
  ℕ, zero, suc, ◌≤◌, ◌≡◌, ◌++◌, refl, sym, ap, inl, inr, Outcome, done, panic, [], ◌∷◌, true, false,
  arith, length, take, drop, Text, leb, take-append-drop, length-take_le, Bool-cases,
}
use mathlib.Core.List.{append-nil}
use aptos_indexer_processors.Util.Truncate.{is_boundary, truncate_str}

-- The result, where there is one, is what stands in front of the cut at `max_chars` bytes, which does not
-- fall inside a character: a prefix of at most so many bytes, and the text itself where that is short
-- enough.
abbrev pub Truncated : Text → ℕ → Outcome Text → Type 0
Truncated val max_chars panic =
    (max_chars ≤ length val) × (is_boundary (drop max_chars val) ≡ false)
Truncated val max_chars (done s) =
    (s ≡ take max_chars val)
    × (is_boundary (drop max_chars val) ≡ true)
    × (length s ≤ max_chars)
    × ((rest : Text) × (s ++ rest ≡ val) × (is_boundary rest ≡ true))
    × (length val ≤ max_chars → s ≡ val)

take_all : (n : ℕ) (s : Text) → length s ≤ n → take n s ≡ s
take_all zero [] h = refl
take_all zero (b ∷ s) h = absurd (omega arith)
take_all (suc n) [] h = refl
take_all (suc n) (b ∷ s) h = ap (λ r. b ∷ r) (take_all n s (omega arith))

drop_all : (n : ℕ) (s : Text) → length s ≤ n → drop n s ≡ []
drop_all zero [] h = refl
drop_all zero (b ∷ s) h = absurd (omega arith)
drop_all (suc n) [] h = refl
drop_all (suc n) (b ∷ s) h = drop_all n s (omega arith)

-- Where `truncate_str` panics the text has at least `max_chars` bytes and the cut behind so many falls
-- inside a character. Where it returns the cut does not fall inside a character, and the result is exactly
-- what stands in front of it: a prefix of at most `max_chars` bytes, and the whole text where that is no
-- longer than `max_chars`.
pub truncate_str_cases :
    (val : Text) (max_chars : ℕ) → Truncated val max_chars (truncate_str val max_chars)
unfolding truncate_str is_boundary
truncate_str_cases val max_chars = elim (Bool-cases (leb max_chars (length val))) [
  | inl long ↦ elim (Bool-cases (is_boundary (drop max_chars val))) [
    | inl cut ↦
        rw (long, cut)
          (
            refl,
            cut,
            length-take_le max_chars val,
            (drop max_chars val, take-append-drop max_chars val, cut),
            take_all max_chars val,
          )
    | inr inside ↦ rw (long, inside) (ground arith, inside)
  ]
  | inr short ↦
      let le : length val ≤ max_chars = ground (arith, short) in
      let none_left = drop_all max_chars val le in
      rw short (
        sym (take_all max_chars val le),
        rw none_left refl,
        le,
        ([], append-nil val, refl),
        λ _. refl,
      )
]
