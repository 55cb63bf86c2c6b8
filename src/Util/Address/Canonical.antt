-- ===== src/Util/Address/Canonical.antt =====
-- `standardize_address` (rust/processor/src/utils/util.rs) picks one spelling of each address.
use aptos_indexer_processors.Prelude.{
  ℕ, zero, suc, ◌+◌, ◌-◌, ◌≤◌, ◌≡◌, refl, sym, ap, ◌∙◌, inl, inr, ◌∷◌, ◌++◌, arith, length,
  replicate, Text, Option-cases, Bool-cases, [],
}
use mathlib.Core.List.{append_assoc}
use aptos_indexer_processors.Util.Address.{
  strip_0x, digits, char_count, pad, prefixed, standardize_address,
}
use aptos_indexer_processors.Util.Truncate.{begins_char}

standardize_eq : (h : Text) → standardize_address h ≡ prefixed (digits h)
unfolding standardize_address digits
standardize_eq h = elim (Option-cases (strip_0x h)) [
  | inl e ↦ rw (e, standardize_address, digits)
  | inr (rest, e) ↦ rw (e, standardize_address, digits)
]

char_count-append : (s t : Text) → char_count (s ++ t) ≡ char_count s + char_count t
char_count-append [] t = omega arith
char_count-append (b ∷ s) t = elim (Bool-cases (begins_char b)) [
  | inl e ↦ rw e (omega (arith, char_count-append s t))
  | inr e ↦ rw e (char_count-append s t)
]

char_count-replicate : (n : ℕ) → char_count (replicate n b'0') ≡ n
char_count-replicate zero = refl
char_count-replicate (suc n) = omega (arith, char_count-replicate n)

char_count-le-length : (s : Text) → char_count s ≤ length s
char_count-le-length [] = omega arith
char_count-le-length (b ∷ s) = elim (Bool-cases (begins_char b)) [
  | inl e ↦ rw e (omega (arith, char_count-le-length s))
  | inr e ↦ rw e (omega (arith, char_count-le-length s))
]

char_count-pad : (s : Text) → char_count (pad s) ≡ 64 - char_count s + char_count s
unfolding pad
char_count-pad s =
    char_count-append (replicate (64 - char_count s) b'0') s
    ∙ ap (λ n. n + char_count s) (char_count-replicate (64 - char_count s))

pad_long : (s : Text) → 64 ≤ char_count s → pad s ≡ s
unfolding pad
pad_long s h = let e : 64 - char_count s ≡ 0 = omega arith in rw e

replicate_add : (m n : ℕ) (c : ℕ) → replicate m c ++ replicate n c ≡ replicate (m + n) c
replicate_add zero n c = let e : zero + n ≡ n = omega arith in rw e
replicate_add (suc m) n c =
    let e : suc m + n ≡ suc (m + n) = omega arith in rw e (ap (λ l. c ∷ l) (replicate_add m n c))

digits-prefixed : (s : Text) → digits (prefixed s) ≡ pad s
unfolding digits prefixed
digits-prefixed s = refl

-- An address of at most 64 characters behind its prefix, if it has one, becomes a text of 66 characters,
-- in whatever script it is written.
pub char_count-standardize_address :
    (h : Text) → char_count (digits h) ≤ 64 → char_count (standardize_address h) ≡ 66
unfolding prefixed
char_count-standardize_address h le =
    rw (standardize_eq h) (omega (arith, le, char_count-pad (digits h)))

-- Standardising a standardised text, of any length, changes nothing.
pub standardize_address_idem :
    (h : Text) → standardize_address (standardize_address h) ≡ standardize_address h
unfolding prefixed
standardize_address_idem h = rw (standardize_eq h) (
    rw (standardize_eq (prefixed (digits h))) (
      rw (digits-prefixed (digits h)) (
        ap (λ l. b'0' ∷ b'x' ∷ l)
          (pad_long (pad (digits h)) (omega (arith, char_count-pad (digits h)))))))

-- Leading zeros up to 64 digits, and the prefix, do not change the standard form: all the spellings of
-- one address have the same one.
pub standardize_address_spellings :
    (n : ℕ) (s : Text)
    → n + length s ≤ 64
    → digits s ≡ s
    → standardize_address (b'0' ∷ b'x' ∷ (replicate n b'0' ++ s)) ≡ standardize_address s
unfolding prefixed digits pad
standardize_address_spellings n s fits plain =
    let text = replicate n b'0' ++ s in
    let size = char_count-append (replicate n b'0') s in
    let zeros = char_count-replicate n in
    let short = char_count-le-length s in
    let sum : 64 - char_count text + n ≡ 64 - char_count s =
      omega (arith, fits, size, zeros, short) in
    let same : pad text ≡ pad s =
      sym (append_assoc (replicate (64 - char_count text) b'0') (replicate n b'0') s)
      ∙ ap (λ z. z ++ s)
          (replicate_add (64 - char_count text) n b'0' ∙ ap (λ k. replicate k b'0') sum) in
    rw (standardize_eq (b'0' ∷ b'x' ∷ text))
      (rw (standardize_eq s) (rw plain (ap (λ l. b'0' ∷ b'x' ∷ l) same)))
