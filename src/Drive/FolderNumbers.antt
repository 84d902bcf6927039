-- ===== src/Drive/FolderNumbers.antt =====
-- src/apps/drive/object_numbers.py: a normalized number stays as it is, and names the object in a
-- folder's name.
use Prim.Native.Char.{Char, code}
use Prim.Native.String.{count as char_count}
use text.Mathlib.TextLemmas.{nil-append, cons-append}
use objekt_bernahme_automati.Prelude.{
  ℕ, ◌≤◌, ◌≡◌, refl, sym, ap, subst, ◌∙◌, inl, inr, true, false, Option, some, List, [], ◌∷◌,
  String, ◌<>◌, leb, ◌==◌, is_blank, is_space, decimal, Bool-cases, arith, All,
}
use mathlib.Core.Option.{some-injective, some-ne-none}
use objekt_bernahme_automati.Drive.ObjectNumbers.{
  is_digit, one_line, int_of, only_digits, digit_run, skip_spaces, ends_number, is_separator,
  padded, normalize_object_number, same_object, parse_object_number, strip, without_separators,
}
use objekt_bernahme_automati.Drive.NumberText.{
  AreDigits, Reads, decimal-Reads, padded-Reads, only_digits_of,
}

never : {A : Type 0} → true ≡ false → A
never e = absurd (ground arith)

-- Normalizing a number again changes nothing, and the normalized number is the same object as the
-- digits that were given, however many zeros it is padded with.
pub normalize_keeps :
    (raw : String) (pad : Option ℕ) (s : String)
    → normalize_object_number raw pad ≡ some s
    → (same_object s (only_digits raw) ≡ true) × (normalize_object_number s pad ≡ some s)
unfolding normalize_object_number
normalize_keeps raw pad s h = elim (Bool-cases (is_blank (only_digits raw))) [
  | inl e ↦ absurd (some-ne-none s (sym (rw e at h)))
  | inr e ↦
      let n = int_of (only_digits raw) in
      let f : some (padded pad (decimal n)) ≡ some s = rw e at h in
      let r : Reads n s =
        subst (Reads n) (some-injective (padded pad (decimal n)) s f)
          (padded-Reads pad n (decimal n) (decimal-Reads n)) in
      (ground (arith, r.0), rw (only_digits_of s r.1, r.2, r.0) f)
]

digit-is_space : (c : Char) → is_digit c ≡ true → is_space c ≡ false
digit-is_space c h = ground arith

separator-is_digit :
    (separators : List Char) (c : Char)
    → All (λ d. is_digit d ≡ false) separators
    → is_separator separators c ≡ true
    → is_digit c ≡ false
separator-is_digit [] c h e = never (sym e)
separator-is_digit (d ∷ ds) c h e = elim (Bool-cases (code d == code c)) [
  | inl f ↦ let (k, l) = h in ground arith
  | inr f ↦ separator-is_digit ds c h.1 (rw f at e)
]

ends_number-is_digit :
    (separators : List Char) (c : Char) (s : String)
    → All (λ d. is_digit d ≡ false) separators
    → ends_number separators (String.◌∷◌ c s) ≡ true
    → is_digit c ≡ false
ends_number-is_digit separators c s h e = elim (Bool-cases (is_separator separators c)) [
  | inl f ↦ separator-is_digit separators c h f
  | inr f ↦ ground arith
]

digit_run_of :
    (separators : List Char) (rest : String)
    → All (λ d. is_digit d ≡ false) separators
    → ends_number separators rest ≡ true
    → (s : String) → AreDigits s
    → digit_run (s <> rest) ≡ (s, rest)
digit_run_of separators String.[] h e String.[] d = ap digit_run (nil-append "")
digit_run_of separators (String.◌∷◌ c t) h e String.[] d =
    ap digit_run (nil-append (String.◌∷◌ c t)) ∙ rw (ends_number-is_digit separators c t h e) refl
digit_run_of separators rest h e (String.◌∷◌ c s) d =
    ap digit_run (cons-append c s rest) ∙ rw (digit_run_of separators rest h e s d.1, d.0) refl

skip_none :
    (s rest : String) → AreDigits s → is_blank s ≡ false → skip_spaces (s <> rest) ≡ s <> rest
skip_none String.[] rest d b = never b
skip_none (String.◌∷◌ c s) rest d b = rw (cons-append c s rest, digit-is_space c d.0) refl

-- The folder of an object is found under its number: a name that begins with a number written out,
-- padded with zeros or not, and goes on with a separator or ends there is read as that number, if
-- its digits are as many as the settings allow; separators are no digits, and
-- the rest has no line break but one at its end.
pub parse_numbered :
    (digits_min digits_max : ℕ) (separators : List Char) (n : ℕ) (pad : Option ℕ) (rest : String)
    → All (λ d. is_digit d ≡ false) separators
    → ends_number separators rest ≡ true
    → one_line rest ≡ true
    → digits_min ≤ char_count (padded pad (decimal n))
    → char_count (padded pad (decimal n)) ≤ digits_max
    → (parse_object_number digits_min digits_max separators (padded pad (decimal n) <> rest)
        ≡ some (record {
          digits = padded pad (decimal n);
          numeric = n;
          rest = strip (without_separators separators rest);
        }))
unfolding parse_object_number
parse_numbered digits_min digits_max separators n pad rest h e o l u =
    let s = padded pad (decimal n) in
    let r = padded-Reads pad n (decimal n) (decimal-Reads n) in
    let a : leb digits_min (char_count s) ≡ true = ground arith in
    let b : leb (char_count s) digits_max ≡ true = ground arith in
    rw (skip_none s rest r.1 r.2, digit_run_of separators rest h e s r.1, a, b, e, o, r.0) refl
