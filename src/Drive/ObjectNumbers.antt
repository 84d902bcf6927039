-- ===== src/Drive/ObjectNumbers.antt =====
-- src/apps/drive/object_numbers.py: the number of an object in the name of its folder. The regular
-- expression is walked by hand: blanks, a run of digits, and a separator or the end. Digits and blanks
-- are those of ASCII, and no digit is a separator.
use Prim.Native.Char.{Char, code}
use Prim.Native.String.{count as char_count}
use objekt_bernahme_automati.Prelude.{
  ℕ, zero, suc, ◌+◌, ◌-◌, ◌*◌, Bool, true, ◌&&◌, ◌||◌, Option, none, some, List, String, leb, ◌==◌,
  if◌then◌else◌, is_blank, is_space, decimal,
}
use objekt_bernahme_automati.Prelude.Table.{exists}

abbrev pub is_digit : Char → Bool
is_digit c = leb 48 (code c) && leb (code c) 57

-- `int(s)` of a text of digits, behind those that have been read.
abbrev pub value_from : ℕ → String → ℕ
value_from n String.[] = n
value_from n (String.◌∷◌ c s) = value_from (n * 10 + (code c - 48)) s

abbrev pub int_of : String → ℕ
int_of s = value_from 0 s

-- `re.sub(r"\D", "", s)`
abbrev pub only_digits : String → String
only_digits String.[] = ""
only_digits (String.◌∷◌ c s) =
    let rest = only_digits s in if is_digit c then String.◌∷◌ c rest else rest

abbrev pub zeros : ℕ → String → String
zeros zero s = s
zeros (suc n) s = String.◌∷◌ "0" (zeros n s)

-- `value.zfill(width)` of a text without a sign.
abbrev pub zfill : ℕ → String → String
zfill width s = zeros (width - char_count s) s

abbrev pub padded : Option ℕ → String → String
padded none s = s
padded (some zero) s = s
padded (some (suc w)) s = zfill (suc w) s

-- `normalize_object_number`; a text without a digit is a ValueError.
unfoldable pub normalize_object_number : String → Option ℕ → Option String
normalize_object_number raw zero_pad_to =
    let digits = only_digits raw in
    if is_blank digits then none else some (padded zero_pad_to (decimal (int_of digits)))

-- `same_object`
abbrev pub same_object : String → String → Bool
same_object a b = int_of a == int_of b

pub record ObjectNumberMatch : Type 0 where
  pub digits : String
  pub numeric : ℕ
  pub rest : String

abbrev pub skip_spaces : String → String
skip_spaces String.[] = ""
skip_spaces (String.◌∷◌ c s) =
    let rest = skip_spaces s in if is_space c then rest else String.◌∷◌ c s

abbrev without_end : String → String
without_end String.[] = ""
without_end (String.◌∷◌ c s) =
    let rest = without_end s in if is_blank rest && is_space c then "" else String.◌∷◌ c rest

-- `str.strip()`
abbrev pub strip : String → String
strip s = without_end (skip_spaces s)

-- The run of digits at the start, and what follows it.
abbrev pub digit_run : String → String × String
digit_run String.[] = ("", "")
digit_run (String.◌∷◌ c s) =
    let (run, rest) = digit_run s in
    if is_digit c then (String.◌∷◌ c run, rest) else ("", String.◌∷◌ c s)

abbrev pub is_separator : List Char → Char → Bool
is_separator separators c = exists (λ d. code d == code c) separators

-- `(?=$|[separators])`: `$` is the end, or a line break at the end.
abbrev pub ends_number : List Char → String → Bool
ends_number separators String.[] = true
ends_number separators (String.◌∷◌ c s) =
    is_separator separators c || ((code c == 10) && is_blank s)

-- `(.*)$` takes no line break but one at the end.
abbrev pub one_line : String → Bool
one_line String.[] = true
one_line (String.◌∷◌ c s) = let rest = one_line s in if code c == 10 then is_blank s else rest

-- `lstrip` of the separators.
abbrev pub without_separators : List Char → String → String
without_separators separators String.[] = ""
without_separators separators (String.◌∷◌ c s) =
    let rest = without_separators separators s in
    if is_separator separators c then rest else String.◌∷◌ c s

abbrev pub match_run : ℕ → ℕ → List Char → String × String → Option ObjectNumberMatch
match_run digits_min digits_max separators (run, rest) =
    if leb digits_min (char_count run)
      && leb (char_count run) digits_max
      && ends_number separators rest
      && one_line rest
    then some (record {
      digits = run;
      numeric = int_of run;
      rest = strip (without_separators separators rest);
    })
    else none

-- `parse_object_number`, for bounds with 1 ≤ digits_min ≤ digits_max.
unfoldable pub parse_object_number : ℕ → ℕ → List Char → String → Option ObjectNumberMatch
parse_object_number digits_min digits_max separators folder_name =
    match_run digits_min digits_max separators (digit_run (skip_spaces folder_name))
