-- ===== src/Drive/Naming.antt =====
-- src/apps/drive/naming.py: the folder's name of an owner's file, from the token of the unit and the
-- cleaned names on. `len` counts characters.
use Prim.Native.Char.{Char, code}
use Prim.Native.String.{count as char_count}
use objekt_bernahme_automati.Prelude.{
  ℕ, zero, suc, ◌+◌, ◌-◌, max, Bool, false, ◌&&◌, ◌||◌, not, Option, none, some, List, [], ◌∷◌,
  String, ◌<>◌, str_eq, ltb, leb, ◌==◌, if◌then◌else◌, prefix, is_blank, decimal, length,
}
use objekt_bernahme_automati.Prelude.Table.{exists}

-- What the functions below read; of a date, the year.
pub record OwnerNameInput : Type 0 where
  pub valid_from : Option ℕ
  pub existing_names_in_object : List String
  pub current_name : Option String

pub record OwnerFileNamingConfig : Type 0 where
  pub name_separator : String
  pub name_max_names : ℕ
  pub name_overflow_suffix : String
  pub name_max_length : ℕ
  pub collision_suffix_mode : String

-- `text.rstrip(chars)`
abbrev pub rstrip : (Char → Bool) → String → String
rstrip p String.[] = ""
rstrip p (String.◌∷◌ c s) =
    let rest = rstrip p s in if is_blank rest && p c then "" else String.◌∷◌ c rest

-- The characters of " .-", and of " .-_".
abbrev pub is_edge : Char → Bool
is_edge c = (code c == 32) || (code c == 46) || (code c == 45)

abbrev pub is_edge_or_line : Char → Bool
is_edge_or_line c = is_edge c || (code c == 95)

-- `text[: a - b]`: a number below zero counts from the end.
abbrev pub upto_difference : ℕ → ℕ → String → String
upto_difference a b s = if leb b a then prefix (a - b) s else prefix (char_count s - (b - a)) s

-- `separator.join(names)`
abbrev pub joined : String → List String → String
joined separator [] = ""
joined separator (name ∷ []) = name
joined separator (name ∷ names) = name <> separator <> joined separator names

abbrev pub first_of : List String → String
first_of [] = ""
first_of (name ∷ names) = name

abbrev pub overflow : List String → OwnerFileNamingConfig → String
overflow names cfg = first_of names <> cfg.name_separator <> cfg.name_overflow_suffix

abbrev pub join_names : List String → OwnerFileNamingConfig → String
join_names names cfg =
    if leb (length names) cfg.name_max_names
    then joined cfg.name_separator names
    else overflow names cfg

-- `f"{prefix}_{name_part}" if prefix else name_part`
abbrev pub with_token : String → String → String
with_token token name_part = if is_blank token then name_part else token <> "_" <> name_part

-- `prefix[:keep].rstrip(" .-_") or prefix[:keep]`
abbrev pub cut_token : ℕ → String → String
cut_token keep token =
    let cut = rstrip is_edge_or_line (prefix keep token) in
    if is_blank cut then prefix keep token else cut

-- What a token takes of the length.
abbrev pub used_by : String → ℕ
used_by token = if is_blank token then 0 else char_count token + 1

-- `base` does not fit: `room <= 0` where the token uses all.
abbrev pub cut_names : String → String → String → ℕ → String
cut_names token name_part base max_length =
    if leb max_length (used_by token)
    then prefix max_length base
    else (if is_blank token then "" else token <> "_")
      <> rstrip is_edge (prefix (max_length - used_by token) name_part)

abbrev pub shortened : String → String → OwnerFileNamingConfig → String
shortened token name_part cfg =
    let base = with_token token name_part in
    if not (is_blank token) && ltb cfg.name_max_length (used_by token + 3)
    then cut_names (cut_token (max (cfg.name_max_length - 4) 1) token) name_part base
        cfg.name_max_length
    else cut_names token name_part base cfg.name_max_length

-- The names' part gives way to the first name, if there are more.
abbrev pub second_try : String → List String → OwnerFileNamingConfig → String
second_try token names cfg =
    if ltb 1 (length names)
    then (if leb (char_count (with_token token (overflow names cfg))) cfg.name_max_length
        then with_token token (overflow names cfg)
        else shortened token (overflow names cfg) cfg)
    else shortened token (join_names names cfg) cfg

-- `_fit_length`; the token is the argument `prefix`.
unfoldable pub fit_length : String → List String → OwnerFileNamingConfig → String
fit_length token names cfg =
    let base = with_token token (join_names names cfg) in
    if leb (char_count base) cfg.name_max_length then base else second_try token names cfg

-- `_with_suffix`
unfoldable pub with_suffix : String → String → OwnerFileNamingConfig → String
with_suffix base suffix cfg =
    if leb (char_count base + char_count suffix) cfg.name_max_length
    then base <> suffix
    else rstrip is_edge_or_line (upto_difference cfg.name_max_length (char_count suffix) base)
      <> suffix

abbrev is_current : Option String → String → Bool
is_current none name = false
is_current (some current) name = str_eq current name

-- `candidate == inp.current_name or candidate not in inp.existing_names_in_object`
abbrev pub is_free : OwnerNameInput → String → Bool
is_free inp candidate =
    is_current inp.current_name candidate
    || not (exists (str_eq candidate) inp.existing_names_in_object)

abbrev pub counted_name : String → OwnerFileNamingConfig → ℕ → String
counted_name base cfg counter = with_suffix base ("_" <> decimal counter) cfg

-- `while True`, for a number of rounds.
unfoldable pub count_up : ℕ → String → OwnerNameInput → OwnerFileNamingConfig → ℕ → Option String
count_up zero base inp cfg counter = none
count_up (suc fuel) base inp cfg counter =
    let rest = count_up fuel base inp cfg (counter + 1) in
    if is_free inp (counted_name base cfg counter)
    then some (counted_name base cfg counter)
    else rest

-- One round more than names exist is enough.
abbrev pub counted_up : String → OwnerNameInput → OwnerFileNamingConfig → Option String
counted_up base inp cfg = count_up (suc (length inp.existing_names_in_object)) base inp cfg 2

abbrev pub after_year : String → OwnerNameInput → OwnerFileNamingConfig → Option ℕ → Option String
after_year base inp cfg none = counted_up base inp cfg
after_year base inp cfg (some year) =
    let candidate = with_suffix base ("_" <> decimal year) cfg in
    if str_eq cfg.collision_suffix_mode "year_then_counter" && is_free inp candidate
    then some candidate
    else counted_up base inp cfg

unfoldable pub resolve_collision : String → OwnerNameInput → OwnerFileNamingConfig → Option String
unfolding count_up with_suffix
resolve_collision base inp cfg =
    if is_free inp base then some base else after_year base inp cfg inp.valid_from
