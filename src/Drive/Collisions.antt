-- ===== src/Drive/Collisions.antt =====
-- src/apps/drive/naming.py, `resolve_collision`: the loop finds a name.
use Prim.Native.Char.{code}
use Prim.Native.String.{count as char_count}
use mathlib.Core.Option.{some-ne-none}
use text.Mathlib.TextLemmas.{nil-append, cons-append}
use objekt_bernahme_automati.Prelude.{
  ℕ, zero, suc, ◌+◌, ◌-◌, ◌*◌, ◌≤◌, ◌≡◌, ◌⊎◌, refl, ap, subst, ◌∙◌, inl, inr, Bool, true, false,
  ◌&&◌, Option, none, some, List, [], ◌∷◌, String, ◌<>◌, str_eq, eq_iff, ltb, leb, ◌==◌,
  if◌then◌else◌, if_induction, decimal, length, arith, Bool-cases,
}
use objekt_bernahme_automati.Prelude.Table.{exists, count}
use objekt_bernahme_automati.Drive.ObjectNumbers.{value_from}
use objekt_bernahme_automati.Drive.NumberText.{AreDigits, decimal-Reads}
use objekt_bernahme_automati.Drive.Naming.{
  OwnerNameInput, OwnerFileNamingConfig, rstrip, is_edge_or_line, upto_difference, with_suffix,
  is_free, counted_name, count_up, counted_up, after_year, resolve_collision,
}

-- The number behind the last `_` of a name.
abbrev last_number : ℕ → String → ℕ
last_number n String.[] = n
last_number n (String.◌∷◌ c s) = last_number (if code c == 95 then 0 else n * 10 + (code c - 48)) s

last_number-append :
    (n : ℕ) (s t : String) → last_number n (s <> t) ≡ last_number (last_number n s) t
last_number-append n String.[] t = ap (last_number n) (nil-append t)
last_number-append n (String.◌∷◌ c s) t =
    let m = if code c == 95 then 0 else n * 10 + (code c - 48) in
    ap (last_number n) (cons-append c s t) ∙ last_number-append m s t

last_number_of_digits : (n : ℕ) (s : String) → AreDigits s → last_number n s ≡ value_from n s
last_number_of_digits n String.[] h = refl
last_number_of_digits n (String.◌∷◌ c s) h =
    let e : (code c == 95) ≡ false = let k = h.0 in ground arith in
    rw e (last_number_of_digits (n * 10 + (code c - 48)) s h.1)

last_number-suffix : (s : String) (i : ℕ) → last_number 0 (s <> ("_" <> decimal i)) ≡ i
last_number-suffix s i =
    let r = decimal-Reads i in
    last_number-append 0 s ("_" <> decimal i)
    ∙ last_number-append (last_number 0 s) "_" (decimal i)
    ∙ last_number_of_digits 0 (decimal i) r.1
    ∙ r.0

last_number-counted_name :
    (base : String) (cfg : OwnerFileNamingConfig) (i : ℕ)
    → last_number 0 (counted_name base cfg i) ≡ i
unfolding with_suffix
last_number-counted_name base cfg i =
    if_induction (λ t. last_number 0 t ≡ i)
      (leb (char_count base + char_count ("_" <> decimal i)) cfg.name_max_length)
      (λ _. last_number-suffix base i)
      (λ _.
        last_number-suffix
          (rstrip is_edge_or_line
            (upto_difference cfg.name_max_length (char_count ("_" <> decimal i)) base))
          i)

abbrev in_range : ℕ → ℕ → String → Bool
in_range from to name = leb from (last_number 0 name) && ltb (last_number 0 name) to

range_grows :
    (from to : ℕ) (names : List String)
    → count (in_range from to) names ≤ count (in_range from (to + 1)) names
range_grows from to [] = omega arith
range_grows from to (n ∷ names) = ground (arith, range_grows from to names)

-- A name with the number `to` is one more.
one_further :
    (from to : ℕ) (name : String) (names : List String)
    → from ≤ to
    → last_number 0 name ≡ to
    → exists (str_eq name) names ≡ true
    → count (in_range from to) names + 1 ≤ count (in_range from (to + 1)) names
one_further from to name [] l e h = absurd (ground arith)
one_further from to name (n ∷ names) l e h = elim (Bool-cases (str_eq name n)) [
  | inl k ↦
      let q : last_number 0 n ≡ to = subst (λ x. last_number 0 x ≡ to) ((eq_iff name n).0 k) e in
      ground (arith, q, l, range_grows from to names)
  | inr k ↦
      let m : exists (str_eq name) names ≡ true = rw k at h in
      ground (arith, one_further from to name names l e m)
]

taken :
    (inp : OwnerNameInput) (name : String)
    → is_free inp name ≡ false
    → exists (str_eq name) inp.existing_names_in_object ≡ true
taken inp name h = ground arith

-- Where no counter is free, there are as many names.
counters_taken :
    (fuel : ℕ) (base : String) (inp : OwnerNameInput) (cfg : OwnerFileNamingConfig) (from to : ℕ)
    → from ≤ to
    → count_up fuel base inp cfg to ≡ none
    → count (in_range from to) inp.existing_names_in_object + fuel
      ≤ count (in_range from (to + fuel)) inp.existing_names_in_object
unfolding count_up
counters_taken zero base inp cfg from to l h =
    let e : to + 0 ≡ to = omega arith in rw e (omega arith)
counters_taken (suc fuel) base inp cfg from to l h =
    let name = counted_name base cfg to in
    let names = inp.existing_names_in_object in
    elim (Bool-cases (is_free inp name)) [
      | inl f ↦ absurd (some-ne-none name (rw f at h))
      | inr f ↦
          let k : count_up fuel base inp cfg (to + 1) ≡ none = rw f at h in
          let e : to + 1 + fuel ≡ to + suc fuel = omega arith in
          let r : count (in_range from (to + 1)) names + fuel
              ≤ count (in_range from (to + suc fuel)) names =
            rw (← e) (counters_taken fuel base inp cfg from (to + 1) (omega (arith, l)) k) in
          omega (
            arith,
            r,
            one_further from to name names l (last_number-counted_name base cfg to)
                (taken inp name f),
          )
    ]

-- The name that is found.
abbrev Found : OwnerNameInput → Option String → Type 0
Found inp r = (name : String) × (r ≡ some name) × (is_free inp name ≡ true)

count-le-length : (p : String → Bool) (names : List String) → count p names ≤ length names
count-le-length p [] = omega arith
count-le-length p (n ∷ names) = ground (arith, count-le-length p names)

count_up-Found :
    (fuel : ℕ) (base : String) (inp : OwnerNameInput) (cfg : OwnerFileNamingConfig) (counter : ℕ)
    → (count_up fuel base inp cfg counter ≡ none) ⊎ Found inp (count_up fuel base inp cfg counter)
unfolding count_up
count_up-Found zero base inp cfg counter = inl refl
count_up-Found (suc fuel) base inp cfg counter =
    let name = counted_name base cfg counter in
    elim (Bool-cases (is_free inp name)) [
      | inl f ↦ inr (name, rw f refl, f)
      | inr f ↦ rw f (count_up-Found fuel base inp cfg (counter + 1))
    ]

counted_up-Found :
    (base : String) (inp : OwnerNameInput) (cfg : OwnerFileNamingConfig)
    → Found inp (counted_up base inp cfg)
counted_up-Found base inp cfg =
    let names = inp.existing_names_in_object in
    elim (count_up-Found (suc (length names)) base inp cfg 2) [
      | inl e ↦ absurd (
          omega (
            arith,
            counters_taken (suc (length names)) base inp cfg 2 2 (omega arith) e,
            count-le-length (in_range 2 (2 + suc (length names))) names,
          ))
      | inr f ↦ f
    ]

-- A name is always found, in one round more than names exist at most: it is not the name of another
-- file of the object, or it is the file's own one.
pub resolve_collision_ends :
    (base : String) (inp : OwnerNameInput) (cfg : OwnerFileNamingConfig)
    → (name : String) × (resolve_collision base inp cfg ≡ some name) × (is_free inp name ≡ true)
unfolding resolve_collision
resolve_collision_ends base inp cfg =
    if_induction (Found inp) (is_free inp base) (λ e. (base, refl, e)) (λ _. after inp.valid_from)
  where
    after : (year : Option ℕ) → Found inp (after_year base inp cfg year)
    after none = counted_up-Found base inp cfg
    after (some year) =
        let candidate = with_suffix base ("_" <> decimal year) cfg in
        if_induction (Found inp)
          (str_eq cfg.collision_suffix_mode "year_then_counter" && is_free inp candidate)
          (λ e. (candidate, refl, ground arith)) (λ _. counted_up-Found base inp cfg)
