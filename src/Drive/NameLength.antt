-- ===== src/Drive/NameLength.antt =====
-- src/apps/drive/naming.py: a folder's name keeps to the greatest length.
use Prim.Native.Char.{Char}
use Prim.Native.String.{count as char_count}
use text.Mathlib.TextLemmas.{length-append, length-cons}
use objekt_bernahme_automati.Prelude.{
  ℕ, zero, suc, ◌+◌, ◌-◌, ◌≤◌, max, inl, inr, Bool, ◌&&◌, not, List, String, ◌<>◌, ltb, leb, leb→le,
  if◌then◌else◌, if_induction, prefix, is_blank, length, arith, Bool-cases,
}
use objekt_bernahme_automati.Drive.Naming.{
  OwnerFileNamingConfig, rstrip, is_edge, with_token, cut_token, used_by, cut_names, shortened,
  overflow, join_names, second_try, fit_length,
}

prefix_bounded : (n : ℕ) (s : String) → char_count (prefix n s) ≤ n
unfolding prefix
prefix_bounded zero s = omega arith
prefix_bounded (suc n) String.[] = omega arith
prefix_bounded (suc n) (String.◌∷◌ c s) =
    omega (arith, length-cons c (prefix n s), prefix_bounded n s)

rstrip_shorter : (p : Char → Bool) (s : String) → char_count (rstrip p s) ≤ char_count s
rstrip_shorter p String.[] = omega arith
rstrip_shorter p (String.◌∷◌ c s) =
    let h = rstrip_shorter p s in
    if_induction (λ t. char_count t ≤ char_count (String.◌∷◌ c s)) (is_blank (rstrip p s) && p c)
      (λ _. omega arith) (λ _. omega (arith, h, length-cons c (rstrip p s), length-cons c s))

-- A text that is cut and stripped.
cut_bounded : (p : Char → Bool) (n : ℕ) (s : String) → char_count (rstrip p (prefix n s)) ≤ n
cut_bounded p n s = omega (arith, rstrip_shorter p (prefix n s), prefix_bounded n s)

head_bounded :
    (token rest : String)
    → char_count ((if is_blank token then "" else token <> "_") <> rest)
      ≤ used_by token + char_count rest
head_bounded token rest = elim (Bool-cases (is_blank token)) [
  | inl e ↦ rw (e, length-append "" rest) (omega arith)
  | inr e ↦ rw (e, length-append (token <> "_") rest, length-append token "_") (omega arith)
]

cut_names_bounded :
    (token name_part base : String) (max_length : ℕ)
    → char_count (cut_names token name_part base max_length) ≤ max_length
cut_names_bounded token name_part base max_length =
    if_induction (λ t. char_count t ≤ max_length) (leb max_length (used_by token))
      (λ _. prefix_bounded max_length base)
      (λ e.
        let room = max_length - used_by token in
        let rest = rstrip is_edge (prefix room name_part) in
        let l : used_by token ≤ max_length = ground arith in
        omega (arith, l, head_bounded token rest, cut_bounded is_edge room name_part))

module _ (cfg : OwnerFileNamingConfig) where
  abbrev Fits : String → Type 0
  Fits t = char_count t ≤ cfg.name_max_length

  shortened-Fits : (token name_part : String) → Fits (shortened token name_part cfg)
  shortened-Fits token name_part =
      let base = with_token token name_part in
      if_induction Fits (not (is_blank token) && ltb cfg.name_max_length (used_by token + 3))
        (λ _.
          cut_names_bounded (cut_token (max (cfg.name_max_length - 4) 1) token) name_part base
            cfg.name_max_length)
        (λ _. cut_names_bounded token name_part base cfg.name_max_length)

  second_try-Fits : (token : String) (names : List String) → Fits (second_try token names cfg)
  second_try-Fits token names =
      if_induction Fits (ltb 1 (length names))
        (λ _.
          let base = with_token token (overflow names cfg) in
          if_induction Fits (leb (char_count base) cfg.name_max_length)
            (λ e. leb→le (char_count base) cfg.name_max_length e)
            (λ _. shortened-Fits token (overflow names cfg)))
        (λ _. shortened-Fits token (join_names names cfg))

-- The unit's token and the names are fitted into the greatest length, however long they are and however
-- small that length is; a suffix against collisions is not part of this name.
pub fit_length_bounded :
    (token : String) (names : List String) (cfg : OwnerFileNamingConfig)
    → char_count (fit_length token names cfg) ≤ cfg.name_max_length
unfolding fit_length
fit_length_bounded token names cfg =
    let base = with_token token (join_names names cfg) in
    if_induction (Fits cfg) (leb (char_count base) cfg.name_max_length)
      (λ e. leb→le (char_count base) cfg.name_max_length e) (λ _. second_try-Fits cfg token names)
