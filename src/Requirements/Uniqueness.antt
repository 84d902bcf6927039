-- ===== src/Requirements/Uniqueness.antt =====
-- src/apps/requirements/engine.py, `evaluate_object`: the keys in the dictionary of a run, and the
-- constraint on the table of findings.
use objekt_bernahme_automati.Prelude.{
  ℕ, suc, ◌≡◌, refl, subst, inl, inr, Bool, true, false, ◌&&◌, some, List, [], ◌∷◌, ◌++◌, String,
  ◌==◌, map, arith, All, All-imp, All-map, All-append, Bool-cases,
}
use objekt_bernahme_automati.Prelude.Table.{select, exists, find}
use objekt_bernahme_automati.Requirements.Calendar.{Date, ordinal, Settings, ManagedObject, Period}
use objekt_bernahme_automati.Requirements.Spec.{Spec, key}
use objekt_bernahme_automati.Requirements.Data.{Tables, load, Data}
use objekt_bernahme_automati.Requirements.Rental.{CompletenessCheck}
use objekt_bernahme_automati.Requirements.Evaluate.{
  Finding, Findings, Texts, has_key, put, put_all, marked, applies, rule_specs, specs_by_key,
  refreshed, is_stale, at_key, new_rows, finding_key, upsert, evaluate_object, new_finding,
}
use objekt_bernahme_automati.Requirements.Equality.{text_eq, text_refl, text_sym, nat_refl}
use objekt_bernahme_automati.Requirements.Entry.{HasUniqueKeys}
use objekt_bernahme_automati.Requirements.Upsert.{
  kept_rows, at_key-refreshed, refreshed_place, new_at_key,
}

-- No key stands twice.
abbrev pub HasUniqueSpecs : List Spec → Type 0
HasUniqueSpecs [] = Unit
HasUniqueSpecs (s ∷ specs) = All (λ t. has_key (key s) t ≡ false) specs × HasUniqueSpecs specs

pub has_key_sym : (s t : Spec) → has_key (key s) t ≡ has_key (key t) s
has_key_sym s t = text_sym (key t) (key s)

All-put :
    (P : Spec → Type 0) (s : Spec) (entries : List Spec)
    → P s
    → All P entries
    → All P (put s entries)
unfolding put
All-put P s [] p h = (p, tt)
All-put P s (t ∷ entries) p h = elim (Bool-cases (has_key (key s) t)) [
  | inl e ↦ rw e (p, h.1)
  | inr e ↦ rw e (h.0, All-put P s entries p h.1)
]

put-HasUniqueSpecs :
    (s : Spec) (entries : List Spec) → HasUniqueSpecs entries → HasUniqueSpecs (put s entries)
unfolding put
put-HasUniqueSpecs s [] h = (tt, tt)
put-HasUniqueSpecs s (t ∷ entries) h = elim (Bool-cases (has_key (key s) t)) [
  | inl e ↦
      rw e
        (subst (λ k. All (λ u. has_key k u ≡ false) entries) (text_eq (key t) (key s) e) h.0, h.1)
  | inr e ↦ rw e (
    All-put (λ u. has_key (key t) u ≡ false) s entries (rw (has_key_sym t s) e) h.0,
    put-HasUniqueSpecs s entries h.1,
  )
]

pub put_all-HasUniqueSpecs :
    (specs entries : List Spec) → HasUniqueSpecs entries → HasUniqueSpecs (put_all specs entries)
unfolding put_all
put_all-HasUniqueSpecs [] entries h = h
put_all-HasUniqueSpecs (s ∷ specs) entries h =
    put_all-HasUniqueSpecs specs (put s entries) (put-HasUniqueSpecs s entries h)

-- A spec is what its key finds.
pub find_self :
    (specs : List Spec)
    → HasUniqueSpecs specs
    → All (λ s. find (has_key (key s)) specs ≡ some s) specs
find_self [] h = tt
find_self (s ∷ specs) h = (rw (text_refl (key s)), later specs h.0 (find_self specs h.1))
  where
    later :
        (todo : List Spec)
        → All (λ t. has_key (key s) t ≡ false) todo
        → All (λ t. find (has_key (key t)) specs ≡ some t) todo
        → All (λ t. find (has_key (key t)) (s ∷ specs) ≡ some t) todo
    later [] a b = tt
    later (t ∷ todo) a b = (rw (← has_key_sym s t, a.0) b.0, later todo a.1 b.1)

nat_sym : (a b : ℕ) → (a == b) ≡ (b == a)
nat_sym a b = ground arith

HasUniqueKeys-append :
    (xs ys : List Finding)
    → HasUniqueKeys xs
    → HasUniqueKeys ys
    → All (λ f. All (λ g. at_key f.object (finding_key f) g ≡ false) ys) xs
    → HasUniqueKeys (xs ++ ys)
HasUniqueKeys-append [] ys a b h = b
HasUniqueKeys-append (f ∷ xs) ys a b h = (
  All-append (λ g. at_key f.object (finding_key f) g ≡ false) xs ys a.0 h.0,
  HasUniqueKeys-append xs ys a.1 b h.1,
)

All-swap :
    {A : Type 0} {B : Type 0} (R : A → B → Type 0) (xs : List A) (ys : List B)
    → All (λ y. All (λ x. R x y) xs) ys
    → All (λ x. All (λ y. R x y) ys) xs
All-swap R [] ys h = tt
All-swap {A} {B} R (x ∷ xs) ys h = (
  All-imp (λ y. R x y × All (λ z. R z y) xs) (λ y. R x y) ys (λ y p. p.0) h,
  All-swap R xs ys
      (All-imp (λ y. R x y × All (λ z. R z y) xs) (λ y. All (λ z. R z y) xs) ys (λ y p. p.1) h),
)

pub All-of_no_exists :
    {A : Type 0} (p : A → Bool) (xs : List A) → exists p xs ≡ false → All (λ x. p x ≡ false) xs
All-of_no_exists p [] h = tt
All-of_no_exists p (x ∷ xs) h = (ground arith, All-of_no_exists p xs (ground arith))

-- The rows that come new: of specs whose position has no row.
pub All-new_rows :
    (object now : ℕ) (P : Finding → Type 0) (Q : Spec → Type 0) (rows : List Finding)
    → ((id : ℕ) (s : Spec)
        → Q s
        → exists (at_key object (key s)) rows ≡ false
        → P (new_finding id object now s))
    → (id : ℕ) (todo : List Spec) → All Q todo
    → All P (new_rows object now rows id todo)
unfolding new_rows
All-new_rows object now P Q rows k id [] h = tt
All-new_rows object now P Q rows k id (s ∷ todo) h =
    elim (Bool-cases (exists (at_key object (key s)) rows)) [
      | inl e ↦ rw e (All-new_rows object now P Q rows k id todo h.1)
      | inr e ↦ rw e (k id s h.0 e, All-new_rows object now P Q rows k (suc id) todo h.1)
    ]

module _ (object now : ℕ) (specs : List Spec) where
  pub All-kept_rows :
      (P Q : Finding → Type 0)
      → ((f : Finding) → is_stale object specs f ≡ false → Q f → P (refreshed object now specs f))
      → (rows : List Finding) → All Q rows
      → All P (kept_rows object now specs rows)
  All-kept_rows P Q k [] h = tt
  All-kept_rows P Q k (f ∷ rows) h = elim (Bool-cases (is_stale object specs f)) [
    | inl e ↦ rw e (All-kept_rows P Q k rows h.1)
    | inr e ↦ rw e (k f e h.0, All-kept_rows P Q k rows h.1)
  ]

  kept-HasUniqueKeys :
      (rows : List Finding) → HasUniqueKeys rows → HasUniqueKeys (kept_rows object now specs rows)
  kept-HasUniqueKeys [] h = tt
  kept-HasUniqueKeys (f ∷ rows) h = elim (Bool-cases (is_stale object specs f)) [
    | inl e ↦ rw e (kept-HasUniqueKeys rows h.1)
    | inr e ↦ rw e (
      (let (a, b, c) = refreshed_place object now specs f in
          rw (a, b)
            (All-kept_rows (λ g. at_key f.object (finding_key f) g ≡ false)
              (λ g. at_key f.object (finding_key f) g ≡ false)
              (λ g _ n. rw (at_key-refreshed object now specs f.object (finding_key f) g) n) rows
              h.0)),
      kept-HasUniqueKeys rows h.1,
    )
  ]

  new-HasUniqueKeys :
      (rows : List Finding) (id : ℕ) (todo : List Spec)
      → HasUniqueSpecs todo
      → HasUniqueKeys (new_rows object now rows id todo)
  unfolding new_rows new_finding key
  new-HasUniqueKeys rows id [] h = tt
  new-HasUniqueKeys rows id (s ∷ todo) h = elim (Bool-cases (exists (at_key object (key s)) rows)) [
    | inl e ↦ rw e (new-HasUniqueKeys rows id todo h.1)
    | inr e ↦ rw e (
      (All-new_rows object now (λ g. at_key object (key s) g ≡ false)
          (λ t. has_key (key s) t ≡ false) rows
          (λ i t q _. rw (new_at_key object object now (key s) i t, q, nat_refl object)) (suc id)
          todo h.0),
      new-HasUniqueKeys rows (suc id) todo h.1,
    )
  ]

  at_swap :
      (f : Finding) (s : Spec)
      → at_key object (key s) f ≡ false
      → ((object == f.object) && has_key (finding_key f) s) ≡ false
  at_swap f s n = rw (text_sym (key s) (finding_key f), nat_sym object f.object) n

  -- A row that is kept and a new row have different places.
  apart :
      (rows : List Finding) (id : ℕ)
      → All
          (λ f.
            All
              (λ g. at_key f.object (finding_key f) g ≡ false)
              (new_rows object now rows id specs))
          (kept_rows object now specs rows)
  apart rows id =
      All-swap (λ (f g : Finding). at_key f.object (finding_key f) g ≡ false)
        (kept_rows object now specs rows) (new_rows object now rows id specs)
        (All-new_rows object now
          (λ g.
            All (λ f. at_key f.object (finding_key f) g ≡ false) (kept_rows object now specs rows))
          (λ s. Unit {0}) rows
          (λ i s _ e.
            All-kept_rows
              (λ f. at_key f.object (finding_key f) (new_finding i object now s) ≡ false)
              (λ f. at_key object (key s) f ≡ false)
              (λ f _ n.
                let (a, b, c) = refreshed_place object now specs f in
                rw (a, b, new_at_key f.object object now (finding_key f) i s) (at_swap f s n))
              rows (All-of_no_exists (at_key object (key s)) rows e))
          id specs (All-true specs))
    where
      All-true : (todo : List Spec) → All (λ s. Unit {0}) todo
      All-true [] = tt
      All-true (s ∷ todo) = (tt, All-true todo)

  pub upsert-HasUniqueKeys :
      (t : Findings)
      → HasUniqueSpecs specs
      → HasUniqueKeys t.rows
      → HasUniqueKeys (upsert object now specs t).1.rows
  unfolding upsert
  upsert-HasUniqueKeys t u h =
      HasUniqueKeys-append (kept_rows object now specs t.rows)
        (new_rows object now t.rows t.next_id specs) (kept-HasUniqueKeys t.rows h)
        (new-HasUniqueKeys t.rows t.next_id specs u) (apart t.rows t.next_id)

marked_has_key : (b : Bool) (k : String) (s : Spec) → has_key k (marked b s) ≡ has_key k s
unfolding key
marked_has_key true k s = refl
marked_has_key false k s = refl

marked_key : (b : Bool) (s : Spec) → key (marked b s) ≡ key s
unfolding key
marked_key true s = refl
marked_key false s = refl

marked-HasUniqueSpecs :
    (b : Bool) (specs : List Spec) → HasUniqueSpecs specs → HasUniqueSpecs (map (marked b) specs)
marked-HasUniqueSpecs b [] h = tt
marked-HasUniqueSpecs b (s ∷ specs) h = (
  rw (marked_key b s) (
      All-map (λ t. has_key (key s) t ≡ false) (marked b) specs
        (All-imp (λ t. has_key (key s) t ≡ false) (λ t. has_key (key s) (marked b t) ≡ false) specs
          (λ t e. rw (marked_has_key b (key s) t) e) h.0)),
  marked-HasUniqueSpecs b specs h.1,
)

pub specs_by_key-HasUniqueSpecs :
    (cfg : Settings) (texts : Texts) (checks : List CompletenessCheck) (d : Data)
    → HasUniqueSpecs (specs_by_key cfg texts checks d)
unfolding specs_by_key
specs_by_key-HasUniqueSpecs cfg texts checks d =
    marked-HasUniqueSpecs d.period.provisional
      (put_all (select (applies checks d.obj.management_type) (rule_specs cfg texts checks d)) [])
      (put_all-HasUniqueSpecs
        (select (applies checks d.obj.management_type) (rule_specs cfg texts checks d)) [] tt)

-- The table never has two rows for one position of an object: if it has none before
-- evaluate_object, it has none afterwards, whatever the rules say.
pub evaluate_object-HasUniqueKeys :
    (cfg : Settings) (texts : Texts) (checks : List CompletenessCheck) (tables : Tables)
    (obj : ManagedObject) (period : Period) (today : Date) (now : ℕ) (t : Findings)
    → HasUniqueKeys t.rows
    → HasUniqueKeys (evaluate_object cfg texts checks tables obj period today now t).1.rows
unfolding evaluate_object
evaluate_object-HasUniqueKeys cfg texts checks tables obj period today now t h =
    upsert-HasUniqueKeys obj.id now
      (specs_by_key cfg texts checks (load tables obj period (ordinal today))) t
      (specs_by_key-HasUniqueSpecs cfg texts checks (load tables obj period (ordinal today))) h
