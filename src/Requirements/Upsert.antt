-- ===== src/Requirements/Upsert.antt =====
-- src/apps/requirements/engine.py, `evaluate_object`: the statements on the table of findings, and the
-- positions as an abstract table from keys to entries.
use objekt_bernahme_automati.Prelude.{
  ℕ, suc, ◌≡◌, ◌≢◌, refl, subst, inl, inr, Bool, true, false, not, ◌&&◌, Option, none, some, List,
  [], ◌∷◌, ◌++◌, String, eq_iff, ◌==◌, ==_iff, if◌then◌else◌, map, arith, All, Bool-cases,
  Option-cases, if_induction,
}
use objekt_bernahme_automati.Prelude.Table.{select, exists, find}
use mathlib.Core.Option
use objekt_bernahme_automati.Requirements.Spec.{Spec, key}
use objekt_bernahme_automati.Requirements.Evaluate.{
  Finding, has_key, new_finding, rewritten, spec_of, is_of, refreshed, is_same, is_stale, at_key,
  new_rows, finding_key,
}
use objekt_bernahme_automati.Requirements.Equality.{and_split, nat_refl, text_eq}
use objekt_bernahme_automati.Requirements.Entry.{Entry, entry, first_entry, HasUniqueKeys}

abbrev pub or_else : {A : Type 0} → Option A → Option A → Option A
or_else none b = b
or_else (some a) b = some a

pub find-append :
    {A : Type 0} (p : A → Bool) (xs ys : List A)
    → find p (xs ++ ys) ≡ or_else (find p xs) (find p ys)
find-append p [] ys = refl
find-append p (x ∷ xs) ys = ground (arith, find-append p xs ys)

-- A pass over the rows that keeps what the query looks for, as it is.
find-map-select :
    {A : Type 0} (p keep : A → Bool) (r : A → A)
    → ((x : A) → p (r x) ≡ p x)
    → ((x : A) → p x ≡ true → (keep x ≡ true) × (r x ≡ x))
    → (xs : List A) → find p (map r (select keep xs)) ≡ find p xs
find-map-select p keep r h k [] = refl
find-map-select p keep r h k (x ∷ xs) = ground (arith, find-map-select p keep r h k xs, h x, k x)

-- A pass over rows that the query does not look for.
None-map-select :
    {A : Type 0} (p keep : A → Bool) (r : A → A)
    → ((x : A) → p (r x) ≡ p x)
    → (xs : List A) → All (λ x. p x ≡ false) xs
    → find p (map r (select keep xs)) ≡ none
None-map-select p keep r h [] k = refl
None-map-select p keep r h (x ∷ xs) k = ground (arith, None-map-select p keep r h xs k.1, h x, k.0)

pub place :
    (object : ℕ) (k : String) (f : Finding)
    → at_key object k f ≡ true
    → (f.object ≡ object) × (finding_key f ≡ k)
place object k f e =
    let h = and_split _ _ e in ((==_iff f.object object).0 h.0, (eq_iff (finding_key f) k).0 h.1)

pub new_at_key :
    (o object now : ℕ) (k : String) (id : ℕ) (s : Spec)
    → at_key o k (new_finding id object now s) ≡ ((object == o) && has_key k s)
unfolding new_finding key
new_at_key o object now k id s = refl

module _ (object now : ℕ) (specs : List Spec) where
  pub at_key-refreshed :
      (o : ℕ) (k : String) (f : Finding) → at_key o k (refreshed object now specs f) ≡ at_key o k f
  unfolding rewritten
  at_key-refreshed o k f = elim (Bool-cases (is_of object f)) [
    | inl e ↦ rw e (elim (Option-cases (spec_of specs f)) [
      | inl n ↦ rw n
      | inr (s, m) ↦ rw m (elim (Bool-cases (is_same f s)) [ inl b ↦ rw b | inr b ↦ rw b ])
    ])
    | inr e ↦ rw e
  ]

  pub refreshed_place :
      (f : Finding)
      → ((refreshed object now specs f).object ≡ f.object)
        × (finding_key (refreshed object now specs f) ≡ finding_key f)
        × ((refreshed object now specs f).manual_status ≡ f.manual_status)
  unfolding rewritten
  refreshed_place f = elim (Bool-cases (is_of object f)) [
    | inl e ↦ rw e (elim (Option-cases (spec_of specs f)) [
      | inl n ↦ rw n (refl, refl, refl)
      | inr (s, m) ↦ rw m (elim (Bool-cases (is_same f s)) [
        | inl b ↦ rw b (refl, refl, refl)
        | inr b ↦ rw b (refl, refl, refl)
      ])
    ])
    | inr e ↦ rw e (refl, refl, refl)
  ]

  abbrev pub kept_rows : List Finding → List Finding
  kept_rows rows =
      map (refreshed object now specs) (select (λ f. not (is_stale object specs f)) rows)

  other :
      (o : ℕ) (k : String)
      → o ≢ object
      → (f : Finding) → at_key o k f ≡ true
      → is_of object f ≡ false
  other o k n f e = ground arith

  pub others_kept :
      (o : ℕ) (k : String)
      → o ≢ object
      → (rows : List Finding) → find (at_key o k) (kept_rows rows) ≡ find (at_key o k) rows
  others_kept o k n rows =
      find-map-select (at_key o k) (λ f. not (is_stale object specs f)) (refreshed object now specs)
        (at_key-refreshed o k)
        (λ f e. let d : is_of object f ≡ false = other o k n f e in (rw d, rw d)) rows

  abbrev pub kept : Option Finding → Option Finding
  kept none = none
  kept (some f) = if is_stale object specs f then none else some (refreshed object now specs f)

  pub find-kept :
      (k : String) (rows : List Finding)
      → HasUniqueKeys rows
      → find (at_key object k) (kept_rows rows) ≡ kept (find (at_key object k) rows)
  find-kept k [] h = refl
  find-kept k (f ∷ rows) h = elim (Bool-cases (at_key object k f)) [
    | inl e ↦ rw e (elim (Bool-cases (is_stale object specs f)) [
      | inl d ↦ rw d (
          None-map-select (at_key object k) (λ g. not (is_stale object specs g))
            (refreshed object now specs) (at_key-refreshed object k) rows
            (let (a, b) = place object k f e in
              subst (λ o. All (λ g. at_key o k g ≡ false) rows) a
                (subst (λ q. All (λ g. at_key f.object q g ≡ false) rows) b h.0)))
      | inr d ↦ rw (d, at_key-refreshed object k f, e)
    ])
    | inr e ↦ rw e (elim (Bool-cases (is_stale object specs f)) [
      | inl d ↦ rw d (find-kept k rows h.1)
      | inr d ↦ rw (d, at_key-refreshed object k f, e) (find-kept k rows h.1)
    ])
  ]

  -- The new rows are the positions that no row has yet.
  pub entry-new_rows :
      (k : String) (rows : List Finding) (id : ℕ) (todo : List Spec)
      → Option.map entry (find (at_key object k) (new_rows object now rows id todo)) ≡ (
          if exists (at_key object k) rows
          then none
          else Option.map (first_entry now) (find (has_key k) todo))
  unfolding new_rows new_finding entry key
  entry-new_rows k rows id [] =
      if_induction (λ (o : Option Entry). none ≡ o) (exists (at_key object k) rows) (λ _. refl)
        (λ _. refl)
  entry-new_rows k rows id (s ∷ todo) = elim (Bool-cases (has_key k s)) [
    | inl e ↦ rw e (elim (Bool-cases (exists (at_key object (key s)) rows)) [
      | inl x ↦
          let x' : exists (at_key object k) rows ≡ true = rw (← text_eq (key s) k e) x in
          rw (x, x') (rw x' at (entry-new_rows k rows id todo))
      | inr x ↦
          let x' : exists (at_key object k) rows ≡ false = rw (← text_eq (key s) k e) x in
          rw (x, x', new_at_key object object now k id s, e, nat_refl object)
    ])
    | inr e ↦ rw e (elim (Bool-cases (exists (at_key object (key s)) rows)) [
      | inl x ↦ rw x (entry-new_rows k rows id todo)
      | inr x ↦
          rw (x, new_at_key object object now k id s, e, nat_refl object)
            (entry-new_rows k rows (suc id) todo)
    ])
  ]

  pub others_new :
      (o : ℕ) (k : String)
      → o ≢ object
      → (rows : List Finding) (id : ℕ) (todo : List Spec)
      → find (at_key o k) (new_rows object now rows id todo) ≡ none
  unfolding new_rows new_finding
  others_new o k n rows id [] = refl
  others_new o k n rows id (s ∷ todo) = elim (Bool-cases (exists (at_key object (key s)) rows)) [
    | inl x ↦ rw x (others_new o k n rows id todo)
    | inr x ↦
        let d : (object == o) ≡ false = ground arith in
        rw (x, new_at_key o object now k id s, d) (others_new o k n rows (suc id) todo)
  ]
