-- ===== src/Requirements/Again.antt =====
-- src/apps/requirements/engine.py, `evaluate_object`: a second run, and what was set by hand.
use objekt_bernahme_automati.Prelude.{
  ℕ, ◌≡◌, refl, ap, inl, inr, Bool, true, false, ◌&&◌, Option, none, some, List, [], ◌∷◌, String,
  length, arith, All, All-imp, All-append, Bool-cases, Option-cases,
}
use objekt_bernahme_automati.Prelude.Table.{exists, find, count}
use mathlib.Core.Option
use mathlib.Core.Option.{some-injective, some-ne-none}
use objekt_bernahme_automati.Requirements.Calendar.{Date, ordinal, Settings, ManagedObject, Period}
use objekt_bernahme_automati.Requirements.Spec.{FindingStatus, Spec, key}
use objekt_bernahme_automati.Requirements.Data.{Tables, load}
use objekt_bernahme_automati.Requirements.Rental.{CompletenessCheck}
use objekt_bernahme_automati.Requirements.Evaluate.{
  Finding, Findings, Texts, has_key, specs_by_key, differs, spec_of, is_of, refreshed, has_value,
  is_stale, is_same, at_key, new_rows, finding_key, upsert, evaluate_object, new_finding, rewritten,
}
use objekt_bernahme_automati.Requirements.Equality.{is_same_refl, is_same_eq, nat_refl}
use objekt_bernahme_automati.Requirements.Entry.{Entry, entry, entry_at, evaluated, HasUniqueKeys}
use objekt_bernahme_automati.Requirements.Upsert.{kept_rows}
use objekt_bernahme_automati.Requirements.Refinement.{
  own_entry, exists-find, rule_for, evaluate_object-entry_at,
}
use objekt_bernahme_automati.Requirements.Uniqueness.{
  HasUniqueSpecs, find_self, All-new_rows, All-kept_rows, specs_by_key-HasUniqueSpecs,
}

count-none : {A : Type 0} (p : A → Bool) (xs : List A) → All (λ x. p x ≡ false) xs → count p xs ≡ 0
count-none p [] h = refl
count-none p (x ∷ xs) h = ground (arith, count-none p xs h.1, h.0)

module _ (object now : ℕ) (specs : List Spec) where
  -- A further run with the same rules leaves the row.
  abbrev pub IsSettled : Finding → Type 0
  IsSettled f =
      (is_stale object specs f ≡ false) × ((is_of object f && differs f (spec_of specs f)) ≡ false)

  rewritten-is_same : (s : Spec) (f : Finding) → is_same (rewritten now s f) s ≡ true
  unfolding rewritten
  rewritten-is_same s f = elim (Bool-cases (is_same f s)) [
    | inl e ↦
        let (a, b, c, d) = is_same_eq f s e in
        rw e (is_same_refl (record f { last_evaluated_at = now }) s a b c d)
    | inr e ↦ rw e (
        is_same_refl
          (record f {
            status = s.status;
            details = s.details;
            evidence_document_id = s.evidence_document_id;
            evidence_link_id = s.evidence_link_id;
            last_evaluated_at = now;
          })
          s refl refl refl refl)
  ]

  new_finding-is_same : (id : ℕ) (s : Spec) → is_same (new_finding id object now s) s ≡ true
  unfolding new_finding
  new_finding-is_same id s = is_same_refl (new_finding id object now s) s refl refl refl refl

  rewritten_place :
      (s : Spec) (f : Finding)
      → ((rewritten now s f).object ≡ f.object) × (finding_key (rewritten now s f) ≡ finding_key f)
  unfolding rewritten
  rewritten_place s f = elim (Bool-cases (is_same f s)) [
    | inl b ↦ rw b (refl, refl)
    | inr b ↦ rw b (refl, refl)
  ]

  IsSettled-kept :
      (f : Finding) → is_stale object specs f ≡ false → IsSettled (refreshed object now specs f)
  IsSettled-kept f e = elim (Bool-cases (is_of object f)) [
    | inr o ↦ rw o (rw o refl, rw o refl)
    | inl o ↦ elim (Option-cases (spec_of specs f)) [
      | inl n ↦ rw (o, n) (e, rw (o, n) refl)
      | inr (s, m) ↦
          let (a, b) = rewritten_place s f in
          rw (o, m) (rw (a, b, o, m, rewritten-is_same s f) (refl, refl))
    ]
  ]

  IsSettled-new :
      (id : ℕ) (s : Spec)
      → find (has_key (key s)) specs ≡ some s
      → IsSettled (new_finding id object now s)
  unfolding new_finding key
  IsSettled-new id s e = rw (e, nat_refl object, new_finding-is_same id s) (refl, refl)

  All-true : (rows : List Finding) → All (λ f. Unit {0}) rows
  All-true [] = tt
  All-true (f ∷ rows) = (tt, All-true rows)

  pub settled :
      (t : Findings) → HasUniqueSpecs specs → All IsSettled (upsert object now specs t).1.rows
  unfolding upsert
  settled t u =
      All-append IsSettled (kept_rows object now specs t.rows)
        (new_rows object now t.rows t.next_id specs)
        (All-kept_rows object now specs IsSettled (λ f. Unit {0}) (λ f e _. IsSettled-kept f e)
          t.rows (All-true t.rows))
        (All-new_rows object now IsSettled (λ s. find (has_key (key s)) specs ≡ some s) t.rows
          (λ id s e _. IsSettled-new id s e) t.next_id specs (find_self specs u))

  has_entry : (o : Option Finding) → has_value o ≡ has_value (Option.map entry o)
  has_entry none = refl
  has_entry (some f) = refl

  has_evaluated : (s : Spec) (o : Option Entry) → has_value (evaluated now (some s) o) ≡ true
  has_evaluated s none = refl
  has_evaluated s (some e) = refl

  -- No spec is without a row.
  covered :
      (t : Findings)
      → HasUniqueKeys t.rows
      → (s : Spec) → find (has_key (key s)) specs ≡ some s
      → exists (at_key object (key s)) (upsert object now specs t).1.rows ≡ true
  covered t h s e =
      let rows = (upsert object now specs t).1.rows in
      rw
        (
          exists-find (at_key object (key s)) rows,
          has_entry (find (at_key object (key s)) rows),
          own_entry object now specs t (key s) h,
          e,
        )
        (has_evaluated s (entry_at object (key s) t.rows))

  covered_specs :
      (t : Findings)
      → HasUniqueKeys t.rows
      → (todo : List Spec) → All (λ s. find (has_key (key s)) specs ≡ some s) todo
      → All (λ s. exists (at_key object (key s)) (upsert object now specs t).1.rows ≡ true) todo
  covered_specs t h todo k =
      All-imp (λ s. find (has_key (key s)) specs ≡ some s)
        (λ s. exists (at_key object (key s)) (upsert object now specs t).1.rows ≡ true) todo
        (covered t h) k

nothing_new :
    (object now : ℕ) (rows : List Finding) (id : ℕ) (todo : List Spec)
    → All (λ s. exists (at_key object (key s)) rows ≡ true) todo
    → length (new_rows object now rows id todo) ≡ 0
unfolding new_rows
nothing_new object now rows id [] h = refl
nothing_new object now rows id (s ∷ todo) h = rw h.0 (nothing_new object now rows id todo h.1)

upsert_again :
    (object now later : ℕ) (specs : List Spec) (t : Findings)
    → HasUniqueSpecs specs
    → HasUniqueKeys t.rows
    → let c = (upsert object later specs (upsert object now specs t).1).0 in
      (c.created ≡ 0) × (c.changed ≡ 0) × (c.removed ≡ 0)
unfolding upsert
upsert_again object now later specs t u h =
    let r = (upsert object now specs t).1 in
    let done = settled object now specs t u in
    (
      nothing_new object later r.rows r.next_id specs
          (covered_specs object now specs t h specs (find_self specs u)),
      count-none (λ f. is_of object f && differs f (spec_of specs f)) r.rows
          (All-imp (IsSettled object now specs)
            (λ f. (is_of object f && differs f (spec_of specs f)) ≡ false) r.rows (λ f d. d.1)
            done),
      count-none (is_stale object specs) r.rows (
          All-imp (IsSettled object now specs) (λ f. is_stale object specs f ≡ false) r.rows
            (λ f d. d.0) done),
    )

-- evaluate_object is idempotent: where the table has one row for each position of an object, a
-- second run with the same data, the same period and the same day creates, changes and removes
-- nothing, whatever the times of the two runs; nothing is said of a run on another day.
pub evaluate_object_again :
    (cfg : Settings) (texts : Texts) (checks : List CompletenessCheck) (tables : Tables)
    (obj : ManagedObject) (period : Period) (today : Date) (now later : ℕ) (t : Findings)
    → HasUniqueKeys t.rows
    → let first = evaluate_object cfg texts checks tables obj period today now t in
      let c = (evaluate_object cfg texts checks tables obj period today later first.1).0 in
      (c.created ≡ 0) × (c.changed ≡ 0) × (c.removed ≡ 0)
unfolding evaluate_object
evaluate_object_again cfg texts checks tables obj period today now later t h =
    let specs = specs_by_key cfg texts checks (load tables obj period (ordinal today)) in
    upsert_again obj.id now later specs t
      (specs_by_key-HasUniqueSpecs cfg texts checks (load tables obj period (ordinal today))) h

manual_kept :
    (now : ℕ) (x : Option Spec) (e : Entry) (m : FindingStatus)
    → e.manual_status ≡ some m
    → Option.map (λ (d : Entry). d.manual_status) (evaluated now x (some e)) ≡ some (some m)
manual_kept now none e m h = rw h
manual_kept now (some s) e m h = ap some h

-- What was set by hand is never lost: if a position of the object has a status set by hand, it has
-- this status by hand after evaluate_object, whether or not the rules still give the position.
pub manual_status_stays :
    (cfg : Settings) (texts : Texts) (checks : List CompletenessCheck) (tables : Tables)
    (obj : ManagedObject) (period : Period) (today : Date) (now : ℕ) (t : Findings)
    → HasUniqueKeys t.rows
    → (k : String) (e : Entry) (m : FindingStatus) → entry_at obj.id k t.rows ≡ some e
    → e.manual_status ≡ some m
    → Option.map
        (λ (d : Entry). d.manual_status)
        (entry_at obj.id k (evaluate_object cfg texts checks tables obj period today now t).1.rows)
      ≡ some (some m)
manual_status_stays cfg texts checks tables obj period today now t h k e m a b =
    rw
      (
        evaluate_object-entry_at cfg texts checks tables obj period today now t h obj.id k,
        nat_refl obj.id,
        a,
      )
      (manual_kept now (rule_for cfg texts checks tables obj period today k) e m b)
