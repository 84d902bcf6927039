-- ===== src/Requirements/Refinement.antt =====
-- src/apps/requirements/engine.py, `evaluate_object`: a whole run on the abstract table of positions.
use objekt_bernahme_automati.Prelude.{
  ℕ, ◌≡◌, ◌≢◌, refl, ◌∙◌, inl, inr, Bool, true, false, Option, none, some, List, [], ◌∷◌, String,
  ◌==◌, ==_iff, if◌then◌else◌, map, arith, Bool-cases, Option-cases,
}
use objekt_bernahme_automati.Prelude.Table.{select, exists, find, find_passes}
use mathlib.Core.Option
use objekt_bernahme_automati.Requirements.Calendar.{Date, ordinal, Settings, ManagedObject, Period}
use objekt_bernahme_automati.Requirements.Spec.{Spec, key}
use objekt_bernahme_automati.Requirements.Data.{Tables, load}
use objekt_bernahme_automati.Requirements.Rental.{CompletenessCheck}
use objekt_bernahme_automati.Requirements.Evaluate.{
  Finding, Findings, Texts, has_key, put, put_all, marked, applies, rule_specs, specs_by_key,
  spec_of, is_of, has_value, at_key, new_rows, upsert, evaluate_object,
}
use objekt_bernahme_automati.Requirements.Equality.{and_split, text_eq, text_refl}
use objekt_bernahme_automati.Requirements.Entry.{
  entry, entry_at, first_entry, evaluated, HasUniqueKeys, entry-rewritten,
}
use objekt_bernahme_automati.Requirements.Upsert.{
  kept, kept_rows, place, find-append, find-kept, others_kept, entry-new_rows, others_new, or_else,
}

-- The last spec with the key.
abbrev pub last_with : String → List Spec → Option Spec
last_with k [] = none
last_with k (s ∷ specs) = or_else (last_with k specs) (if has_key k s then some s else none)

both_keys :
    (k : String) (s t : Spec) → has_key k t ≡ true → has_key k s ≡ true → has_key (key s) t ≡ true
both_keys k s t a b = rw (text_eq (key t) k a, text_eq (key s) k b) (text_refl k)

find-put :
    (k : String) (s : Spec) (entries : List Spec)
    → find (has_key k) (put s entries) ≡ (if has_key k s then some s else find (has_key k) entries)
unfolding put
find-put k s [] = refl
find-put k s (t ∷ entries) = elim (Bool-cases (has_key (key s) t)) [
  | inl e ↦
      let q : key t ≡ key s = text_eq (key t) (key s) e in
      rw (e, q) (elim (Bool-cases (has_key k s)) [ inl b ↦ rw b | inr b ↦ rw b ])
  | inr e ↦
      rw (e, find-put k s entries)
        (elim (Bool-cases (has_key k t)) [
          | inr a ↦ rw a
          | inl a ↦ rw a (elim (Bool-cases (has_key k s)) [
            | inl b ↦ absurd (ground (arith, both_keys k s t a b))
            | inr b ↦ rw b
          ])
        ])
]

or_else_assoc :
    (m : Option Spec) (b : Bool) (s : Spec) (f : Option Spec)
    → or_else m (if b then some s else f) ≡ or_else (or_else m (if b then some s else none)) f
or_else_assoc none true s f = refl
or_else_assoc none false s f = refl
or_else_assoc (some x) b s f = refl

pub find-put_all :
    (k : String) (specs entries : List Spec)
    → find (has_key k) (put_all specs entries)
      ≡ or_else (last_with k specs) (find (has_key k) entries)
unfolding put_all
find-put_all k [] entries = refl
find-put_all k (s ∷ specs) entries =
    rw (find-put_all k specs (put s entries), find-put k s entries)
      (or_else_assoc (last_with k specs) (has_key k s) s (find (has_key k) entries))

map-or_else :
    (a b : Option Finding)
    → Option.map entry (or_else a b) ≡ or_else (Option.map entry a) (Option.map entry b)
map-or_else none b = refl
map-or_else (some a) b = refl

or_none : {A : Type 0} (a : Option A) → or_else a none ≡ a
or_none none = refl
or_none (some a) = refl

or_else-none : (a : Option Finding) → Option.map entry (or_else a none) ≡ Option.map entry a
or_else-none none = refl
or_else-none (some a) = refl

pub exists-find : {A : Type 0} (p : A → Bool) (xs : List A) → exists p xs ≡ has_value (find p xs)
exists-find p [] = refl
exists-find p (x ∷ xs) = ground (arith, exists-find p xs)

module _ (object now : ℕ) (specs : List Spec) where
  entry-kept :
      (k : String) (f : Finding)
      → at_key object k f ≡ true
      → (x : Option Spec) → find (has_key k) specs ≡ x
      → Option.map entry (kept object now specs (some f)) ≡ evaluated now x (some (entry f))
  unfolding entry
  entry-kept k f h none e =
      let o : is_of object f ≡ true = (and_split _ _ h).0 in
      let m : spec_of specs f ≡ none = rw (place object k f h).1 e in
      rw (o, m) (elim (Bool-cases (has_value f.manual_status)) [ inl b ↦ rw b | inr b ↦ rw b ])
  entry-kept k f h (some s) e =
      let o : is_of object f ≡ true = (and_split _ _ h).0 in
      let m : spec_of specs f ≡ some s = rw (place object k f h).1 e in
      rw (o, m) (entry-rewritten now s f)

  first_entry-evaluated : (x : Option Spec) → Option.map (first_entry now) x ≡ evaluated now x none
  first_entry-evaluated none = refl
  first_entry-evaluated (some s) = refl

  pub own_entry :
      (t : Findings) (k : String)
      → HasUniqueKeys t.rows
      → entry_at object k (upsert object now specs t).1.rows
        ≡ evaluated now (find (has_key k) specs) (entry_at object k t.rows)
  unfolding upsert
  own_entry t k h =
      let l =
        find-append (at_key object k) (kept_rows object now specs t.rows)
          (new_rows object now t.rows t.next_id specs) in
      rw
        (
          l,
          map-or_else (find (at_key object k) (kept_rows object now specs t.rows))
              (find (at_key object k) (new_rows object now t.rows t.next_id specs)),
          find-kept object now specs k t.rows h,
          entry-new_rows object now specs k t.rows t.next_id specs,
          exists-find (at_key object k) t.rows,
        )
        (elim (Option-cases (find (at_key object k) t.rows)) [
          | inl e ↦ rw e (first_entry-evaluated (find (has_key k) specs))
          | inr (f, e) ↦ rw e (
              or_none (Option.map entry (kept object now specs (some f)))
              ∙ entry-kept k f (find_passes (at_key object k) t.rows f e) (find (has_key k) specs)
                  refl)
        ])

-- An entry of the object becomes what the rules make of it, and one of another object stays.
pub entry_at-upsert :
    (object now : ℕ) (specs : List Spec) (t : Findings) (o : ℕ) (k : String)
    → HasUniqueKeys t.rows
    → entry_at o k (upsert object now specs t).1.rows ≡ (
        if o == object
        then evaluated now (find (has_key k) specs) (entry_at o k t.rows)
        else entry_at o k t.rows)
unfolding upsert
entry_at-upsert object now specs t o k h = elim (Bool-cases (o == object)) [
  | inl e ↦ rw (e, (==_iff o object).0 e) (own_entry object now specs t k h)
  | inr e ↦
      let n : o ≢ object = ground arith in
      rw
        (
          e,
          find-append (at_key o k) (kept_rows object now specs t.rows)
              (new_rows object now t.rows t.next_id specs),
          others_kept object now specs o k n t.rows,
          others_new object now specs o k n t.rows t.next_id specs,
        )
        (or_else-none (find (at_key o k) t.rows))
]

key-marked : (b : Bool) (s : Spec) → key (marked b s) ≡ key s
unfolding key
key-marked true s = refl
key-marked false s = refl

find-marked :
    (b : Bool) (k : String) (specs : List Spec)
    → find (has_key k) (map (marked b) specs) ≡ Option.map (marked b) (find (has_key k) specs)
find-marked b k [] = refl
find-marked b k (s ∷ specs) =
    rw (key-marked b s)
      (elim (Bool-cases (has_key k s)) [ inl e ↦ rw e | inr e ↦ rw (e, find-marked b k specs) ])

-- What the rules say of a position: the last spec with its key, of a check that is active and
-- meant for the object's kind of management.
abbrev pub rule_for :
    Settings
    → Texts
    → List CompletenessCheck
    → Tables
    → ManagedObject
    → Period
    → Date
    → String
    → Option Spec
rule_for cfg texts checks tables obj period today k =
    let d = load tables obj period (ordinal today) in
    Option.map (marked period.provisional)
      (last_with k (select (applies checks d.obj.management_type) (rule_specs cfg texts checks d)))

-- A run of evaluate_object refines an operation on positions: where the table has one row for each
-- position of an object, the position of the object with the key `k` gets what the last spec of
-- the rules with this key says, with what was set by hand kept; without such a spec it stays when
-- it is set by hand, and disappears when not; the positions of other objects stay.
pub evaluate_object-entry_at :
    (cfg : Settings) (texts : Texts) (checks : List CompletenessCheck) (tables : Tables)
    (obj : ManagedObject) (period : Period) (today : Date) (now : ℕ) (t : Findings)
    → HasUniqueKeys t.rows
    → (o : ℕ) (k : String)
    → entry_at o k (evaluate_object cfg texts checks tables obj period today now t).1.rows ≡ (
        if o == obj.id
        then evaluated now
            (rule_for cfg texts checks tables obj period today k)
            (entry_at o k t.rows)
        else entry_at o k t.rows)
unfolding evaluate_object specs_by_key load
evaluate_object-entry_at cfg texts checks tables obj period today now t h o k =
    let d = load tables obj period (ordinal today) in
    let chosen = select (applies checks d.obj.management_type) (rule_specs cfg texts checks d) in
    rw
      (
        ← or_none (last_with k chosen),
        ← find-put_all k chosen [],
        ← find-marked period.provisional k (put_all chosen []),
      )
      (entry_at-upsert obj.id now (specs_by_key cfg texts checks d) t o k h)
