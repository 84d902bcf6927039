-- ===== src/Requirements/Forgotten.antt =====
-- src/apps/requirements/requests.py, `mark_sent`, and engine.py, `evaluate_object`: the marks of a
-- letter in the findings, and a run after it.
use objekt_bernahme_automati.Prelude.{
  ℕ, ◌≡◌, refl, sym, ◌∙◌, ap, subst, inl, inr, Bool, true, false, Option, none, some, List, [], ◌∷◌,
  String, All, All-imp, Bool-cases, if◌then◌else◌, if_induction,
}
use objekt_bernahme_automati.Prelude.Table.{select, find, update, All-update, All-select}
use mathlib.Core.Option
use mathlib.Core.Option.{some-injective, some-ne-none}
use objekt_bernahme_automati.Requirements.Calendar.{Date, ordinal, Settings, ManagedObject, Period}
use objekt_bernahme_automati.Requirements.Spec.{Spec}
use objekt_bernahme_automati.Requirements.Data.{Tables, load}
use objekt_bernahme_automati.Requirements.Rental.{CompletenessCheck}
use objekt_bernahme_automati.Requirements.Evaluate.{
  Finding, Findings, Texts, has_key, applies, marked, rule_specs, evaluate_object, at_key,
  finding_key,
}
use objekt_bernahme_automati.Requirements.Entry.{Entry, entry, entry_at, evaluated, HasUniqueKeys}
use objekt_bernahme_automati.Requirements.Equality.{nat_refl}
use objekt_bernahme_automati.Requirements.Upsert.{or_else}
use objekt_bernahme_automati.Requirements.Refinement.{rule_for, last_with, evaluate_object-entry_at}
use objekt_bernahme_automati.Requirements.Marks.{
  IsUnmarked, Marking, marks_of, no_marks, rule_specs-IsUnmarked,
}
use objekt_bernahme_automati.Requirements.Requests.{
  DocumentRequest, mark_sent, marked_details, is_requested, is_approved,
}

marking-HasUniqueKeys :
    (today : String) (r : DocumentRequest) (rows : List Finding)
    → HasUniqueKeys rows
    → HasUniqueKeys (update (is_requested r) (marked_details today r) rows)
marking-HasUniqueKeys today r [] h = tt
marking-HasUniqueKeys today r (f ∷ rows) h = (
  if_induction
      (λ (g : Finding).
        All (λ e. at_key g.object (finding_key g) e ≡ false)
          (update (is_requested r) (marked_details today r) rows))
      (is_requested r f) (λ _. others) (λ _. others),
  marking-HasUniqueKeys today r rows h.1,
)
  where
    others :
        All
          (λ e. at_key f.object (finding_key f) e ≡ false)
          (update (is_requested r) (marked_details today r) rows)
    others =
        All-update (λ e. at_key f.object (finding_key f) e ≡ false) (is_requested r)
          (marked_details today r) (λ e _ n. n) rows h.0

mark_sent-HasUniqueKeys :
    (user now : ℕ) (today note : String) (r : DocumentRequest) (t : Findings)
    → HasUniqueKeys t.rows
    → HasUniqueKeys (mark_sent user now today note r t).1.rows
unfolding mark_sent
mark_sent-HasUniqueKeys user now today note r t h = elim (Bool-cases (is_approved r.status)) [
  | inl e ↦ rw e (marking-HasUniqueKeys today r t.rows h)
  | inr e ↦ rw e h
]

abbrev IfGiven : Option Spec → Type 0
IfGiven none = Unit
IfGiven (some s) = IsUnmarked s

or_else-IfGiven : (a b : Option Spec) → IfGiven a → IfGiven b → IfGiven (or_else a b)
or_else-IfGiven none b h k = k
or_else-IfGiven (some a) b h k = h

last_with-IfGiven :
    (k : String) (specs : List Spec) → All IsUnmarked specs → IfGiven (last_with k specs)
last_with-IfGiven k [] h = tt
last_with-IfGiven k (t ∷ specs) h =
    or_else-IfGiven (last_with k specs) (if has_key k t then some t else none)
      (last_with-IfGiven k specs h.1) (if_induction IfGiven (has_key k t) (λ _. h.0) (λ _. tt))

marked-IfGiven : (b : Bool) (o : Option Spec) → IfGiven o → IfGiven (Option.map (marked b) o)
marked-IfGiven b none h = tt
marked-IfGiven true (some s) h = h
marked-IfGiven false (some s) h = h

rule-IsUnmarked :
    (cfg : Settings) (texts : Texts) (checks : List CompletenessCheck) (tables : Tables)
    (obj : ManagedObject) (period : Period) (today : Date) (k : String) (s : Spec)
    → rule_for cfg texts checks tables obj period today k ≡ some s
    → IsUnmarked s
rule-IsUnmarked cfg texts checks tables obj period today k s e =
    let d = load tables obj period (ordinal today) in
    let specs = rule_specs cfg texts checks d in
    let p = applies checks d.obj.management_type in
    subst IfGiven e (
      marked-IfGiven period.provisional (last_with k (select p specs)) (
        last_with-IfGiven k (select p specs) (
          All-imp (λ t. IsUnmarked t × (p t ≡ true)) IsUnmarked (select p specs) (λ t h. h.0)
            (All-select IsUnmarked p specs (rule_specs-IsUnmarked cfg texts checks d)))))

find-marking :
    (today : String) (r : DocumentRequest) (object : ℕ) (k : String) (rows : List Finding)
    (f : Finding)
    → find (at_key object k) rows ≡ some f
    → is_requested r f ≡ true
    → find (at_key object k) (update (is_requested r) (marked_details today r) rows)
      ≡ some (marked_details today r f)
find-marking today r object k [] f e q = absurd (some-ne-none f (sym e))
find-marking today r object k (g ∷ rows) f e q = elim (Bool-cases (at_key object k g)) [
  | inl a ↦
      let same : g ≡ f = some-injective g f (rw a at e) in
      let asked : is_requested r g ≡ true = ap (is_requested r) same ∙ q in
      rw (asked, a) (ap (λ (h : Finding). some (marked_details today r h)) same)
  | inr a ↦
      let rest = find-marking today r object k rows f (rw a at e) q in
      elim (Bool-cases (is_requested r g)) [ inl b ↦ rw (b, a) rest | inr b ↦ rw (b, a) rest ]
]

-- What the table says of the marks of a position.
abbrev pub marks_at : ℕ → String → Findings → Option Marking
marks_at object k t = Option.map (λ (e : Entry). marks_of e.details) (entry_at object k t.rows)

marks_at-mark_sent :
    (user now : ℕ) (iso note : String) (r : DocumentRequest) (t : Findings) (object : ℕ)
    (k : String) (f : Finding)
    → is_approved r.status ≡ true
    → find (at_key object k) t.rows ≡ some f
    → is_requested r f ≡ true
    → marks_at object k (mark_sent user now iso note r t).1
      ≡ some (some iso, some r.deadline_date, some r.version)
unfolding mark_sent entry
marks_at-mark_sent user now iso note r t object k f a e q =
    rw (a, find-marking iso r object k t.rows f e q) refl

-- A run of evaluate_object forgets that a letter was sent: where an approved letter asks for a finding
-- of a position that the rules give, mark_sent writes the day, the letter's deadline and its version
-- into the finding of the position, and after the next run none of the three is there.
pub request_forgotten :
    (cfg : Settings) (texts : Texts) (checks : List CompletenessCheck) (tables : Tables)
    (obj : ManagedObject) (period : Period) (today : Date) (user now later : ℕ) (iso note : String)
    (r : DocumentRequest) (t : Findings)
    → HasUniqueKeys t.rows
    → (k : String) (s : Spec) (f : Finding)
    → rule_for cfg texts checks tables obj period today k ≡ some s
    → is_approved r.status ≡ true
    → find (at_key obj.id k) t.rows ≡ some f
    → is_requested r f ≡ true
    → let t' = (mark_sent user now iso note r t).1 in
      (marks_at obj.id k t' ≡ some (some iso, some r.deadline_date, some r.version))
      × (marks_at obj.id k (evaluate_object cfg texts checks tables obj period today later t').1
          ≡ some no_marks)
request_forgotten cfg texts checks tables obj period today user now later iso note r t h k s f e a g
      q =
    let t' = (mark_sent user now iso note r t).1 in
    (
      marks_at-mark_sent user now iso note r t obj.id k f a g q,
      rw
          (
            evaluate_object-entry_at cfg texts checks tables obj period today later t'
                (mark_sent-HasUniqueKeys user now iso note r t h) obj.id k,
            nat_refl obj.id,
            e,
          )
          (unmarked (entry_at obj.id k t'.rows)),
    )
  where
    unmarked :
        (o : Option Entry)
        → Option.map (λ (d : Entry). marks_of d.details) (evaluated later (some s) o)
          ≡ some no_marks
    unmarked none = ap some (rule-IsUnmarked cfg texts checks tables obj period today k s e)
    unmarked (some d) = ap some (rule-IsUnmarked cfg texts checks tables obj period today k s e)
