-- ===== src/Pipeline/Validity.antt =====
-- src/apps/pipeline: the invariant of the job table.
use objekt_bernahme_automati.Prelude.{
  ℕ, suc, ◌≤◌, ◌<◌, ◌≡◌, ◌≢◌, sym, subst, ap, ◌∙◌, Bool, true, Bool-cases, inl, inr, some, List, [],
  ◌∷◌, map, All, All-append, All-imp, All-map, ==_iff, if◌then◌else◌, arith,
}
use mathlib.Core.Option.{some-injective}
use objekt_bernahme_automati.Prelude.Table.{update, map-update, All-update, find, find_passes}
use objekt_bernahme_automati.Prelude.Keyed.{Distinct, Distinct-snoc, map-snoc, is_row, find-key}
use objekt_bernahme_automati.Pipeline.Job.{Job, is_pending}
use objekt_bernahme_automati.Pipeline.World.{World, Config}
use objekt_bernahme_automati.Pipeline.Queue.{new_job, has_id}
use objekt_bernahme_automati.Pipeline.Induction.{IsHarmless, IsPreserved}

-- The attempts are within the job's limit, and a pending job has one left.
abbrev pub Bounded : Job → Type 0
Bounded j =
    if is_pending j.status
    then j.attempt_count < j.max_attempts
    else j.attempt_count ≤ j.max_attempts

-- Ids are given once, and every job is `Bounded`.
pub record IsValid (w : World) : Type 0 where
  pub distinct : Distinct (map (λ (j : Job). j.id) w.jobs)
  pub fresh : All (λ (j : Job). j.id < w.next_job) w.jobs
  pub bounded : All Bounded w.jobs

-- The worker's copy of a job has the attempts of the row.
abbrev pub IsCurrent : Job → World → Type 0
IsCurrent j w =
    All
      (λ (row : Job).
        row.id ≡ j.id → (row.attempt_count ≡ j.attempt_count) × (row.max_attempts ≡ j.max_attempts))
      w.jobs

All-update_each :
    {A : Type 0} (P : A → Type 0) (p : A → Bool) (f : A → A) (xs : List A)
    → All (λ x. p x ≡ true → P x → P (f x)) xs
    → All P xs
    → All P (update p f xs)
All-update_each P p f [] k h = tt
All-update_each P p f (x ∷ xs) k h = elim (Bool-cases (p x)) [
  | inl e ↦ rw e (k.0 e h.0, All-update_each P p f xs k.1 h.1)
  | inr e ↦ rw e (h.0, All-update_each P p f xs k.1 h.1)
]

pub IsValid-update :
    (w : World) (p : Job → Bool) (f : Job → Job)
    → ((j : Job) → (f j).id ≡ j.id)
    → All (λ j. p j ≡ true → Bounded j → Bounded (f j)) w.jobs
    → IsValid w
    → IsValid (record w { jobs = update p f w.jobs })
IsValid-update w p f i k v = record {
  distinct = subst Distinct (sym (map-update (λ (j : Job). j.id) p f i w.jobs)) v.distinct;
  fresh =
      All-update (λ (j : Job). j.id < w.next_job) p f
        (λ j _ h. subst (λ n. n < w.next_job) (sym (i j)) h) w.jobs v.fresh;
  bounded = All-update_each Bounded p f w.jobs k v.bounded;
}

-- An update of the rows with any content that keeps `Bounded` by itself.
pub IsValid-update_all :
    (w : World) (p : Job → Bool) (f : Job → Job)
    → ((j : Job) → (f j).id ≡ j.id)
    → ((j : Job) → p j ≡ true → Bounded j → Bounded (f j))
    → IsValid w
    → IsValid (record w { jobs = update p f w.jobs })
IsValid-update_all w p f i k v =
    IsValid-update w p f i (All-imp (λ (j : Job). j.id < w.next_job) _ w.jobs (λ j _. k j) v.fresh)
      v

harmless-Bounded : (f : Job → Job) → IsHarmless f → (j : Job) → Bounded j → Bounded (f j)
harmless-Bounded f h j b = rw (h.same_status j, h.same_attempts j, h.same_max j) b

pub IsValid-IsPreserved : (cfg : Config) → 0 < cfg.max_attempts_default → IsPreserved cfg IsValid
unfolding new_job
IsValid-IsPreserved cfg positive = record {
  said = λ w events calls v. record { distinct = v.distinct; fresh = v.fresh; bounded = v.bounded };
  marked = λ w p f h v. IsValid-update_all w p f h.same_id (λ j _. harmless-Bounded f h j) v;
  added = λ w now key r v. record {
    distinct =
        subst Distinct
          (sym (map-snoc (λ (j : Job). j.id) w.jobs (new_job cfg now w.next_job key r)))
          (Distinct-snoc (map (λ (j : Job). j.id) w.jobs) w.next_job v.distinct (
            All-map (λ i. i ≢ w.next_job) (λ (j : Job). j.id) w.jobs
              (All-imp (λ (j : Job). j.id < w.next_job) _ w.jobs (λ j h e. omega (arith, h, e))
                v.fresh)));
    fresh =
        All-append (λ (j : Job). j.id < suc w.next_job) w.jobs _
          (All-imp (λ (j : Job). j.id < w.next_job) _ w.jobs (λ j h. omega arith) v.fresh)
          (omega arith, tt);
    bounded = All-append Bounded w.jobs _ v.bounded (positive, tt);
  };
  reset =
      λ w documents cases v. record { distinct = v.distinct; fresh = v.fresh; bounded = v.bounded };
  totalled = λ w p f h v. record { distinct = v.distinct; fresh = v.fresh; bounded = v.bounded };
}

-- A job that is read from the table by its id is current.
pub read-IsCurrent :
    (w : World) (pk : ℕ) (j : Job) → IsValid w → find (has_id pk) w.jobs ≡ some j → IsCurrent j w
read-IsCurrent w pk j v e =
    All-imp (λ (x : Job). find (is_row (λ (y : Job). y.id) x.id) w.jobs ≡ some x) _ w.jobs
      (λ x g i.
        let q = (==_iff j.id pk).0 (find_passes (has_id pk) w.jobs j e) in
        let same : x ≡ j = some-injective x j (
          sym g
          ∙ subst (λ n. find (is_row (λ (y : Job). y.id) n) w.jobs ≡ some j) (sym (i ∙ q)) e) in
        (ap (λ (y : Job). y.attempt_count) same, ap (λ (y : Job). y.max_attempts) same))
      (find-key (λ (x : Job). x.id) w.jobs v.distinct)
