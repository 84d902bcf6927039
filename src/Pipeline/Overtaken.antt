-- ===== src/Pipeline/Overtaken.antt =====
-- src/apps/pipeline/jobs.py: what a worker does to a job that the sweeper has given to another one.
use objekt_bernahme_automati.Prelude.{
  ℕ, zero, suc, le→leb, ◌+◌, ◌≤◌, ◌<◌, ◌≡◌, refl, ap, ◌∙◌, true, Option, some, map, String, lt→ltb,
  subst, sym, arith,
}
use objekt_bernahme_automati.Prelude.Table.{find, find_passes, map-update}
use objekt_bernahme_automati.Prelude.Keyed.{Distinct, row-update}
use objekt_bernahme_automati.Pipeline.Job.{Job, pending, is_running}
use objekt_bernahme_automati.Pipeline.World.{World, Config}
use objekt_bernahme_automati.Pipeline.Queue.{has_id}
use objekt_bernahme_automati.Pipeline.Pickup.{reserve, locked}
use objekt_bernahme_automati.Pipeline.Ending.{fail, failing, retry, backoff}
use objekt_bernahme_automati.Pipeline.Rows.{row-send, ids-send}
use objekt_bernahme_automati.Pipeline.Reservation.{reserve_due}

-- The row that a retry leaves, from the row before it and the worker's copy.
abbrev pub retried : ℕ → Job → Job → Job
retried now j row = record row {
  status = pending;
  next_attempt_at = some (now + backoff j.attempt_count);
  last_error = j.last_error;
  error_class = j.error_class;
  locked_by = Option.none;
  updated_at = now;
  dispatched_at = some now;
}

row-retry :
    (cfg : Config) (now : ℕ) (j row : Job) (w : World)
    → find (has_id j.id) w.jobs ≡ some row
    → find (has_id j.id) (retry cfg now j w).jobs ≡ some (retried now j row)
unfolding retry
row-retry cfg now j row w e =
    row-send cfg now (backoff j.attempt_count) j.id j
      (record (retried now j row) { dispatched_at = row.dispatched_at }) _
      (row-update (λ (o : Job). o.id) (has_id j.id) _ (λ _. refl) j.id w.jobs
        ∙ rw (e, find_passes (has_id j.id) w.jobs row e))
      refl

ids-retry :
    (cfg : Config) (now : ℕ) (j : Job) (w : World)
    → map (λ (o : Job). o.id) (retry cfg now j w).jobs ≡ map (λ (o : Job). o.id) w.jobs
unfolding retry
ids-retry cfg now j w =
    ids-send cfg now (backoff j.attempt_count) j _
    ∙ map-update (λ (o : Job). o.id) (has_id j.id) _ (λ _. refl) w.jobs

fail_lem :
    (cfg : Config) (now : ℕ) (j : Job) (class text : String) (w : World)
    → j.attempt_count < j.max_attempts
    → fail cfg now j class text true w ≡ retry cfg now (failing class text j) w
unfolding fail
fail_lem cfg now j class text w h = rw (lt→ltb j.attempt_count j.max_attempts h) refl

backoff-le : (n : ℕ) → backoff n ≤ 600
unfolding backoff
backoff-le zero = omega arith
backoff-le (suc n) = ground arith

-- A worker does not notice that the sweeper has given its job to another one. Where the table's row of
-- its job is another worker's, in its last attempt, but its own copy has an attempt left, a temporary
-- error of the first worker puts the row back to pending, and it can be reserved at any time from ten
-- minutes on, beyond its limit. Ids are unique.
pub overtaken_worker :
    (cfg : Config) (now now' : ℕ) (j row : Job) (class text : String) (w : World)
    → Distinct (map (λ (o : Job). o.id) w.jobs)
    → find (has_id j.id) w.jobs ≡ some row
    → is_running row.status ≡ true
    → row.attempt_count ≡ row.max_attempts
    → j.attempt_count < j.max_attempts
    → now + 600 ≤ now'
    → (taken : Job) × ((reserve cfg now' j.id (fail cfg now j class text true w)).0 ≡ some taken)
      × (taken.max_attempts < taken.attempt_count)
overtaken_worker cfg now now' j row class text w d e running last left later =
    let copy = failing class text j in
    let same = fail_lem cfg now j class text w left in
    let d' : Distinct (map (λ (o : Job). o.id) (retry cfg now copy w).jobs) =
      subst Distinct (sym (ids-retry cfg now copy w)) d in
    let r =
      reserve_due cfg now' j.id (retry cfg now copy w) d' (retried now copy row)
        (row-retry cfg now copy row w e)
        (le→leb (now + backoff j.attempt_count) now'
          (omega (arith, later, backoff-le j.attempt_count))) in
    (
      locked cfg now' (retried now copy row),
      ap (λ u. (reserve cfg now' j.id u).0) same ∙ r.0,
      omega (arith, last),
    )
