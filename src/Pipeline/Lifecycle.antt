-- ===== src/Pipeline/Lifecycle.antt =====
-- src/apps/pipeline: the job table under the scheduling and the closing of runs, and the ends of a
-- task.
use objekt_bernahme_automati.Prelude.{
  ℕ, ◌<◌, Bool, true, false, not, ◌||◌, if_induction, Option, none, some, List, leb,
}
use objekt_bernahme_automati.Prelude.Table.{exists}
use objekt_bernahme_automati.Pipeline.Job.{Job}
use objekt_bernahme_automati.Pipeline.Run
use objekt_bernahme_automati.Pipeline.Run.{Run}
use objekt_bernahme_automati.Pipeline.World.{World, Config}
use objekt_bernahme_automati.Pipeline.Runs.{start_waiting}
use objekt_bernahme_automati.Pipeline.Feeding.{schedule_runs}
use objekt_bernahme_automati.Pipeline.Finish.{
  closed, after_closing, close_locked, maybe_finish_run, holds_open,
}
use objekt_bernahme_automati.Pipeline.Worker.{
  Outcome, returned, skip_job, defer_job, retryable_error, other_error, finish_copy, object_is_open,
  after_filing, after_done, conclude,
}
use objekt_bernahme_automati.Pipeline.Induction.{IsPreserved, P-dispatch_each}
use objekt_bernahme_automati.Pipeline.Validity.{IsValid, IsValid-IsPreserved}
use objekt_bernahme_automati.Pipeline.Attempts.{
  complete-IsValid, skip-IsValid, defer-IsValid, fail-IsValid,
}
use objekt_bernahme_automati.Pipeline.Reservation.{IsReserved}

IsValid-runs : (w : World) (rs : List Run) → IsValid w → IsValid (record w { runs = rs })
IsValid-runs w rs v = record { distinct = v.distinct; fresh = v.fresh; bounded = v.bounded }

module _ (cfg : Config) (positive : 0 < cfg.max_attempts_default) where
  kept : IsPreserved cfg IsValid
  kept = IsValid-IsPreserved cfg positive

  start_waiting-IsValid : (now : ℕ) (w : World) → IsValid w → IsValid (start_waiting cfg now w).1
  unfolding start_waiting
  start_waiting-IsValid now w v =
      if_induction (λ (e : List ℕ × World). IsValid e.1) (leb cfg.max_parallel _) (λ _. v)
        (λ _. IsValid-runs w _ v)

  pub schedule_runs-IsValid :
      (now : ℕ) (w : World) → IsValid w → IsValid (schedule_runs cfg now w).1
  unfolding schedule_runs
  schedule_runs-IsValid now w v =
      if_induction (λ (e : List ℕ × World). IsValid e.1) w.slot_lock (λ _. v)
        (λ _.
          P-dispatch_each cfg IsValid kept now (start_waiting cfg now w).0
            (start_waiting cfg now w).1 (start_waiting-IsValid now w v))

  after_closing-IsValid :
      (now : ℕ) (r : Run) (w : World) → IsValid w → IsValid (after_closing cfg now r w).1
  unfolding after_closing
  after_closing-IsValid now r w v =
      if_induction (λ (e : Bool × World). IsValid e.1) (cfg.is_inbox r.object) (λ _. v)
        (λ _. schedule_runs-IsValid now _ (kept.said w w.events _ v))

  close_locked-IsValid :
      (now : ℕ) (r : Option Run) (w : World) → IsValid w → IsValid (close_locked cfg now r w).1
  unfolding close_locked
  close_locked-IsValid now none w v = v
  close_locked-IsValid now (some r) w v =
      if_induction (λ (e : Bool × World). IsValid e.1) (Run.is_running r.status)
        (λ _. after_closing-IsValid now (closed now w r) _ (IsValid-runs w _ v)) (λ _. v)

  maybe_finish_run-IsValid :
      (now : ℕ) (r : Run) (w : World) → IsValid w → IsValid (maybe_finish_run cfg now r w).1
  unfolding maybe_finish_run
  maybe_finish_run-IsValid now r w v =
      if_induction (λ (e : Bool × World). IsValid e.1)
        (not (Run.is_running r.status) || exists (holds_open r) w.jobs) (λ _. v)
        (λ _. close_locked-IsValid now _ w v)

  finish_copy-IsValid :
      (now : ℕ) (r : Option Run) (w : World) → IsValid w → IsValid (finish_copy cfg now r w).1
  unfolding finish_copy
  finish_copy-IsValid now none w v = v
  finish_copy-IsValid now (some r) w v = maybe_finish_run-IsValid now r w v

  after_filing-IsValid :
      (j : Job) (r : Option Run) (w : World) → IsValid w → IsValid (after_filing cfg j r w)
  unfolding after_filing
  after_filing-IsValid j none w v = v
  after_filing-IsValid j (some r) w v =
      if_induction IsValid
        (not (Run.is_over r.status) || (r.dry_run || (object_is_open j w || cfg.is_inbox j.object)))
        (λ _. v) (λ _. kept.said w w.events _ v)

  after_done-IsValid :
      (now : ℕ) (j : Job) (r : Option Run) (w : World)
      → IsValid w
      → IsValid (after_done cfg now j r w)
  unfolding after_done
  after_done-IsValid now j r w v =
      let v' = finish_copy-IsValid now r _ (kept.said w w.events _ v) in
      if_induction IsValid _ (λ _. after_filing-IsValid j r _ v') (λ _. v')

  pub conclude-IsValid :
      (now : ℕ) (j : Job) (r : Option Run) (outcome : Outcome) (w : World)
      → IsReserved j w
      → IsValid w
      → IsValid (conclude cfg now j r outcome w).1
  unfolding conclude
  conclude-IsValid now j r (returned result) w h v =
      after_done-IsValid now j r _ (complete-IsValid cfg positive now j _ none w v)
  conclude-IsValid now j r (skip_job reason) w h v = skip-IsValid cfg positive now j reason w v
  conclude-IsValid now j r (defer_job reason seconds) w h v =
      defer-IsValid cfg positive now j reason seconds w h.started h.within h.current v
  conclude-IsValid now j r (retryable_error class text) w h v =
      fail-IsValid cfg positive now j class text true w h.current v
  conclude-IsValid now j r (other_error class text) w h v =
      fail-IsValid cfg positive now j class text false w h.current v
