-- ===== src/Pipeline/Sweeping.antt =====
-- src/apps/pipeline/jobs.py: the job table under the sweeper, the resending of lost jobs and the
-- removal of repetitions.
use objekt_bernahme_automati.Prelude.{
  ℕ, ◌<◌, ◌≡◌, refl, Bool, ◌||◌, ◌==◌, if_induction, Option, none, some, List, [], ◌∷◌, length,
  take, leb, if◌then◌else◌, arith,
}
use objekt_bernahme_automati.Prelude.Table.{find, select}
use objekt_bernahme_automati.Pipeline.Job.{Job, is_running}
use objekt_bernahme_automati.Pipeline.Run
use objekt_bernahme_automati.Pipeline.Run.{Run}
use objekt_bernahme_automati.Pipeline.World.{World, Config}
use objekt_bernahme_automati.Pipeline.Queue.{has_id}
use objekt_bernahme_automati.Pipeline.Pickup.{adopt, without_run, lost, redispatch_lost_jobs}
use objekt_bernahme_automati.Pipeline.Ending.{write, mark_document_error}
use objekt_bernahme_automati.Pipeline.Sweep.{
  sweep_row, sweep_locked, sweep_all, sweep_stale_jobs, stale, is_listed, dropped, surplus,
  is_repeat, dedupe_repeat_jobs,
}
use objekt_bernahme_automati.Pipeline.Induction.{IsPreserved, P-send, P-send_all}
use objekt_bernahme_automati.Pipeline.Validity.{
  IsValid, IsCurrent, IsValid-IsPreserved, IsValid-update_all, read-IsCurrent,
}
use objekt_bernahme_automati.Pipeline.Attempts.{write-IsValid, write_current-IsValid}

module _ (cfg : Config) (positive : 0 < cfg.max_attempts_default) (now : ℕ) where
  kept : IsPreserved cfg IsValid
  kept = IsValid-IsPreserved cfg positive

  sweep_row-IsValid :
      (j : Job) (w : World) → IsCurrent j w → IsValid w → IsValid (sweep_row cfg now j w).1
  unfolding sweep_row mark_document_error
  sweep_row-IsValid j w c v =
      if_induction (λ (e : (ℕ × ℕ) × World). IsValid e.1) (leb j.max_attempts j.attempt_count)
        (λ _. kept.reset _ _ _ (
          kept.said (write j _ w) _ w.calls
            (write-IsValid cfg positive j _ w (λ _. refl) (λ row b. ground arith) v)))
        (λ left. P-send cfg IsValid kept now j 0 _ (
          kept.said (write j _ w) _ w.calls (
            write_current-IsValid cfg positive j _ w (λ _. refl)
              (λ row a m. ground (arith, a, m, left)) c v)))

  sweep_locked-IsValid :
      (pk : ℕ) (found : Option Job) (w : World)
      → find (has_id pk) w.jobs ≡ found
      → IsValid w
      → IsValid (sweep_locked cfg now found w).1
  unfolding sweep_locked
  sweep_locked-IsValid pk none w e v = v
  sweep_locked-IsValid pk (some j) w e v =
      if_induction (λ (e : (ℕ × ℕ) × World). IsValid e.1) (is_running j.status)
        (λ _. sweep_row-IsValid j w (read-IsCurrent w pk j v e) v) (λ _. v)

  pub sweep_one-IsValid :
      (j : Job) (w : World)
      → IsValid w
      → IsValid
          (if stale cfg now j
            then sweep_locked cfg now (find (has_id j.id) w.jobs) w
            else ((0, 0), w)).1
  sweep_one-IsValid j w v =
      if_induction (λ (e : (ℕ × ℕ) × World). IsValid e.1) (stale cfg now j)
        (λ _. sweep_locked-IsValid j.id _ w refl v) (λ _. v)

  sweep_all-IsValid :
      (js : List Job) (n : ℕ × ℕ) (w : World) → IsValid w → IsValid (sweep_all cfg now js n w).1
  unfolding sweep_all
  sweep_all-IsValid [] n w v = v
  sweep_all-IsValid (j ∷ js) n w v = sweep_all-IsValid js _ _ (sweep_one-IsValid j w v)

  -- The sweeper keeps the job table valid: a job without a heartbeat goes back to the queue only with an
  -- attempt left, and fails otherwise.
  pub sweep_stale_jobs-IsValid : (w : World) → IsValid w → IsValid (sweep_stale_jobs cfg now w).1
  unfolding sweep_stale_jobs
  sweep_stale_jobs-IsValid w v =
      sweep_all-IsValid (select (λ j. is_running j.status) w.jobs) (0, 0) w v

  adopt-IsValid :
      (rs : List Run) (w : World) → IsValid w → IsValid (record w { jobs = adopt rs w.jobs })
  adopt-IsValid [] w v = record { distinct = v.distinct; fresh = v.fresh; bounded = v.bounded }
  adopt-IsValid (r ∷ rs) w v = adopt-IsValid rs _ (
      IsValid-update_all w (without_run r) (λ j. record j { run = some r.id }) (λ _. refl)
        (λ _ _ b. b) v)

  pub redispatch-IsValid :
      (limit hours : ℕ) (w : World)
      → IsValid w
      → IsValid (redispatch_lost_jobs cfg now limit hours w).1
  unfolding redispatch_lost_jobs
  redispatch-IsValid limit hours w v =
      let active = select (λ r. Run.is_running r.status) w.runs in
      P-send_all cfg IsValid kept now
        (take limit (select (lost now hours w.runs) (adopt active w.jobs))) _
        (adopt-IsValid active w v)

  pub dedupe-IsValid :
      (dry_run : Bool) (w : World) → IsValid w → IsValid (dedupe_repeat_jobs cfg now dry_run w).1
  unfolding dedupe_repeat_jobs
  dedupe-IsValid dry_run w v =
      let extra = (surplus [] (select is_repeat w.jobs)).0 in
      if_induction (λ (e : (ℕ × ℕ × Option ℕ) × World). IsValid e.1) (dry_run || length extra == 0)
        (λ _. v)
        (λ _. kept.said _ _ _ (
          IsValid-update_all w (is_listed extra) (dropped now) (λ _. refl) (λ j _ b. ground arith)
            v))
