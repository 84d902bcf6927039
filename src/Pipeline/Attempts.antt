-- ===== src/Pipeline/Attempts.antt =====
-- src/apps/pipeline/jobs.py: the job table under a reservation and under every end of the work on
-- a job.
use objekt_bernahme_automati.Prelude.{
  ℕ, ◌≤◌, ◌<◌, ==_iff, ◌≡◌, refl, Bool, ◌&&◌, if_induction, Option, none, some, All-imp, String,
  ltb, arith,
}
use objekt_bernahme_automati.Prelude.Table.{exists}
use objekt_bernahme_automati.Pipeline.Job.{Job, Json}
use objekt_bernahme_automati.Pipeline.World.{World, Config}
use objekt_bernahme_automati.Pipeline.Queue.{has_id}
use objekt_bernahme_automati.Pipeline.Pickup.{reserve, reservable, locked, fetched}
use objekt_bernahme_automati.Pipeline.Ending.{
  write, complete, skip, defer, deferred, fail, failing, retry, give_up, mark_document_error,
  backoff,
}
use objekt_bernahme_automati.Pipeline.Induction.{IsPreserved, P-send}
use objekt_bernahme_automati.Pipeline.Validity.{
  Bounded, IsValid, IsCurrent, IsValid-update, IsValid-update_all, IsValid-IsPreserved,
}

module _ (cfg : Config) (positive : 0 < cfg.max_attempts_default) where
  kept : IsPreserved cfg IsValid
  kept = IsValid-IsPreserved cfg positive

  fetched-IsValid : (j : Option Job) (w : World) → IsValid w → IsValid (fetched cfg j w).1
  fetched-IsValid none w v = v
  fetched-IsValid (some j) w v = kept.said w _ _ v

  pub reserve-IsValid : (now pk : ℕ) (w : World) → IsValid w → IsValid (reserve cfg now pk w).1
  unfolding reserve
  reserve-IsValid now pk w v =
      if_induction (λ (e : Option Job × World). IsValid e.1) (exists (reservable now pk) w.jobs)
        (λ _. fetched-IsValid _ _ (
          IsValid-update_all w (reservable now pk) (locked cfg now) (λ _. refl)
            (λ j e b. ground (arith, e, b)) v))
        (λ _. v)

  -- An end after which the job is not pending needs nothing of the worker's copy.
  pub write-IsValid :
      (j : Job) (f : Job → Job) (w : World)
      → ((row : Job) → (f row).id ≡ row.id)
      → ((row : Job) → Bounded row → Bounded (f row))
      → IsValid w
      → IsValid (write j f w)
  write-IsValid j f w i k v = IsValid-update_all w (has_id j.id) f i (λ row _. k row) v

  -- The others need that the copy is current.
  pub write_current-IsValid :
      (j : Job) (f : Job → Job) (w : World)
      → ((row : Job) → (f row).id ≡ row.id)
      → ((row : Job)
          → row.attempt_count ≡ j.attempt_count
          → row.max_attempts ≡ j.max_attempts
          → Bounded (f row))
      → IsCurrent j w
      → IsValid w
      → IsValid (write j f w)
  write_current-IsValid j f w i k c v =
      IsValid-update w (has_id j.id) f i
        (All-imp
          (λ (row : Job).
            row.id ≡ j.id
            → (row.attempt_count ≡ j.attempt_count) × (row.max_attempts ≡ j.max_attempts))
          _ w.jobs (λ row h e _. let (a, m) = h ((==_iff row.id j.id).0 e) in k row a m) c)
        v

  pub complete-IsValid :
      (now : ℕ) (j : Job) (result : Json) (pages : Option ℕ) (w : World)
      → IsValid w
      → IsValid (complete cfg now j result pages w)
  unfolding complete
  complete-IsValid now j result pages w v =
      kept.said (write j _ w) _ w.calls (write-IsValid j _ w (λ _. refl) (λ row b. ground arith) v)

  pub skip-IsValid :
      (now : ℕ) (j : Job) (reason : String) (w : World)
      → IsValid w
      → IsValid (skip cfg now j reason w)
  unfolding skip
  skip-IsValid now j reason w v =
      kept.said (write j _ w) _ w.calls (write-IsValid j _ w (λ _. refl) (λ row b. ground arith) v)

  pub defer-IsValid :
      (now : ℕ) (j : Job) (reason : String) (seconds : ℕ) (w : World)
      → 0 < j.attempt_count
      → j.attempt_count ≤ j.max_attempts
      → IsCurrent j w
      → IsValid w
      → IsValid (defer cfg now j reason seconds w)
  unfolding defer
  defer-IsValid now j reason seconds w p b c v =
      P-send cfg IsValid kept now (deferred now seconds reason j) seconds _ (
        kept.said (write j _ w) _ w.calls
          (write_current-IsValid j _ w (λ _. refl) (λ row a m. omega (arith, a, m, p, b)) c v))

  retry-IsValid :
      (now : ℕ) (j : Job) (w : World)
      → j.attempt_count < j.max_attempts
      → IsCurrent j w
      → IsValid w
      → IsValid (retry cfg now j w)
  unfolding retry
  retry-IsValid now j w b c v = P-send cfg IsValid kept now j (backoff j.attempt_count) _ (
      kept.said (write j _ w) _ w.calls
        (write_current-IsValid j _ w (λ _. refl) (λ row a m. omega (arith, a, m, b)) c v))

  give_up-IsValid : (now : ℕ) (j : Job) (w : World) → IsValid w → IsValid (give_up cfg now j w)
  unfolding give_up mark_document_error
  give_up-IsValid now j w v = kept.reset _ _ _ (
      kept.said (write j _ w) _ w.calls (write-IsValid j _ w (λ _. refl) (λ row b. ground arith) v))

  pub fail-IsValid :
      (now : ℕ) (j : Job) (class text : String) (retryable : Bool) (w : World)
      → IsCurrent j w
      → IsValid w
      → IsValid (fail cfg now j class text retryable w)
  unfolding fail
  fail-IsValid now j class text retryable w c v =
      if_induction IsValid (retryable && ltb j.attempt_count j.max_attempts)
        (λ e. retry-IsValid now (failing class text j) w (ground (arith, e)) c v)
        (λ _. give_up-IsValid now (failing class text j) w v)
