-- ===== src/Pipeline/Induction.antt =====
-- src/apps/pipeline: induction over what sending, enqueueing and feeding a run do to the world.
use objekt_bernahme_automati.Prelude.{
  ℕ, suc, ◌≡◌, refl, Bool, true, false, ◌&&◌, Option-cases, inl, inr, if_induction, Option, none,
  some, List, [], ◌∷◌, ◌++◌, String, length, leb,
}
use objekt_bernahme_automati.Prelude.Table.{count, select, update, find}
use objekt_bernahme_automati.Pipeline.Job.{Job, Event}
use objekt_bernahme_automati.Pipeline.Run.{Run}
use objekt_bernahme_automati.Pipeline.World.{World, Config, Call, Document, Case}
use objekt_bernahme_automati.Pipeline.Queue.{
  Request, send, sent_if, join_run, new_job, get_or_create, repeat_job, enqueue, has_id, has_key,
  closed,
}
use objekt_bernahme_automati.Pipeline.Pickup.{send_all}
use objekt_bernahme_automati.Pipeline.Runs.{
  has_run_id, failed_document, reset_document, reset_each, reset_failed_documents, reset_limit,
  resumption, enqueue_start_job,
}
use objekt_bernahme_automati.Pipeline.Feeding.{
  enqueue_each, to_start, claim_jobs, send_unsent, count_documents, live_documents, dispatch_run,
  dispatch_found, dispatch_each, unsent, claim,
}

-- An update of a job that keeps its id, status and attempts, and one of a run that keeps its id, its
-- object, its type and its status.
pub record IsHarmless (f : Job → Job) : Type 0 where
  pub same_id : (j : Job) → (f j).id ≡ j.id
  pub same_status : (j : Job) → (f j).status ≡ j.status
  pub same_attempts : (j : Job) → (f j).attempt_count ≡ j.attempt_count
  pub same_max : (j : Job) → (f j).max_attempts ≡ j.max_attempts

pub record KeepsSlot (f : Run → Run) : Type 0 where
  pub same_id : (r : Run) → (f r).id ≡ r.id
  pub same_object : (r : Run) → (f r).object ≡ r.object
  pub same_type : (r : Run) → (f r).run_type ≡ r.run_type
  pub same_status : (r : Run) → (f r).status ≡ r.status

-- What a property of the world has to survive.
pub record IsPreserved (cfg : Config) (P : World → Type 0) : Type 0 where
  pub said :
      (w : World) (events : List Event) (calls : List Call)
      → P w
      → P (record w { events = events; calls = calls })
  pub marked :
      (w : World) (p : Job → Bool) (f : Job → Job)
      → IsHarmless f
      → P w
      → P (record w { jobs = update p f w.jobs })
  pub added :
      (w : World) (now : ℕ) (key : String) (r : Request)
      → P w
      → P (record w {
        jobs = w.jobs ++ new_job cfg now w.next_job key r ∷ [];
        next_job = suc w.next_job;
      })
  pub reset :
      (w : World) (documents : List Document) (cases : List Case)
      → P w
      → P (record w { documents = documents; cases = cases })
  pub totalled :
      (w : World) (p : Run → Bool) (f : Run → Run)
      → KeepsSlot f
      → P w
      → P (record w { runs = update p f w.runs })

module _ (cfg : Config) (P : World → Type 0) (k : IsPreserved cfg P) where
  pub P-send :
      (now : ℕ) (j : Job) (countdown : ℕ) (w : World) → P w → P (send cfg now j countdown w)
  unfolding send
  P-send now j countdown w h =
      let m =
        k.marked w (has_id j.id) (λ row. record row { dispatched_at = some now })
          (record {
            same_id = λ _. refl;
            same_status = λ _. refl;
            same_attempts = λ _. refl;
            same_max = λ _. refl;
          })
          h in
      if_induction P cfg.dispatches (λ _. k.said _ _ _ m) (λ _. m)

  P-sent_if : (b : Bool) (now : ℕ) (j : Job) (w : World) → P w → P (sent_if b cfg now j w)
  P-sent_if true now j w h = P-send now j 0 w h
  P-sent_if false now j w h = h

  P-join_run : (now : ℕ) (run : Option ℕ) (j : Job) (w : World) → P w → P (join_run now run j w).1
  unfolding join_run
  P-join_run now none j w h = h
  P-join_run now (some run) j w h = elim (Option-cases j.run) [
    | inl free ↦ rw free (
        k.marked w (has_id j.id) (λ row. record row { run = some run; updated_at = now })
          (record {
            same_id = λ _. refl;
            same_status = λ _. refl;
            same_attempts = λ _. refl;
            same_max = λ _. refl;
          })
          h)
    | inr (other, taken) ↦ rw taken h
  ]

  P-get_or_create :
      (now : ℕ) (key : String) (r : Request) (old : Option Job) (w : World)
      → P w
      → P (get_or_create cfg now key r old w).1
  unfolding get_or_create
  P-get_or_create now key r none w h =
      P-sent_if r.dispatch now (new_job cfg now w.next_job key r) _
        (k.said _ _ _ (k.added w now key r h))
  P-get_or_create now key r (some old) w h =
      P-sent_if _ now (join_run now r.run old w).0 _ (P-join_run now r.run old w h)

  P-repeat_job :
      (now : ℕ) (r : Request) (found : Option Job) (w : World)
      → P w
      → P (repeat_job cfg now r found w).1
  unfolding repeat_job
  P-repeat_job now r none w h = P-get_or_create now _ r _ w h
  P-repeat_job now r (some old) w h =
      P-sent_if _ now (join_run now r.run old w).0 _ (P-join_run now r.run old w h)

  pub P-enqueue : (now : ℕ) (r : Request) (w : World) → P w → P (enqueue cfg now r w).1
  unfolding enqueue
  P-enqueue now r w h =
      if_induction (λ (e : (Job × Bool) × World). P e.1)
        (closed (find (has_key r.key) w.jobs) && r.repeat) (λ _. P-repeat_job now r _ w h)
        (λ _. P-get_or_create now r.key r _ w h)

  pub P-send_all : (now : ℕ) (js : List Job) (w : World) → P w → P (send_all cfg now js w)
  unfolding send_all
  P-send_all now [] w h = h
  P-send_all now (j ∷ js) w h = P-send_all now js _ (P-send now j 0 w h)

  P-enqueue_each :
      (now : ℕ) (r : Run) (ds : List Document) (w : World) → P w → P (enqueue_each cfg now r ds w)
  unfolding enqueue_each enqueue_start_job
  P-enqueue_each now r [] w h = h
  P-enqueue_each now r (d ∷ ds) w h = P-enqueue_each now r ds _ (P-enqueue now _ w h)

  P-reset_each : (ds : List Document) (n : ℕ) (w : World) → P w → P (reset_each ds (n, w)).1
  unfolding reset_each reset_document
  P-reset_each [] n w h = h
  P-reset_each (d ∷ ds) n w h =
      if_induction (λ (e : ℕ × World). P (reset_each ds e).1)
        (leb reset_limit (count (resumption d) w.cases)) (λ _. P-reset_each ds n w h)
        (λ _. P-reset_each ds (suc n) _ (k.reset w _ _ h))

  P-claim_jobs : (r : Run) (w : World) → P w → P (claim_jobs r w)
  unfolding claim_jobs
  P-claim_jobs r w h =
      k.marked w (claim r) (λ j. record j { run = some r.id })
        (record {
          same_id = λ _. refl;
          same_status = λ _. refl;
          same_attempts = λ _. refl;
          same_max = λ _. refl;
        })
        h

  P-send_unsent : (now : ℕ) (r : Run) (w : World) → P w → P (send_unsent cfg now r w)
  unfolding send_unsent
  P-send_unsent now r w h = P-send_all now (select (unsent now r) w.jobs) w h

  P-count_documents : (r : Run) (w : World) → P w → P (count_documents r w)
  unfolding count_documents
  P-count_documents r w h =
      k.totalled w (has_run_id r.id)
        (λ row. record row { documents_total = some (length (live_documents r w)) })
        (record {
          same_id = λ _. refl;
          same_object = λ _. refl;
          same_type = λ _. refl;
          same_status = λ _. refl;
        })
        h

  pub P-dispatch_run : (now : ℕ) (r : Run) (w : World) → P w → P (dispatch_run cfg now r w).1
  unfolding dispatch_run reset_failed_documents
  P-dispatch_run now r w h =
      let w1 = (reset_failed_documents r w).1 in
      let w2 = enqueue_each cfg now r (to_start r w1) w1 in
      P-count_documents r (send_unsent cfg now r (claim_jobs r w2)) (
        P-send_unsent now r (claim_jobs r w2) (
          P-claim_jobs r w2 (
            P-enqueue_each now r (to_start r w1) w1
              (P-reset_each (select (failed_document r) w.documents) 0 w h))))

  P-dispatch_found : (now : ℕ) (r : Option Run) (w : World) → P w → P (dispatch_found cfg now r w)
  unfolding dispatch_found
  P-dispatch_found now none w h = h
  P-dispatch_found now (some r) w h = P-dispatch_run now r w h

  pub P-dispatch_each : (now : ℕ) (ids : List ℕ) (w : World) → P w → P (dispatch_each cfg now ids w)
  unfolding dispatch_each
  P-dispatch_each now [] w h = h
  P-dispatch_each now (id ∷ ids) w h = P-dispatch_each now ids _ (P-dispatch_found now _ w h)
