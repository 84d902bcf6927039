-- ===== src/Sync/Steps.antt =====
-- src/apps/sync/operations.py: every transaction of the operation list as a step, in any order.
use objekt_bernahme_automati.Prelude.{
  ℕ, ◌+◌, ◌<◌, ◌≡◌, ◌≢◌, refl, Bool, Option, none, some, [], ◌∷◌, ◌++◌, String, eq_iff, arith,
  All-map, All-imp, All-append, if_induction, leb,
}
use objekt_bernahme_automati.Prelude.Table.{find, update, exists, All-of_find-none}
use objekt_bernahme_automati.Prelude.Keyed.{Distinct-snoc, map-snoc}
use objekt_bernahme_automati.Sync.Operation.{
  Operation, Outcome, returned, skip, defer, retry, block, raised, is_revivable, operation_kinds,
  is_one_of,
}
use objekt_bernahme_automati.Sync.Queue.{
  World, Config, Request, has_id, has_key, nonzero, new_operation, revived, dispatched, enqueue_at,
  enqueue, reserve, dispatch_due, release_stale, to_dispatch,
}
use objekt_bernahme_automati.Sync.Manual.{cancel, cancellable, retry_now, not_running}
use objekt_bernahme_automati.Sync.Worker.{Report, fail_or_wait, conclude}
use objekt_bernahme_automati.Sync.Validity.{
  ids, keys, IsValid, SameRows, SameRows-IsValid, SameRows-refl, SameRows-trans, update-SameRows,
  send-SameRows, send_all-SameRows, reserve-SameRows,
}

dispatch_due-SameRows :
    (cfg : Config) (now limit minutes : ℕ) (w : World)
    → SameRows w (dispatch_due cfg now limit minutes w).1
unfolding dispatch_due
dispatch_due-SameRows cfg now limit minutes w =
    send_all-SameRows cfg now (to_dispatch now limit minutes w) w

pub release_stale-SameRows :
    (now minutes : ℕ) (w : World) → SameRows w (release_stale now minutes w).1
unfolding release_stale
release_stale-SameRows now minutes w = update-SameRows _ _ w _ (λ o. refl) (λ o. refl) refl refl

pub cancel-SameRows :
    (cfg : Config) (now : ℕ) (op : Operation) (user : Option ℕ) (reason : String) (w : World)
    → SameRows w (cancel cfg now op user reason w).1
unfolding cancel
cancel-SameRows cfg now op user reason w =
    if_induction (λ (r : Bool × World). SameRows w r.1) (exists (cancellable op.id) w.operations)
      (λ _. update-SameRows _ _ w _ (λ o. refl) (λ o. refl) refl refl) (λ _. SameRows-refl w)

pub retry_now-SameRows :
    (cfg : Config) (now : ℕ) (op : Operation) (user : Option ℕ) (w : World)
    → SameRows w (retry_now cfg now op user w).1
unfolding retry_now
retry_now-SameRows cfg now op user w =
    if_induction (λ (r : Bool × World). SameRows w r.1) (exists (not_running op.id) w.operations)
      (λ _.
        SameRows-trans (update-SameRows _ _ w _ (λ o. refl) (λ o. refl) refl refl)
          (unfold retry_now in send-SameRows cfg now op.id none _))
      (λ _. SameRows-refl w)

fail_or_wait-SameRows :
    (now : ℕ) (op : Operation) (seconds : Option ℕ) (error : String) (w : World)
    → SameRows w (fail_or_wait now op seconds error w).1
unfolding fail_or_wait
fail_or_wait-SameRows now op seconds error w =
    if_induction (λ (r : Report × World). SameRows w r.1) (leb op.max_attempts op.attempt_count)
      (λ _. update-SameRows _ _ w _ (λ o. refl) (λ o. refl) refl refl)
      (λ _. update-SameRows _ _ w _ (λ o. refl) (λ o. refl) refl refl)

pub conclude-SameRows :
    (now : ℕ) (op : Operation) (outcome : Outcome) (w : World)
    → SameRows w (conclude now op outcome w).1
unfolding conclude
conclude-SameRows now op (returned result) w =
    update-SameRows _ _ w _ (λ o. refl) (λ o. refl) refl refl
conclude-SameRows now op (skip reason) w = update-SameRows _ _ w _ (λ o. refl) (λ o. refl) refl refl
conclude-SameRows now op (defer reason seconds) w =
    update-SameRows _ _ w _ (λ o. refl) (λ o. refl) refl refl
conclude-SameRows now op (retry reason seconds) w = fail_or_wait-SameRows now op seconds reason w
conclude-SameRows now op (block reason) w =
    update-SameRows _ _ w _ (λ o. refl) (λ o. refl) refl refl
conclude-SameRows now op (raised type_name text) w = fail_or_wait-SameRows now op none _ w

-- A new row takes the next id, and the key that no row has.
append-IsValid :
    (o : Operation) (w w' : World)
    → IsValid w
    → o.id ≡ w.next_id
    → find (has_key o.op_key) w.operations ≡ none
    → w'.operations ≡ w.operations ++ o ∷ []
    → w'.next_id ≡ w.next_id + 1
    → IsValid w'
append-IsValid o w w' v i absent e n = record {
  distinct_ids =
      rw (e, map-snoc (λ (x : Operation). x.id))
        (Distinct-snoc (ids w) o.id v.distinct_ids
          (All-imp (λ k. k < w.next_id) (λ k. k ≢ o.id) (ids w) (λ k h. omega arith) v.fresh));
  distinct_keys =
      rw (e, map-snoc (λ (x : Operation). x.op_key))
        (Distinct-snoc (keys w) o.op_key v.distinct_keys (
          All-map (λ k. k ≢ o.op_key) (λ (x : Operation). x.op_key) w.operations
            (All-imp _ (λ (x : Operation). x.op_key ≢ o.op_key) w.operations
              (λ x h. ground (arith, eq_iff x.op_key o.op_key))
              (All-of_find-none (has_key o.op_key) w.operations absent))));
  fresh =
      rw (e, map-snoc (λ (x : Operation). x.id))
        (All-append (λ k. k < w'.next_id) (ids w) (o.id ∷ [])
          (All-imp (λ k. k < w.next_id) (λ k. k < w'.next_id) (ids w) (λ k h. omega arith) v.fresh)
          (omega arith, tt));
}

dispatched-SameRows :
    (cfg : Config) (now pk : ℕ) (r : Request) (w : World) → SameRows w (dispatched cfg now r pk w)
dispatched-SameRows cfg now pk r w =
    if_induction (λ v. SameRows w v) r.dispatch
      (λ _. send-SameRows cfg now pk (nonzero r.delay_seconds) w) (λ _. SameRows-refl w)

enqueue_at-IsValid :
    (cfg : Config) (now : ℕ) (r : Request) (found : Option Operation) (w : World)
    → IsValid w
    → find (has_key r.key) w.operations ≡ found
    → IsValid (enqueue_at cfg now r found w).1
unfolding enqueue_at
enqueue_at-IsValid cfg now r none w v e =
    SameRows-IsValid (unfold enqueue_at in dispatched-SameRows cfg now w.next_id r _)
      (append-IsValid (new_operation cfg now w.next_id r) w _ v refl e refl refl)
enqueue_at-IsValid cfg now r (some old) w v e =
    if_induction (λ (a : (Operation × Bool) × World). IsValid a.1) (is_revivable old.status)
      (λ _.
        SameRows-IsValid
          (SameRows-trans
            (update-SameRows (has_id old.id) (revived now r) w
              (record w { operations = update (has_id old.id) (revived now r) w.operations })
              (λ o. unfold revived in refl) (λ o. unfold revived in refl) refl refl)
            (unfold enqueue_at in dispatched-SameRows cfg now old.id r _))
          v)
      (λ _. v)

enqueue-IsValid :
    (cfg : Config) (now : ℕ) (r : Request) (w : World) → IsValid w → IsValid (enqueue cfg now r w).1
unfolding enqueue
enqueue-IsValid cfg now r w v =
    if_induction (λ (a : Option (Operation × Bool) × World). IsValid a.1)
      (is_one_of r.kind operation_kinds) (λ _. enqueue_at-IsValid cfg now r _ w v refl) (λ _. v)

-- One transaction. A worker concludes an operation with the copy that it holds, at any later time.
pub data Step (cfg : Config) (w : World) : World → Type 0 where
  enqueues : (now : ℕ) (r : Request) → Step cfg w (enqueue cfg now r w).1
  reserves : (now pk : ℕ) (worker : String) → Step cfg w (reserve now pk worker w).1
  concludes :
      (now : ℕ) (op : Operation) (outcome : Outcome) → Step cfg w (conclude now op outcome w).1
  dispatches : (now limit minutes : ℕ) → Step cfg w (dispatch_due cfg now limit minutes w).1
  releases : (now minutes : ℕ) → Step cfg w (release_stale now minutes w).1
  cancels :
      (now : ℕ) (op : Operation) (user : Option ℕ) (reason : String)
      → Step cfg w (cancel cfg now op user reason w).1
  retries :
      (now : ℕ) (op : Operation) (user : Option ℕ) → Step cfg w (retry_now cfg now op user w).1

pub data Reach (cfg : Config) (w : World) : World → Type 0 where
  here : Reach cfg w w
  next : {u v : World} → Reach cfg w u → Step cfg u v → Reach cfg w v

abbrev pub empty : World
empty = record { operations = []; next_id = 1; messages = []; audit = [] }

pub Step-IsValid : {cfg : Config} {w w' : World} → Step cfg w w' → IsValid w → IsValid w'
Step-IsValid {cfg} {w} (enqueues now r) v = enqueue-IsValid cfg now r w v
Step-IsValid {cfg} {w} (reserves now pk worker) v =
    SameRows-IsValid (reserve-SameRows now pk worker w) v
Step-IsValid {cfg} {w} (concludes now op outcome) v =
    SameRows-IsValid (conclude-SameRows now op outcome w) v
Step-IsValid {cfg} {w} (dispatches now limit minutes) v =
    SameRows-IsValid (dispatch_due-SameRows cfg now limit minutes w) v
Step-IsValid {cfg} {w} (releases now minutes) v =
    SameRows-IsValid (release_stale-SameRows now minutes w) v
Step-IsValid {cfg} {w} (cancels now op user reason) v =
    SameRows-IsValid (cancel-SameRows cfg now op user reason w) v
Step-IsValid {cfg} {w} (retries now op user) v =
    SameRows-IsValid (retry_now-SameRows cfg now op user w) v

-- Whatever the order of enqueuing, reserving, concluding, dispatching, releasing, discarding and
-- retrying, from the empty table on: no two operations have the same id or the same idempotency
-- key, and the next id is new.
pub Reach-IsValid : {cfg : Config} {w : World} → Reach cfg empty w → IsValid w
Reach-IsValid here = record { distinct_ids = tt; distinct_keys = tt; fresh = tt }
Reach-IsValid (next r s) = Step-IsValid s (Reach-IsValid r)
