-- ===== src/Sync/Control.antt =====
-- src/apps/sync/operations.py: the user's two commands, `cancel` and `retry_now`, and what workers
-- do afterwards.
use objekt_bernahme_automati.Prelude.{
  ℕ, ◌≤◌, ==_iff, ◌≡◌, refl, ap, ◌∙◌, Bool, true, false, not, Option, none, some, String, arith,
  Bool-cases, Option-cases, inl, inr,
}
use objekt_bernahme_automati.Prelude.Table.{update, exists}
use objekt_bernahme_automati.Prelude.Keyed.{exists-row, holds_at}
use objekt_bernahme_automati.Sync.Operation.{Operation, is_running, is_cancellable}
use objekt_bernahme_automati.Sync.Queue.{World, Config, has_id, is_free, reserve}
use objekt_bernahme_automati.Sync.Manual.{
  cancel, cancellable, discarded, retry_now, not_running, rearmed,
}
use objekt_bernahme_automati.Sync.Dispatch.{operations-send, marked}
use objekt_bernahme_automati.Sync.Validity.{IsValid, SameRows-IsValid}
use objekt_bernahme_automati.Sync.Steps.{cancel-SameRows, retry_now-SameRows}
use objekt_bernahme_automati.Sync.Reservation.{
  row, row-update_rows, find_id, reserved, reserve_free, reserve_refused,
}

-- In a table with unique ids, a running operation is out of the user's reach: neither discarding
-- it nor retrying it at once does anything to the world.
pub running_is_safe :
    (cfg : Config) (now : ℕ) (op : Operation) (user : Option ℕ) (reason : String) (w : World)
    (o : Operation)
    → IsValid w
    → row op.id w ≡ some o
    → is_running o.status ≡ true
    → (cancel cfg now op user reason w ≡ (false, w)) × (retry_now cfg now op user w ≡ (false, w))
unfolding cancel retry_now
running_is_safe cfg now op user reason w o v e h =
    let c : exists (cancellable op.id) w.operations ≡ false =
      exists-row (λ (x : Operation). x.id) (λ x. is_cancellable x.status) op.id w.operations
        v.distinct_ids
      ∙ rw e (ground arith) in
    let n : exists (not_running op.id) w.operations ≡ false =
      exists-row (λ (x : Operation). x.id) (λ x. not (is_running x.status)) op.id w.operations
        v.distinct_ids
      ∙ rw (e, h) in
    (rw c, rw n)

-- In a table with unique ids, an operation that is not running is queued afresh by the user's
-- retry: it can be reserved from that moment on, and that is its first attempt.
pub retry_now_starts :
    (cfg : Config) (now now' : ℕ) (op : Operation) (user : Option ℕ) (worker : String) (w : World)
    (o : Operation)
    → IsValid w
    → row op.id w ≡ some o
    → is_running o.status ≡ false
    → now ≤ now'
    → (r : Operation) × ((retry_now cfg now op user w).0 ≡ true)
      × ((reserve now' op.id worker (retry_now cfg now op user w).1).0 ≡ some r)
      × (r.attempt_count ≡ 1)
retry_now_starts cfg now now' op user worker w o v e h k =
    let n : exists (not_running op.id) w.operations ≡ true =
      exists-row (λ (x : Operation). x.id) (λ x. not (is_running x.status)) op.id w.operations
        v.distinct_ids
      ∙ rw (e, h) in
    let u = (retry_now cfg now op user w).1 in
    let i = find_id op.id w.operations o e in
    let f : row op.id u ≡ some (marked now (rearmed now o)) =
      unfold retry_now in
      rw (n, operations-send)
        (row-update_rows (has_id op.id) (marked now) op.id
            (record w { operations = update (not_running op.id) (rearmed now) w.operations })
            (λ x. refl)
          ∙ rw
              (
                row-update_rows (not_running op.id) (rearmed now) op.id w (λ x. refl),
                e,
                (==_iff o.id op.id).1 i,
                h,
              )
              (rw ((==_iff o.id op.id).1 i))) in
    (
      reserved now' worker (marked now (rearmed now o)),
      unfold retry_now in rw n,
      (reserve_free now' op.id worker u (SameRows-IsValid (retry_now-SameRows cfg now op user w) v)
          (marked now (rearmed now o)) f (ground arith)).0,
      refl,
    )

module _ (cfg : Config) (now : ℕ) (op : Operation) (user : Option ℕ) (reason : String) (w : World)
    (v : IsValid w) where
  exists-cancellable :
      exists (cancellable op.id) w.operations
      ≡ holds_at (λ (x : Operation). x.id) (λ x. is_cancellable x.status) (row op.id w)
  exists-cancellable =
      exists-row (λ (x : Operation). x.id) (λ x. is_cancellable x.status) op.id w.operations
        v.distinct_ids

  cancelled_row :
      (now' : ℕ) (o : Operation)
      → row op.id w ≡ some o
      → is_cancellable o.status ≡ true
      → holds_at
          (λ (x : Operation). x.id)
          (is_free now')
          (row op.id (cancel cfg now op user reason w).1)
        ≡ false
  unfolding cancel
  cancelled_row now' o e h =
      rw (exists-cancellable, e, h)
        (rw
          (
            row-update_rows (cancellable op.id) (discarded now reason op.blocked_reason) op.id w
                (λ x. refl),
            e,
            (==_iff o.id op.id).1 (find_id op.id w.operations o e),
            h,
          )
          refl)

  cancel_refused :
      holds_at (λ (x : Operation). x.id) (λ x. is_cancellable x.status) (row op.id w) ≡ false
      → cancel cfg now op user reason w ≡ (false, w)
  unfolding cancel
  cancel_refused h = rw (exists-cancellable, h)

-- In a table with unique ids, an operation that was discarded is not run afterwards: no
-- reservation gets it, and the attempt changes nothing.
pub cancelled_stays :
    (cfg : Config) (now now' : ℕ) (op : Operation) (user : Option ℕ) (reason worker : String)
    (w w' : World)
    → IsValid w
    → cancel cfg now op user reason w ≡ (true, w')
    → reserve now' op.id worker w' ≡ (none, w')
cancelled_stays cfg now now' op user reason worker w w' v e = elim (Option-cases (row op.id w)) [
  | inl missing ↦ cc (cancel_refused cfg now op user reason w v (rw missing refl))
  | inr (o, found) ↦ elim (Bool-cases (is_cancellable o.status)) [
    | inl was_open ↦
        let e' : (cancel cfg now op user reason w).1 ≡ w' = ap (λ (r : Bool × World). r.1) e in
        reserve_refused now' op.id worker w'
          (rw e' at (SameRows-IsValid (cancel-SameRows cfg now op user reason w) v))
          (rw e' at (cancelled_row cfg now op user reason w v now' o found was_open))
    | inr was_shut ↦ cc (cancel_refused cfg now op user reason w v (rw found was_shut))
  ]
]
