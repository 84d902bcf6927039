-- ===== src/Sync/Retries.antt =====
-- src/apps/sync/operations.py: an operation that fails again and again, and one whose workers get
-- lost.
use objekt_bernahme_automati.Prelude.{
  ℕ, ◌+◌, ◌≤◌, ◌<◌, ◌≡◌, refl, ◌∙◌, true, false, Option, some, List, [], ◌∷◌, String, arith, length,
  leb, prefix,
}
use objekt_bernahme_automati.Sync.Operation.{Operation, Outcome, retry, failed, retry_delay}
use objekt_bernahme_automati.Sync.Queue.{World, is_free, reserve, stale, released, release_stale}
use objekt_bernahme_automati.Sync.Worker.{Handler, waiting, run}
use objekt_bernahme_automati.Sync.Backoff.{retry_delay_bounds}
use objekt_bernahme_automati.Sync.Validity.{IsValid, SameRows-IsValid, reserve-SameRows}
use objekt_bernahme_automati.Sync.Steps.{conclude-SameRows, release_stale-SameRows}
use objekt_bernahme_automati.Sync.Reservation.{row, row-update_rows, reserved, reserve_free}
use objekt_bernahme_automati.Sync.Attempts.{after, run_lem, row-run}

-- A handler that meets a temporary error each time, and changes nothing.
abbrev pub failing : (Operation → String) → (Operation → Option ℕ) → Handler
failing reason seconds op w = (retry (reason op) (seconds op), w)

-- Runs of one operation, each with the clock at its reservation and at its end.
pub runs : (String → Option Handler) → ℕ → String → List (ℕ × ℕ) → World → World
runs handlers pk worker [] w = w
runs handlers pk worker ((start, end) ∷ times) w =
    runs handlers pk worker times (run handlers start end pk worker w).1

-- Each run starts an hour or more after the end of the one before, so that no wait is left.
abbrev pub Spaced : ℕ → List (ℕ × ℕ) → Type 0
Spaced earliest [] = Unit
Spaced earliest ((start, end) ∷ times) = (earliest ≤ start) × Spaced (end + 3600) times

abbrev ReadyAt : ℕ → Operation → Type 0
ReadyAt t o = (now : ℕ) → t ≤ now → is_free now o ≡ true

module _ (handlers : String → Option Handler) (pk : ℕ) (worker : String)
    (reason : Operation → String) (seconds : Operation → Option ℕ) where
  failing-runs :
      (times : List (ℕ × ℕ)) (earliest : ℕ) (w : World) (o : Operation)
      → handlers o.kind ≡ some (failing reason seconds)
      → IsValid w
      → row pk w ≡ some o
      → ReadyAt earliest o
      → 0 < length times
      → o.attempt_count + length times ≡ o.max_attempts
      → Spaced earliest times
      → (r : Operation) × (row pk (runs handlers pk worker times w) ≡ some r)
        × (r.status ≡ failed)
        × (r.attempt_count ≡ r.max_attempts)
  unfolding runs
  failing-runs [] earliest w o h v e ready some_run total spaced = absurd (omega arith)
  failing-runs ((start, end) ∷ []) earliest w o h v e ready some_run total spaced =
      let op = reserved start worker o in
      let u = (reserve start pk worker w).1 in
      let outcome : Outcome = retry (reason op) (seconds op) in
      let last : leb op.max_attempts op.attempt_count ≡ true = ground arith in
      (
        after end op outcome op,
        row-run handlers start end pk worker w o (failing reason seconds) outcome u v e
            (ready start spaced.0) h refl refl,
        rw last,
        rw last (omega arith),
      )
  failing-runs ((start, end) ∷ (t ∷ times)) earliest w o h v e ready some_run total spaced =
      let op = reserved start worker o in
      let u = (reserve start pk worker w).1 in
      let outcome : Outcome = retry (reason op) (seconds op) in
      let free = ready start spaced.0 in
      let l =
        run_lem handlers start end pk worker w o (failing reason seconds) outcome u v e free h
          refl in
      let e' =
        row-run handlers start end pk worker w o (failing reason seconds) outcome u v e free h refl
          refl in
      let more : leb op.max_attempts op.attempt_count ≡ false = ground arith in
      let n : Operation =
        waiting (end + retry_delay op.attempt_count (seconds op)) (prefix 500 (reason op)) op in
      failing-runs (t ∷ times) (end + 3600) (run handlers start end pk worker w).1 n h
        (rw l (
          SameRows-IsValid (conclude-SameRows end op outcome u)
            (SameRows-IsValid (reserve-SameRows start pk worker w) v)))
        (e' ∙ rw more) (λ now k. ground (arith, retry_delay_bounds op.attempt_count (seconds op)))
        (omega arith) (omega arith) spaced.1

-- An operation whose handler fails temporarily each time is not retried for ever: pending and
-- due in a table with unique ids, with at least one attempt left, after as many runs as it has
-- attempts left, each an hour after the one before, it has ended as failed, and its attempts are
-- used up exactly.
pub retries_end :
    (handlers : String → Option Handler) (pk : ℕ) (worker : String) (reason : Operation → String)
    (seconds : Operation → Option ℕ) (times : List (ℕ × ℕ)) (earliest : ℕ) (w : World)
    (o : Operation)
    → handlers o.kind ≡ some (failing reason seconds)
    → IsValid w
    → row pk w ≡ some o
    → is_free earliest o ≡ true
    → 0 < length times
    → o.attempt_count + length times ≡ o.max_attempts
    → Spaced earliest times
    → (r : Operation) × (row pk (runs handlers pk worker times w) ≡ some r)
      × (r.status ≡ failed)
      × (r.attempt_count ≡ r.max_attempts)
retries_end handlers pk worker reason seconds times earliest w o h v e free some_run total spaced =
    failing-runs handlers pk worker reason seconds times earliest w o h v e (λ now k. ground arith)
      some_run total spaced

-- A worker that is lost does not count. In a table with unique ids, a running operation whose
-- attempts are used up, and whose worker has given no sign of life within the window, is
-- released and can be reserved once more, with one attempt beyond its limit.
pub release_beyond_limit :
    (now minutes now' pk : ℕ) (worker : String) (w : World) (o : Operation)
    → IsValid w
    → row pk w ≡ some o
    → stale now minutes o ≡ true
    → o.max_attempts ≤ o.attempt_count
    → now ≤ now'
    → (op : Operation) × ((reserve now' pk worker (release_stale now minutes w).1).0 ≡ some op)
      × (op.max_attempts < op.attempt_count)
unfolding release_stale
release_beyond_limit now minutes now' pk worker w o v e s used h =
    let n = released now o in
    let u = (release_stale now minutes w).1 in
    (
      reserved now' worker n,
      (reserve_free now' pk worker u (SameRows-IsValid (release_stale-SameRows now minutes w) v) n
          (row-update_rows (stale now minutes) (released now) pk w (λ x. refl) ∙ rw (e, s))
          (ground arith)).0,
      omega arith,
    )
