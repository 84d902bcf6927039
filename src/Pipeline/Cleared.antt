-- ===== src/Pipeline/Cleared.antt =====
-- src/apps/pipeline/jobs.py: the running jobs after the sweeper.
use mathlib.Core.Option.{some-injective}
use objekt_bernahme_automati.Prelude.{
  ℕ, ◌<◌, ◌==◌, ==_iff, ◌≡◌, refl, sym, ap, subst, ◌∙◌, Bool, true, false, ◌&&◌, Bool-cases, inl,
  inr, Option, none, some, List, [], ◌∷◌, All, All-imp, All-zip, leb, if◌then◌else◌, if_induction,
  arith,
}
use objekt_bernahme_automati.Prelude.Table.{
  exists, find, select, update, find_passes, All-of_find-none,
}
use objekt_bernahme_automati.Prelude.Keyed.{is_row, find-key}
use objekt_bernahme_automati.Pipeline.Job.{Job, is_running}
use objekt_bernahme_automati.Pipeline.World.{World, Config}
use objekt_bernahme_automati.Pipeline.Queue.{has_id, send}
use objekt_bernahme_automati.Pipeline.Ending.{write, mark_document_error}
use objekt_bernahme_automati.Pipeline.Sweep.{
  sweep_row, sweep_locked, sweep_all, sweep_stale_jobs, stale,
}
use objekt_bernahme_automati.Pipeline.Validity.{IsValid}
use objekt_bernahme_automati.Pipeline.Sweeping.{sweep_one-IsValid}

All-update_cases :
    {A : Type 0} (P Q : A → Type 0) (p : A → Bool) (f : A → A)
    → ((x : A) → p x ≡ true → P x → Q (f x))
    → ((x : A) → p x ≡ false → P x → Q x)
    → (xs : List A) → All P xs
    → All Q (update p f xs)
All-update_cases P Q p f h k [] a = tt
All-update_cases P Q p f h k (x ∷ xs) a = elim (Bool-cases (p x)) [
  | inl e ↦ rw e (h x e a.0, All-update_cases P Q p f h k xs a.1)
  | inr e ↦ rw e (k x e a.0, All-update_cases P Q p f h k xs a.1)
]

-- The rows with the id of a row that was read are that row.
read_same :
    (w : World) (pk : ℕ) (j : Job)
    → IsValid w
    → find (has_id pk) w.jobs ≡ some j
    → All (λ (row : Job). row.id ≡ pk → row ≡ j) w.jobs
read_same w pk j v e =
    All-imp (λ (x : Job). find (is_row (λ (y : Job). y.id) x.id) w.jobs ≡ some x) _ w.jobs
      (λ x g i.
        some-injective x j
          (sym g ∙ subst (λ n. find (is_row (λ (y : Job). y.id) n) w.jobs ≡ some j) (sym i) e))
      (find-key (λ (x : Job). x.id) w.jobs v.distinct)

module _ (cfg : Config) (now : ℕ) where
  -- A stale job with the id of a row stands among the jobs that the loop has yet to look at.
  abbrev listed : List Job → Job → Bool
  listed js row = exists (λ (k : Job). k.id == row.id && stale cfg now k) js

  -- A running row that is stale is still to be looked at.
  abbrev Awaits : List Job → Job → Type 0
  Awaits js row = is_running row.status ≡ true → stale cfg now row ≡ true → listed js row ≡ true

  abbrev AllAwait : List Job → World → Type 0
  AllAwait js w = All (Awaits js) w.jobs

  AllAwait-send :
      (js : List Job) (j : Job) (w : World) → AllAwait js w → AllAwait js (send cfg now j 0 w)
  unfolding send
  AllAwait-send js j w a =
      let m =
        All-update_cases (Awaits js) (Awaits js) (has_id j.id)
          (λ row. record row { dispatched_at = some now }) (λ _ _ k. k) (λ _ _ k. k) w.jobs a in
      if_induction (λ (u : World). AllAwait js u) cfg.dispatches (λ _. m) (λ _. m)

  other_row :
      (j row : Job) (js : List Job) → (row.id == j.id) ≡ false → Awaits (j ∷ js) row → Awaits js row
  other_row j row js e k r s = ground (arith, e, k r s)

  -- What the transaction writes is not running any more.
  AllAwait-write :
      (js : List Job) (j : Job) (f : Job → Job) (w : World)
      → ((row : Job) → is_running (f row).status ≡ false)
      → (jd : Job) → jd.id ≡ j.id
      → AllAwait (j ∷ js) w
      → AllAwait js (write jd f w)
  AllAwait-write js j f w h jd i a =
      All-update_cases (Awaits (j ∷ js)) (Awaits js) (has_id jd.id) f (λ row e k r s. cc (h row, r))
        (λ row e k. other_row j row js (rw i at e) k) w.jobs a

  AllAwait-sweep_row :
      (js : List Job) (j found : Job) (w : World)
      → found.id ≡ j.id
      → AllAwait (j ∷ js) w
      → AllAwait js (sweep_row cfg now found w).1
  unfolding sweep_row mark_document_error
  AllAwait-sweep_row js j found w i a =
      if_induction (λ (e : (ℕ × ℕ) × World). AllAwait js e.1)
        (leb found.max_attempts found.attempt_count)
        (λ _. AllAwait-write js j _ w (λ _. refl) found i a)
        (λ _. AllAwait-send js found _ (AllAwait-write js j _ w (λ _. refl) found i a))

  shrink :
      (j row : Job) (js : List Job) → stale cfg now j ≡ false → Awaits (j ∷ js) row → Awaits js row
  shrink j row js e k r s = ground (arith, e, k r s)

  AllAwait-sweep_locked :
      (js : List Job) (j : Job) (found : Option Job) (w : World)
      → IsValid w
      → find (has_id j.id) w.jobs ≡ found
      → AllAwait (j ∷ js) w
      → AllAwait js (sweep_locked cfg now found w).1
  unfolding sweep_locked
  AllAwait-sweep_locked js j none w v e a =
      All-imp (λ (row : Job). Awaits (j ∷ js) row × (has_id j.id row ≡ false)) (Awaits js) w.jobs
        (λ row k. other_row j row js k.1 k.0)
        (All-zip (Awaits (j ∷ js)) (λ (row : Job). has_id j.id row ≡ false) w.jobs a
          (All-of_find-none (has_id j.id) w.jobs e))
  AllAwait-sweep_locked js j (some found) w v e a =
      let i = (==_iff found.id j.id).0 (find_passes (has_id j.id) w.jobs found e) in
      if_induction (λ (u : (ℕ × ℕ) × World). AllAwait js u.1) (is_running found.status)
        (λ _. AllAwait-sweep_row js j found w i a)
        (λ idle.
          All-imp (λ (row : Job). Awaits (j ∷ js) row × (row.id ≡ j.id → row ≡ found)) (Awaits js)
            w.jobs (λ row k r s. idle_row js j row found idle k.0 k.1 r s)
            (All-zip (Awaits (j ∷ js)) (λ (row : Job). row.id ≡ j.id → row ≡ found) w.jobs a
              (read_same w j.id found v e)))
    where
      idle_row :
          (js : List Job) (j row found : Job)
          → is_running found.status ≡ false
          → Awaits (j ∷ js) row
          → (row.id ≡ j.id → row ≡ found)
          → Awaits js row
      idle_row js j row found idle k same r s = elim (Bool-cases (row.id == j.id)) [
        | inl e ↦
            let t = ap (λ (x : Job). is_running x.status) (same ((==_iff row.id j.id).0 e)) in
            cc (t, r, idle)
        | inr e ↦ other_row j row js e k r s
      ]

  AllAwait-sweep_one :
      (js : List Job) (j : Job) (w : World)
      → IsValid w
      → AllAwait (j ∷ js) w
      → AllAwait js
          (if stale cfg now j
            then sweep_locked cfg now (find (has_id j.id) w.jobs) w
            else ((0, 0), w)).1
  AllAwait-sweep_one js j w v a =
      if_induction (λ (u : (ℕ × ℕ) × World). AllAwait js u.1) (stale cfg now j)
        (λ _. AllAwait-sweep_locked js j _ w v refl a)
        (λ fresh. All-imp (Awaits (j ∷ js)) (Awaits js) w.jobs (λ row. shrink j row js fresh) a)

  -- No running job is without a sign of life.
  abbrev pub AllAlive : World → Type 0
  AllAlive w = All (λ (row : Job). is_running row.status ≡ true → stale cfg now row ≡ false) w.jobs

  AllAlive-of_AllAwait : (w : World) → AllAwait [] w → AllAlive w
  AllAlive-of_AllAwait w a =
      All-imp (Awaits []) (λ (row : Job). is_running row.status ≡ true → stale cfg now row ≡ false)
        w.jobs (λ row k r. alive (stale cfg now row) (k r)) a
    where
      alive : (b : Bool) → (b ≡ true → false ≡ true) → b ≡ false
      alive true k = sym (k refl)
      alive false k = refl

  AllAlive-sweep_all :
      (positive : 0 < cfg.max_attempts_default) (js : List Job) (n : ℕ × ℕ) (w : World)
      → IsValid w
      → AllAwait js w
      → AllAlive (sweep_all cfg now js n w).1
  unfolding sweep_all
  AllAlive-sweep_all positive [] n w v a = AllAlive-of_AllAwait w a
  AllAlive-sweep_all positive (j ∷ js) n w v a =
      AllAlive-sweep_all positive js _ _ (sweep_one-IsValid cfg positive now j w v)
        (AllAwait-sweep_one js j w v a)

  listed_more : (k row : Job) (js : List Job) → listed js row ≡ true → listed (k ∷ js) row ≡ true
  listed_more k row js e = ground (arith, e)

  -- At the start every running row is among the rows of the query.
  AllAwait-select : (xs : List Job) → All (Awaits (select (λ j. is_running j.status) xs)) xs
  AllAwait-select [] = tt
  AllAwait-select (x ∷ xs) = elim (Bool-cases (is_running x.status)) [
    | inl r ↦
        let rest = select (λ (j : Job). is_running j.status) xs in
        let e : select (λ (j : Job). is_running j.status) (x ∷ xs) ≡ x ∷ rest = rw r refl in
        subst (λ js. All (Awaits js) (x ∷ xs)) (sym e)
          (
            (λ _ s. rw ((==_iff x.id x.id).1 refl, s) refl),
            All-imp (Awaits rest) (Awaits (x ∷ rest)) xs
                (λ row k q s. listed_more x row rest (k q s)) (AllAwait-select xs),
          )
    | inr i ↦
        let rest = select (λ (j : Job). is_running j.status) xs in
        let e : select (λ (j : Job). is_running j.status) (x ∷ xs) ≡ rest = rw i refl in
        subst (λ js. All (Awaits js) (x ∷ xs)) (sym e) ((λ r s. cc (i, r)), AllAwait-select xs)
  ]

-- The sweeper leaves nothing hanging: from a valid job table, with a positive limit of attempts
-- for new jobs, no job is running afterwards whose last sign of life is at least as old as the
-- time that its type allows.
pub sweep_clears :
    (cfg : Config) (now : ℕ) (w : World)
    → 0 < cfg.max_attempts_default
    → IsValid w
    → AllAlive cfg now (sweep_stale_jobs cfg now w).1
unfolding sweep_stale_jobs
sweep_clears cfg now w positive v =
    AllAlive-sweep_all cfg now positive (select (λ j. is_running j.status) w.jobs) (0, 0) w v
      (AllAwait-select cfg now w.jobs)
