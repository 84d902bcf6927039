-- ===== src/Pipeline/Reservation.antt =====
-- src/apps/pipeline/jobs.py: `reserve`, by one worker and by several.
use mathlib.Core.Option.{some-injective}
use objekt_bernahme_automati.Prelude.{
  map, ℕ, ◌≤◌, ◌<◌, ◌==◌, ◌≡◌, refl, sym, ap, ◌∙◌, subst, true, false, Option, none, some, arith,
  Bool-cases, Option-cases, inl, inr,
}
use objekt_bernahme_automati.Prelude.Table.{find, update, exists, find_passes, All-find}
use objekt_bernahme_automati.Prelude.Keyed.{Distinct, row-update, exists-row, holds_at}
use objekt_bernahme_automati.Pipeline.Job.{Job}
use objekt_bernahme_automati.Pipeline.World.{World, Config}
use objekt_bernahme_automati.Pipeline.Queue.{has_id}
use objekt_bernahme_automati.Pipeline.Pickup.{is_free, reservable, locked, reserve}
use objekt_bernahme_automati.Pipeline.Validity.{Bounded, IsValid, IsCurrent, read-IsCurrent}
use objekt_bernahme_automati.Pipeline.Attempts.{reserve-IsValid}

module _ (cfg : Config) (now pk : ℕ) (w : World)
    (d : Distinct (map (λ (j : Job). j.id) w.jobs)) where
  exists-reservable :
      exists (reservable now pk) w.jobs
      ≡ holds_at (λ (j : Job). j.id) (is_free now) (find (has_id pk) w.jobs)
  exists-reservable = exists-row (λ (j : Job). j.id) (is_free now) pk w.jobs d

  -- A pending job that is due goes to the worker, as the row that the reservation leaves.
  pub reserve_due :
      (j : Job)
      → find (has_id pk) w.jobs ≡ some j
      → is_free now j ≡ true
      → ((reserve cfg now pk w).0 ≡ some (locked cfg now j))
        × (find (has_id pk) (reserve cfg now pk w).1.jobs ≡ some (locked cfg now j))
  unfolding reserve
  reserve_due j e h =
      let i : (j.id == pk) ≡ true = find_passes (has_id pk) w.jobs j e in
      let x : exists (reservable now pk) w.jobs ≡ true = exists-reservable ∙ rw e h in
      let a : find (has_id pk) (update (reservable now pk) (locked cfg now) w.jobs)
          ≡ some (locked cfg now j) =
        row-update (λ (o : Job). o.id) (reservable now pk) (locked cfg now) (λ _. refl) pk w.jobs
        ∙ rw (e, i, h) in
      rw (x, a) (refl, a)

  pub reserve_not_due :
      holds_at (λ (j : Job). j.id) (is_free now) (find (has_id pk) w.jobs) ≡ false
      → reserve cfg now pk w ≡ (none, w)
  unfolding reserve
  reserve_not_due h = rw (exists-reservable, h)

-- A job that is delivered twice is worked on once: in a valid job table, and with a positive
-- limit of attempts for new jobs, after a worker has reserved a job, a further reservation of
-- it, by any worker and at any time, gets nothing and changes nothing.
pub reserve_twice :
    (cfg : Config) (now pk : ℕ) (w : World) (j : Job) (w' : World) (cfg' : Config) (now' : ℕ)
    → IsValid w
    → 0 < cfg.max_attempts_default
    → reserve cfg now pk w ≡ (some j, w')
    → reserve cfg' now' pk w' ≡ (none, w')
reserve_twice cfg now pk w j w' cfg' now' v p e = elim (Option-cases (find (has_id pk) w.jobs)) [
  | inl missing ↦ cc (reserve_not_due cfg now pk w v.distinct (rw missing refl))
  | inr (o, found) ↦ elim (Bool-cases (is_free now o)) [
    | inl free ↦
        let e' : (reserve cfg now pk w).1 ≡ w' = ap (λ (r : Option Job × World). r.1) e in
        reserve_not_due cfg' now' pk w' (rw e' at (reserve-IsValid cfg p now pk w v)).distinct
          (rw (rw e' at (reserve_due cfg now pk w v.distinct o found free).1) refl)
    | inr busy ↦ cc (reserve_not_due cfg now pk w v.distinct (rw found busy))
  ]
]

-- What a worker knows of its copy of a job.
pub record IsReserved (j : Job) (w : World) : Type 0 where
  pub started : 0 < j.attempt_count
  pub within : j.attempt_count ≤ j.max_attempts
  pub current : IsCurrent j w
  pub known : j.id < w.next_job

pub reserve-IsReserved :
    (cfg : Config) (now pk : ℕ) (w : World) (j : Job) (w' : World)
    → IsValid w
    → 0 < cfg.max_attempts_default
    → reserve cfg now pk w ≡ (some j, w')
    → IsReserved j w'
reserve-IsReserved cfg now pk w j w' v p e = elim (Option-cases (find (has_id pk) w.jobs)) [
  | inl missing ↦ cc (reserve_not_due cfg now pk w v.distinct (rw missing refl))
  | inr (o, found) ↦ elim (Bool-cases (is_free now o)) [
    | inl free ↦
        let d = reserve_due cfg now pk w v.distinct o found free in
        let e0 : (reserve cfg now pk w).0 ≡ some j = ap (λ (r : Option Job × World). r.0) e in
        let e1 : (reserve cfg now pk w).1 ≡ w' = ap (λ (r : Option Job × World). r.1) e in
        let same : locked cfg now o ≡ j = some-injective (locked cfg now o) j (sym d.0 ∙ e0) in
        let b = (All-find Bounded (has_id pk) w.jobs v.bounded found).0 in
        subst (λ x. IsReserved x w') same
          (record {
            started = omega arith;
            within = ground (arith, b, free);
            current =
                read-IsCurrent w' pk (locked cfg now o)
                  (rw e1 at (reserve-IsValid cfg p now pk w v)) (rw e1 at d.1);
            known =
                (All-find (λ (x : Job). x.id < w'.next_job) (has_id pk) w'.jobs
                  (rw e1 at (reserve-IsValid cfg p now pk w v)).fresh (rw e1 at d.1)).0;
          })
    | inr busy ↦ cc (reserve_not_due cfg now pk w v.distinct (rw found busy))
  ]
]
