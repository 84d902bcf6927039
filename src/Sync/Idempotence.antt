-- ===== src/Sync/Idempotence.antt =====
-- src/apps/sync/operations.py: `enqueue` with a key that was used before.
use mathlib.Core.Option
use text.Mathlib.TextPositions.{eq_refl}
use objekt_bernahme_automati.Prelude.{
  ℕ, ◌+◌, ==_iff, ◌≡◌, refl, ap, sym, ◌∙◌, Bool, true, false, Option, none, some, [], ◌∷◌, ◌++◌,
  String, arith, Bool-cases, inl, inr, if◌then◌else◌, if_induction,
}
use objekt_bernahme_automati.Prelude.Table.{find, update, find-update, find-snoc}
use objekt_bernahme_automati.Sync.Operation.{Operation, is_revivable, operation_kinds, is_one_of}
use objekt_bernahme_automati.Sync.Queue.{
  World, Config, Request, has_id, has_key, nonzero, new_operation, revived, send, dispatched,
  enqueue_at, enqueue,
}
use objekt_bernahme_automati.Sync.Dispatch.{operations-send, marked}

-- The key leads to a row that `enqueue` leaves alone.
abbrev Settled : String → ℕ → World → Type 0
Settled key id w =
    (o : Operation) × (find (has_key key) w.operations ≡ some o)
    × (is_revivable o.status ≡ false)
    × (o.id ≡ id)

send-Settled :
    (cfg : Config) (now pk : ℕ) (countdown : Option ℕ) (key : String) (id : ℕ) (w : World)
    → Settled key id w
    → Settled key id (send cfg now pk countdown w)
send-Settled cfg now pk countdown key id w (o, e, s, i) = (
  if has_id pk o then marked now o else o,
  rw (
    operations-send,
    find-update (has_key key) (has_id pk) (marked now) (λ x. refl) w.operations,
    e,
  ),
  ground arith,
  ground arith,
)

dispatched-Settled :
    (cfg : Config) (now pk : ℕ) (r : Request) (key : String) (id : ℕ) (w : World)
    → Settled key id w
    → Settled key id (dispatched cfg now r pk w)
dispatched-Settled cfg now pk r key id w h =
    if_induction (λ v. Settled key id v) r.dispatch
      (λ _. send-Settled cfg now pk (nonzero r.delay_seconds) key id w h) (λ _. h)

enqueue_at-Settled :
    (cfg : Config) (now : ℕ) (r : Request) (found : Option Operation) (w : World)
    → find (has_key r.key) w.operations ≡ found
    → Settled r.key (enqueue_at cfg now r found w).0.0.id (enqueue_at cfg now r found w).1
unfolding enqueue_at
enqueue_at-Settled cfg now r none w e =
    let o = new_operation cfg now w.next_id r in
    dispatched-Settled cfg now w.next_id r r.key w.next_id
      (record w { operations = w.operations ++ o ∷ []; next_id = w.next_id + 1 })
      (o, find-snoc (has_key r.key) w.operations o e (eq_refl r.key), refl, refl)
enqueue_at-Settled cfg now r (some old) w e = elim (Bool-cases (is_revivable old.status)) [
  | inl again ↦ rw again (
      dispatched-Settled cfg now old.id r r.key old.id
        (record w { operations = update (has_id old.id) (revived now r) w.operations })
        (
          revived now r old,
          find-update (has_key r.key) (has_id old.id) (revived now r) (λ x. refl) w.operations
              ∙ rw (e, (==_iff old.id old.id).1 refl),
          refl,
          refl,
        ))
  | inr kept ↦ rw kept (old, e, kept, refl)
]

-- A second call with the same key, after a call of a known kind, creates no row, sends no
-- message and changes nothing, whatever its other arguments and its time, if its kind is known
-- too; it answers with the row of the first call.
pub enqueue_again :
    (cfg : Config) (now now' : ℕ) (r r' : Request) (w : World)
    → is_one_of r.kind operation_kinds ≡ true
    → is_one_of r'.kind operation_kinds ≡ true
    → r'.key ≡ r.key
    → (o : Operation) × (enqueue cfg now' r' (enqueue cfg now r w).1
        ≡ (some (o, false), (enqueue cfg now r w).1))
      × (Option.map (λ (a : Operation × Bool). a.0.id) (enqueue cfg now r w).0 ≡ some o.id)
unfolding enqueue
enqueue_again cfg now now' r r' w k k' e =
    let (o, found, kept, i) =
      enqueue_at-Settled cfg now r (find (has_key r.key) w.operations) w refl in
    (o, rw (k, k', e, found, kept), rw k (ap some (sym i)))
