-- ===== src/Sync/Dispatch.antt =====
-- src/apps/sync/operations.py: the messages that `dispatch_due` sends.
use objekt_bernahme_automati.Prelude.{
  ℕ, suc, ◌+◌, ◌*◌, ◌-◌, ◌≤◌, max, ◌==◌, ◌≡◌, ◌≢◌, refl, sym, subst, Bool, true, false, Option,
  none, some, List, [], ◌∷◌, arith, Bool-cases, inl, inr, if_induction, length, length-map,
  length-take-le, take, All, All-map, All-imp, All-take,
}
use objekt_bernahme_automati.Prelude.Table.{
  update, count, select, order_by, All-select, All-order_by, All-update,
}
use objekt_bernahme_automati.Prelude.Keyed.{Distinct, count-update_row_le}
use objekt_bernahme_automati.Sync.Operation.{Operation}
use objekt_bernahme_automati.Sync.Queue.{
  World, Config, has_id, send, send_all, in_flight, dispatchable, by_priority, to_dispatch,
  dispatch_due,
}
use objekt_bernahme_automati.Sync.Validity.{ids, IsValid, send-SameRows}

abbrev pub marked : ℕ → Operation → Operation
marked now o = record o { dispatched_at = some now }

pub operations-send :
    (cfg : Config) (now pk : ℕ) (countdown : Option ℕ) (w : World)
    → (send cfg now pk countdown w).operations ≡ update (has_id pk) (marked now) w.operations
unfolding send
operations-send cfg now pk countdown w =
    if_induction (λ (v : World). v.operations ≡ update (has_id pk) (marked now) w.operations)
      cfg.dispatches (λ _. refl) (λ _. refl)

count-send_all :
    (q : Operation → Bool) (cfg : Config) (now : ℕ) (pks : List ℕ) (w : World)
    → Distinct (ids w)
    → count q (send_all cfg now pks w).operations ≤ count q w.operations + length pks
unfolding send_all
count-send_all q cfg now [] w d = omega arith
count-send_all q cfg now (pk ∷ pks) w d =
    let w' = send cfg now pk none w in
    let one : count q w'.operations ≤ suc (count q w.operations) =
      rw operations-send
        (count-update_row_le (λ (o : Operation). o.id) q (marked now) pk w.operations d) in
    let rest =
      count-send_all q cfg now pks w'
        (subst Distinct (sym (send-SameRows cfg now pk none w).same_ids) d) in
    omega arith

length-to_dispatch :
    (now limit minutes : ℕ) (w : World)
    → length (to_dispatch now limit minutes w) ≤ limit - count (in_flight now minutes) w.operations
length-to_dispatch now limit minutes w = rw (length-map (λ (o : Operation). o.id)) (
    length-take-le (limit - count (in_flight now minutes) w.operations)
      (order_by by_priority (select (dispatchable now minutes) w.operations)))

-- From a table with unique ids, after a dispatch at most `limit` operations are under way, or as
-- many as before if those were more. The number that it returns is at most what the limit left
-- free.
pub dispatch_due_bounded :
    (cfg : Config) (now limit minutes : ℕ) (w : World)
    → IsValid w
    → (count (in_flight now minutes) (dispatch_due cfg now limit minutes w).1.operations
        ≤ max limit (count (in_flight now minutes) w.operations))
      × ((dispatch_due cfg now limit minutes w).0
          ≤ limit - count (in_flight now minutes) w.operations)
unfolding dispatch_due
dispatch_due_bounded cfg now limit minutes w v =
    let n = length-to_dispatch now limit minutes w in
    let c =
      count-send_all (in_flight now minutes) cfg now (to_dispatch now limit minutes w) w
        v.distinct_ids in
    (omega arith, n)

-- The row with the id `pk` was sent at the time `now`.
abbrev SentAt : ℕ → ℕ → Operation → Type 0
SentAt now pk o = o.id ≡ pk → o.dispatched_at ≡ some now

send_all-SentAt :
    (cfg : Config) (now pk : ℕ) (pks : List ℕ) (w : World)
    → All (SentAt now pk) w.operations
    → All (SentAt now pk) (send_all cfg now pks w).operations
unfolding send_all
send_all-SentAt cfg now pk [] w h = h
send_all-SentAt cfg now pk (j ∷ pks) w h = send_all-SentAt cfg now pk pks (send cfg now j none w) (
    rw operations-send
      (All-update (SentAt now pk) (has_id j) (marked now) (λ o _ _ _. refl) w.operations h))

sent : (now pk : ℕ) (xs : List Operation) → All (SentAt now pk) (update (has_id pk) (marked now) xs)
sent now pk [] = tt
sent now pk (x ∷ xs) = elim (Bool-cases (x.id == pk)) [
  | inl e ↦ rw e ((λ _. refl), sent now pk xs)
  | inr e ↦ rw e ((λ i. ground arith), sent now pk xs)
]

All-sent :
    (cfg : Config) (now : ℕ) (pks : List ℕ) (w : World)
    → All (λ pk. All (SentAt now pk) (send_all cfg now pks w).operations) pks
unfolding send_all
All-sent cfg now [] w = tt
All-sent cfg now (pk ∷ pks) w = (
  send_all-SentAt cfg now pk pks (send cfg now pk none w)
      (rw operations-send (sent now pk w.operations)),
  All-sent cfg now pks (send cfg now pk none w),
)

-- What is sent is a row that is pending, due and not under way; facts about the rows carry over.
to_dispatch-All :
    (P : Operation → Type 0) (Q : ℕ → Type 0) (now limit minutes : ℕ) (w : World)
    → ((o : Operation) → P o → dispatchable now minutes o ≡ true → Q o.id)
    → All P w.operations
    → All Q (to_dispatch now limit minutes w)
to_dispatch-All P Q now limit minutes w k h =
    All-map Q (λ (o : Operation). o.id)
      (take (limit - count (in_flight now minutes) w.operations)
        (order_by by_priority (select (dispatchable now minutes) w.operations)))
      (All-take (λ (o : Operation). Q o.id) _ _
        (All-order_by (λ (o : Operation). Q o.id) by_priority _
          (All-imp (λ o. P o × (dispatchable now minutes o ≡ true)) (λ o. Q o.id) _
            (λ o g. k o g.0 g.1) (All-select P (dispatchable now minutes) w.operations h))))

under_way :
    (now now' minutes : ℕ) (o : Operation)
    → o.dispatched_at ≡ some now
    → now' ≤ now + 60 * minutes
    → dispatchable now' minutes o ≡ false
under_way now now' minutes o e h = ground arith

-- An operation that one dispatch has chosen is not chosen by another until the window of minutes
-- has passed.
pub dispatch_due_once :
    (cfg : Config) (now limit minutes now' limit' : ℕ) (w : World)
    → now' ≤ now + 60 * minutes
    → All
        (λ pk.
          All
            (λ pk'. pk ≢ pk')
            (to_dispatch now' limit' minutes (dispatch_due cfg now limit minutes w).1))
        (to_dispatch now limit minutes w)
unfolding dispatch_due
dispatch_due_once cfg now limit minutes now' limit' w h =
    let w' = send_all cfg now (to_dispatch now limit minutes w) w in
    All-imp _ _ (to_dispatch now limit minutes w)
      (λ pk s.
        to_dispatch-All (SentAt now pk) (λ pk'. pk ≢ pk') now' limit' minutes w'
          (λ o g d e. cc (under_way now now' minutes o (g (sym e)) h, d)) s)
      (All-sent cfg now (to_dispatch now limit minutes w) w)
