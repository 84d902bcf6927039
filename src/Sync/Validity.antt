-- ===== src/Sync/Validity.antt =====
-- src/apps/sync/operations.py: the invariant of the operation list, on its ids and keys.
use objekt_bernahme_automati.Prelude.{
  ℕ, ◌<◌, ◌≡◌, refl, sym, subst, ◌∙◌, Bool, Option, none, some, List, [], ◌∷◌, map, String, All,
  if_induction,
}
use objekt_bernahme_automati.Prelude.Table.{update, map-update, exists}
use objekt_bernahme_automati.Prelude.Keyed.{Distinct}
use objekt_bernahme_automati.Sync.Operation.{Operation}
use objekt_bernahme_automati.Sync.Queue.{
  World, Config, send, send_all, reserve, count_attempt, reservable,
}

abbrev pub ids : World → List ℕ
ids w = map (λ (o : Operation). o.id) w.operations

abbrev pub keys : World → List String
keys w = map (λ (o : Operation). o.op_key) w.operations

-- The rows' ids are unique and below the next one, and so are the idempotency keys.
pub record IsValid (w : World) : Type 0 where
  pub distinct_ids : Distinct (ids w)
  pub distinct_keys : Distinct (keys w)
  pub fresh : All (λ i. i < w.next_id) (ids w)

-- The two worlds have rows with the same ids and keys, in the same order.
pub record SameRows (w w' : World) : Type 0 where
  pub same_ids : ids w' ≡ ids w
  pub same_keys : keys w' ≡ keys w
  pub same_next : w'.next_id ≡ w.next_id

pub SameRows-IsValid : {w w' : World} → SameRows w w' → IsValid w → IsValid w'
SameRows-IsValid s v = record {
  distinct_ids = subst Distinct (sym s.same_ids) v.distinct_ids;
  distinct_keys = subst Distinct (sym s.same_keys) v.distinct_keys;
  fresh = rw (s.same_next, s.same_ids) v.fresh;
}

pub SameRows-refl : (w : World) → SameRows w w
SameRows-refl w = record { same_ids = refl; same_keys = refl; same_next = refl }

pub SameRows-trans : {u v w : World} → SameRows u v → SameRows v w → SameRows u w
SameRows-trans a b = record {
  same_ids = b.same_ids ∙ a.same_ids;
  same_keys = b.same_keys ∙ a.same_keys;
  same_next = b.same_next ∙ a.same_next;
}

-- An UPDATE that leaves the two columns alone.
pub update-SameRows :
    (p : Operation → Bool) (f : Operation → Operation) (w w' : World)
    → ((o : Operation) → (f o).id ≡ o.id)
    → ((o : Operation) → (f o).op_key ≡ o.op_key)
    → w'.operations ≡ update p f w.operations
    → w'.next_id ≡ w.next_id
    → SameRows w w'
update-SameRows p f w w' hi hk e n = record {
  same_ids = rw e (map-update (λ (o : Operation). o.id) p f hi w.operations);
  same_keys = rw e (map-update (λ (o : Operation). o.op_key) p f hk w.operations);
  same_next = n;
}

pub send-SameRows :
    (cfg : Config) (now pk : ℕ) (countdown : Option ℕ) (w : World)
    → SameRows w (send cfg now pk countdown w)
unfolding send
send-SameRows cfg now pk countdown w =
    if_induction (λ v. SameRows w v) cfg.dispatches
      (λ _. update-SameRows _ _ w _ (λ o. refl) (λ o. refl) refl refl)
      (λ _. update-SameRows _ _ w _ (λ o. refl) (λ o. refl) refl refl)

pub send_all-SameRows :
    (cfg : Config) (now : ℕ) (pks : List ℕ) (w : World) → SameRows w (send_all cfg now pks w)
unfolding send_all
send_all-SameRows cfg now [] w = SameRows-refl w
send_all-SameRows cfg now (pk ∷ pks) w =
    SameRows-trans (send-SameRows cfg now pk none w)
      (send_all-SameRows cfg now pks (send cfg now pk none w))

pub count_attempt-SameRows :
    (found : Option Operation) (w : World) → SameRows w (count_attempt found w).1
count_attempt-SameRows none w = SameRows-refl w
count_attempt-SameRows (some o) w = update-SameRows _ _ w _ (λ o. refl) (λ o. refl) refl refl

pub reserve-SameRows :
    (now pk : ℕ) (worker : String) (w : World) → SameRows w (reserve now pk worker w).1
unfolding reserve
reserve-SameRows now pk worker w =
    if_induction (λ (r : Option Operation × World). SameRows w r.1)
      (exists (reservable now pk) w.operations)
      (λ _.
        SameRows-trans (update-SameRows _ _ w _ (λ o. refl) (λ o. refl) refl refl)
          (count_attempt-SameRows _ _))
      (λ _. SameRows-refl w)
