-- ===== src/Prelude/Table.antt =====
-- Database tables as lists of rows in the order of their ids: the queries and updates that the
-- program sends, with the laws that its proofs need.
use objekt_bernahme_automati.Prelude.Tests.{if◌then◌else◌, Bool-cases}
use objekt_bernahme_automati.Prelude.Lists.{length, All, IsIn, here, there}
use Prim.Native.Nat.{ℕ, suc, ◌+◌, ◌≤◌}
use mathlib.Core.Path.{◌≡◌, refl, ap, ap₂, subst}
use mathlib.Core.Logic.{inl, inr}
use mathlib.Core.Bool.{Bool, true, false, ◌||◌}
use mathlib.Core.List.{List, [], ◌∷◌, ◌++◌, map}
use mathlib.Core.Option
use mathlib.Core.Option.{Option, none, some, some-injective, some-ne-none}
use native.Mathlib.Omega.{arith}

module _ {ℓ} {A : Type ℓ} where
  -- `filter(p).exists()`
  abbrev pub exists : (A → Bool) → List A → Bool
  exists p [] = false
  exists p (x ∷ xs) = p x || exists p xs

  -- `filter(p)`
  abbrev pub select : (A → Bool) → List A → List A
  select p [] = []
  select p (x ∷ xs) = let rest = select p xs in if p x then x ∷ rest else rest

  -- `filter(p).count()`
  abbrev pub count : (A → Bool) → List A → ℕ
  count p [] = 0
  count p (x ∷ xs) = (if p x then 1 else 0) + count p xs

  -- `filter(p).first()`
  abbrev pub find : (A → Bool) → List A → Option A
  find p [] = none
  find p (x ∷ xs) = let rest = find p xs in if p x then some x else rest

  -- `filter(p).update(f)`
  abbrev pub update : (A → Bool) → (A → A) → List A → List A
  update p f [] = []
  update p f (x ∷ xs) = (if p x then f x else x) ∷ update p f xs

  -- `order_by`: rows that compare equal stay in the order of their ids.
  abbrev pub insert_by : (A → A → Bool) → A → List A → List A
  insert_by before x [] = x ∷ []
  insert_by before x (y ∷ ys) =
      let later = y ∷ insert_by before x ys in if before x y then x ∷ y ∷ ys else later

  abbrev pub order_by : (A → A → Bool) → List A → List A
  order_by before [] = []
  order_by before (x ∷ xs) = insert_by before x (order_by before xs)

module _ {ℓ} {A : Type ℓ} where
  pub length-update : (p : A → Bool) (f : A → A) (xs : List A) → length (update p f xs) ≡ length xs
  length-update p f [] = refl
  length-update p f (x ∷ xs) = ap suc (length-update p f xs)

  pub count-append : (p : A → Bool) (xs ys : List A) → count p (xs ++ ys) ≡ count p xs + count p ys
  count-append p [] ys = omega arith
  count-append p (x ∷ xs) ys = omega (arith, count-append p xs ys)

  pub length-select : (p : A → Bool) (xs : List A) → length (select p xs) ≡ count p xs
  length-select p [] = refl
  length-select p (x ∷ xs) = ground (arith, length-select p xs)

  -- An update that keeps a column leaves the column's list of values.
  pub map-update {κ} :
      {B : Type κ} (key : A → B) (p : A → Bool) (f : A → A)
      → ((x : A) → key (f x) ≡ key x)
      → (xs : List A) → map key (update p f xs) ≡ map key xs
  map-update key p f h [] = refl
  map-update key p f h (x ∷ xs) = elim (Bool-cases (p x)) [
    | inl e ↦ rw e (ap₂ ◌∷◌ (h x) (map-update key p f h xs))
    | inr e ↦ rw e (ap (λ l. key x ∷ l) (map-update key p f h xs))
  ]

  -- A row property is kept by an update whose new rows have it.
  pub All-update {κ} :
      (P : A → Type κ) (p : A → Bool) (f : A → A)
      → ((x : A) → p x ≡ true → P x → P (f x))
      → (xs : List A) → All P xs
      → All P (update p f xs)
  All-update P p f k [] h = tt
  All-update P p f k (x ∷ xs) h = elim (Bool-cases (p x)) [
    | inl e ↦ rw e (k x e h.0, All-update P p f k xs h.1)
    | inr e ↦ rw e (h.0, All-update P p f k xs h.1)
  ]

  -- An update of rows that a test does not count, into rows that it does not count.
  pub count-update-le :
      (q p : A → Bool) (f : A → A)
      → ((x : A) → q (f x) ≡ true → q x ≡ true)
      → (xs : List A) → count q (update p f xs) ≤ count q xs
  count-update-le q p f h [] = omega arith
  count-update-le q p f h (x ∷ xs) = ground (arith, count-update-le q p f h xs, h x)

  -- What a query finds is a row of the table that passes the test.
  pub All-find {κ} :
      (P : A → Type κ) (p : A → Bool) (xs : List A) {x : A}
      → All P xs
      → find p xs ≡ some x
      → P x × (p x ≡ true)
  All-find P p [] h e = cc
  All-find P p (y ∷ ys) {x} h e = elim (Bool-cases (p y)) [
    | inl t ↦ (
      subst P (some-injective y x (rw t at e)) h.0,
      subst (λ z. p z ≡ true) (some-injective y x (rw t at e)) t,
    )
    | inr t ↦ All-find P p ys h.1 (rw t at e)
  ]

  pub All-of_find-none : (p : A → Bool) (xs : List A) → find p xs ≡ none → All (λ x. p x ≡ false) xs
  All-of_find-none p [] e = tt
  All-of_find-none p (x ∷ xs) e = elim (Bool-cases (p x)) [
    | inl t ↦ absurd (some-ne-none x (rw t at e))
    | inr t ↦ (t, All-of_find-none p xs (rw t at e))
  ]

  pub All-select {κ} :
      (P : A → Type κ) (p : A → Bool) (xs : List A)
      → All P xs
      → All (λ x. P x × (p x ≡ true)) (select p xs)
  All-select P p [] h = tt
  All-select P p (x ∷ xs) h = elim (Bool-cases (p x)) [
    | inl e ↦ rw e ((h.0, e), All-select P p xs h.1)
    | inr e ↦ rw e (All-select P p xs h.1)
  ]

  pub All-insert_by {κ} :
      (P : A → Type κ) (before : A → A → Bool) (x : A) (xs : List A)
      → P x
      → All P xs
      → All P (insert_by before x xs)
  All-insert_by P before x [] hx h = (hx, tt)
  All-insert_by P before x (y ∷ ys) hx h = elim (Bool-cases (before x y)) [
    | inl e ↦ rw e (hx, h)
    | inr e ↦ rw e (h.0, All-insert_by P before x ys hx h.1)
  ]

  pub All-order_by {κ} :
      (P : A → Type κ) (before : A → A → Bool) (xs : List A) → All P xs → All P (order_by before xs)
  All-order_by P before [] h = tt
  All-order_by P before (x ∷ xs) h =
      All-insert_by P before x (order_by before xs) h.0 (All-order_by P before xs h.1)

  -- An update that a query does not notice changes the row that it finds.
  pub find-update :
      (q p : A → Bool) (f : A → A)
      → ((x : A) → q (f x) ≡ q x)
      → (xs : List A)
      → find q (update p f xs) ≡ Option.map (λ x. if p x then f x else x) (find q xs)
  find-update q p f h [] = refl
  find-update q p f h (x ∷ xs) = ground (arith, find-update q p f h xs, h x)

  pub find-snoc :
      (q : A → Bool) (xs : List A) (y : A)
      → find q xs ≡ none
      → q y ≡ true
      → find q (xs ++ y ∷ []) ≡ some y
  find-snoc q [] y e t = rw t
  find-snoc q (x ∷ xs) y e t = elim (Bool-cases (q x)) [
    | inl b ↦ absurd (some-ne-none x (rw b at e))
    | inr b ↦ rw b (find-snoc q xs y (rw b at e) t)
  ]

  pub find_passes : (q : A → Bool) (xs : List A) (x : A) → find q xs ≡ some x → q x ≡ true
  find_passes q xs x e = (All-find (λ y. Unit {0}) q xs (All-unit xs) e).1
    where
      All-unit : (ys : List A) → All (λ y. Unit {0}) ys
      All-unit [] = tt
      All-unit (y ∷ ys) = (tt, All-unit ys)

  All-of_insert_by {κ} :
      (P : A → Type κ) (before : A → A → Bool) (x : A) (xs : List A)
      → All P (insert_by before x xs)
      → P x × All P xs
  All-of_insert_by P before x [] h = (h.0, tt)
  All-of_insert_by P before x (y ∷ ys) h = elim (Bool-cases (before x y)) [
    | inl e ↦ rw e at h
    | inr e ↦
        let k : P y × All P (insert_by before x ys) = rw e at h in
        let r = All-of_insert_by P before x ys k.1 in (r.0, (k.0, r.1))
  ]

  pub All-of_order_by {κ} :
      (P : A → Type κ) (before : A → A → Bool) (xs : List A) → All P (order_by before xs) → All P xs
  All-of_order_by P before [] h = tt
  All-of_order_by P before (x ∷ xs) h =
      let r = All-of_insert_by P before x (order_by before xs) h in
      (r.0, All-of_order_by P before xs r.1)

module _ {ℓ} {A : Type ℓ} (p : A → Bool) (f : A → A) where
  pub IsIn-updated : {x : A} {xs : List A} → p x ≡ true → IsIn x xs → IsIn (f x) (update p f xs)
  IsIn-updated e here = rw e here
  IsIn-updated e (there m) = there (IsIn-updated e m)

  pub IsIn-not_updated : {x : A} {xs : List A} → p x ≡ false → IsIn x xs → IsIn x (update p f xs)
  IsIn-not_updated e here = rw e here
  IsIn-not_updated e (there m) = there (IsIn-not_updated e m)
