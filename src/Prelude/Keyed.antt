-- ===== src/Prelude/Keyed.antt =====
-- Tables whose rows carry a number of their own, such as an id column.
use objekt_bernahme_automati.Prelude.Tests.{◌==◌, ==_iff, if◌then◌else◌, Bool-cases}
use objekt_bernahme_automati.Prelude.Lists.{All, All-append, All-imp, All-zip, All-unmap}
use objekt_bernahme_automati.Prelude.Table.{exists, count, find, update}
use Prim.Native.Nat.{ℕ, suc, ◌≤◌}
use mathlib.Core.Path.{◌≡◌, refl, ap, subst}
use mathlib.Core.Logic.{inl, inr, ◌≢◌}
use mathlib.Core.Bool.{Bool, true, false, ◌&&◌}
use mathlib.Core.List.{List, [], ◌∷◌, ◌++◌, map}
use mathlib.Core.Option
use mathlib.Core.Option.{Option, none, some}
use native.Mathlib.Omega.{arith}

-- No number stands twice.
abbrev pub Distinct {ℓ} : {A : Type ℓ} → List A → Type ℓ
Distinct [] = Unit
Distinct (x ∷ xs) = All (λ y. x ≢ y) xs × Distinct xs

module _ {A : Type 0} (key : A → ℕ) where
  abbrev pub is_row : ℕ → A → Bool
  is_row k x = key x == k

  -- A table update is an update of the row that is looked up, when it keeps the key column.
  pub row-update :
      (p : A → Bool) (f : A → A)
      → ((x : A) → key (f x) ≡ key x)
      → (k : ℕ) (xs : List A)
      → find (is_row k) (update p f xs)
        ≡ Option.map (λ x. if p x then f x else x) (find (is_row k) xs)
  row-update p f h k [] = refl
  row-update p f h k (x ∷ xs) = ground (arith, row-update p f h k xs, h x)

  -- An update of rows with other keys leaves the row.
  pub row-update_others :
      (p : A → Bool) (f : A → A) (k : ℕ)
      → ((x : A) → key (f x) ≡ key x)
      → ((x : A) → p x ≡ true → key x ≢ k)
      → (xs : List A) → find (is_row k) (update p f xs) ≡ find (is_row k) xs
  row-update_others p f k h n [] = refl
  row-update_others p f k h n (x ∷ xs) = ground (arith, row-update_others p f k h n xs, h x, n x)

  absent :
      (k : ℕ) (x : A) (xs : List A)
      → (key x == k) ≡ true
      → All (λ j. key x ≢ j) (map key xs)
      → All (λ j. k ≢ j) (map key xs)
  absent k x xs e h = subst (λ i. All (λ j. i ≢ j) (map key xs)) ((==_iff (key x) k).0 e) h

  -- Behind a row with the key `k` no other row has it.
  no_row :
      (q : A → Bool) (k : ℕ) (xs : List A)
      → All (λ j. k ≢ j) (map key xs)
      → (exists (λ x. is_row k x && q x) xs ≡ false) × (find (is_row k) xs ≡ none)
  no_row q k [] h = (refl, refl)
  no_row q k (x ∷ xs) h = ground (arith, no_row q k xs h.1, h.0)

  abbrev pub holds_at : (A → Bool) → Option A → Bool
  holds_at q none = false
  holds_at q (some x) = q x

  -- "Some row with the key `k` passes `q`" is a test of the one row with that key.
  pub exists-row :
      (q : A → Bool) (k : ℕ) (xs : List A)
      → Distinct (map key xs)
      → exists (λ x. is_row k x && q x) xs ≡ holds_at q (find (is_row k) xs)
  exists-row q k [] h = refl
  exists-row q k (x ∷ xs) h = elim (Bool-cases (key x == k)) [
    | inl e ↦ rw e (ground (arith, no_row q k xs (absent k x xs e h.0)))
    | inr e ↦ rw e (exists-row q k xs h.1)
  ]

  pub update_absent :
      (f : A → A) (k : ℕ) (xs : List A)
      → All (λ j. k ≢ j) (map key xs)
      → update (is_row k) f xs ≡ xs
  update_absent f k [] h = refl
  update_absent f k (x ∷ xs) h = ground (arith, update_absent f k xs h.1, h.0)

  -- An update of one row changes a count by one at most.
  pub count-update_row_le :
      (q : A → Bool) (f : A → A) (k : ℕ) (xs : List A)
      → Distinct (map key xs)
      → count q (update (is_row k) f xs) ≤ suc (count q xs)
  count-update_row_le q f k [] h = ground arith
  count-update_row_le q f k (x ∷ xs) h = elim (Bool-cases (key x == k)) [
    | inl e ↦ rw (e, update_absent f k xs (absent k x xs e h.0)) (ground arith)
    | inr e ↦ rw e (ground (arith, count-update_row_le q f k xs h.1))
  ]

pub Distinct-snoc {ℓ} :
    {A : Type ℓ} (xs : List A) (y : A) → Distinct xs → All (λ x. x ≢ y) xs → Distinct (xs ++ y ∷ [])
Distinct-snoc [] y d h = (tt, tt)
Distinct-snoc (x ∷ xs) y d h =
    (All-append (λ z. x ≢ z) xs (y ∷ []) d.0 (h.0, tt), Distinct-snoc xs y d.1 h.1)

pub map-snoc {ℓ κ} :
    {A : Type ℓ} {B : Type κ} (f : A → B) (xs : List A) (y : A)
    → map f (xs ++ y ∷ []) ≡ map f xs ++ f y ∷ []
map-snoc f [] y = refl
map-snoc f (x ∷ xs) y = ap (λ l. f x ∷ l) (map-snoc f xs y)

module _ {A : Type 0} (key : A → ℕ) where
  -- A row is what its key finds.
  pub find-key :
      (xs : List A) → Distinct (map key xs) → All (λ x. find (is_row key (key x)) xs ≡ some x) xs
  find-key [] d = tt
  find-key (x ∷ xs) d = (
    rw ((==_iff (key x) (key x)).1 refl),
    All-imp (λ y. (key x ≢ key y) × (find (is_row key (key y)) xs ≡ some y))
        (λ y. find (is_row key (key y)) (x ∷ xs) ≡ some y) xs (λ y h. ground (arith, h.0, h.1))
        (All-zip (λ y. key x ≢ key y) (λ y. find (is_row key (key y)) xs ≡ some y) xs
          (All-unmap (λ k. key x ≢ k) key xs d.0) (find-key xs d.1)),
  )
