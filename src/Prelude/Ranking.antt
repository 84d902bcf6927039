-- ===== src/Prelude/Ranking.antt =====
-- Rows that are sorted by a score, the highest first.
use Prim.Native.Nat.{ℕ, ◌≤◌}
use mathlib.Core.Path.{◌≡◌, refl}
use mathlib.Core.Logic.{inl, inr}
use mathlib.Core.Bool.{Bool, true, false}
use mathlib.Core.List.{List, [], ◌∷◌}
use native.Mathlib.Omega.{arith}
use objekt_bernahme_automati.Prelude.Tests.{Bool-cases}
use objekt_bernahme_automati.Prelude.Lists.{All, All-imp}
use objekt_bernahme_automati.Prelude.Table.{count, insert_by, order_by, All-insert_by}

module _ {ℓ} {A : Type ℓ} where
  -- No later row has a higher score.
  abbrev pub IsRanked : (A → ℕ) → List A → Type ℓ
  IsRanked score [] = Unit
  IsRanked score (x ∷ xs) = All (λ y. score y ≤ score x) xs × IsRanked score xs

  pub count-insert_by :
      (before : A → A → Bool) (p : A → Bool) (x : A) (xs : List A)
      → count p (insert_by before x xs) ≡ count p (x ∷ xs)
  count-insert_by before p x [] = refl
  count-insert_by before p x (y ∷ ys) = ground (arith, count-insert_by before p x ys)

  pub count-order_by :
      (before : A → A → Bool) (p : A → Bool) (xs : List A)
      → count p (order_by before xs) ≡ count p xs
  count-order_by before p [] = refl
  count-order_by before p (x ∷ xs) =
      omega (arith, count-insert_by before p x (order_by before xs), count-order_by before p xs)

module _ {ℓ} {A : Type ℓ} (score : A → ℕ) (before : A → A → Bool)
    (higher : (x y : A) → before x y ≡ true → score y ≤ score x)
    (lower : (x y : A) → before x y ≡ false → score x ≤ score y) where
  insert_by-IsRanked :
      (x : A) (xs : List A) → IsRanked score xs → IsRanked score (insert_by before x xs)
  insert_by-IsRanked x [] h = (tt, tt)
  insert_by-IsRanked x (y ∷ ys) h = elim (Bool-cases (before x y)) [
    | inl e ↦
        let l = higher x y e in
        rw e (
          (
            l,
            All-imp (λ z. score z ≤ score y) (λ z. score z ≤ score x) ys
                (λ z k. omega (arith, k, l)) h.0,
          ),
          h,
        )
    | inr e ↦ rw e (
      All-insert_by (λ z. score z ≤ score y) before x ys (lower x y e) h.0,
      insert_by-IsRanked x ys h.1,
    )
  ]

  pub order_by-IsRanked : (xs : List A) → IsRanked score (order_by before xs)
  order_by-IsRanked [] = tt
  order_by-IsRanked (x ∷ xs) = insert_by-IsRanked x (order_by before xs) (order_by-IsRanked xs)
