-- ===== src/Drive/NumberText.antt =====
-- src/apps/drive/object_numbers.py: the number that is written as digits is read back.
use Prim.Native.Char.{code}
use Prim.Native.String.{count as char_count}
use text.Mathlib.TextLemmas.{nil-append, cons-append}
use objekt_bernahme_automati.Prelude.{
  ℕ, zero, suc, ◌+◌, ◌-◌, ◌*◌, ◌/◌, ◌%◌, ◌≤◌, ◌<◌, ◌≡◌, refl, sym, ap, subst, ◌∙◌, true, false,
  Option, none, some, String, ◌<>◌, ltb, if_induction, is_blank, decimal, digit, digits, arith,
}
use objekt_bernahme_automati.Drive.ObjectNumbers.{
  is_digit, value_from, int_of, only_digits, zeros, padded,
}

abbrev pub AreDigits : String → Type 0
AreDigits String.[] = Unit
AreDigits (String.◌∷◌ c s) = (is_digit c ≡ true) × AreDigits s

value_from-append : (n : ℕ) (s t : String) → value_from n (s <> t) ≡ value_from (value_from n s) t
value_from-append n String.[] t = ap (value_from n) (nil-append t)
value_from-append n (String.◌∷◌ c s) t =
    ap (value_from n) (cons-append c s t) ∙ value_from-append (n * 10 + (code c - 48)) s t

AreDigits-append : (s t : String) → AreDigits s → AreDigits t → AreDigits (s <> t)
AreDigits-append String.[] t h k = subst AreDigits (sym (nil-append t)) k
AreDigits-append (String.◌∷◌ c s) t h k =
    subst AreDigits (sym (cons-append c s t)) (h.0, AreDigits-append s t h.1 k)

is_blank-append : (s t : String) → is_blank s ≡ false → is_blank (s <> t) ≡ false
is_blank-append String.[] t h = absurd (ground arith)
is_blank-append (String.◌∷◌ c s) t h = ap is_blank (cons-append c s t)

-- One digit.
abbrev IsDigitOf : ℕ → Type 0
IsDigitOf d =
    ((n : ℕ) → value_from n (digit d) ≡ n * 10 + d)
    × AreDigits (digit d)
    × (is_blank (digit d) ≡ false)

digit-IsDigitOf : (d : ℕ) → d < 10 → IsDigitOf d
digit-IsDigitOf zero h = (λ n. refl, (refl, tt), refl)
digit-IsDigitOf (suc zero) h = (λ n. refl, (refl, tt), refl)
digit-IsDigitOf (suc (suc zero)) h = (λ n. refl, (refl, tt), refl)
digit-IsDigitOf (suc (suc (suc zero))) h = (λ n. refl, (refl, tt), refl)
digit-IsDigitOf (suc (suc (suc (suc zero)))) h = (λ n. refl, (refl, tt), refl)
digit-IsDigitOf (suc (suc (suc (suc (suc zero))))) h = (λ n. refl, (refl, tt), refl)
digit-IsDigitOf (suc (suc (suc (suc (suc (suc zero)))))) h = (λ n. refl, (refl, tt), refl)
digit-IsDigitOf (suc (suc (suc (suc (suc (suc (suc zero))))))) h = (λ n. refl, (refl, tt), refl)
digit-IsDigitOf (suc (suc (suc (suc (suc (suc (suc (suc zero)))))))) h =
    (λ n. refl, (refl, tt), refl)
digit-IsDigitOf (suc (suc (suc (suc (suc (suc (suc (suc (suc zero))))))))) h =
    (λ n. refl, (refl, tt), refl)
digit-IsDigitOf (suc (suc (suc (suc (suc (suc (suc (suc (suc (suc d)))))))))) h =
    absurd (omega (arith, h))

-- A text of digits for the number `n`.
abbrev pub Reads : ℕ → String → Type 0
Reads n s = (int_of s ≡ n) × AreDigits s × (is_blank s ≡ false)

digits-Reads : (fuel n : ℕ) → n ≤ fuel → Reads n (digits fuel n)
digits-Reads zero n h =
    let d = digit-IsDigitOf n (omega (arith, h)) in (d.0 0 ∙ omega arith, d.1, d.2)
digits-Reads (suc fuel) n h =
    if_induction (Reads n) (ltb n 10)
      (λ e. let d = digit-IsDigitOf n (ground arith) in (d.0 0 ∙ omega arith, d.1, d.2))
      (λ e.
        let m : 10 ≤ n = ground arith in
        let q : n / 10 * 10 + n % 10 ≡ n = grind arith in
        let r : n % 10 < 10 = grind arith in
        let f = digits-Reads fuel (n / 10) (omega (arith, q, m, h)) in
        let d = digit-IsDigitOf (n % 10) r in
        (
          value_from-append 0 (digits fuel (n / 10)) (digit (n % 10))
              ∙ d.0 (int_of (digits fuel (n / 10)))
              ∙ ap (λ v. v * 10 + n % 10) f.0
              ∙ q,
          AreDigits-append (digits fuel (n / 10)) (digit (n % 10)) f.1 d.1,
          is_blank-append (digits fuel (n / 10)) (digit (n % 10)) f.2,
        ))

pub decimal-Reads : (n : ℕ) → Reads n (decimal n)
decimal-Reads n = digits-Reads n n (omega arith)

zeros-Reads : (k n : ℕ) (s : String) → Reads n s → Reads n (zeros k s)
zeros-Reads zero n s h = h
zeros-Reads (suc k) n s h = let r = zeros-Reads k n s h in (r.0, (refl, r.1), refl)

pub padded-Reads : (pad : Option ℕ) (n : ℕ) (s : String) → Reads n s → Reads n (padded pad s)
padded-Reads none n s h = h
padded-Reads (some zero) n s h = h
padded-Reads (some (suc w)) n s h = zeros-Reads (suc w - char_count s) n s h

pub only_digits_of : (s : String) → AreDigits s → only_digits s ≡ s
only_digits_of String.[] h = refl
only_digits_of (String.◌∷◌ c s) h = rw h.0 (ap (String.◌∷◌ c) (only_digits_of s h.1))
