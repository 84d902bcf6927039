-- ===== src/Sync/Backoff.antt =====
-- src/apps/sync/operations.py: the waiting times of `_retry_delay`.
use native.Mathlib.Nat.{one-le-pow, pow-le-pow_right, two-pow-succ}
use objekt_bernahme_automati.Prelude.{
  ℕ, zero, suc, ◌-◌, ◌*◌, ◌^◌, ◌≤◌, ◌≡◌, ap, Option, none, some, arith, min,
}
use objekt_bernahme_automati.Sync.Operation.{retry_delay}

two_pow_pos : (k : ℕ) → 1 ≤ 2 ^ k
two_pow_pos k = one-le-pow k 2 (omega arith)

-- Whatever the number of attempts and whatever time the handler asked for, the waiting time lies
-- between one second and one hour.
pub retry_delay_bounds :
    (n : ℕ) (seconds : Option ℕ) → (1 ≤ retry_delay n seconds) × (retry_delay n seconds ≤ 3600)
unfolding retry_delay
retry_delay_bounds n none = omega (arith, two_pow_pos)
retry_delay_bounds n (some zero) = omega (arith, two_pow_pos)
retry_delay_bounds n (some (suc s)) = omega arith

pub retry_delay_mono : (n m : ℕ) → n ≤ m → retry_delay n none ≤ retry_delay m none
unfolding retry_delay
retry_delay_mono n m h =
    let e : 2 ^ (n - 1) ≤ 2 ^ (m - 1) = pow-le-pow_right (omega arith) (omega arith) in omega arith

-- With no time asked for, the first wait is 30 seconds and each further attempt doubles it, up to
-- one hour.
pub retry_delay_doubles :
    (n : ℕ)
    → (retry_delay 1 none ≡ 30)
      × (retry_delay (suc (suc n)) none ≡ min (2 * retry_delay (suc n) none) 3600)
unfolding retry_delay
retry_delay_doubles n =
    let a : 2 ^ (suc (suc n) - 1) ≡ 2 ^ suc n = ap (λ (k : ℕ). 2 ^ k) (omega arith) in
    let b : 2 ^ (suc n - 1) ≡ 2 ^ n = ap (λ (k : ℕ). 2 ^ k) (omega arith) in
    (omega arith, omega (arith, a, b, two-pow-succ n))
