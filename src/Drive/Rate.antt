-- ===== src/Drive/Rate.antt =====
-- src/apps/drive/backoff.py: how many calls the limiter lets through in a time.
use objekt_bernahme_automati.Prelude.{
  ℕ, ◌+◌, ◌-◌, ◌*◌, ◌/◌, ◌≤◌, ◌<◌, max, ◌≡◌, subst, refl, Option, List, [], ◌∷◌, leb, if_induction,
  arith, length, leb→le, ◌%◌,
}
use objekt_bernahme_automati.Drive.RateLimiter.{
  RateLimiter, token, new_limiter, refilled, wait_of, acquire,
}

-- The clock's readings at one call: the clock does not go back, and a sleep takes the time it is
-- asked for at least.
pub record IsReading (l : RateLimiter) (reading : ℕ × ℕ) : Type 0 where
  pub not_back : l.last ≤ reading.0
  pub slept : reading.0 + wait_of reading.0 l ≤ reading.1

abbrev pub acquired : ℕ × ℕ → RateLimiter → RateLimiter
acquired r l = (acquire r.0 r.1 l).1

-- One call after the other.
abbrev pub acquire_all : List (ℕ × ℕ) → RateLimiter → RateLimiter
acquire_all [] l = l
acquire_all (r ∷ readings) l = acquire_all readings (acquired r l)

abbrev pub AreReadings : List (ℕ × ℕ) → RateLimiter → Type 0
AreReadings [] l = Unit
AreReadings (r ∷ readings) l = IsReading l r × AreReadings readings (acquired r l)

-- A quotient that is rounded up is enough.
rounded_up : (n d : ℕ) → 0 < d → n ≤ (n + (d - 1)) / d * d
rounded_up n d h =
    let q : (n + (d - 1)) / d * d + (n + (d - 1)) % d ≡ n + (d - 1) = grind arith in
    let r : (n + (d - 1)) % d < d = grind arith in omega (arith, q, r, h)

longer_by : (x w k rate : ℕ) → x * rate + w * rate ≤ (x + w + k) * rate
longer_by x w k rate = grind arith

longer : (x w z rate : ℕ) → x + w ≤ z → x * rate + w * rate ≤ z * rate
longer x w z rate h =
    let e : x + w + (z - (x + w)) ≡ z = omega arith in
    subst (λ t. x * rate + w * rate ≤ t * rate) e (longer_by x w (z - (x + w)) rate)

-- What a call with the rate `rate` has cost is no more than what was there and what came.
abbrev IsPaid : ℕ → ℕ → RateLimiter → RateLimiter → Type 0
IsPaid rate calls l m =
    (calls * token + m.tokens ≤ l.tokens + (m.last - l.last) * rate)
    × (l.last ≤ m.last)
    × (m.rate ≡ rate)

acquired-IsPaid :
    (rate : ℕ) (l : RateLimiter) (r : ℕ × ℕ)
    → l.rate ≡ rate
    → 0 < rate
    → IsReading l r
    → IsPaid rate 1 l (acquired r l)
unfolding acquire
acquired-IsPaid rate l r f h v =
    let before = r.0 - l.last in
    let most : refilled r.0 l ≤ l.tokens + before * rate = rw (← f) (omega arith) in
    if_induction (λ (e : ℕ × RateLimiter). IsPaid rate 1 l e.1) (leb token (refilled r.0 l))
      (λ e. (omega (arith, leb→le token (refilled r.0 l) e, most), v.not_back, f))
      (λ e.
        let up : token - refilled r.0 l ≤ wait_of r.0 l * rate =
          rw (← f) (rounded_up (token - refilled r.0 l) l.rate (rw f h)) in
        let time =
          longer before (wait_of r.0 l) (r.1 - l.last) rate (omega (arith, v.not_back, v.slept)) in
        (omega (arith, up, time, most), omega (arith, v.not_back, v.slept), f))

acquire_all-IsPaid :
    (rate : ℕ) (readings : List (ℕ × ℕ)) (l : RateLimiter)
    → l.rate ≡ rate
    → 0 < rate
    → AreReadings readings l
    → IsPaid rate (length readings) l (acquire_all readings l)
acquire_all-IsPaid rate [] l f h v = (omega arith, omega arith, f)
acquire_all-IsPaid rate (r ∷ readings) l f h v =
    let m = acquired r l in
    let n = acquire_all readings m in
    let (a, b, c) = acquired-IsPaid rate l r f h v.0 in
    let (d, e, g) = acquire_all-IsPaid rate readings m c h v.1 in
    let time =
      longer (m.last - l.last) (n.last - m.last) (n.last - l.last) rate (omega (arith, b, e)) in
    (omega (arith, a, d, time), omega (arith, b, e), g)

-- However fast the calls come, the limiter lets at most its capacity and what the rate allows
-- through in a time: with a clock that does not go back, and a sleep that takes its time, the
-- calls since the limiter was made, in billionths, are no more than the capacity and the rate times
-- the microseconds up to the last reading.
pub rate_bounded :
    (rate_per_s : ℕ) (burst : Option ℕ) (start : ℕ) (readings : List (ℕ × ℕ))
    → AreReadings readings (new_limiter rate_per_s burst start)
    → let l = new_limiter rate_per_s burst start in
      length readings * token
      ≤ l.capacity * token + ((acquire_all readings l).last - start) * l.rate
unfolding new_limiter
rate_bounded rate_per_s burst start readings v = omega (
  arith,
  (acquire_all-IsPaid (max rate_per_s 1) readings (new_limiter rate_per_s burst start) refl
      (omega arith) v).0,
)
