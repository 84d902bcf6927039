-- ===== src/Drive/RateLimiter.antt =====
-- src/apps/drive/backoff.py: `RateLimiter`, a token bucket. The clock counts microseconds, the rate is
-- in thousandths of a call per second, and a token is 10^9 parts, so that a microsecond brings as
-- many parts as the rate says.
use objekt_bernahme_automati.Prelude.{
  ℕ, suc, ◌+◌, ◌-◌, ◌*◌, ◌/◌, min, max, Option, some, leb, if◌then◌else◌,
}

pub record RateLimiter : Type 0 where
  pub rate : ℕ
  pub capacity : ℕ
  pub tokens : ℕ
  pub last : ℕ

abbrev pub token : ℕ
token = 1000000000

-- `burst or max(1, int(self.rate))`
abbrev pub capacity_of : Option ℕ → ℕ → ℕ
capacity_of (some (suc burst)) rate = suc burst
capacity_of _ rate = max 1 (rate / 1000)

-- `RateLimiter(rate_per_s)`; 0.001 is the least rate.
unfoldable pub new_limiter : ℕ → Option ℕ → ℕ → RateLimiter
new_limiter rate_per_s burst now =
    let rate = max rate_per_s 1 in
    record {
      rate = rate;
      capacity = capacity_of burst rate;
      tokens = capacity_of burst rate * token;
      last = now;
    }

abbrev pub refilled : ℕ → RateLimiter → ℕ
refilled now l = min (l.capacity * token) (l.tokens + (now - l.last) * l.rate)

-- The whole microseconds that the missing part takes, the last one begun.
abbrev pub wait_of : ℕ → RateLimiter → ℕ
wait_of now l = (token - refilled now l + (l.rate - 1)) / l.rate

-- `acquire`: `now` is the first reading of the clock, and `woken` the one after the sleep.
unfoldable pub acquire : ℕ → ℕ → RateLimiter → ℕ × RateLimiter
acquire now woken l =
    if leb token (refilled now l)
    then (0, record l { tokens = refilled now l - token; last = now })
    else (wait_of now l, record l { tokens = 0; last = woken })
