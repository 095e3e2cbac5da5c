-- ===== src/Middleware/RateLimit.antt =====
-- internal/middleware/ratelimit.go: a token bucket for each key. Times are nanoseconds of Go's
-- monotonic clock. The source's `float64` tokens are counted in units of one sixty-billionth, in
-- which a refill of `elapsed * rate / 60` is the whole number `elapsed * rate`: rounding is left out.
pub mod Store
pub mod Step
pub mod Bound
pub mod Refill
use zai_proxy.Base.{
  ℤ, positive_or, ℕ, ◌+◌, ◌-◌, ◌*◌, Bool, true, false, Option, none, some, List, [], ◌∷◌, ltb,
  if◌then◌else◌,
}
use zai_proxy.Text.{Bytes, bytes_eq}

-- `sync.Mutex` makes each `Allow` one step. A map holds a key once: `insert` replaces.
pub record Bucket : Type 0 where
  pub tokens : ℕ
  pub last_check : ℕ

pub record RateLimiter : Type 0 where
  pub buckets : List (Bytes × Bucket)
  pub rate : ℕ
  pub burst : ℕ
  pub cleanup : ℕ
  pub last_clean : ℕ

-- One token.
abbrev pub token : ℕ
token = 60000000000

abbrev pub five_minutes : ℕ
five_minutes = 300000000000

unfoldable pub new_rate_limiter : ℤ → ℤ → ℕ → RateLimiter
new_rate_limiter rate burst now =
    let r = positive_or rate 60 in
    record {
      buckets = [];
      rate = r;
      burst = positive_or burst r;
      cleanup = five_minutes;
      last_clean = now;
    }

unfoldable pub lookup : Bytes → List (Bytes × Bucket) → Option Bucket
unfolding bytes_eq
lookup key [] = none
lookup key ((k, b) ∷ m) = if bytes_eq k key then some b else lookup key m

unfoldable pub insert : Bytes → Bucket → List (Bytes × Bucket) → List (Bytes × Bucket)
unfolding bytes_eq
insert key b [] = (key, b) ∷ []
insert key b ((k, c) ∷ m) = if bytes_eq k key then (key, b) ∷ m else (k, c) ∷ insert key b m

-- `lastCheck.Before(now.Add(-cleanup * 2))`
abbrev pub is_stale : ℕ → ℕ → Bucket → Bool
is_stale cleanup now b = ltb (b.last_check + cleanup * 2) now

unfoldable pub cleanup_stale : ℕ → ℕ → List (Bytes × Bucket) → List (Bytes × Bucket)
cleanup_stale cleanup now [] = []
cleanup_stale cleanup now ((k, b) ∷ m) =
    let rest = cleanup_stale cleanup now m in if is_stale cleanup now b then rest else (k, b) ∷ rest

-- The periodic cleanup at the start of `Allow`.
unfoldable pub maybe_cleanup : RateLimiter → ℕ → RateLimiter
maybe_cleanup rl now =
    if ltb rl.cleanup (now - rl.last_clean)
    then record rl { buckets = cleanup_stale rl.cleanup now rl.buckets; last_clean = now }
    else rl

-- The tokens of a bucket after the refill up to `now`, at most `burst` of them.
unfoldable pub refill : ℕ → ℕ → ℕ → Bucket → ℕ
refill rate burst now b =
    let tokens = b.tokens + (now - b.last_check) * rate in
    if ltb (burst * token) tokens then burst * token else tokens

-- What `Allow` does with the bucket of the key: its new bucket and the answer.
unfoldable pub take_token : ℕ → ℕ → ℕ → Option Bucket → Bucket × Bool
unfolding refill
take_token rate burst now none = (record { tokens = (burst - 1) * token; last_check = now }, true)
take_token rate burst now (some b) =
    let tokens = refill rate burst now b in
    if ltb tokens token
    then (record { tokens = tokens; last_check = now }, false)
    else (record { tokens = tokens - token; last_check = now }, true)

unfoldable pub allow : RateLimiter → Bytes → ℕ → RateLimiter × Bool
unfolding maybe_cleanup cleanup_stale lookup insert take_token
allow rl key now =
    let clean = maybe_cleanup rl now in
    let (b, ok) = take_token clean.rate clean.burst now (lookup key clean.buckets) in
    (record clean { buckets = insert key b clean.buckets }, ok)
