-- ===== src/Middleware/RateLimit/Refill.antt =====
-- When a request is granted.
use zai_proxy.Base.{
  ◌/◌, ◌+◌, ℕ, ◌-◌, ◌*◌, ◌≤◌, ◌<◌, ◌≡◌, refl, ◌∙◌, ◌⊎◌, inl, inr, true, Option, none, some, arith,
  ltb, Bool-cases,
}
use zai_proxy.Text.{Bytes}
use zai_proxy.Middleware.RateLimit.{
  Bucket, RateLimiter, token, refill, lookup, maybe_cleanup, take_token, allow,
}
use zai_proxy.Middleware.RateLimit.Store.{IsMap, lookup-cleanup_stale}

take_token_full :
    (rate burst now : ℕ) (b : Bucket) (o : Option Bucket)
    → 0 < burst
    → token ≤ (now - b.last_check) * rate
    → (o ≡ none) ⊎ (o ≡ some b)
    → (take_token rate burst now o).1 ≡ true
unfolding take_token refill
take_token_full rate burst now b o pos wait (inl e) = rw e refl
take_token_full rate burst now b o pos wait (inr e) = rw e (ground arith)

lookup-maybe_cleanup :
    (rl : RateLimiter) (key : Bytes) (now : ℕ) (b : Bucket)
    → IsMap rl.buckets
    → lookup key rl.buckets ≡ some b
    → (lookup key (maybe_cleanup rl now).buckets ≡ none)
      ⊎ (lookup key (maybe_cleanup rl now).buckets ≡ some b)
unfolding maybe_cleanup
lookup-maybe_cleanup rl key now b distinct found =
    elim (Bool-cases (ltb rl.cleanup (now - rl.last_clean))) [
      | inr early ↦ rw early (inr found)
      | inl due ↦ rw due (elim (lookup-cleanup_stale key rl.cleanup now rl.buckets distinct) [
        | inl kept ↦ inr (kept ∙ found)
        | inr (c, was, stale, gone) ↦ inl gone
      ])
    ]

maybe_cleanup-rate :
    (rl : RateLimiter) (now : ℕ)
    → ((maybe_cleanup rl now).rate ≡ rl.rate) × ((maybe_cleanup rl now).burst ≡ rl.burst)
unfolding maybe_cleanup
maybe_cleanup-rate rl now = ground arith

-- After an idle time in which the rate makes one token and a millionth more, a request of the key
-- is granted, whether or not the limiter drops the key's bucket as stale just before. The limiter
-- holds each key once and has a burst of at least one. The millionth is more than the rounding of
-- the source's floating-point numbers, which the model leaves out, can take away.
pub allow_after_wait :
    (rl : RateLimiter) (key : Bytes) (now : ℕ) (b : Bucket)
    → 0 < rl.burst
    → IsMap rl.buckets
    → lookup key rl.buckets ≡ some b
    → token + token / 1000000 ≤ (now - b.last_check) * rl.rate
    → (allow rl key now).1 ≡ true
unfolding allow
allow_after_wait rl key now b pos distinct found wait =
    let (rate_is, burst_is) = maybe_cleanup-rate rl now in
    take_token_full _ _ now b _ (rw burst_is pos) (rw rate_is (omega (arith, wait)))
      (lookup-maybe_cleanup rl key now b distinct found)
