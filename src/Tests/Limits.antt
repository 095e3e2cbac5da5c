-- ===== src/Tests/Limits.antt =====
-- The rate limiter at concrete inputs.
use zai_proxy.Base.{pos, ℕ, ◌+◌, ◌-◌, ◌*◌, ◌≤◌, ◌≡◌, refl, ◌≢◌, true, List, [], ◌∷◌, arith}
use zai_proxy.Text.{codes}
use zai_proxy.Middleware.RateLimit.{RateLimiter, token, new_rate_limiter, allow, lookup}
use zai_proxy.Middleware.RateLimit.Bound.{
  Requests, granted, last_time, rate_of, burst_of, granted_lem,
}
use zai_proxy.Middleware.RateLimit.Refill.{allow_after_wait}
use zai_proxy.Middleware.ClientKey.{FirstEntry, extract_ip, extract_ip_lem}

abbrev three_requests : Requests
three_requests = (codes "a", 0) ∷ (codes "b", 5) ∷ (codes "a", 1000000000) ∷ []

granted_lem_example :
    granted (codes "a") (new_rate_limiter (pos 60) (pos 1) 0) three_requests * token
    ≤ burst_of (pos 60) (pos 1) * token + rate_of (pos 60) * (last_time 0 three_requests - 0)
granted_lem_example =
    granted_lem (codes "a") (pos 60) (pos 1) 0 three_requests (omega arith) (omega arith)

-- The second request of `a` comes when the bucket is full again.
granted_twice : granted (codes "a") (new_rate_limiter (pos 60) (pos 1) 0) three_requests ≡ 2
unfolding granted new_rate_limiter allow
granted_twice = refl

abbrev drained : RateLimiter
drained = record {
  buckets = (codes "a", record { tokens = 0; last_check = 0 }) ∷ [];
  rate = 60;
  burst = 60;
  cleanup = 300000000000;
  last_clean = 0;
}

allow_after_wait_example : (allow drained (codes "a") 1000001000).1 ≡ true
unfolding lookup
allow_after_wait_example =
    allow_after_wait drained (codes "a") 1000001000 (record { tokens = 0; last_check = 0 })
      (omega arith) (tt, tt) refl (omega arith)

extract_ip_lem_example :
    (codes "1.2.3.4, 5.6.7.8" ≢ []
      → FirstEntry
          (extract_ip (codes "1.2.3.4, 5.6.7.8") [] (codes "r"))
          (codes "1.2.3.4, 5.6.7.8"))
    × (codes "1.2.3.4, 5.6.7.8" ≡ []
        → ◌≢◌ {A = List ℕ} [] []
        → extract_ip (codes "1.2.3.4, 5.6.7.8") [] (codes "r") ≡ [])
    × (codes "1.2.3.4, 5.6.7.8" ≡ []
        → ◌≡◌ {A = List ℕ} [] []
        → extract_ip (codes "1.2.3.4, 5.6.7.8") [] (codes "r") ≡ codes "r")
extract_ip_lem_example = extract_ip_lem (codes "1.2.3.4, 5.6.7.8") [] (codes "r")
