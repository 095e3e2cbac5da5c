-- ===== src/Middleware/RateLimit/Bound.antt =====
-- How many requests of one key a limiter grants.
use zai_proxy.Base.{
  negsuc, pos, positive_or, ℕ, zero, suc, ◌+◌, ◌-◌, ◌*◌, ◌≤◌, ◌<◌, ◌≡◌, refl, ap, inl, inr, List,
  [], ◌∷◌, arith, ltb, if◌then◌else◌, Bool-cases,
}
use native.Mathlib.Nat.{add-zero, add_assoc, le_refl}
use zai_proxy.Text.{Bytes, bytes_eq}
use zai_proxy.Text.Laws.{bytes_eq_iff}
use zai_proxy.Middleware.RateLimit.{
  Bucket, RateLimiter, ℤ, five_minutes, token, new_rate_limiter, lookup, insert, cleanup_stale,
  maybe_cleanup, take_token, allow,
}
use zai_proxy.Middleware.RateLimit.Store.{
  lookup-insert, IsMap, cleanup_stale-IsMap, insert-IsMap, lookup-cleanup_stale,
}
use zai_proxy.Middleware.RateLimit.Step.{
  Account, Account-later, Account-bound, Account-dropped, granted_one, take_token-Account,
}

-- Requests with their keys and times.
abbrev pub Requests : Type 0
Requests = List (Bytes × ℕ)

-- How many of the requests of `k` the limiter grants, when it is asked for them in turn.
unfoldable pub granted : Bytes → RateLimiter → Requests → ℕ
granted k rl [] = 0
granted k rl ((key, now) ∷ rs) =
    let (rl', ok) = allow rl key now in
    (if bytes_eq key k then granted_one ok else 0) + granted k rl' rs

-- The clock does not go back.
abbrev pub IsOrdered : ℕ → Requests → Type 0
IsOrdered t [] = Unit
IsOrdered t ((key, now) ∷ rs) = (t ≤ now) × IsOrdered now rs

abbrev pub last_time : ℕ → Requests → ℕ
last_time t [] = t
last_time t ((key, now) ∷ rs) = last_time now rs

-- What does not change from one request to the next, and the account of the key.
record Holds (k : Bytes) (rate burst t0 t n : ℕ) (rl : RateLimiter) : Type 0 where
  rate_is : rl.rate ≡ rate
  burst_is : rl.burst ≡ burst
  cleanup_is : rl.cleanup ≡ five_minutes
  keys_differ : IsMap rl.buckets
  account : Account rate burst t0 t n (lookup k rl.buckets)

module _ (k : Bytes) (rate burst t0 : ℕ) (pos_burst : 0 < burst) (enough : burst ≤ rate * 10) where
  Account-cleanup :
      (t n now : ℕ) (m : List (Bytes × Bucket))
      → IsMap m
      → t ≤ now
      → Account rate burst t0 t n (lookup k m)
      → Account rate burst t0 now n (lookup k (cleanup_stale five_minutes now m))
  Account-cleanup t n now m distinct h a =
      elim (lookup-cleanup_stale k five_minutes now m distinct) [
        | inl kept ↦ rw kept (Account-later rate burst t0 t n now (lookup k m) h a)
        | inr (b, found, stale, gone) ↦ rw gone (
            Account-dropped rate burst t0 t n now five_minutes b (omega arith) stale
              (rw found at a))
      ]

  maybe_cleanup-Holds :
      (t n now : ℕ) (rl : RateLimiter)
      → t ≤ now
      → Holds k rate burst t0 t n rl
      → Holds k rate burst t0 now n (maybe_cleanup rl now)
  unfolding maybe_cleanup
  maybe_cleanup-Holds t n now rl h v = elim (Bool-cases (ltb rl.cleanup (now - rl.last_clean))) [
    | inl due ↦ rw due (record {
      rate_is = v.rate_is;
      burst_is = v.burst_is;
      cleanup_is = v.cleanup_is;
      keys_differ = cleanup_stale-IsMap rl.cleanup now rl.buckets v.keys_differ;
      account = rw v.cleanup_is (Account-cleanup t n now rl.buckets v.keys_differ h v.account);
    })
    | inr early ↦ rw early (record {
      rate_is = v.rate_is;
      burst_is = v.burst_is;
      cleanup_is = v.cleanup_is;
      keys_differ = v.keys_differ;
      account = Account-later rate burst t0 t n now (lookup k rl.buckets) h v.account;
    })
  ]

  -- The request, after the cleanup.
  grant-Holds :
      (n now : ℕ) (key : Bytes) (c : RateLimiter)
      → Holds k rate burst t0 now n c
      → let (b, ok) = take_token c.rate c.burst now (lookup key c.buckets) in
        Holds k rate burst t0 now
          (n + (if bytes_eq key k then granted_one ok else 0))
          (record c { buckets = insert key b c.buckets })
  grant-Holds n now key c v = record {
    rate_is = v.rate_is;
    burst_is = v.burst_is;
    cleanup_is = v.cleanup_is;
    keys_differ =
        insert-IsMap key (take_token c.rate c.burst now (lookup key c.buckets)).0 c.buckets
          v.keys_differ;
    account = elim (Bool-cases (bytes_eq key k)) [
      | inr other ↦ rw (lookup-insert key k, other, add-zero) v.account
      | inl mine ↦
          let e : key ≡ k = (bytes_eq_iff key k).0 mine in
          rw (lookup-insert key k, mine, e, v.rate_is, v.burst_is)
            (take_token-Account rate burst t0 now n now (lookup k c.buckets) pos_burst (le_refl now)
              v.account)
    ];
  }

  allow-Holds :
      (t n now : ℕ) (key : Bytes) (rl : RateLimiter)
      → t ≤ now
      → Holds k rate burst t0 t n rl
      → Holds k rate burst t0 now
          (n + (if bytes_eq key k then granted_one (allow rl key now).1 else 0))
          (allow rl key now).0
  unfolding allow
  allow-Holds t n now key rl h v =
      grant-Holds n now key (maybe_cleanup rl now) (maybe_cleanup-Holds t n now rl h v)

  granted_bound :
      (t n : ℕ) (rl : RateLimiter) (rs : Requests)
      → Holds k rate burst t0 t n rl
      → IsOrdered t rs
      → (n + granted k rl rs) * token + rate * t0 ≤ burst * token + rate * last_time t rs
  unfolding granted
  granted_bound t n rl [] v o =
      rw add-zero (Account-bound rate burst t0 t n (lookup k rl.buckets) v.account)
  granted_bound t n rl ((key, now) ∷ rs) v o =
      rw (← add_assoc n)
        (granted_bound now _ (allow rl key now).0 rs (allow-Holds t n now key rl o.0 v) o.1)

positive_or-pos : (x : ℤ) (d : ℕ) → 0 < d → 0 < positive_or x d
positive_or-pos (pos zero) d h = h
positive_or-pos (pos (suc n)) d h = omega arith
positive_or-pos (negsuc n) d h = h

le-last_time : (t : ℕ) (rs : Requests) → IsOrdered t rs → t ≤ last_time t rs
le-last_time t [] o = le_refl t
le-last_time t ((key, now) ∷ rs) o = omega (arith, le-last_time now rs o.1)

-- The rate and the burst that the constructor makes of its arguments.
abbrev pub rate_of : ℤ → ℕ
rate_of r = positive_or r 60

abbrev pub burst_of : ℤ → ℤ → ℕ
burst_of r b = positive_or b (rate_of r)

new_rate_limiter-Holds :
    (k : Bytes) (r b : ℤ) (t0 : ℕ)
    → Holds k (rate_of r) (burst_of r b) t0 t0 0 (new_rate_limiter r b t0)
unfolding new_rate_limiter lookup
new_rate_limiter-Holds k r b t0 = record {
  rate_is = refl;
  burst_is = refl;
  cleanup_is = refl;
  keys_differ = tt;
  account = omega arith;
}

-- A limiter made at time `t0`, asked by any keys at times that do not go back, has granted the key
-- `k`, whatever else it was asked and whenever it dropped a bucket, at most `burst` requests more
-- than `rate` a minute since `t0`, where the burst is at most ten minutes' worth of the rate.
pub granted_lem :
    (k : Bytes) (r b : ℤ) (t0 : ℕ) (rs : Requests)
    → burst_of r b ≤ rate_of r * 10
    → IsOrdered t0 rs
    → granted k (new_rate_limiter r b t0) rs * token
      ≤ burst_of r b * token + rate_of r * (last_time t0 rs - t0)
granted_lem k r b t0 rs enough o =
    let bound =
      granted_bound k (rate_of r) (burst_of r b) t0
        (positive_or-pos b (rate_of r) (positive_or-pos r 60 (omega arith))) enough t0 0
        (new_rate_limiter r b t0) rs (new_rate_limiter-Holds k r b t0) o in
    let e : last_time t0 rs ≡ (last_time t0 rs - t0) + t0 = omega (arith, le-last_time t0 rs o) in
    omega (arith, ap (λ (t : ℕ). rate_of r * t) e)
