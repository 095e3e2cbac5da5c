-- ===== src/Middleware/RateLimit/Step.antt =====
-- The account of one key: what was granted, and what its bucket may still grant.
use zai_proxy.Base.{
  ℕ, ◌+◌, ◌-◌, ◌*◌, ◌≤◌, ◌<◌, ◌≡◌, ap, Bool, true, false, Option, none, some, arith,
}
use zai_proxy.Middleware.RateLimit.{Bucket, token, refill, take_token}

-- With `n` requests granted since `t0`, and the bucket as it is at time `t`.
abbrev pub Account : ℕ → ℕ → ℕ → ℕ → ℕ → Option Bucket → Type 0
Account rate burst t0 t n none = n * token + rate * t0 ≤ rate * t
Account rate burst t0 t n (some b) =
    (n * token + b.tokens + rate * t0 ≤ burst * token + rate * b.last_check) × (b.last_check ≤ t)

pub mul_mono : (r a b : ℕ) → a ≤ b → r * a ≤ r * b
mul_mono r a b h = grind arith

pub Account-later :
    (rate burst t0 t n now : ℕ) (o : Option Bucket)
    → t ≤ now
    → Account rate burst t0 t n o
    → Account rate burst t0 now n o
Account-later rate burst t0 t n now none h a = omega (arith, mul_mono rate t now h)
Account-later rate burst t0 t n now (some b) h a = omega arith

-- Whatever the bucket, the account bounds what was granted.
pub Account-bound :
    (rate burst t0 t n : ℕ) (o : Option Bucket)
    → Account rate burst t0 t n o
    → n * token + rate * t0 ≤ burst * token + rate * t
Account-bound rate burst t0 t n none a = omega arith
Account-bound rate burst t0 t n (some b) a = omega (arith, mul_mono rate b.last_check t a.1)

-- A stale bucket may be dropped: by then it would be full again.
pub Account-dropped :
    (rate burst t0 t n now c : ℕ) (b : Bucket)
    → burst * token ≤ rate * (c * 2)
    → b.last_check + c * 2 < now
    → Account rate burst t0 t n (some b)
    → Account rate burst t0 now n none
Account-dropped rate burst t0 t n now c b enough stale a =
    omega (arith, mul_mono rate (b.last_check + c * 2) now (omega arith))

abbrev pub granted_one : Bool → ℕ
granted_one true = 1
granted_one false = 0

refill-le :
    (rate burst now : ℕ) (b : Bucket)
    → b.last_check ≤ now
    → (refill rate burst now b + rate * b.last_check ≤ b.tokens + rate * now)
      × (refill rate burst now b ≤ burst * token)
unfolding refill
refill-le rate burst now b h =
    let e : now ≡ (now - b.last_check) + b.last_check = omega arith in
    ground (arith, ap (λ (t : ℕ). rate * t) e)

-- One request of the key keeps its account.
pub take_token-Account :
    (rate burst t0 t n now : ℕ) (o : Option Bucket)
    → 0 < burst
    → t ≤ now
    → Account rate burst t0 t n o
    → let (b, ok) = take_token rate burst now o in
      Account rate burst t0 now (n + granted_one ok) (some b)
unfolding take_token
take_token-Account rate burst t0 t n now none pos h a = omega (arith, mul_mono rate t now h)
take_token-Account rate burst t0 t n now (some b) pos h a =
    ground (arith, refill-le rate burst now b)
