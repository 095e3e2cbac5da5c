-- ===== src/Auth/Anonymous.antt =====
-- `GetAnonymousToken` of internal/auth/anonymous.go: a cached token, fetched anew when it is old. The
-- mutex makes each call one step. Times are nanoseconds; the answer of z.ai is an argument.
use zai_proxy.Base.{
  ◌⊎◌, ℕ, ◌+◌, ◌≡◌, refl, ap, Bool, true, false, not, ◌&&◌, List, [], ◌∷◌, arith, ltb,
  if◌then◌else◌,
}
use zai_proxy.Text.{Bytes, is_empty}

pub record TokenCache : Type 0 where
  pub anonymous_token_cache : Bytes
  pub anonymous_token_expire_at : ℕ

-- `anonymousTokenTTL`: 50 minutes.
abbrev pub anonymous_token_ttl : ℕ
anonymous_token_ttl = 3000000000000

abbrev pub no_token : TokenCache
no_token = record { anonymous_token_cache = []; anonymous_token_expire_at = 0 }

pub data Fetched : Type 0 where
  unreachable : Fetched
  status : ℕ → Fetched
  undecodable : Fetched
  token : Bytes → Fetched

pub data TokenError : Type 0 where
  fetch_failed : TokenError
  bad_status : ℕ → TokenError
  decode_failed : TokenError
  empty_token : TokenError

pub data TokenResult : Type 0 where
  got : Bytes → TokenResult
  refused : TokenError → TokenResult

-- The times at the test and at the store, and what z.ai answers if it is asked.
pub record Call : Type 0 where
  pub now : ℕ
  pub later : ℕ
  pub answer : Fetched

-- The cached token, if there is one, in place of an error.
abbrev pub stale_or : TokenCache → TokenError → TokenResult
stale_or c e = if is_empty c.anonymous_token_cache then refused e else got c.anonymous_token_cache

unfoldable pub after_fetch : TokenCache → ℕ → Fetched → TokenResult × TokenCache
after_fetch c later unreachable = (stale_or c fetch_failed, c)
after_fetch c later (status n) = (stale_or c (bad_status n), c)
after_fetch c later undecodable = (stale_or c decode_failed, c)
after_fetch c later (token t) = if is_empty t then (refused empty_token, c) else (
  got t,
  record { anonymous_token_cache = t; anonymous_token_expire_at = later + anonymous_token_ttl },
)

abbrev pub is_fresh : TokenCache → ℕ → Bool
is_fresh c now = not (is_empty c.anonymous_token_cache) && ltb now c.anonymous_token_expire_at

-- The result, the cache behind the call, and whether z.ai was asked. An answer with another status
-- than 200 is `status`.
unfoldable pub get_anonymous_token : TokenCache → Call → TokenResult × TokenCache × Bool
unfolding after_fetch
get_anonymous_token c call =
    if is_fresh c call.now
    then (got c.anonymous_token_cache, c, false)
    else (let (result, c') = after_fetch c call.later call.answer in (result, c', true))

-- The results of calls in a row, with whether z.ai was asked.
unfoldable pub call_all : TokenCache → List Call → List (TokenResult × Bool)
unfolding get_anonymous_token
call_all c [] = []
call_all c (call ∷ calls) =
    let (result, c', asked) = get_anonymous_token c call in (result, asked) ∷ call_all c' calls

-- The calls of which none is later than `t`.
abbrev pub all_before : ℕ → List Call → Bool
all_before t [] = true
all_before t (call ∷ calls) = ltb call.now t && all_before t calls

-- As many of the same results.
abbrev pub repeated : List Call → Bytes → List (TokenResult × Bool)
repeated [] t = []
repeated (call ∷ calls) t = (got t, false) ∷ repeated calls t

call_all_fresh :
    (c : TokenCache) (calls : List Call)
    → is_empty c.anonymous_token_cache ≡ false
    → all_before c.anonymous_token_expire_at calls ≡ true
    → call_all c calls ≡ repeated calls c.anonymous_token_cache
unfolding call_all get_anonymous_token
call_all_fresh c [] e h = refl
call_all_fresh c (call ∷ calls) e h =
    let fresh : is_fresh c call.now ≡ true = ground arith in
    rw fresh
      (ap (◌∷◌ (got c.anonymous_token_cache, false)) (call_all_fresh c calls e (ground arith)))

-- A token that a call fetches answers that call and all calls in the next fifty minutes, and none
-- of these asks z.ai.
pub call_all_fetched :
    (c : TokenCache) (now later : ℕ) (t : Bytes) (calls : List Call)
    → is_fresh c now ≡ false
    → is_empty t ≡ false
    → all_before (later + anonymous_token_ttl) calls ≡ true
    → call_all c (record { now = now; later = later; answer = token t } ∷ calls)
      ≡ (got t, true) ∷ repeated calls t
unfolding call_all get_anonymous_token after_fetch
call_all_fetched c now later t calls old some_token h =
    rw (old, some_token)
      (ap (◌∷◌ (got t, true)) (
        call_all_fresh
          (record {
            anonymous_token_cache = t;
            anonymous_token_expire_at = later + anonymous_token_ttl;
          })
          calls some_token h))

-- Whether z.ai answered with a token.
abbrev pub is_token : Fetched → Bool
is_token (token t) = true
is_token _ = false

-- What a call comes to when a token is cached: the cached token and the cache as it was, a new
-- token that is cached, or the error on an empty token.
abbrev pub Lasting : TokenCache → Bool → Fetched → TokenResult × TokenCache × Bool → Type 0
Lasting c fresh answer (result, after, asked) =
    ((result ≡ got c.anonymous_token_cache)
      × (after ≡ c)
      × (asked ≡ not fresh)
      × ((fresh ≡ true) ⊎ (is_token answer ≡ false)))
    ⊎ (((t : Bytes) × (fresh ≡ false)
          × (answer ≡ token t)
          × (is_empty t ≡ false)
          × (result ≡ got t)
          × (after.anonymous_token_cache ≡ t))
        ⊎ ((fresh ≡ false) × (answer ≡ token []) × (result ≡ refused empty_token) × (after ≡ c)))
