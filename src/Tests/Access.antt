-- ===== src/Tests/Access.antt =====
-- Tokens and origins at concrete inputs.
use zai_proxy.Base.{ℕ, pos, arith, ◌≡◌, refl, ◌↔◌, ◌⊎◌, true, false, some, List, [], ◌∷◌}
use zai_proxy.Text.{Bytes, codes, bytes_eq}
use zai_proxy.Auth.Anonymous.{
  TokenCache, no_token, token, unreachable, got, call_all, call_all_fetched,
}
use zai_proxy.Handler.Stats.{Tallies, run_steps, zero_stats, waiting, ended, run_steps-Tallies}
use zai_proxy.Handler.Cors.{
  CorsConfig, CorsRequest, method_options, is_only_star, Lists, resolve_allowed_origin,
  resolve_allowed_origin_iff,
}

abbrev cached : TokenCache
cached = record { anonymous_token_cache = codes "t1"; anonymous_token_expire_at = 10 }

call_all_fetched_example :
    call_all no_token (
      record { now = 5; later = 6; answer = token (codes "t1") }
      ∷ record { now = 7; later = 7; answer = unreachable }
      ∷ [])
    ≡ (got (codes "t1"), true) ∷ (got (codes "t1"), false) ∷ []
call_all_fetched_example =
    call_all_fetched no_token 5 6 (codes "t1")
      (record { now = 7; later = 7; answer = unreachable } ∷ []) refl refl refl

abbrev two_origins : List Bytes
two_origins = codes "https://a.example" ∷ codes "https://b.example" ∷ []

resolve_allowed_origin_iff_example :
    (resolve_allowed_origin bytes_eq two_origins (codes "https://b.example")
      ≡ some (codes "https://b.example"))
    ↔ ((codes "https://b.example" ≡ codes "https://b.example")
        × ((is_only_star two_origins ≡ true)
            ⊎ Lists bytes_eq two_origins (codes "https://b.example")))
resolve_allowed_origin_iff_example =
    resolve_allowed_origin_iff bytes_eq two_origins (codes "https://b.example")
      (codes "https://b.example") refl

abbrev post_request : CorsRequest
post_request = record {
  method = codes "POST";
  origin = codes "https://c.example";
  request_headers = [];
}

abbrev two_config : CorsConfig
two_config = record { enable_cors = true; allowed_origins = two_origins }

abbrev preflight : CorsRequest
preflight = record post_request { method = method_options; request_headers = codes "x-a" }

-- Two requests in the minute 60: the second one counts itself between the first one's two
-- operations on the start of the minute and the count.
abbrev race : List (ℕ × ℕ)
race =
    (0, 60)
    ∷ (1, 60)
    ∷ (0, 60)
    ∷ (0, 60)
    ∷ (0, 60)
    ∷ (0, 60)
    ∷ (1, 60)
    ∷ (1, 60)
    ∷ (1, 60)
    ∷ (1, 60)
    ∷ (1, 60)
    ∷ (0, 60)
    ∷ (0, 60)
    ∷ []

run_steps-Tallies_example : Tallies (run_steps race zero_stats (waiting ∷ waiting ∷ []))
run_steps-Tallies_example =
    run_steps-Tallies race zero_stats (waiting ∷ waiting ∷ []) (refl, refl, omega arith)

-- Both have ended, and the count of the minute is one.
race_loses_one : run_steps race zero_stats (waiting ∷ waiting ∷ []) ≡ (
  record { total_requests = 2; in_flight = pos 0; last_minute_start = 60; last_minute_count = 1 },
  ended ∷ ended ∷ [],
)
unfolding run_steps
race_loses_one = refl
