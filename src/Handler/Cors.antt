-- ===== src/Handler/Cors.antt =====
-- internal/handler/middleware.go, and `shouldTrackRequest` of stats.go: which origins may read the
-- answers. `strings.EqualFold` is the parameter `equal_fold`.
use zai_proxy.Base.{
  ◌≡◌, refl, sym, ap, ◌↔◌, ◌⊎◌, inl, inr, Bool, true, false, not, ◌||◌, Option, none, some, List,
  [], ◌∷◌, ◌++◌, arith, if◌then◌else◌, Bool-cases,
}
use zai_proxy.Text.{Bytes, codes, is_empty, bytes_eq, trim_space}

-- The configuration that the middleware reads.
pub record CorsConfig : Type 0 where
  pub enable_cors : Bool
  pub allowed_origins : List Bytes

-- The method and the headers of a request that it reads; a header that is missing is empty.
pub record CorsRequest : Type 0 where
  pub method : Bytes
  pub origin : Bytes
  pub request_headers : Bytes  -- `Access-Control-Request-Headers`

-- Headers with their values, in the order they are set.
abbrev pub Headers : Type 0
Headers = List (Bytes × Bytes)

pub data BypassResult : Type 0 where
  next : BypassResult
  forbidden : BypassResult
  no_content : Headers → BypassResult

-- `http.MethodOptions`
abbrev pub method_options : Bytes
method_options = codes "OPTIONS"

abbrev pub star : Bytes
star = codes "*"

unfoldable pub apply_cors_headers : Bytes → Bytes → Headers
unfolding bytes_eq trim_space
apply_cors_headers request_headers origin =
    let allow_headers = trim_space request_headers in
    if is_empty origin
    then []
    else (codes "Access-Control-Allow-Origin", origin)
      ∷ ((if bytes_eq origin star then [] else (codes "Vary", codes "Origin") ∷ [])
          ++ (codes "Access-Control-Allow-Methods", codes "GET, POST, OPTIONS")
            ∷ (
              codes "Access-Control-Allow-Headers",
              if is_empty allow_headers
                  then codes "Authorization, Content-Type, x-api-key, anthropic-version"
                  else allow_headers,
            )
            ∷ (codes "Access-Control-Max-Age", codes "86400")
            ∷ [])

abbrev pub is_only_star : List Bytes → Bool
is_only_star (o ∷ []) = bytes_eq o star
is_only_star _ = false

-- The headers but for the list of headers that a request may have.
abbrev pub other_headers : Headers → Headers
other_headers [] = []
other_headers ((name, text) ∷ hs) =
    let rest = other_headers hs in
    if bytes_eq name (codes "Access-Control-Allow-Headers") then rest else (name, text) ∷ rest

module _ (equal_fold : Bytes → Bytes → Bool) where
  -- The loop over the origins.
  unfoldable pub find_origin : List Bytes → Bytes → Option Bytes
  find_origin [] request_origin = none
  find_origin (o ∷ os) request_origin =
      let rest = find_origin os request_origin in
      if equal_fold o request_origin then some request_origin else rest

  unfoldable pub resolve_allowed_origin : List Bytes → Bytes → Option Bytes
  unfolding find_origin
  resolve_allowed_origin [] request_origin = none
  resolve_allowed_origin (o ∷ os) request_origin =
      if is_only_star (o ∷ os)
      then (if not (is_empty request_origin) then some request_origin else some star)
      else if is_empty request_origin
      then some o
      else find_origin (o ∷ os) request_origin

  unfoldable pub with_options_bypass : CorsConfig → CorsRequest → BypassResult
  unfolding bytes_eq resolve_allowed_origin apply_cors_headers
  with_options_bypass cfg r =
      if not cfg.enable_cors || not (bytes_eq r.method method_options)
      then next
      else elim (resolve_allowed_origin cfg.allowed_origins r.origin) [
        | none ↦ forbidden
        | some origin ↦ no_content (apply_cors_headers r.request_headers origin)
      ]

  -- The headers set before the next handler runs.
  unfoldable pub with_cors : CorsConfig → CorsRequest → Headers
  unfolding resolve_allowed_origin apply_cors_headers
  with_cors cfg r =
      if cfg.enable_cors
      then elim (resolve_allowed_origin cfg.allowed_origins r.origin) [
        | none ↦ []
        | some origin ↦ apply_cors_headers r.request_headers origin
      ]
      else []

  -- An entry of the configuration stands for the origin.
  abbrev pub Lists : List Bytes → Bytes → Type 0
  Lists [] origin = ⊥
  Lists (o ∷ os) origin = (equal_fold o origin ≡ true) ⊎ Lists os origin

  find_origin-Lists :
      (os : List Bytes) (origin answer : Bytes)
      → (find_origin os origin ≡ some answer) ↔ ((answer ≡ origin) × Lists os origin)
  unfolding find_origin
  find_origin-Lists [] origin answer = (λ e. cc, λ p. absurd p.1)
  find_origin-Lists (o ∷ os) origin answer = elim (Bool-cases (equal_fold o origin)) [
    | inl e ↦ rw e ((λ h. (ground arith, inl refl)), λ p. ap some (sym p.0))
    | inr n ↦ rw n (
      (λ h. let (same, listed) = (find_origin-Lists os origin answer).0 h in (same, inr listed)),
      λ p. elim p.1 [
        | inl q ↦ cc
        | inr listed ↦ (find_origin-Lists os origin answer).1 (p.0, listed)
      ],
    )
  ]

  -- A request with an origin is granted that origin itself, and exactly when the configuration is
  -- the star alone or has an entry that equals the origin up to letter case.
  pub resolve_allowed_origin_iff :
      (os : List Bytes) (origin answer : Bytes)
      → is_empty origin ≡ false
      → (resolve_allowed_origin os origin ≡ some answer)
        ↔ ((answer ≡ origin) × ((is_only_star os ≡ true) ⊎ Lists os origin))
  unfolding resolve_allowed_origin
  resolve_allowed_origin_iff [] origin answer h =
      ((λ e. cc), λ p. elim p.1 [ inl q ↦ cc | inr l ↦ absurd l ])
  resolve_allowed_origin_iff (o ∷ os) origin answer h = elim (Bool-cases (is_only_star (o ∷ os))) [
    | inl only ↦ rw (only, h) ((λ e. (ground arith, inl refl)), λ p. ap some (sym p.0))
    | inr more ↦
        rw (more, h)
          (
            (λ e.
                let (same, listed) = (find_origin-Lists (o ∷ os) origin answer).0 e in
                (same, inr listed)),
            λ p. elim p.1 [
              | inl q ↦ cc
              | inr listed ↦ (find_origin-Lists (o ∷ os) origin answer).1 (p.0, listed)
            ],
          )
  ]
