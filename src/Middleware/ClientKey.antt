-- ===== src/Middleware/ClientKey.antt =====
-- `extractIP` of internal/middleware/ratelimit.go: the key of a request.
use zai_proxy.Base.{
  ◌≡◌, refl, ap, ◌≢◌, ◌⊎◌, inl, inr, not, [], ◌∷◌, ◌++◌, arith, ◌==◌, if◌then◌else◌, Bool-cases,
  All,
}
use zai_proxy.Text.{Bytes, is_empty}

-- The part of `xff` before its first comma: the loop over its bytes.
unfoldable pub before_comma : Bytes → Bytes
before_comma [] = []
before_comma (c ∷ s) = if c == b',' then [] else c ∷ before_comma s

-- The two header values and the remote address.
unfoldable pub extract_ip : Bytes → Bytes → Bytes → Bytes
unfolding before_comma
extract_ip xff xri remote_addr =
    if not (is_empty xff) then before_comma xff else if not (is_empty xri) then xri else remote_addr

-- What the loop returns for `xff`: a prefix without a comma, which is all of `xff`, or stands before
-- a comma.
pub record FirstEntry (entry xff : Bytes) : Type 0 where
  pub rest : Bytes
  pub no_comma : All (λ c. c ≢ b',') entry
  pub splits : xff ≡ entry ++ rest
  pub ends : (rest ≡ []) ⊎ ((more : Bytes) × (rest ≡ b',' ∷ more))

before_comma-FirstEntry : (s : Bytes) → FirstEntry (before_comma s) s
unfolding before_comma
before_comma-FirstEntry [] = record { rest = []; no_comma = tt; splits = refl; ends = inl refl }
before_comma-FirstEntry (c ∷ s) = elim (Bool-cases (c == b',')) [
  | inl comma ↦
      rw comma (record { rest = c ∷ s; no_comma = tt; splits = refl; ends = inr (s, ground arith) })
  | inr other ↦
      let f = before_comma-FirstEntry s in
      rw other (record {
        rest = f.rest;
        no_comma = (ground arith, f.no_comma);
        splits = ap (◌∷◌ c) f.splits;
        ends = f.ends;
      })
]

-- The key of a request: with a nonempty X-Forwarded-For its first entry, which holds no comma;
-- without one a nonempty X-Real-IP as it is, and else the remote address.
pub extract_ip_lem :
    (xff xri remote_addr : Bytes)
    → (xff ≢ [] → FirstEntry (extract_ip xff xri remote_addr) xff)
      × (xff ≡ [] → xri ≢ [] → extract_ip xff xri remote_addr ≡ xri)
      × (xff ≡ [] → xri ≡ [] → extract_ip xff xri remote_addr ≡ remote_addr)
unfolding extract_ip
extract_ip_lem [] [] r = (λ h. absurd (h refl), λ _ h. absurd (h refl), λ _ _. refl)
extract_ip_lem [] (c ∷ s) r = (λ h. absurd (h refl), λ _ _. refl, λ _ h. absurd (cc))
extract_ip_lem (c ∷ s) xri r =
    (λ _. before_comma-FirstEntry (c ∷ s), λ h _. absurd (cc), λ h _. absurd (cc))
