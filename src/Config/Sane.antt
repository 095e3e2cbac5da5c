-- ===== src/Config/Sane.antt =====
-- What `Sanitize` of internal/config/config.go makes sure of.
use zai_proxy.Text.Laws.{bytes_eq_iff}
use zai_proxy.Text.{has_prefix, index, trim_space, is_empty, codes, bytes_eq, contains, Bytes}
use zai_proxy.Tools.Resolution.{member}
use zai_proxy.Config.{
  default_exec_command_working_dir, empty_allowlist, empty_origins, validate, exec_command_settings,
  normalize_command_prefixes, with_port, or_else, normalize_listen, star_origin, sanitize,
  normalize_origins, no_entries, sanitize_origins, or_star, or_default, normalize_origins_from,
  clamp, at_least_zero, Host, Config,
}
use zai_proxy.Base.{
  if◌then◌else◌, ℤ, pos, negsuc, positive_or, ℕ, zero, suc, ◌≤◌, ◌<◌, ◌≡◌, refl, sym, ap, ◌≢◌, ◌⊎◌,
  inl, inr, true, false, ◌||◌, Option, none, some, List, [], ◌∷◌, ◌++◌, arith, ltb, Bool-cases, All,
  All-append,
}

abbrev pub Distinct : List Bytes → Type 0
Distinct [] = Unit
Distinct (o ∷ os) = (member o os ≡ false) × Distinct os

-- An origin by itself: not empty, and not the star.
abbrev pub Named : Bytes → Type 0
Named o = (is_empty o ≡ false) × (bytes_eq o star_origin ≡ false)

-- Either the star alone, or distinct origins, none of them the star, of which there is one.
abbrev pub Origins : List Bytes → Type 0
Origins os = (os ≡ star_origin ∷ []) ⊎ ((no_entries os ≡ false) × All Named os × Distinct os)

-- From 1 to a limit.
abbrev pub Within : ℕ → ℤ → Type 0
Within limit x = (n : ℕ) × (x ≡ pos n) × (0 < n) × (n ≤ limit)

-- Not negative.
abbrev pub Natural : ℤ → Type 0
Natural x = (n : ℕ) × (x ≡ pos n)

pub record Sane (c : Config) : Type 0 where
  pub has_colon : contains (codes ":") c.listen ≡ true
  pub has_log_level : is_empty c.log_level ≡ false
  pub has_origins : Origins c.allowed_origins
  pub header_timeout : Natural c.read_header_timeout_sec
  pub read_timeout : Natural c.read_timeout_sec
  pub write_timeout : Natural c.write_timeout_sec
  pub idle_timeout : Natural c.idle_timeout_sec
  pub shutdown_timeout : (n : ℕ) × (c.shutdown_timeout_sec ≡ pos (suc n))
  pub has_allowlist : no_entries c.exec_command_allowlist ≡ false
  pub timeout : Within 600 c.exec_command_timeout_sec
  pub output : Within 1048576 c.exec_command_max_output_bytes

with_port-contains : (l : Bytes) → contains (codes ":") (with_port l) ≡ true
unfolding contains
with_port-contains l = elim (Bool-cases (contains (codes ":") l)) [
  | inl e ↦ rw e e
  | inr n ↦ rw n (unfold index has_prefix in refl)
]

or_else-is_empty : (s other : Bytes) → is_empty other ≡ false → is_empty (or_else s other) ≡ false
or_else-is_empty [] other h = h
or_else-is_empty (c ∷ s) other h = refl

at_least_zero-Natural : (x : ℤ) → Natural (at_least_zero x)
at_least_zero-Natural (pos n) = (n, refl)
at_least_zero-Natural (negsuc n) = (0, refl)

positive_or-positive : (x : ℤ) (n : ℕ) → (m : ℕ) × (positive_or x (suc n) ≡ suc m)
positive_or-positive (pos zero) n = (n, refl)
positive_or-positive (pos (suc k)) n = (k, refl)
positive_or-positive (negsuc k) n = (n, refl)

clamp-Within : (d limit : ℕ) (x : ℤ) → 0 < limit → Within limit (clamp (suc d) limit x)
clamp-Within d limit x h =
    let (m, e) = positive_or-positive x d in
    elim (Bool-cases (ltb limit (positive_or x (suc d)))) [
      | inl over ↦ rw over (limit, refl, h, omega arith)
      | inr within ↦ rw within (positive_or x (suc d), refl, ground arith, ground arith)
    ]

or_default-some : (ps : List Bytes) → no_entries (or_default ps) ≡ false
unfolding or_default
or_default-some [] = refl
or_default-some (p ∷ ps) = refl

bytes_eq_sym : (a b : Bytes) → bytes_eq a b ≡ false → bytes_eq b a ≡ false
bytes_eq_sym a b h = elim (Bool-cases (bytes_eq b a)) [
  | inr n ↦ n
  | inl e ↦
      let same : bytes_eq a b ≡ true = (bytes_eq_iff a b).1 (sym ((bytes_eq_iff b a).0 e)) in
      ground arith
]

member-append_false :
    (x o : Bytes) (os : List Bytes)
    → member o os ≡ false
    → bytes_eq x o ≡ false
    → member o (os ++ x ∷ []) ≡ false
unfolding member
member-append_false x o [] h k = rw k refl
member-append_false x o (p ∷ os) h k =
    let later : member o os ≡ false = ground arith in
    ground (arith, member-append_false x o os later k)

Distinct-append :
    (x : Bytes) (os : List Bytes) → member x os ≡ false → Distinct os → Distinct (os ++ x ∷ [])
unfolding member
Distinct-append x [] h d = (refl, tt)
Distinct-append x (o ∷ os) h d =
    let other : bytes_eq o x ≡ false = ground arith in
    let later : member x os ≡ false = ground arith in
    (member-append_false x o os d.0 (bytes_eq_sym o x other), Distinct-append x os later d.1)

-- What the loop returns, if it does not meet the star.
abbrev Returned : Option (List Bytes) → Type 0
Returned none = Unit
Returned (some os) = All Named os × Distinct os

normalize_origins_from-Returned :
    (os normalized : List Bytes)
    → All Named normalized
    → Distinct normalized
    → Returned (normalize_origins_from normalized os)
unfolding normalize_origins_from
normalize_origins_from-Returned [] normalized a d = (a, d)
normalize_origins_from-Returned (o ∷ os) normalized a d =
    let item = trim_space o in
    elim (Bool-cases (bytes_eq item star_origin)) [
      | inl star ↦ rw star tt
      | inr other ↦ elim (Bool-cases (is_empty item || member item normalized)) [
        | inl skip ↦ rw (other, skip) (normalize_origins_from-Returned os normalized a d)
        | inr new ↦
            rw (other, new)
              (normalize_origins_from-Returned os (normalized ++ item ∷ [])
                (All-append Named normalized (item ∷ []) a ((ground arith, other), tt))
                (Distinct-append item normalized (ground arith) d))
      ]
    ]

or_star-Origins : (o : Option (List Bytes)) → Returned o → Origins (or_star o)
unfolding or_star
or_star-Origins none h = inl refl
or_star-Origins (some []) h = inl refl
or_star-Origins (some (o ∷ os)) h = inr (refl, h.0, h.1)

sanitize_origins-Origins : (os : List Bytes) → Origins (sanitize_origins os)
unfolding sanitize_origins normalize_origins
sanitize_origins-Origins [] = inl refl
sanitize_origins-Origins (o ∷ os) =
    or_star-Origins (normalize_origins_from [] (o ∷ os))
      (normalize_origins_from-Returned (o ∷ os) [] tt tt)

positive_or-Within :
    (limit d : ℕ) (x : ℤ)
    → Within limit x
    → (0 < positive_or x d) × (positive_or x d ≤ limit) × (pos (positive_or x d) ≡ x)
positive_or-Within limit d (pos zero) (n, e, p, l) = ground arith
positive_or-Within limit d (pos (suc k)) (n, e, p, l) =
    let same : suc k ≡ n = ground arith in (omega arith, omega arith, refl)
positive_or-Within limit d (negsuc k) (n, e, p, l) = ground arith

or_default-same : (ps : List Bytes) → no_entries ps ≡ false → or_default ps ≡ ps
unfolding or_default
or_default-same [] h = ground arith
or_default-same (p ∷ ps) h = refl

Origins-some : (os : List Bytes) → Origins os → no_entries os ≡ false
Origins-some os (inl e) = rw e refl
Origins-some os (inr h) = h.0

module _ (host : Host) where
  validate-parts :
      (c : Config)
      → no_entries c.allowed_origins ≡ false
      → no_entries c.exec_command_allowlist ≡ false
      → (validate host c ≢ some empty_origins) × (validate host c ≢ some empty_allowlist)
  unfolding validate
  validate-parts c a l = (λ e. ground arith, λ e. ground arith)

  working_dir-cases :
      (dir : Bytes)
      → let chosen =
          if is_empty (trim_space dir) then default_exec_command_working_dir host else dir in
        (chosen ≡ dir)
        ⊎ ((is_empty (trim_space dir) ≡ true) × (chosen ≡ default_exec_command_working_dir host))
  working_dir-cases dir = elim (Bool-cases (is_empty (trim_space dir))) [
    | inl blank ↦ rw blank (inr (refl, refl))
    | inr path ↦ rw path (inl refl)
  ]

  -- Whatever was read, a sanitized configuration has an address to listen on that contains a colon,
  -- has a log level, has the star as its only origin or distinct origins without it, has timeouts that are
  -- not negative, an allowlist that is not empty, and runs commands for 1 to 600 seconds with 1 to
  -- 1048576 bytes of output.
  pub sanitize-Sane : (c : Config) → Sane (sanitize host c)
  unfolding sanitize normalize_listen
  sanitize-Sane c = record {
    has_colon = with_port-contains (or_else (trim_space c.listen) (codes ":8000"));
    has_log_level = or_else-is_empty (host.to_lower (trim_space c.log_level)) (codes "info") refl;
    has_origins = sanitize_origins-Origins c.allowed_origins;
    header_timeout = at_least_zero-Natural c.read_header_timeout_sec;
    read_timeout = at_least_zero-Natural c.read_timeout_sec;
    write_timeout = at_least_zero-Natural c.write_timeout_sec;
    idle_timeout = at_least_zero-Natural c.idle_timeout_sec;
    shutdown_timeout = let (m, e) = positive_or-positive c.shutdown_timeout_sec 9 in (m, ap pos e);
    has_allowlist = or_default-some (normalize_command_prefixes host c.exec_command_allowlist);
    timeout = clamp-Within 19 600 c.exec_command_timeout_sec (omega arith);
    output = clamp-Within 65535 1048576 c.exec_command_max_output_bytes (omega arith);
  }

  -- The settings of the command tool are those of a sanitized configuration, whatever was read: both
  -- switches, the allowlist, which is not empty, the limits on time and output, and the working
  -- directory, in place of which the default stands if it is blank. `Validate` never refuses a
  -- sanitized configuration for its origins or its allowlist.
  pub exec_command_settings-sanitize :
      (c : Config)
      → let s = exec_command_settings host (sanitize host c) in
        (s.enabled ≡ c.enable_exec_command)
        × (s.allow_background ≡ c.exec_command_allow_background)
        × ((s.working_dir ≡ (sanitize host c).exec_command_working_dir)
            ⊎ ((is_empty (trim_space (sanitize host c).exec_command_working_dir) ≡ true)
                × (s.working_dir ≡ default_exec_command_working_dir host)))
        × (s.allowlist ≡ (sanitize host c).exec_command_allowlist)
        × (no_entries s.allowlist ≡ false)
        × (0 < s.timeout_sec)
        × (s.timeout_sec ≤ 600)
        × (0 < s.max_output_bytes)
        × (s.max_output_bytes ≤ 1048576)
        × (pos s.timeout_sec ≡ (sanitize host c).exec_command_timeout_sec)
        × (pos s.max_output_bytes ≡ (sanitize host c).exec_command_max_output_bytes)
        × (validate host (sanitize host c) ≢ some empty_origins)
        × (validate host (sanitize host c) ≢ some empty_allowlist)
  unfolding exec_command_settings sanitize
  exec_command_settings-sanitize c =
      let s = sanitize host c in
      let sane = sanitize-Sane c in
      let t = positive_or-Within 600 20 s.exec_command_timeout_sec sane.timeout in
      let o = positive_or-Within 1048576 65536 s.exec_command_max_output_bytes sane.output in
      let e = or_default-same s.exec_command_allowlist sane.has_allowlist in
      let valid =
        validate-parts s (Origins-some s.allowed_origins sane.has_origins) sane.has_allowlist in
      (
        refl,
        refl,
        working_dir-cases s.exec_command_working_dir,
        e,
        or_default-some s.exec_command_allowlist,
        t.0,
        t.1,
        o.0,
        o.1,
        t.2,
        o.2,
        valid.0,
        valid.1,
      )
