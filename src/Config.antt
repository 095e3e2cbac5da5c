-- ===== src/Config.antt =====
-- internal/config/config.go: the configuration once it is read. Letter case, `strings.Fields`, paths and
-- the file system are the parameter `host`.
pub mod Sane
use zai_proxy.Tools.ExecCommand.Run.{ExecCommandSettings}
use zai_proxy.Tools.Resolution.{member}
use zai_proxy.Text.{is_empty, contains, codes, trim_space, bytes_eq, Bytes}
use zai_proxy.Base.{
  ℤ, pos, negsuc, positive_or, inc, dec, ℕ, zero, suc, ◌+◌, ◌-◌, ◌*◌, ◌/◌, ◌%◌, ◌^◌, ◌≤◌, ◌<◌, ◌≡◌,
  refl, sym, ap, ◌∙◌, ◌≢◌, ◌↔◌, ◌⊎◌, inl, inr, Bool, true, false, not, ◌&&◌, ◌||◌, Option, none,
  some, List, [], ◌∷◌, ◌++◌, map, append-nil, append_assoc, arith, ltb, leb, ◌==◌, if◌then◌else◌,
  ==_iff, Bool-cases, Option-cases, length, take, drop, length-append, take-append-drop,
  length-drop, drop-append, take-append, All, All-append, All-map,
}

pub record Config : Type 0 where
  pub listen : Bytes
  pub log_level : Bytes
  pub enable_cors : Bool
  pub allowed_origins : List Bytes
  pub enable_status_page : Bool
  pub read_header_timeout_sec : ℤ
  pub read_timeout_sec : ℤ
  pub write_timeout_sec : ℤ
  pub idle_timeout_sec : ℤ
  pub shutdown_timeout_sec : ℤ
  pub enable_exec_command : Bool
  pub exec_command_allowlist : List Bytes
  pub exec_command_working_dir : Bytes
  pub exec_command_timeout_sec : ℤ
  pub exec_command_max_output_bytes : ℤ
  pub exec_command_allow_background : Bool

-- `strings.ToLower`, `strings.Fields`, `filepath.Abs`, `os.Getwd`, and whether `os.Stat` finds a
-- directory; `none` for an error.
pub record Host : Type 0 where
  pub to_lower : Bytes → Bytes
  pub fields : Bytes → List Bytes
  pub abs_dir : Bytes → Option Bytes
  pub getwd : Option Bytes
  pub stat_is_dir : Bytes → Option Bool

pub data ConfigError : Type 0 where
  invalid_log_level : ConfigError
  empty_origins : ConfigError
  invalid_working_dir : ConfigError
  not_a_directory : ConfigError
  empty_allowlist : ConfigError

abbrev pub star_origin : Bytes
star_origin = codes "*"

-- The loop of `normalizeOrigins`, with `none` for its return within: `seen` holds what `normalized`
-- does.
unfoldable pub normalize_origins_from : List Bytes → List Bytes → Option (List Bytes)
unfolding trim_space bytes_eq member
normalize_origins_from normalized [] = some normalized
normalize_origins_from normalized (o ∷ os) =
    let item = trim_space o in
    let skips = is_empty item || member item normalized in
    let rest = normalize_origins_from (if skips then normalized else normalized ++ item ∷ []) os in
    if bytes_eq item star_origin then none else rest

-- No origin stands for all of them.
unfoldable pub or_star : Option (List Bytes) → List Bytes
or_star none = star_origin ∷ []
or_star (some []) = star_origin ∷ []
or_star (some (o ∷ os)) = o ∷ os

unfoldable pub normalize_origins : List Bytes → List Bytes
unfolding normalize_origins_from or_star
normalize_origins origins = or_star (normalize_origins_from [] origins)

-- `strings.Join(words, " ")`
unfoldable pub join_words : List Bytes → Bytes
join_words [] = []
join_words (w ∷ []) = w
join_words (w ∷ v ∷ ws) = w ++ b' ' ∷ join_words (v ∷ ws)

abbrev pub default_exec_command_allowlist : List Bytes
default_exec_command_allowlist =
    codes "pwd"
    ∷ codes "ls"
    ∷ codes "cat"
    ∷ codes "head"
    ∷ codes "tail"
    ∷ codes "sed"
    ∷ codes "grep"
    ∷ codes "rg"
    ∷ codes "find"
    ∷ codes "wc"
    ∷ codes "stat"
    ∷ codes "git status"
    ∷ codes "git diff"
    ∷ codes "git log"
    ∷ codes "git show"
    ∷ codes "go test"
    ∷ codes "go run"
    ∷ codes "go env"
    ∷ codes "npm run"
    ∷ codes "npm test"
    ∷ codes "pnpm run"
    ∷ codes "pnpm test"
    ∷ codes "yarn run"
    ∷ codes "yarn test"
    ∷ []

unfoldable pub or_default : List Bytes → List Bytes
or_default [] = default_exec_command_allowlist
or_default (p ∷ ps) = p ∷ ps

-- `if x < 0 { x = 0 }`
abbrev pub at_least_zero : ℤ → ℤ
at_least_zero (pos n) = pos n
at_least_zero (negsuc n) = pos 0

-- The default for a number that is not positive, and the largest one allowed.
abbrev pub clamp : ℕ → ℕ → ℤ → ℤ
clamp default limit x = let n = positive_or x default in pos (if ltb limit n then limit else n)

abbrev pub with_port : Bytes → Bytes
with_port listen = if not (contains (codes ":") listen) then b':' ∷ listen else listen

abbrev pub or_else : Bytes → Bytes → Bytes
or_else [] other = other
or_else (c ∷ s) other = c ∷ s

unfoldable pub normalize_listen : Bytes → Bytes
unfolding trim_space contains
normalize_listen listen = with_port (or_else (trim_space listen) (codes ":8000"))

unfoldable pub sanitize_origins : List Bytes → List Bytes
unfolding normalize_origins
sanitize_origins [] = star_origin ∷ []
sanitize_origins (o ∷ os) = normalize_origins (o ∷ os)

abbrev pub is_log_level : Bytes → Bool
is_log_level l =
    bytes_eq l (codes "debug")
    || bytes_eq l (codes "info")
    || bytes_eq l (codes "warn")
    || bytes_eq l (codes "error")

abbrev pub no_entries : List Bytes → Bool
no_entries [] = true
no_entries (_ ∷ _) = false

module _ (host : Host) where
  -- The loop of `normalizeCommandPrefixes`.
  unfoldable pub normalize_command_prefixes_from : List Bytes → List Bytes → List Bytes
  unfolding trim_space join_words member
  normalize_command_prefixes_from normalized [] = normalized
  normalize_command_prefixes_from normalized (p ∷ ps) =
      let item = host.to_lower (join_words (host.fields (trim_space p))) in
      let skips = is_empty item || member item normalized in
      normalize_command_prefixes_from (if skips then normalized else normalized ++ item ∷ []) ps

  abbrev pub normalize_command_prefixes : List Bytes → List Bytes
  normalize_command_prefixes = normalize_command_prefixes_from []

  unfoldable pub default_exec_command_working_dir : Bytes
  unfolding trim_space
  default_exec_command_working_dir = elim host.getwd [
    | none ↦ codes "."
    | some wd ↦ if is_empty (trim_space wd) then codes "." else wd
  ]

  -- The absolute path, if there is one.
  unfoldable pub sanitize_working_dir : Bytes → Bytes
  unfolding trim_space default_exec_command_working_dir
  sanitize_working_dir dir =
      let chosen = or_else (trim_space dir) default_exec_command_working_dir in
      elim (host.abs_dir chosen) [ none ↦ chosen | some path ↦ path ]

  unfoldable pub sanitize : Config → Config
  unfolding normalize_listen sanitize_origins trim_space normalize_command_prefixes_from or_default
      sanitize_working_dir
  sanitize c = record c {
    listen = normalize_listen c.listen;
    log_level = or_else (host.to_lower (trim_space c.log_level)) (codes "info");
    allowed_origins = sanitize_origins c.allowed_origins;
    read_header_timeout_sec = at_least_zero c.read_header_timeout_sec;
    read_timeout_sec = at_least_zero c.read_timeout_sec;
    write_timeout_sec = at_least_zero c.write_timeout_sec;
    idle_timeout_sec = at_least_zero c.idle_timeout_sec;
    shutdown_timeout_sec = pos (positive_or c.shutdown_timeout_sec 10);
    exec_command_allowlist = or_default (normalize_command_prefixes c.exec_command_allowlist);
    exec_command_working_dir = sanitize_working_dir c.exec_command_working_dir;
    exec_command_timeout_sec = clamp 20 600 c.exec_command_timeout_sec;
    exec_command_max_output_bytes = clamp 65536 1048576 c.exec_command_max_output_bytes;
  }

  -- The first error, if there is one.
  unfoldable pub validate : Config → Option ConfigError
  unfolding bytes_eq
  validate c =
      let listed = if no_entries c.exec_command_allowlist then some empty_allowlist else none in
      if not (is_log_level c.log_level)
      then some invalid_log_level
      else if no_entries c.allowed_origins
      then some empty_origins
      else elim (host.stat_is_dir c.exec_command_working_dir) [
        | none ↦ some invalid_working_dir
        | some is_dir ↦ if not is_dir then some not_a_directory else listed
      ]

  -- `execCommandSettings`; its numbers are positive.
  unfoldable pub exec_command_settings : Config → ExecCommandSettings
  unfolding or_default trim_space default_exec_command_working_dir
  exec_command_settings c = record {
    enabled = c.enable_exec_command;
    allowlist = or_default c.exec_command_allowlist;
    working_dir =
        if is_empty (trim_space c.exec_command_working_dir)
        then default_exec_command_working_dir
        else c.exec_command_working_dir;
    timeout_sec = positive_or c.exec_command_timeout_sec 20;
    max_output_bytes = positive_or c.exec_command_max_output_bytes 65536;
    allow_background = c.exec_command_allow_background;
  }
