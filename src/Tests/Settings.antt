-- ===== src/Tests/Settings.antt =====
-- The configuration at concrete inputs.
use zai_proxy.Text.{trim_space, has_prefix, is_empty, index, codes}
use zai_proxy.Config.Sane.{exec_command_settings-sanitize, sanitize-Sane, Sane}
use zai_proxy.Config.{
  default_exec_command_working_dir, empty_allowlist, empty_origins, validate, no_entries, sanitize,
  exec_command_settings, Host, Config,
}
use zai_proxy.Base.{
  ◌⊎◌, pos, negsuc, ◌≤◌, ◌<◌, ◌≡◌, refl, ◌≢◌, true, false, some, [], ◌∷◌, if◌then◌else◌,
}

-- A host that changes no letters, splits nothing, and knows one directory.
abbrev small_host : Host
small_host = record {
  to_lower = λ s. s;
  fields = λ s. if is_empty s then [] else s ∷ [];
  abs_dir = λ s. some (b'/' ∷ s);
  getwd = some (codes "srv");
  stat_is_dir = λ s. some true;
}

abbrev odd_config : Config
odd_config = record {
  listen = codes " 9000 ";
  log_level = [];
  enable_cors = true;
  allowed_origins = codes "a" ∷ codes " a" ∷ [] ∷ codes "b" ∷ [];
  enable_status_page = false;
  read_header_timeout_sec = negsuc 4;
  read_timeout_sec = pos 5;
  write_timeout_sec = pos 0;
  idle_timeout_sec = negsuc 0;
  shutdown_timeout_sec = pos 0;
  enable_exec_command = true;
  exec_command_allowlist = codes " ls" ∷ codes "ls" ∷ [];
  exec_command_working_dir = [];
  exec_command_timeout_sec = pos 9000;
  exec_command_max_output_bytes = negsuc 0;
  exec_command_allow_background = false;
}

sanitize-Sane_example : Sane (sanitize small_host odd_config)
sanitize-Sane_example = sanitize-Sane small_host odd_config

exec_command_settings-sanitize_example :
    let s = exec_command_settings small_host (sanitize small_host odd_config) in
    (s.enabled ≡ odd_config.enable_exec_command)
    × (s.allow_background ≡ odd_config.exec_command_allow_background)
    × ((s.working_dir ≡ (sanitize small_host odd_config).exec_command_working_dir)
        ⊎ ((is_empty (trim_space (sanitize small_host odd_config).exec_command_working_dir) ≡ true)
            × (s.working_dir ≡ default_exec_command_working_dir small_host)))
    × (s.allowlist ≡ (sanitize small_host odd_config).exec_command_allowlist)
    × (no_entries s.allowlist ≡ false)
    × (0 < s.timeout_sec)
    × (s.timeout_sec ≤ 600)
    × (0 < s.max_output_bytes)
    × (s.max_output_bytes ≤ 1048576)
    × (pos s.timeout_sec ≡ (sanitize small_host odd_config).exec_command_timeout_sec)
    × (pos s.max_output_bytes ≡ (sanitize small_host odd_config).exec_command_max_output_bytes)
    × (validate small_host (sanitize small_host odd_config) ≢ some empty_origins)
    × (validate small_host (sanitize small_host odd_config) ≢ some empty_allowlist)
exec_command_settings-sanitize_example = exec_command_settings-sanitize small_host odd_config

sane_values :
    let c = sanitize small_host odd_config in
    (c.listen ≡ codes ":9000")
    × (c.allowed_origins ≡ codes "a" ∷ codes "b" ∷ [])
    × (c.exec_command_allowlist ≡ codes "ls" ∷ [])
    × (c.exec_command_working_dir ≡ codes "/srv")
    × (c.exec_command_timeout_sec ≡ pos 600)
unfolding sanitize index has_prefix
sane_values = (refl, refl, refl, refl, refl)
