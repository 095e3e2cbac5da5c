-- ===== src/Tools/ExecCommand/Run.antt =====
-- `executeExecCommandTool` of internal/tools/exec_command.go and what it calls. The operating system
-- and Go's tables of letters are the section's parameter `sys`; `w` is the state of the world. The
-- answers are values; their JSON text is left out.
use zai_proxy.Base.{
  pos, negsuc, ℤ, positive_or, ℕ, Bool, true, false, not, ◌&&◌, Option, none, some, List, [], ◌∷◌,
  ltb, ◌==◌, if◌then◌else◌, length,
}
use zai_proxy.Text.{
  Outcome, Bytes, codes, is_empty, is_blank, has_prefix, trim_space, bytes_eq, value, panics,
}
use zai_proxy.Tools.ExecCommand.Split.{Parsed, CommandError, parsed, rejected}
use zai_proxy.Tools.ExecCommand.Argv.{
  ExecCommandRequest, build_exec_command_argv, match_allowed_command_prefix,
}
use zai_proxy.Tools.ExecCommand.Output.{new_capped_output_buffer, write_all, truncated}

pub record ExecCommandSettings : Type 0 where
  pub enabled : Bool
  pub allowlist : List Bytes
  pub working_dir : Bytes
  pub timeout_sec : ℕ
  pub max_output_bytes : ℕ
  pub allow_background : Bool

-- What a started command gets.
pub record Launch : Type 0 where
  pub argv : List Bytes
  pub resolved_command : Bytes
  pub matched_prefix : Bytes
  pub workdir : Bytes

-- What `cmd.Run` and the context tell: the exit code stands in the process state, if there is one.
pub record RunReport : Type 0 where
  pub failed : Bool
  pub process_state : Option ℤ
  pub timed_out : Bool
  pub writes : List Bytes

-- `filepath`, `os`, `exec` and `strings.ToLower`.
pub record System (W Args : Type 0) : Type 0 where
  pub to_lower : Bytes → Bytes
  pub unmarshal_request : Args → Option ExecCommandRequest
  pub abs : W → Bytes → Option Bytes
  pub is_abs : Bytes → Bool
  pub join : Bytes → Bytes → Bytes
  pub rel : Bytes → Bytes → Option Bytes
  pub stat_is_dir : W → Bytes → Option Bool
  pub look_path : W → Bytes → Option Bytes
  pub run : W → Launch → ℕ → RunReport × W
  pub create_temp : W → Option Bytes × W
  pub start : W → Launch → Bytes → Option ℕ × W
  pub remove : W → Bytes → W

pub record ForegroundResult : Type 0 where
  pub launch : Launch
  pub success : Bool
  pub exit_code : ℤ
  pub timed_out : Bool
  pub timeout_sec : ℕ
  pub output : Bytes
  pub output_truncated : Bool
  pub captured_output_bytes : ℕ
  pub total_output_bytes_seen : ℕ

pub data Answer : Type 0 where
  disabled_tool : Answer
  invalid_exec_request : Answer
  invalid_command : CommandError → Answer
  command_not_allowed : List Bytes → Answer
  invalid_workdir : Answer
  command_not_found : Answer
  background_not_allowed : Answer
  background_log_error : Answer
  command_start_failed : Launch → Answer
  foreground_result : ForegroundResult → Answer
  background_started : Launch → ℕ → Bytes → Answer

-- The entries of `backgroundProcesses`, with their process numbers.
pub record BackgroundProcessInfo : Type 0 where
  pub launch : Launch
  pub log_path : Bytes

pub record State (W : Type 0) : Type 0 where
  pub world : W
  pub background_processes : List (ℕ × BackgroundProcessInfo)

-- `sync.Map.Delete`
unfoldable pub delete_process :
    ℕ → List (ℕ × BackgroundProcessInfo) → List (ℕ × BackgroundProcessInfo)
delete_process pid [] = []
delete_process pid ((n, info) ∷ ps) =
    let rest = delete_process pid ps in if n == pid then rest else (n, info) ∷ rest

-- `sync.Map.Store`
abbrev pub store_process :
    ℕ → BackgroundProcessInfo → List (ℕ × BackgroundProcessInfo) → List (ℕ × BackgroundProcessInfo)
store_process pid info ps = (pid, info) ∷ delete_process pid ps

-- What the checks before a start come to.
pub data Plan : Type 0 where
  refuse : Answer → Plan
  launch_now : ExecCommandRequest → Launch → Plan
  launch_later : ExecCommandRequest → Launch → Plan
  crash : Plan

abbrev pub first_word : List Bytes → Bytes
first_word [] = []
first_word (name ∷ args) = name

abbrev pub timeout_of : ExecCommandRequest → ExecCommandSettings → ℕ
timeout_of req settings =
    let timeout = positive_or req.timeout_sec settings.timeout_sec in
    if ltb 600 timeout then 600 else timeout

abbrev pub is_none {ℓ} : {A : Type ℓ} → Option A → Bool
is_none none = true
is_none (some a) = false

abbrev pub exit_code_of : RunReport → ℤ
exit_code_of report = elim report.process_state [
  | some code ↦ code
  | none ↦ if report.timed_out then negsuc 0 else pos 0
]

module _ {W Args : Type 0} (sys : System W Args) where
  unfoldable pub is_within_base_dir : Bytes → Bytes → Bool
  is_within_base_dir base_dir candidate = elim (sys.rel base_dir candidate) [
    | none ↦ false
    | some rel ↦
        if bytes_eq rel (codes ".")
        then true
        else not (bytes_eq rel (codes "..")) && not (has_prefix (codes "../") rel)
  ]

  -- The checks behind the two calls of `filepath.Abs`.
  unfoldable pub check_workdir : W → Bytes → Bytes → Option Bytes
  unfolding is_within_base_dir
  check_workdir w base_abs candidate_abs =
      if not (is_within_base_dir base_abs candidate_abs)
      then none
      else elim (sys.stat_is_dir w candidate_abs) [
        | none ↦ none
        | some is_dir ↦ if is_dir then some candidate_abs else none
      ]

  abbrev pub candidate_of : Bytes → Bytes → Bytes
  candidate_of requested base_abs =
      let trimmed = trim_space requested in
      if is_empty trimmed
      then base_abs
      else if not (sys.is_abs trimmed)
      then sys.join base_abs trimmed
      else trimmed

  -- Behind the first call of `filepath.Abs`.
  unfoldable pub resolve_in : W → Bytes → Bytes → Option Bytes
  unfolding check_workdir
  resolve_in w requested base_abs = elim (sys.abs w (candidate_of requested base_abs)) [
    | none ↦ none
    | some candidate_abs ↦ check_workdir w base_abs candidate_abs
  ]

  unfoldable pub resolve_exec_command_workdir : W → Bytes → Bytes → Option Bytes
  unfolding resolve_in
  resolve_exec_command_workdir w requested base =
      elim (sys.abs w (if is_blank base then codes "." else base)) [
        | none ↦ none
        | some base_abs ↦ resolve_in w requested base_abs
      ]

  unfoldable pub decode_exec_command_request : Args → Option ExecCommandRequest
  decode_exec_command_request args = elim (sys.unmarshal_request args) [
    | none ↦ none
    | some req ↦ if is_blank req.command then none else some req
  ]

  -- From `exec.LookPath` on.
  unfoldable pub plan_launch :
      W → ExecCommandSettings → ExecCommandRequest → List Bytes → Bytes → Bytes → Plan
  plan_launch w settings req argv prefix workdir = elim (sys.look_path w (first_word argv)) [
    | none ↦ refuse command_not_found
    | some resolved ↦
        let launch : Launch = record {
          argv = argv;
          resolved_command = resolved;
          matched_prefix = prefix;
          workdir = workdir;
        } in
        if req.run_in_background
        then (if not settings.allow_background
            then refuse background_not_allowed
            else launch_later req launch)
        else launch_now req launch
  ]

  -- From the allowlist on.
  unfoldable pub plan_argv : W → ExecCommandSettings → ExecCommandRequest → List Bytes → Plan
  unfolding plan_launch
  plan_argv w settings req argv =
      elim (match_allowed_command_prefix sys.to_lower argv settings.allowlist) [
        | none ↦ refuse (command_not_allowed settings.allowlist)
        | some prefix ↦ elim (resolve_exec_command_workdir w req.workdir settings.working_dir) [
          | none ↦ refuse invalid_workdir
          | some workdir ↦ plan_launch w settings req argv prefix workdir
        ]
      ]

  -- With the words to run built.
  unfoldable pub plan_built :
      W → ExecCommandSettings → ExecCommandRequest → Outcome (Parsed (List Bytes)) → Plan
  unfolding plan_argv
  plan_built w settings req panics = crash
  plan_built w settings req (value (rejected e)) = refuse (invalid_command e)
  plan_built w settings req (value (parsed argv)) = plan_argv w settings req argv

  unfoldable pub plan_decoded : W → ExecCommandSettings → Option ExecCommandRequest → Plan
  unfolding plan_built
  plan_decoded w settings none = refuse invalid_exec_request
  plan_decoded w settings (some req) = plan_built w settings req (build_exec_command_argv req)

  unfoldable pub plan_exec_command : W → ExecCommandSettings → Args → Plan
  unfolding plan_decoded
  plan_exec_command w settings args =
      if not settings.enabled
      then refuse disabled_tool
      else plan_decoded w settings (decode_exec_command_request args)

  -- Behind `cmd.Run`.
  unfoldable pub end_foreground :
      ExecCommandRequest → Launch → ExecCommandSettings → RunReport → Answer
  unfolding write_all
  end_foreground req launch settings report =
      let output = write_all (new_capped_output_buffer settings.max_output_bytes) report.writes in
      if report.failed && is_none report.process_state && not report.timed_out
      then command_start_failed launch
      else foreground_result (record {
        launch = launch;
        success = not report.failed;
        exit_code = exit_code_of report;
        timed_out = report.timed_out;
        timeout_sec = timeout_of req settings;
        output = output.buf;
        output_truncated = truncated output;
        captured_output_bytes = length output.buf;
        total_output_bytes_seen = output.total;
      })

  unfoldable pub run_foreground_exec_command :
      State W → ExecCommandRequest → Launch → ExecCommandSettings → Answer × State W
  unfolding end_foreground
  run_foreground_exec_command s req launch settings =
      let (report, w) = sys.run s.world launch (timeout_of req settings) in
      (end_foreground req launch settings report, record s { world = w })

  -- Behind `cmd.Start`.
  unfoldable pub end_start : State W → Launch → Bytes → Option ℕ → W → Answer × State W
  end_start s launch log none w =
      (command_start_failed launch, record s { world = sys.remove w log })
  end_start s launch log (some pid) w = (
    background_started launch pid log,
    record {
      world = w;
      background_processes =
          store_process pid (record { launch = launch; log_path = log }) s.background_processes;
    },
  )

  -- Behind `os.CreateTemp`.
  unfoldable pub start_with_log : State W → Launch → Option Bytes → W → Answer × State W
  unfolding end_start
  start_with_log s launch none w = (background_log_error, record s { world = w })
  start_with_log s launch (some log) w =
      let (started, w') = sys.start w launch log in end_start s launch log started w'

  unfoldable pub start_background_exec_command : State W → Launch → Answer × State W
  unfolding start_with_log
  start_background_exec_command s launch =
      let (created, w) = sys.create_temp s.world in start_with_log s launch created w

  unfoldable pub carry_out : State W → ExecCommandSettings → Plan → Option (Answer × State W)
  unfolding run_foreground_exec_command start_background_exec_command
  carry_out s settings crash = none
  carry_out s settings (refuse answer) = some (answer, s)
  carry_out s settings (launch_now req launch) =
      some (run_foreground_exec_command s req launch settings)
  carry_out s settings (launch_later req launch) = some (start_background_exec_command s launch)

  -- `none` for a panic.
  unfoldable pub execute_exec_command_tool :
      State W → ExecCommandSettings → Args → Option (Answer × State W)
  unfolding plan_exec_command carry_out
  execute_exec_command_tool s settings args =
      carry_out s settings (plan_exec_command s.world settings args)

  -- The goroutine behind `cmd.Wait`.
  abbrev pub process_ended : State W → ℕ → State W
  process_ended s pid = record s {
    background_processes = delete_process pid s.background_processes;
  }
