-- ===== src/Tools/ExecCommand/Answers.antt =====
-- What the answers of `executeExecCommandTool` tell of the command that ran.
use zai_proxy.Text.{Bytes}
use zai_proxy.Base.{
  sym, ap, ◌⊎◌, inr, inl, ℕ, ◌≤◌, ◌≡◌, refl, Bool, true, false, not, ◌&&◌, Option, none, some,
  arith, if◌then◌else◌, length,
}
use zai_proxy.Tools.ExecCommand.Argv.{ExecCommandRequest}
use zai_proxy.Tools.ExecCommand.Output.{new_capped_output_buffer, write_all, length-write_all_le}
use zai_proxy.Tools.ExecCommand.Run.{
  exit_code_of, ForegroundResult, background_log_error, background_not_allowed, command_not_found,
  invalid_workdir, invalid_exec_request, command_not_allowed, invalid_command, end_start, carry_out,
  RunReport, end_foreground, store_process, ExecCommandSettings, Launch, System, Answer,
  disabled_tool, foreground_result, background_started, command_start_failed, State, Plan, refuse,
  launch_now, launch_later, crash, plan_exec_command, run_foreground_exec_command,
  start_background_exec_command, start_with_log, execute_exec_command_tool, timeout_of, is_none,
}
use zai_proxy.Tools.ExecCommand.Launched.{
  is_refusal, IsAllowed, PlanIsAllowed, plan_exec_command-PlanIsAllowed,
}

timeout_of_le :
    (req : ExecCommandRequest) (settings : ExecCommandSettings) → timeout_of req settings ≤ 600
timeout_of_le req settings = ground arith

module _ {W Args : Type 0} (sys : System W Args) (s : State W)
    (settings : ExecCommandSettings) where
  -- A result tells what running its launch, in the world before, came to.
  abbrev pub Tells : ForegroundResult → RunReport × W → State W → Type 0
  Tells r (report, w) after =
      (after ≡ record s { world = w })
      × (r.success ≡ not report.failed)
      × (r.exit_code ≡ exit_code_of report)
      × (r.timed_out ≡ report.timed_out)
      × (r.output
          ≡ (write_all (new_capped_output_buffer settings.max_output_bytes) report.writes).buf)

  -- The world in which a command is started in the background, its log being created.
  abbrev pub with_log : W
  with_log = (sys.create_temp s.world).1

  -- The world after a start that failed: the run of the launch, or a start whose log is removed.
  abbrev pub FailedStart : Launch → W → Type 0
  FailedStart launch w =
      ((t : ℕ) × (t ≤ 600) × (w ≡ (sys.run s.world launch t).1))
      ⊎ ((log : Bytes) × (settings.allow_background ≡ true)
          × ((sys.create_temp s.world).0 ≡ some log)
          × ((sys.start with_log launch log).0 ≡ none)
          × (w ≡ sys.remove (sys.start with_log launch log).1 log))

  -- A command that ran passed the checks, was run as the answer says, had ten minutes at most and
  -- left no more output than the limit; one that was started in the background passed them with that
  -- allowed, was started as the answer says, and is registered; else nothing is started.
  abbrev pub AnswerIsAllowed : Answer → State W → Type 0
  AnswerIsAllowed (foreground_result r) after =
      IsAllowed sys s.world settings r.launch
      × (r.timeout_sec ≤ 600)
      × (length r.output ≤ settings.max_output_bytes)
      × Tells r (sys.run s.world r.launch r.timeout_sec) after
  AnswerIsAllowed (background_started launch pid log) after =
      IsAllowed sys s.world settings launch
      × (settings.allow_background ≡ true)
      × ((sys.create_temp s.world).0 ≡ some log)
      × ((sys.start with_log launch log).0 ≡ some pid)
      × (after ≡ record {
        world = (sys.start with_log launch log).1;
        background_processes =
            store_process pid (record { launch = launch; log_path = log }) s.background_processes;
      })
  AnswerIsAllowed (command_start_failed launch) after =
      IsAllowed sys s.world settings launch
      × (after.background_processes ≡ s.background_processes)
      × FailedStart launch after.world
  AnswerIsAllowed background_log_error after = after ≡ record s { world = with_log }
  AnswerIsAllowed _ after = after ≡ s

  abbrev pub Executed : Option (Answer × State W) → Type 0
  Executed none = ⊥
  Executed (some (answer, after)) = AnswerIsAllowed answer after

  either-AnswerIsAllowed :
      (b : Bool) (x y : Answer) (after : State W)
      → AnswerIsAllowed x after
      → AnswerIsAllowed y after
      → AnswerIsAllowed (if b then x else y) after
  either-AnswerIsAllowed true x y after hx hy = hx
  either-AnswerIsAllowed false x y after hx hy = hy

  end_foreground-AnswerIsAllowed :
      (req : ExecCommandRequest) (launch : Launch) (report : RunReport) (w : W)
      → IsAllowed sys s.world settings launch
      → (report, w) ≡ sys.run s.world launch (timeout_of req settings)
      → AnswerIsAllowed (end_foreground sys req launch settings report) (record s { world = w })
  unfolding end_foreground
  end_foreground-AnswerIsAllowed req launch report w h ran =
      either-AnswerIsAllowed (report.failed && is_none report.process_state && not report.timed_out)
        _ _ _
        (h, refl, inl (timeout_of req settings, timeout_of_le req settings, ap (λ p. p.1) ran))
        (
          h,
          timeout_of_le req settings,
          length-write_all_le settings.max_output_bytes report.writes,
          (
            ap (λ p. record s { world = p.1 }) ran,
            ap (λ p. not p.0.failed) ran,
            ap (λ p. exit_code_of p.0) ran,
            ap (λ p. p.0.timed_out) ran,
            ap
                (λ p.
                  (write_all (new_capped_output_buffer settings.max_output_bytes) p.0.writes).buf)
                ran,
          ),
        )

  end_start-Executed :
      (launch : Launch) (log : Bytes) (started : Option ℕ) (w : W)
      → IsAllowed sys s.world settings launch
      → settings.allow_background ≡ true
      → (sys.create_temp s.world).0 ≡ some log
      → (started, w) ≡ sys.start with_log launch log
      → Executed (some (end_start sys s launch log started w))
  unfolding end_start
  end_start-Executed launch log none w h ok made ran =
      (h, refl, inr (log, ok, made, sym (ap (λ p. p.0) ran), ap (λ p. sys.remove p.1 log) ran))
  end_start-Executed launch log (some pid) w h ok made ran = (
    h,
    ok,
    made,
    sym (ap (λ p. p.0) ran),
    ap
        (λ p. record {
          world = p.1;
          background_processes =
              store_process pid (record { launch = launch; log_path = log }) s.background_processes;
        })
        ran,
  )

  start_with_log-Executed :
      (launch : Launch) (created : Option Bytes)
      → IsAllowed sys s.world settings launch
      → settings.allow_background ≡ true
      → (sys.create_temp s.world).0 ≡ created
      → Executed (some (start_with_log sys s launch created with_log))
  unfolding start_with_log
  start_with_log-Executed launch none h ok made = refl
  start_with_log-Executed launch (some log) h ok made =
      end_start-Executed launch log (sys.start with_log launch log).0
        (sys.start with_log launch log).1 h ok made refl

  start_background-Executed :
      (launch : Launch)
      → IsAllowed sys s.world settings launch
      → settings.allow_background ≡ true
      → Executed (some (start_background_exec_command sys s launch))
  unfolding start_background_exec_command
  start_background-Executed launch h ok =
      start_with_log-Executed launch (sys.create_temp s.world).0 h ok refl

  refusal-AnswerIsAllowed : (answer : Answer) → is_refusal answer ≡ true → AnswerIsAllowed answer s
  refusal-AnswerIsAllowed disabled_tool h = refl
  refusal-AnswerIsAllowed invalid_exec_request h = refl
  refusal-AnswerIsAllowed (invalid_command e) h = refl
  refusal-AnswerIsAllowed (command_not_allowed allowlist) h = refl
  refusal-AnswerIsAllowed invalid_workdir h = refl
  refusal-AnswerIsAllowed command_not_found h = refl
  refusal-AnswerIsAllowed background_not_allowed h = refl
  refusal-AnswerIsAllowed background_log_error h = cc
  refusal-AnswerIsAllowed (command_start_failed launch) h = cc
  refusal-AnswerIsAllowed (foreground_result r) h = cc
  refusal-AnswerIsAllowed (background_started launch pid log) h = cc

  carry_out-Executed :
      (plan : Plan)
      → PlanIsAllowed sys s.world settings plan
      → Executed (carry_out sys s settings plan)
  unfolding carry_out run_foreground_exec_command
  carry_out-Executed (refuse answer) h = refusal-AnswerIsAllowed answer h
  carry_out-Executed (launch_now req launch) h =
      let (report, w) = sys.run s.world launch (timeout_of req settings) in
      end_foreground-AnswerIsAllowed req launch report w h refl
  carry_out-Executed (launch_later req launch) h = start_background-Executed launch h.0 h.1
  carry_out-Executed crash h = absurd h

  -- The tool never panics, and whatever it starts passed all its checks: the tool is enabled, the
  -- command's name is not empty and holds no slash, its words in lower case start with those of an
  -- entry of the allowlist, the directory lies in the configured one, and the program is what
  -- `LookPath` finds for the name. The only thing done to the world is what the answer tells: the
  -- very launch that passed the checks is run, with ten minutes at most, and the answer tells how it
  -- ended and at most the limit of its output; or, with that allowed, it is started in the
  -- background with a new log, and is the only one newly registered; a start that failed leaves no
  -- log and no entry. A command that is refused leaves the world as it was.
  pub execute_exec_command_tool-Executed :
      (args : Args) → Executed (execute_exec_command_tool sys s settings args)
  unfolding execute_exec_command_tool
  execute_exec_command_tool-Executed args =
      carry_out-Executed (plan_exec_command sys s.world settings args)
        (plan_exec_command-PlanIsAllowed sys s.world settings args)
