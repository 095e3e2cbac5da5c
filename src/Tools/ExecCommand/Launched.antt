-- ===== src/Tools/ExecCommand/Launched.antt =====
-- Whatever `executeExecCommandTool` starts passed all the checks.
use zai_proxy.Tools.ExecCommand.Split.{parsed, rejected, Parsed}
use zai_proxy.Base.{
  none, false, not, Option, Bool, ◌<◌, ◌≡◌, refl, sym, ap, ◌∙◌, inl, inr, true, some, List, [], ◌∷◌,
  ◌++◌, map, arith, if◌then◌else◌, Bool-cases, Option-cases, length, drop,
}
use mathlib.Core.Path.{subst}
use zai_proxy.Text.{panics, value, Outcome, Bytes, codes, is_blank}
use zai_proxy.Text.Laws.{bytes_eq_iff, bytes_eq_refl}
use zai_proxy.Tools.Resolution.{member}
use zai_proxy.Tools.ExecCommand.Argv.{
  build_exec_command_argv, ExecCommandRequest, prefix_allows, match_allowed_command_prefix, fields,
  words_match,
}
use zai_proxy.Tools.ExecCommand.Run.{
  background_log_error, command_start_failed, background_started, foreground_result, Answer,
  disabled_tool, background_not_allowed, plan_decoded, plan_launch, plan_argv,
  decode_exec_command_request, plan_exec_command, plan_built, candidate_of, resolve_in,
  ExecCommandSettings, Launch, System, Plan, refuse, launch_now, launch_later, crash,
  is_within_base_dir, check_workdir, resolve_exec_command_workdir, first_word,
}
use zai_proxy.Tools.ExecCommand.Allowed.{build_exec_command_argv-Built, Built, IsBareCommand}

-- The list matches at the front.
words_match-append :
    (parts argv : List Bytes)
    → words_match parts argv ≡ true
    → parts ++ drop (length parts) argv ≡ argv
unfolding words_match
words_match-append [] argv h = refl
words_match-append (p ∷ parts) [] h = cc
words_match-append (p ∷ parts) (a ∷ argv) h =
    let same : a ≡ p = (bytes_eq_iff a p).0 (ground arith) in
    let rest : words_match parts argv ≡ true = ground arith in
    rw same (ap (◌∷◌ p) (words_match-append parts argv rest))

-- The answers that are given without a start.
abbrev pub is_refusal : Answer → Bool
is_refusal (foreground_result r) = false
is_refusal (background_started launch pid log) = false
is_refusal (command_start_failed launch) = false
is_refusal background_log_error = false
is_refusal _ = true

module _ {W Args : Type 0} (sys : System W Args) (w : W) (settings : ExecCommandSettings) where
  -- An entry of the configuration allows the words: its own, in lower case and split at white
  -- space, are at least one and the first of the command's in lower case.
  pub record Matched (argv : List Bytes) (prefix : Bytes) : Type 0 where
    pub listed : member prefix settings.allowlist ≡ true
    pub some_part : 0 < length (fields (sys.to_lower prefix))
    pub rest : List Bytes
    pub starts : fields (sys.to_lower prefix) ++ rest ≡ map sys.to_lower argv

  -- The directory is one inside the configured one.
  pub record Inside (workdir : Bytes) : Type 0 where
    pub base_abs : Bytes
    pub is_base :
        sys.abs w (if is_blank settings.working_dir then codes "." else settings.working_dir)
        ≡ some base_abs
    pub within : is_within_base_dir sys base_abs workdir ≡ true
    pub is_dir : sys.stat_is_dir w workdir ≡ some true

  pub record IsAllowed (launch : Launch) : Type 0 where
    pub enabled : settings.enabled ≡ true
    pub bare : IsBareCommand launch.argv
    pub matched : Matched launch.argv launch.matched_prefix
    pub inside : Inside launch.workdir
    pub resolved : sys.look_path w (first_word launch.argv) ≡ some launch.resolved_command

  abbrev pub PlanIsAllowed : Plan → Type 0
  PlanIsAllowed (refuse answer) = is_refusal answer ≡ true
  PlanIsAllowed (launch_now req launch) = IsAllowed launch
  PlanIsAllowed (launch_later req launch) = IsAllowed launch × (settings.allow_background ≡ true)
  PlanIsAllowed crash = ⊥

  prefix_allows-Matched :
      (argv : List Bytes) (prefix : Bytes)
      → prefix_allows sys.to_lower argv prefix ≡ true
      → member prefix settings.allowlist ≡ true
      → Matched argv prefix
  unfolding prefix_allows
  prefix_allows-Matched argv prefix h listed =
      let parts = fields (sys.to_lower prefix) in
      let some_part : 0 < length parts = ground arith in
      let matches : words_match parts (map sys.to_lower argv) ≡ true = ground arith in
      record {
        listed = listed;
        some_part = some_part;
        rest = drop (length parts) (map sys.to_lower argv);
        starts = words_match-append parts (map sys.to_lower argv) matches;
      }

  match_allowed-listed :
      (argv allowlist : List Bytes) (prefix : Bytes)
      → match_allowed_command_prefix sys.to_lower argv allowlist ≡ some prefix
      → (prefix_allows sys.to_lower argv prefix ≡ true) × (member prefix allowlist ≡ true)
  unfolding match_allowed_command_prefix member
  match_allowed-listed argv [] prefix h = cc
  match_allowed-listed argv (p ∷ allowlist) prefix h =
      elim (Bool-cases (prefix_allows sys.to_lower argv p)) [
        | inl e ↦
            let same : p ≡ prefix = ground arith in
            (ap (prefix_allows sys.to_lower argv) (sym same) ∙ e, rw (same, bytes_eq_refl) refl)
        | inr n ↦
            let (allows, listed) = match_allowed-listed argv allowlist prefix (ground arith) in
            (allows, ground arith)
      ]

  check_workdir-Inside :
      (base_abs candidate workdir : Bytes)
      → sys.abs w (if is_blank settings.working_dir then codes "." else settings.working_dir)
        ≡ some base_abs
      → check_workdir sys w base_abs candidate ≡ some workdir
      → Inside workdir
  check_workdir-Inside base_abs candidate workdir is_base h =
      let same : candidate ≡ workdir = unfold check_workdir in ground arith in
      let within : is_within_base_dir sys base_abs candidate ≡ true =
        unfold check_workdir in ground arith in
      let is_dir : sys.stat_is_dir w candidate ≡ some true = unfold check_workdir in ground arith in
      record {
        base_abs = base_abs;
        is_base = is_base;
        within = subst (λ d. is_within_base_dir sys base_abs d ≡ true) same within;
        is_dir = subst (λ d. sys.stat_is_dir w d ≡ some true) same is_dir;
      }

  resolve_in-Inside :
      (base_abs requested workdir : Bytes)
      → sys.abs w (if is_blank settings.working_dir then codes "." else settings.working_dir)
        ≡ some base_abs
      → resolve_in sys w requested base_abs ≡ some workdir
      → Inside workdir
  unfolding resolve_in
  resolve_in-Inside base_abs requested workdir is_base h =
      elim (Option-cases (sys.abs w (candidate_of sys requested base_abs))) [
        | inl e ↦ let no : ⊥ = ground arith in absurd no
        | inr (c, e) ↦ check_workdir-Inside base_abs c workdir is_base (ground arith)
      ]

  resolve-Inside :
      (requested workdir : Bytes)
      → resolve_exec_command_workdir sys w requested settings.working_dir ≡ some workdir
      → Inside workdir
  unfolding resolve_exec_command_workdir
  resolve-Inside requested workdir h =
      elim (Option-cases
        (sys.abs w (if is_blank settings.working_dir then codes "." else settings.working_dir))) [
          | inl e ↦ let no : ⊥ = ground arith in absurd no
          | inr (b, e) ↦ resolve_in-Inside b requested workdir e (ground arith)
        ]

  background-PlanIsAllowed :
      (b : Bool) (req : ExecCommandRequest) (launch : Launch)
      → (b ≡ true → settings.allow_background ≡ true)
      → IsAllowed launch
      → PlanIsAllowed (if not b then refuse background_not_allowed else launch_later req launch)
  background-PlanIsAllowed true req launch on h = (h, on refl)
  background-PlanIsAllowed false req launch on h = refl

  either-PlanIsAllowed :
      (b : Bool) (p q : Plan)
      → PlanIsAllowed p
      → PlanIsAllowed q
      → PlanIsAllowed (if b then p else q)
  either-PlanIsAllowed true p q hp hq = hp
  either-PlanIsAllowed false p q hp hq = hq

  plan_launch-PlanIsAllowed :
      (req : ExecCommandRequest) (argv : List Bytes) (prefix workdir : Bytes)
      → settings.enabled ≡ true
      → IsBareCommand argv
      → Matched argv prefix
      → Inside workdir
      → PlanIsAllowed (plan_launch sys w settings req argv prefix workdir)
  unfolding plan_launch
  plan_launch-PlanIsAllowed req argv prefix workdir on bare matched inside =
      elim (Option-cases (sys.look_path w (first_word argv))) [
        | inl e ↦ rw (e, PlanIsAllowed) refl
        | inr (r, e) ↦
            let allowed : IsAllowed (record {
              argv = argv;
              resolved_command = r;
              matched_prefix = prefix;
              workdir = workdir;
            }) =
              record {
                enabled = on;
                bare = bare;
                matched = matched;
                inside = inside;
                resolved = e;
              } in
            rw (e, PlanIsAllowed)
              (either-PlanIsAllowed req.run_in_background _ _
                (background-PlanIsAllowed settings.allow_background req _ (λ on. on) allowed)
                allowed)
      ]

  plan_argv-PlanIsAllowed :
      (req : ExecCommandRequest) (argv : List Bytes)
      → settings.enabled ≡ true
      → IsBareCommand argv
      → PlanIsAllowed (plan_argv sys w settings req argv)
  unfolding plan_argv
  plan_argv-PlanIsAllowed req argv on bare =
      elim (Option-cases (match_allowed_command_prefix sys.to_lower argv settings.allowlist)) [
        | inl e ↦ rw (e, PlanIsAllowed) refl
        | inr (prefix, e) ↦
            let (allows, listed) = match_allowed-listed argv settings.allowlist prefix e in
            elim (Option-cases
              (resolve_exec_command_workdir sys w req.workdir settings.working_dir)) [
                | inl f ↦ rw (e, f, PlanIsAllowed) refl
                | inr (workdir, f) ↦
                    rw (e, f, PlanIsAllowed)
                      (plan_launch-PlanIsAllowed req argv prefix workdir on bare
                        (prefix_allows-Matched argv prefix allows listed)
                        (resolve-Inside req.workdir workdir f))
              ]
      ]

  plan_built-PlanIsAllowed :
      (req : ExecCommandRequest) (built : Outcome (Parsed (List Bytes)))
      → settings.enabled ≡ true
      → Built built
      → PlanIsAllowed (plan_built sys w settings req built)
  unfolding plan_built
  plan_built-PlanIsAllowed req panics on h = absurd h
  plan_built-PlanIsAllowed req (value (rejected e)) on h = refl
  plan_built-PlanIsAllowed req (value (parsed argv)) on h = plan_argv-PlanIsAllowed req argv on h

  enabled-PlanIsAllowed :
      (b : Bool) (plan : Plan)
      → (b ≡ true → PlanIsAllowed plan)
      → PlanIsAllowed (if not b then refuse disabled_tool else plan)
  enabled-PlanIsAllowed true plan h = h refl
  enabled-PlanIsAllowed false plan h = refl

  decoded-PlanIsAllowed :
      (decoded : Option ExecCommandRequest)
      → settings.enabled ≡ true
      → PlanIsAllowed (plan_decoded sys w settings decoded)
  unfolding plan_decoded
  decoded-PlanIsAllowed none on = refl
  decoded-PlanIsAllowed (some req) on =
      plan_built-PlanIsAllowed req (build_exec_command_argv req) on
        (build_exec_command_argv-Built req)

  pub plan_exec_command-PlanIsAllowed :
      (args : Args) → PlanIsAllowed (plan_exec_command sys w settings args)
  unfolding plan_exec_command
  plan_exec_command-PlanIsAllowed args =
      enabled-PlanIsAllowed settings.enabled _
        (decoded-PlanIsAllowed (decode_exec_command_request sys args))
