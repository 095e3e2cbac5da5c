-- ===== src/Tests/Commands.antt =====
-- The command tool at concrete inputs.
use zai_proxy.Base.{
  pos, ℕ, ◌+◌, ◌≡◌, refl, true, false, ◌&&◌, some, List, [], ◌∷◌, ◌++◌, map, leb, if◌then◌else◌,
}
use zai_proxy.Text.{is_blank, codes}
use zai_proxy.Tools.ExecCommand.Split.{split_exec_command_line, parsed}
use zai_proxy.Tools.ExecCommand.Grammar.{
  Token, rune, escape, plain, single, double, space, text, escape_words,
  split_exec_command_line-words, split_exec_command_line-escape_words,
}
use zai_proxy.Tools.ExecCommand.Argv.{
  match_allowed_command_prefix, ExecCommandRequest, build_exec_command_argv,
}
use zai_proxy.Tools.ExecCommand.Output.{Kept, new_capped_output_buffer, write_all, write_all-Kept}
use zai_proxy.Tools.ExecCommand.Run.{
  resolve_exec_command_workdir, decode_exec_command_request, ExecCommandSettings, System, State,
  execute_exec_command_tool, foreground_result,
}
use zai_proxy.Tools.ExecCommand.Answers.{Executed, execute_exec_command_tool-Executed}

-- `a "b \c"'d' e`
abbrev mixed : List Token
mixed =
    plain b'a'
    ∷ space
    ∷ double (rune b'b' ∷ rune b' ' ∷ escape b'c' ∷ [])
    ∷ single (codes "d")
    ∷ space
    ∷ plain b'e'
    ∷ []

split_exec_command_line-words_example :
    split_exec_command_line (text mixed) ≡ parsed (codes "a" ∷ codes "b cd" ∷ codes "e" ∷ [])
split_exec_command_line-words_example = split_exec_command_line-words mixed refl

split_exec_command_line-escape_words_example :
    split_exec_command_line (text (escape_words (codes "echo" ∷ codes "a b" ∷ [])))
    ≡ parsed (codes "echo" ∷ codes "a b" ∷ [])
split_exec_command_line-escape_words_example =
    split_exec_command_line-escape_words (codes "echo") (codes "a b" ∷ []) (refl, (refl, tt))

-- An empty argument in quotes is left out.
split_empty : split_exec_command_line (codes "echo ''") ≡ parsed (codes "echo" ∷ [])
unfolding split_exec_command_line
split_empty = refl

write_all-Kept_example :
    Kept 4
      (codes "abcdef")
      (write_all (new_capped_output_buffer 4) (codes "abc" ∷ codes "def" ∷ []))
write_all-Kept_example = write_all-Kept 4 (codes "abc" ∷ codes "def" ∷ [])

abbrev ascii_lower : ℕ → ℕ
ascii_lower c = if leb b'A' c && leb c b'Z' then c + 32 else c

-- A system with one directory and one program. A request is given decoded.
abbrev small_system : System Unit ExecCommandRequest
small_system = record {
  to_lower = map ascii_lower;
  unmarshal_request = λ req. some req;
  abs = λ w p. some (codes "/srv");
  is_abs = λ p. false;
  join = λ a b. a ++ b'/' ∷ b;
  rel = λ base p. some (codes ".");
  stat_is_dir = λ w p. some true;
  look_path = λ w name. some (codes "/bin/" ++ name);
  run = λ w launch timeout. (
    record {
      failed = false;
      process_state = some (pos 0);
      timed_out = false;
      writes = codes "On branch" ∷ codes " main" ∷ [];
    },
    tt,
  );
  create_temp = λ w. (some (codes "/tmp/log"), tt);
  start = λ w launch log. (some 7, tt);
  remove = λ w log. tt;
}

abbrev git_settings : ExecCommandSettings
git_settings = record {
  enabled = true;
  allowlist = codes "git status" ∷ [];
  working_dir = codes ".";
  timeout_sec = 20;
  max_output_bytes = 9;
  allow_background = false;
}

abbrev git_request : ExecCommandRequest
git_request = record {
  command = codes "Git status -s";
  args = [];
  description = [];
  workdir = [];
  timeout_sec = pos 0;
  run_in_background = false;
}

abbrev idle : State Unit
idle = record { world = tt; background_processes = [] }

execute_exec_command_tool-Executed_example :
    Executed small_system idle git_settings
      (execute_exec_command_tool small_system idle git_settings git_request)
execute_exec_command_tool-Executed_example =
    execute_exec_command_tool-Executed small_system idle git_settings git_request

-- The command of this run is started.
git_runs :
    execute_exec_command_tool small_system idle git_settings git_request
    ≡ some (
      foreground_result (record {
        launch = record {
          argv = codes "Git" ∷ codes "status" ∷ codes "-s" ∷ [];
          resolved_command = codes "/bin/Git";
          matched_prefix = codes "git status";
          workdir = codes "/srv";
        };
        success = true;
        exit_code = pos 0;
        timed_out = false;
        timeout_sec = 20;
        output = codes "On branch";
        output_truncated = true;
        captured_output_bytes = 9;
        total_output_bytes_seen = 14;
      }),
      idle,
    )
unfolding execute_exec_command_tool decode_exec_command_request is_blank build_exec_command_argv
    match_allowed_command_prefix resolve_exec_command_workdir
git_runs = refl
