-- ===== src/Tools/ExecCommand/Argv.antt =====
-- `buildExecCommandArgv`, `validateExecutableName` and `matchAllowedCommandPrefix` of
-- internal/tools/exec_command.go: what is run, and whether the configuration allows it.
use zai_proxy.Base.{
  ℤ, ℕ, zero, suc, ◌-◌, Bool, true, false, not, ◌&&◌, ◌||◌, Option, none, some, List, [], ◌∷◌, ◌++◌,
  map, ltb, leb, if◌then◌else◌, length,
}
use zai_proxy.Text.{
  Bytes, codes, is_empty, bytes_eq, contains, Outcome, value, panics, space_length,
}
use zai_proxy.Tools.ExecCommand.Split.{
  command_with_words, executable_path, Parsed, parsed, rejected, split_exec_command_line,
}

pub record ExecCommandRequest : Type 0 where
  pub command : Bytes
  pub args : List Bytes
  pub description : Bytes
  pub workdir : Bytes
  pub timeout_sec : ℤ
  pub run_in_background : Bool

-- The raw string of the second test holds two backslashes.
unfoldable pub validate_executable_name : Bytes → Bool
unfolding contains
validate_executable_name name = not (contains (codes "/") name || contains (codes "\\\\") name)

-- With the arguments given apart. `parts[0]` would panic on an empty list.
unfoldable pub argv_of_parts : List Bytes → List Bytes → Outcome (Parsed (List Bytes))
unfolding validate_executable_name
argv_of_parts [] [] = panics
argv_of_parts [] (name ∷ rest) =
    value (if validate_executable_name name then parsed (name ∷ rest) else rejected executable_path)
argv_of_parts (a ∷ args) (name ∷ []) =
    value
      (if validate_executable_name name then parsed (name ∷ a ∷ args) else rejected executable_path)
argv_of_parts (a ∷ args) parts = value (rejected command_with_words)

unfoldable pub build_exec_command_argv : ExecCommandRequest → Outcome (Parsed (List Bytes))
unfolding split_exec_command_line argv_of_parts
build_exec_command_argv req = elim (split_exec_command_line req.command) [
  | rejected e ↦ value (rejected e)
  | parsed parts ↦ argv_of_parts req.args parts
]

-- `strings.Fields`: the first argument counts the bytes of a space to pass over, the second is the
-- field so far.
unfoldable pub fields_from : ℕ → Bytes → Bytes → List Bytes
unfolding space_length
fields_from skip w [] = if is_empty w then [] else w ∷ []
fields_from (suc skip) w (c ∷ s) = fields_from skip w s
fields_from zero w (c ∷ s) =
    let n = space_length (c ∷ s) in
    let rest = fields_from (n - 1) (if leb 1 n then [] else w ++ c ∷ []) s in
    if leb 1 n && not (is_empty w) then w ∷ rest else rest

unfoldable pub fields : Bytes → List Bytes
unfolding fields_from
fields = fields_from 0 []

-- The length test and the loop over the parts of one prefix.
unfoldable pub words_match : List Bytes → List Bytes → Bool
unfolding bytes_eq
words_match [] argv = true
words_match (p ∷ parts) [] = false
words_match (p ∷ parts) (a ∷ argv) = bytes_eq a p && words_match parts argv

module _ (to_lower : Bytes → Bytes) where
  -- Whether one entry of the list allows the words.
  unfoldable pub prefix_allows : List Bytes → Bytes → Bool
  unfolding fields words_match
  prefix_allows argv prefix =
      let parts = fields (to_lower prefix) in
      ltb 0 (length parts) && words_match parts (map to_lower argv)

  unfoldable pub match_allowed_command_prefix : List Bytes → List Bytes → Option Bytes
  unfolding prefix_allows
  match_allowed_command_prefix argv [] = none
  match_allowed_command_prefix argv (prefix ∷ allowlist) =
      if prefix_allows argv prefix then some prefix else match_allowed_command_prefix argv allowlist
