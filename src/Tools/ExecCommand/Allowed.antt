-- ===== src/Tools/ExecCommand/Allowed.antt =====
-- What a command that is run satisfies, and the state that the starts leave.
use zai_proxy.Base.{
  ℕ, ◌≡◌, inl, inr, Bool, true, false, ◌||◌, Option, none, some, List, [], ◌∷◌, arith, ◌==◌,
  if◌then◌else◌, Bool-cases, Option-cases, All, All-append,
}
use mathlib.Core.Path.{subst}
use zai_proxy.Text.{Bytes, codes, is_empty, contains, Outcome, value, panics}
use zai_proxy.Tools.ExecCommand.Split.{
  shell_operators, is_unsupported_shell_rune, executable_path, SplitState, flush_word, split_rune,
  split_runes, at_start, end_split, some_words, split_exec_command_line, Parsed, parsed, rejected,
}
use zai_proxy.Tools.ExecCommand.Argv.{
  ExecCommandRequest, build_exec_command_argv, argv_of_parts, validate_executable_name,
}

abbrev pub IsWord : Bytes → Type 0
IsWord w = is_empty w ≡ false

-- A parsed command has words, none of them empty.
abbrev pub Words : Parsed (List Bytes) → Type 0
Words (rejected e) = Unit
Words (parsed []) = ⊥
Words (parsed (w ∷ ws)) = All IsWord (w ∷ ws)

flush_word-All : (s : SplitState) → All IsWord s.args → All IsWord (flush_word s).args
flush_word-All s h = elim (Bool-cases (is_empty s.current)) [
  | inl e ↦ rw e h
  | inr n ↦ rw n (All-append IsWord s.args (s.current ∷ []) h (n, tt))
]

abbrev AllArgs : Option SplitState → Type 0
AllArgs none = Unit
AllArgs (some s) = All IsWord s.args

AllArgs-if :
    (b : Bool) (x y : Option SplitState) → AllArgs x → AllArgs y → AllArgs (if b then x else y)
AllArgs-if true x y hx hy = hx
AllArgs-if false x y hx hy = hy

AllArgs-quote :
    (b : Bool) (s t : SplitState)
    → All IsWord s.args
    → All IsWord t.args
    → AllArgs (some (if b then s else t))
AllArgs-quote true s t hs ht = hs
AllArgs-quote false s t hs ht = ht

split_rune-AllArgs : (s : SplitState) (r : ℕ) → All IsWord s.args → AllArgs (split_rune s r)
unfolding split_rune
split_rune-AllArgs s r h = AllArgs-if s.escaped _ _ h (
    AllArgs-if s.in_single _ _ (AllArgs-quote (r == b'\'') _ _ h h) (
      AllArgs-if s.in_double _ _
        (AllArgs-if (r == b'"') _ _ h
          (AllArgs-if (r == b'\\') _ _ h (AllArgs-if (is_unsupported_shell_rune r) _ _ tt h)))
        (AllArgs-if (is_unsupported_shell_rune r) _ _ tt (
          AllArgs-if (r == b'\\') _ _ h (
            AllArgs-if (r == b'\'') _ _ h (
              AllArgs-if (r == b'"') _ _ h
                (AllArgs-if (r == b' ' || r == b'\t') _ _ (flush_word-All s h) h)))))))

split_runes-AllArgs : (s : SplitState) (rs : Bytes) → All IsWord s.args → AllArgs (split_runes s rs)
unfolding split_runes
split_runes-AllArgs s [] h = h
split_runes-AllArgs s (r ∷ rs) h = elim (Option-cases (split_rune s r)) [
  | inl e ↦ rw (e, split_runes) tt
  | inr (t, e) ↦
      rw (e, split_runes) (split_runes-AllArgs t rs (subst AllArgs e (split_rune-AllArgs s r h)))
]

some_words-Words : (ws : List Bytes) → All IsWord ws → Words (some_words ws)
some_words-Words [] h = tt
some_words-Words (w ∷ ws) h = h

end_split-Words : (s : SplitState) → All IsWord s.args → Words (end_split s)
unfolding end_split
end_split-Words s h = elim (Bool-cases (s.escaped || s.in_single || s.in_double)) [
  | inl e ↦ rw e tt
  | inr n ↦ rw n (some_words-Words (flush_word s).args (flush_word-All s h))
]

pub split_exec_command_line-Words : (command : Bytes) → Words (split_exec_command_line command)
unfolding split_exec_command_line
split_exec_command_line-Words command =
    from (split_runes at_start command) (split_runes-AllArgs at_start command tt)
  where
    from :
        (o : Option SplitState)
        → AllArgs o
        → Words (elim o [ none ↦ rejected shell_operators | some s ↦ end_split s ])
    from none h = tt
    from (some s) h = end_split-Words s h

-- What a list of words to run satisfies: a name that is not empty and not a path, then the rest.
abbrev pub IsBareCommand : List Bytes → Type 0
IsBareCommand [] = ⊥
IsBareCommand (name ∷ args) = (is_empty name ≡ false) × (contains (codes "/") name ≡ false)

abbrev pub Built : Outcome (Parsed (List Bytes)) → Type 0
Built panics = ⊥
Built (value (rejected e)) = Unit
Built (value (parsed argv)) = IsBareCommand argv

validate-slash :
    (name : Bytes) → validate_executable_name name ≡ true → contains (codes "/") name ≡ false
unfolding validate_executable_name
validate-slash name h = ground arith

Built-if :
    (name : Bytes) (args : List Bytes)
    → IsWord name
    → Built (
        value (
          if validate_executable_name name then parsed (name ∷ args) else rejected executable_path))
Built-if name args h = elim (Bool-cases (validate_executable_name name)) [
  | inl e ↦ rw e (h, validate-slash name e)
  | inr n ↦ rw n tt
]

argv_of_parts-Built :
    (args parts : List Bytes) → Words (parsed parts) → Built (argv_of_parts args parts)
unfolding argv_of_parts
argv_of_parts-Built args [] h = absurd h
argv_of_parts-Built [] (name ∷ rest) h = Built-if name rest h.0
argv_of_parts-Built (a ∷ args) (name ∷ []) h = Built-if name (a ∷ args) h.0
argv_of_parts-Built (a ∷ args) (name ∷ p ∷ ps) h = tt

-- For every request, an error or a command whose name is not empty and holds no slash: `parts[0]`
-- never panics.
pub build_exec_command_argv-Built : (req : ExecCommandRequest) → Built (build_exec_command_argv req)
unfolding build_exec_command_argv
build_exec_command_argv-Built req =
    from (split_exec_command_line req.command) (split_exec_command_line-Words req.command)
  where
    from :
        (p : Parsed (List Bytes))
        → Words p
        → Built (elim p [
          | rejected e ↦ value (rejected e)
          | parsed parts ↦ argv_of_parts req.args parts
        ])
    from (rejected e) h = tt
    from (parsed []) h = absurd h
    from (parsed (w ∷ ws)) h = argv_of_parts-Built req.args (w ∷ ws) h
