-- ===== src/Tools/ExecCommand/Split.antt =====
-- `splitExecCommandLine` of internal/tools/exec_command.go. The source ranges over runes; in UTF-8,
-- which a decoded request is, each rune it tests for is one byte and no part of another rune.
use zai_proxy.Base.{
  ℕ, Bool, true, false, ◌||◌, Option, none, some, List, [], ◌∷◌, ◌++◌, ◌==◌, if◌then◌else◌,
}
use zai_proxy.Text.{Bytes, is_empty}

pub data CommandError : Type 0 where
  command_required : CommandError
  shell_operators : CommandError
  unterminated_quoting : CommandError
  command_with_words : CommandError
  executable_path : CommandError

pub data Parsed (A : Type 0) : Type 0 where
  parsed : A → Parsed A
  rejected : CommandError → Parsed A

pub record SplitState : Type 0 where
  pub args : List Bytes
  pub current : Bytes
  pub in_single : Bool
  pub in_double : Bool
  pub escaped : Bool

abbrev pub is_unsupported_shell_rune : ℕ → Bool
is_unsupported_shell_rune r =
    r == b'|'
    || r == b'&'
    || r == b';'
    || r == b'<'
    || r == b'>'
    || r == b'`'
    || r == b'\n'
    || r == b'\r'

-- The closure `flush`.
abbrev pub flush_word : SplitState → SplitState
flush_word s =
    if is_empty s.current then s else record s { args = s.args ++ s.current ∷ []; current = [] }

abbrev pub write_rune : SplitState → ℕ → SplitState
write_rune s r = record s { current = s.current ++ r ∷ [] }

-- The loop's body, with `none` for the error on a shell operator.
unfoldable pub split_rune : SplitState → ℕ → Option SplitState
split_rune s r =
    if s.escaped
    then some (record (write_rune s r) { escaped = false })
    else if s.in_single
    then some (if r == b'\'' then record s { in_single = false } else write_rune s r)
    else if s.in_double
    then (if r == b'"'
        then some (record s { in_double = false })
        else if r == b'\\'
        then some (record s { escaped = true })
        else if is_unsupported_shell_rune r
        then none
        else some (write_rune s r))
    else if is_unsupported_shell_rune r
    then none
    else if r == b'\\'
    then some (record s { escaped = true })
    else if r == b'\''
    then some (record s { in_single = true })
    else if r == b'"'
    then some (record s { in_double = true })
    else if r == b' ' || r == b'\t'
    then some (flush_word s)
    else some (write_rune s r)

unfoldable pub split_runes : SplitState → Bytes → Option SplitState
unfolding split_rune
split_runes s [] = some s
split_runes s (r ∷ rs) = elim (split_rune s r) [ none ↦ none | some t ↦ split_runes t rs ]

abbrev pub at_start : SplitState
at_start = record { args = []; current = []; in_single = false; in_double = false; escaped = false }

-- What is returned for the words found.
abbrev pub some_words : List Bytes → Parsed (List Bytes)
some_words [] = rejected command_required
some_words (w ∷ ws) = parsed (w ∷ ws)

unfoldable pub end_split : SplitState → Parsed (List Bytes)
end_split s =
    if s.escaped || s.in_single || s.in_double
    then rejected unterminated_quoting
    else some_words (flush_word s).args

unfoldable pub split_exec_command_line : Bytes → Parsed (List Bytes)
unfolding split_runes end_split
split_exec_command_line command = elim (split_runes at_start command) [
  | none ↦ rejected shell_operators
  | some s ↦ end_split s
]
