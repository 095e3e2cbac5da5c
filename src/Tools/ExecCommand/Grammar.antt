-- ===== src/Tools/ExecCommand/Grammar.antt =====
-- The command language that `splitExecCommandLine` reads, as a grammar.
use zai_proxy.Base.{
  inr, ltb, inl, leb, if◌then◌else◌, Bool-cases, ℕ, ◌≡◌, refl, ap, ◌∙◌, Bool, true, false, not,
  ◌&&◌, ◌||◌, Option, none, some, List, [], ◌∷◌, ◌++◌, append-nil, append_assoc, arith, ◌==◌, All,
}
use zai_proxy.Text.{Bytes, is_empty}
use zai_proxy.Tools.ExecCommand.Split.{
  shell_operators, SplitState, split_rune, split_runes, split_exec_command_line, end_split,
  at_start, some_words, Parsed, parsed, rejected, is_unsupported_shell_rune,
}

-- A part of a text in double quotes.
pub data Inner : Type 0 where
  rune : ℕ → Inner
  escape : ℕ → Inner

pub data Token : Type 0 where
  plain : ℕ → Token
  backslash : ℕ → Token
  single : Bytes → Token
  double : List Inner → Token
  space : Token
  tab : Token

abbrev pub inner_text : List Inner → Bytes
inner_text [] = []
inner_text (rune r ∷ is) = r ∷ inner_text is
inner_text (escape r ∷ is) = b'\\' ∷ r ∷ inner_text is

abbrev pub inner_value : List Inner → Bytes
inner_value [] = []
inner_value (rune r ∷ is) = r ∷ inner_value is
inner_value (escape r ∷ is) = r ∷ inner_value is

-- How the tokens are written.
abbrev pub text : List Token → Bytes
text [] = []
text (plain r ∷ ts) = r ∷ text ts
text (backslash r ∷ ts) = b'\\' ∷ r ∷ text ts
text (single rs ∷ ts) = b'\'' ∷ (rs ++ b'\'' ∷ text ts)
text (double is ∷ ts) = b'"' ∷ (inner_text is ++ b'"' ∷ text ts)
text (space ∷ ts) = b' ' ∷ text ts
text (tab ∷ ts) = b'\t' ∷ text ts

-- The word read so far ends here.
abbrev pub end_word : Bytes → List Bytes → List Bytes
end_word [] ws = ws
end_word (r ∷ rs) ws = (r ∷ rs) ∷ ws

-- The words that the tokens mean, behind the start `w` of a word.
abbrev pub words : Bytes → List Token → List Bytes
words w [] = end_word w []
words w (plain r ∷ ts) = words (w ++ r ∷ []) ts
words w (backslash r ∷ ts) = words (w ++ r ∷ []) ts
words w (single rs ∷ ts) = words (w ++ rs) ts
words w (double is ∷ ts) = words (w ++ inner_value is) ts
words w (space ∷ ts) = end_word w (words [] ts)
words w (tab ∷ ts) = end_word w (words [] ts)

abbrev pub is_plain : ℕ → Bool
is_plain r =
    not (is_unsupported_shell_rune r)
    && not (r == b'\\')
    && not (r == b'\'')
    && not (r == b'"')
    && not (r == b' ' || r == b'\t')

abbrev pub is_inner : Inner → Bool
is_inner (rune r) = not (r == b'"') && not (r == b'\\') && not (is_unsupported_shell_rune r)
is_inner (escape r) = true

abbrev pub all_inner : List Inner → Bool
all_inner [] = true
all_inner (i ∷ is) = is_inner i && all_inner is

abbrev pub all_unquoted : Bytes → Bool
all_unquoted [] = true
all_unquoted (r ∷ rs) = not (r == b'\'') && all_unquoted rs

-- What a token may hold.
abbrev pub is_token : Token → Bool
is_token (plain r) = is_plain r
is_token (backslash r) = true
is_token (single rs) = all_unquoted rs
is_token (double is) = all_inner is
is_token space = true
is_token tab = true

abbrev pub all_tokens : List Token → Bool
all_tokens [] = true
all_tokens (t ∷ ts) = is_token t && all_tokens ts

-- The state outside quotes.
abbrev outside : List Bytes → Bytes → SplitState
outside ready w = record {
  args = ready;
  current = w;
  in_single = false;
  in_double = false;
  escaped = false;
}

-- A rune is added to the word.
grow :
    (found : List Bytes) (w rs rest : Bytes) (r : ℕ)
    → split_runes (outside found ((w ++ r ∷ []) ++ rs)) rest
      ≡ split_runes (outside found (w ++ r ∷ rs)) rest
grow found w rs rest r = ap (λ v. split_runes (outside found v) rest) (append_assoc w (r ∷ []) rs)

-- The quoted texts are read to their end.
split_runes-single :
    (found : List Bytes) (w rs rest : Bytes)
    → all_unquoted rs ≡ true
    → split_runes (record (outside found w) { in_single = true }) (rs ++ b'\'' ∷ rest)
      ≡ split_runes (outside found (w ++ rs)) rest
unfolding split_runes split_rune
split_runes-single found w [] rest h = rw append-nil refl
split_runes-single found w (r ∷ rs) rest h =
    let n : (r == b'\'') ≡ false = ground arith in
    let ih = split_runes-single found (w ++ r ∷ []) rs rest (ground arith) in
    rw n (ih ∙ grow found w rs rest r)

split_runes-step :
    (s t : SplitState) (r : ℕ) (rs : Bytes)
    → split_rune s r ≡ some t
    → split_runes s (r ∷ rs) ≡ split_runes t rs
unfolding split_runes
split_runes-step s t r rs h = rw (h, split_runes) refl

split_rune-rune :
    (found : List Bytes) (w : Bytes) (r : ℕ)
    → is_inner (rune r) ≡ true
    → split_rune (record (outside found w) { in_double = true }) r
      ≡ some (record (outside found (w ++ r ∷ [])) { in_double = true })
unfolding split_rune
split_rune-rune found w r h = ground arith

split_runes-double :
    (found : List Bytes) (w : Bytes) (is : List Inner) (rest : Bytes)
    → all_inner is ≡ true
    → split_runes (record (outside found w) { in_double = true }) (inner_text is ++ b'"' ∷ rest)
      ≡ split_runes (outside found (w ++ inner_value is)) rest
unfolding split_runes split_rune
split_runes-double found w [] rest h = rw append-nil refl
split_runes-double found w (rune r ∷ is) rest h =
    split_runes-step (record (outside found w) { in_double = true })
      (record (outside found (w ++ r ∷ [])) { in_double = true }) r (inner_text is ++ b'"' ∷ rest)
      (split_rune-rune found w r (ground arith))
    ∙ split_runes-double found (w ++ r ∷ []) is rest (ground arith)
    ∙ grow found w (inner_value is) rest r
split_runes-double found w (escape r ∷ is) rest h =
    split_runes-double found (w ++ r ∷ []) is rest h ∙ grow found w (inner_value is) rest r

-- A rune outside quotes that has no meaning of its own is written.
split_rune-plain :
    (found : List Bytes) (w : Bytes) (r : ℕ)
    → is_plain r ≡ true
    → split_rune (outside found w) r ≡ some (outside found (w ++ r ∷ []))
unfolding split_rune
split_rune-plain found w r h = ground arith

-- The whole state machine, from a state outside quotes.
abbrev finish : Option SplitState → Parsed (List Bytes)
finish none = rejected shell_operators
finish (some s) = end_split s

finish-words :
    (ts : List Token) (found : List Bytes) (w : Bytes)
    → all_tokens ts ≡ true
    → finish (split_runes (outside found w) (text ts)) ≡ some_words (found ++ words w ts)
unfolding split_runes split_rune end_split
finish-words [] found [] h = rw append-nil refl
finish-words [] found (c ∷ w) h = refl
finish-words (plain r ∷ ts) found w h =
    ap finish (
      split_runes-step (outside found w) (outside found (w ++ r ∷ [])) r (text ts)
        (split_rune-plain found w r (ground arith)))
    ∙ finish-words ts found (w ++ r ∷ []) (ground arith)
finish-words (backslash r ∷ ts) found w h = finish-words ts found (w ++ r ∷ []) h
finish-words (single rs ∷ ts) found w h =
    ap finish (split_runes-single found w rs (text ts) (ground arith))
    ∙ finish-words ts found (w ++ rs) (ground arith)
finish-words (double is ∷ ts) found w h =
    ap finish (split_runes-double found w is (text ts) (ground arith))
    ∙ finish-words ts found (w ++ inner_value is) (ground arith)
finish-words (space ∷ ts) found [] h = finish-words ts found [] h
finish-words (space ∷ ts) found (c ∷ w) h =
    finish-words ts (found ++ (c ∷ w) ∷ []) [] h
    ∙ ap some_words (append_assoc found ((c ∷ w) ∷ []) (words [] ts))
finish-words (tab ∷ ts) found [] h = finish-words ts found [] h
finish-words (tab ∷ ts) found (c ∷ w) h =
    finish-words ts (found ++ (c ∷ w) ∷ []) [] h
    ∙ ap some_words (append_assoc found ((c ∷ w) ∷ []) (words [] ts))

-- A text of the grammar is split into the words that its tokens mean: runes, escaped runes and
-- quoted texts that touch make one word, and empty words are left out. A command without any word
-- is an error.
pub split_exec_command_line-words :
    (ts : List Token)
    → all_tokens ts ≡ true
    → split_exec_command_line (text ts) ≡ some_words (words [] ts)
unfolding split_exec_command_line
split_exec_command_line-words ts h =
    as_finish (split_runes at_start (text ts)) ∙ finish-words ts [] [] h
  where
    as_finish :
        (o : Option SplitState)
        → elim o [ none ↦ rejected shell_operators | some s ↦ end_split s ] ≡ finish o
    as_finish none = refl
    as_finish (some s) = refl

-- A further byte of a rune in UTF-8.
abbrev pub is_continuation : ℕ → Bool
is_continuation r = leb 128 r && ltb r 192

continuation-is_plain : (r : ℕ) → is_continuation r ≡ true → is_plain r ≡ true
continuation-is_plain r h = ground arith

-- A word with a backslash before each rune, and words with a space behind each.
abbrev pub escape_word : Bytes → List Token
escape_word [] = []
escape_word (r ∷ rs) = (if is_continuation r then plain r else backslash r) ∷ escape_word rs

abbrev pub escape_words : List Bytes → List Token
escape_words [] = []
escape_words (w ∷ ws) = escape_word w ++ space ∷ escape_words ws

words-escape_word :
    (rs v : Bytes) (ts : List Token) → words v (escape_word rs ++ ts) ≡ words (v ++ rs) ts
words-escape_word [] v ts = rw append-nil refl
words-escape_word (r ∷ rs) v ts =
    let rest =
      words-escape_word rs (v ++ r ∷ []) ts ∙ ap (λ u. words u ts) (append_assoc v (r ∷ []) rs) in
    elim (Bool-cases (is_continuation r)) [ inl e ↦ rw e rest | inr n ↦ rw n rest ]

all_tokens-escape_word :
    (rs : Bytes) (ts : List Token) → all_tokens ts ≡ true → all_tokens (escape_word rs ++ ts) ≡ true
all_tokens-escape_word [] ts h = h
all_tokens-escape_word (r ∷ rs) ts h =
    let rest = all_tokens-escape_word rs ts h in
    elim (Bool-cases (is_continuation r)) [
      | inl e ↦ rw (e, continuation-is_plain r e) rest
      | inr n ↦ rw n rest
    ]

all_tokens-escape_words : (ws : List Bytes) → all_tokens (escape_words ws) ≡ true
all_tokens-escape_words [] = refl
all_tokens-escape_words (w ∷ ws) =
    all_tokens-escape_word w (space ∷ escape_words ws) (all_tokens-escape_words ws)

words-escape_words :
    (ws : List Bytes) → All (λ w. is_empty w ≡ false) ws → words [] (escape_words ws) ≡ ws
words-escape_words [] h = refl
words-escape_words ([] ∷ ws) h = cc
words-escape_words ((r ∷ w) ∷ ws) h =
    words-escape_word (r ∷ w) [] (space ∷ escape_words ws)
    ∙ ap (◌∷◌ (r ∷ w)) (words-escape_words ws h.1)

-- Every list of words that are not empty can be written as a command, with a backslash before each
-- rune, of one byte or more in UTF-8, and a space behind each word: split, the written text gives
-- the words back.
pub split_exec_command_line-escape_words :
    (w : Bytes) (ws : List Bytes)
    → All (λ v. is_empty v ≡ false) (w ∷ ws)
    → split_exec_command_line (text (escape_words (w ∷ ws))) ≡ parsed (w ∷ ws)
split_exec_command_line-escape_words w ws h =
    split_exec_command_line-words (escape_words (w ∷ ws)) (all_tokens-escape_words (w ∷ ws))
    ∙ ap some_words (words-escape_words (w ∷ ws) h)
