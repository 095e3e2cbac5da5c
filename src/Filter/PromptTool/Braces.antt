-- ===== src/Filter/PromptTool/Braces.antt =====
-- `findMatchingBrace` of internal/filter/prompttool.go. The source ranges over runes; all that it
-- tests for are single bytes in UTF-8.
use zai_proxy.Base.{
  ℕ, suc, ◌+◌, ◌-◌, ◌≡◌, refl, sym, ap, ◌∙◌, inl, inr, Bool, true, false, not, ◌&&◌, Option, none,
  some, List, [], ◌∷◌, ◌++◌, append_assoc, arith, ◌==◌, if◌then◌else◌, Bool-cases, length,
  length-append,
}
use zai_proxy.Text.{Bytes}

-- The loop: the place of the brace that closes the depth given. The depth is at least 1 where a
-- closing brace is met, since the text starts with an opening one.
unfoldable pub brace_scan : Bool → Bool → ℕ → Bytes → Option ℕ
brace_scan in_string escape depth [] = none
brace_scan in_string escape depth (c ∷ s) =
    let escapes = not escape && c == b'\\' && in_string in
    let toggles = not escape && not escapes && c == b'"' in
    let counts = not escape && not escapes && not (c == b'"') && not in_string in
    let depth' =
      if counts && c == b'{' then suc depth else if counts && c == b'}' then depth - 1 else depth in
    let rest = brace_scan (if toggles then not in_string else in_string) escapes depth' s in
    if counts && c == b'}' && depth' == 0
    then some 0
    else elim rest [ none ↦ none | some i ↦ some (suc i) ]

unfoldable pub find_matching_brace : Bytes → Option ℕ
unfolding brace_scan
find_matching_brace [] = none
find_matching_brace (c ∷ s) = if not (c == b'{') then none else brace_scan false false 0 (c ∷ s)

-- The inside of a string: bytes other than a quote and a backslash, and escaped bytes.
pub data StringPart : Type 0 where
  unit : ℕ → StringPart
  escaped : ℕ → StringPart

-- The inside of an object: bytes other than quotes and braces, strings, and objects in braces.
pub data Inside : Type 0 where
  nothing : Inside
  byte : ℕ → Inside → Inside
  quoted : List StringPart → Inside → Inside
  object : Inside → Inside → Inside

abbrev pub string_text : List StringPart → Bytes
string_text [] = []
string_text (unit c ∷ ps) = c ∷ string_text ps
string_text (escaped c ∷ ps) = b'\\' ∷ c ∷ string_text ps

abbrev pub inside_text : Inside → Bytes
inside_text nothing = []
inside_text (byte c n) = c ∷ inside_text n
inside_text (quoted ps n) = b'"' ∷ (string_text ps ++ b'"' ∷ inside_text n)
inside_text (object m n) = b'{' ∷ (inside_text m ++ b'}' ∷ inside_text n)

abbrev pub is_string : List StringPart → Bool
is_string [] = true
is_string (unit c ∷ ps) = not (c == b'"') && not (c == b'\\') && is_string ps
is_string (escaped c ∷ ps) = is_string ps

abbrev pub is_inside : Inside → Bool
is_inside nothing = true
is_inside (byte c n) = not (c == b'"') && not (c == b'{') && not (c == b'}') && is_inside n
is_inside (quoted ps n) = is_string ps && is_inside n
is_inside (object m n) = is_inside m && is_inside n

-- A place behind a text that was passed over.
abbrev past : Bytes → Option ℕ → Option ℕ
past s none = none
past s (some i) = some (length s + i)

past-append : (s t : Bytes) (o : Option ℕ) → past (s ++ t) o ≡ past s (past t o)
past-append s t none = refl
past-append s t (some i) = ap some (omega (arith, length-append s t))

past-cons : (c : ℕ) (s : Bytes) (o : Option ℕ) → past (c ∷ s) o ≡ past (c ∷ []) (past s o)
past-cons c s o = past-append (c ∷ []) s o

-- Where a step of the scan leaves the place.
next_place :
    (c : ℕ) (o : Option ℕ) → elim o [ none ↦ none | some i ↦ some (suc i) ] ≡ past (c ∷ []) o
next_place c none = refl
next_place c (some i) = ap some (omega arith)

-- One byte of each kind.
brace_scan-unit :
    (c depth : ℕ) (s : Bytes)
    → (c == b'"') ≡ false
    → (c == b'\\') ≡ false
    → brace_scan true false depth (c ∷ s) ≡ past (c ∷ []) (brace_scan true false depth s)
unfolding brace_scan
brace_scan-unit c depth s q b = rw (q, b) (next_place c (brace_scan true false depth s))

brace_scan-escaped :
    (c depth : ℕ) (s : Bytes)
    → brace_scan true false depth (b'\\' ∷ c ∷ s)
      ≡ past (b'\\' ∷ []) (past (c ∷ []) (brace_scan true false depth s))
unfolding brace_scan
brace_scan-escaped c depth s =
    rw (next_place c (brace_scan true false depth s))
      (next_place b'\\' (past (c ∷ []) (brace_scan true false depth s)))

brace_scan-quote :
    (in_string : Bool) (depth : ℕ) (s : Bytes)
    → brace_scan in_string false depth (b'"' ∷ s)
      ≡ past (b'"' ∷ []) (brace_scan (not in_string) false depth s)
unfolding brace_scan
brace_scan-quote true depth s = next_place b'"' (brace_scan false false depth s)
brace_scan-quote false depth s = next_place b'"' (brace_scan true false depth s)

brace_scan-byte :
    (c depth : ℕ) (s : Bytes)
    → (c == b'"') ≡ false
    → (c == b'{') ≡ false
    → (c == b'}') ≡ false
    → brace_scan false false depth (c ∷ s) ≡ past (c ∷ []) (brace_scan false false depth s)
unfolding brace_scan
brace_scan-byte c depth s q l r = elim (Bool-cases (c == b'\\')) [
  | inl e ↦ rw (q, l, r, e) (next_place c (brace_scan false false depth s))
  | inr e ↦ rw (q, l, r, e) (next_place c (brace_scan false false depth s))
]

brace_scan-open :
    (depth : ℕ) (s : Bytes)
    → brace_scan false false depth (b'{' ∷ s)
      ≡ past (b'{' ∷ []) (brace_scan false false (suc depth) s)
unfolding brace_scan
brace_scan-open depth s = next_place b'{' (brace_scan false false (suc depth) s)

brace_scan-close :
    (depth : ℕ) (s : Bytes)
    → brace_scan false false (suc (suc depth)) (b'}' ∷ s)
      ≡ past (b'}' ∷ []) (brace_scan false false (suc depth) s)
unfolding brace_scan
brace_scan-close depth s =
    let e : suc (suc depth) - 1 ≡ suc depth = omega arith in
    let n : (suc depth == 0) ≡ false = ground arith in
    rw (e, n) (next_place b'}' (brace_scan false false (suc depth) s))

brace_scan-string :
    (ps : List StringPart) (depth : ℕ) (rest : Bytes)
    → is_string ps ≡ true
    → brace_scan true false depth (string_text ps ++ b'"' ∷ rest)
      ≡ past (string_text ps ++ b'"' ∷ []) (brace_scan false false depth rest)
brace_scan-string [] depth rest h = brace_scan-quote true depth rest
brace_scan-string (unit c ∷ ps) depth rest h =
    brace_scan-unit c depth (string_text ps ++ b'"' ∷ rest) (ground arith) (ground arith)
    ∙ ap (past (c ∷ [])) (brace_scan-string ps depth rest (ground arith))
    ∙ sym (past-cons c (string_text ps ++ b'"' ∷ []) (brace_scan false false depth rest))
brace_scan-string (escaped c ∷ ps) depth rest h =
    let inner = string_text ps ++ b'"' ∷ [] in
    brace_scan-escaped c depth (string_text ps ++ b'"' ∷ rest)
    ∙ ap (λ o. past (b'\\' ∷ []) (past (c ∷ []) o)) (brace_scan-string ps depth rest h)
    ∙ ap (past (b'\\' ∷ [])) (sym (past-cons c inner (brace_scan false false depth rest)))
    ∙ sym (past-cons b'\\' (c ∷ inner) (brace_scan false false depth rest))

-- Inside braces the scan passes over well-formed text.
brace_scan-inside :
    (n : Inside) (depth : ℕ) (rest : Bytes)
    → is_inside n ≡ true
    → brace_scan false false (suc depth) (inside_text n ++ rest)
      ≡ past (inside_text n) (brace_scan false false (suc depth) rest)
brace_scan-inside nothing depth rest h = past_none (brace_scan false false (suc depth) rest)
  where
    past_none : (o : Option ℕ) → o ≡ past [] o
    past_none none = refl
    past_none (some i) = ap some (omega arith)
brace_scan-inside (byte c n) depth rest h =
    brace_scan-byte c (suc depth) (inside_text n ++ rest) (ground arith) (ground arith)
      (ground arith)
    ∙ ap (past (c ∷ [])) (brace_scan-inside n depth rest (ground arith))
    ∙ sym (past-cons c (inside_text n) (brace_scan false false (suc depth) rest))
brace_scan-inside (quoted ps n) depth rest h =
    let tail = brace_scan false false (suc depth) rest in
    let string = string_text ps ++ b'"' ∷ [] in
    ap (λ s. brace_scan false false (suc depth) (b'"' ∷ s))
      (append_assoc (string_text ps) (b'"' ∷ inside_text n) rest)
    ∙ brace_scan-quote false (suc depth) (string_text ps ++ b'"' ∷ (inside_text n ++ rest))
    ∙ ap (past (b'"' ∷ [])) (
        brace_scan-string ps (suc depth) (inside_text n ++ rest) (ground arith)
        ∙ ap (past string) (brace_scan-inside n depth rest (ground arith))
        ∙ sym (past-append string (inside_text n) tail)
        ∙ ap (λ s. past s tail) (append_assoc (string_text ps) (b'"' ∷ []) (inside_text n)))
    ∙ sym (past-cons b'"' (string_text ps ++ b'"' ∷ inside_text n) tail)
brace_scan-inside (object m n) depth rest h =
    let tail = brace_scan false false (suc depth) rest in
    let more = b'}' ∷ (inside_text n ++ rest) in
    ap (λ s. brace_scan false false (suc depth) (b'{' ∷ s))
      (append_assoc (inside_text m) (b'}' ∷ inside_text n) rest)
    ∙ brace_scan-open (suc depth) (inside_text m ++ more)
    ∙ ap (past (b'{' ∷ [])) (
        brace_scan-inside m (suc depth) more (ground arith)
        ∙ ap (past (inside_text m)) (
            brace_scan-close depth (inside_text n ++ rest)
            ∙ ap (past (b'}' ∷ [])) (brace_scan-inside n depth rest (ground arith))
            ∙ sym (past-cons b'}' (inside_text n) tail))
        ∙ sym (past-append (inside_text m) (b'}' ∷ inside_text n) tail))
    ∙ sym (past-cons b'{' (inside_text m ++ b'}' ∷ inside_text n) tail)

brace_scan-last : (rest : Bytes) → brace_scan false false 1 (b'}' ∷ rest) ≡ some 0
unfolding brace_scan
brace_scan-last rest = refl

-- For an object whose braces match outside its strings, whatever the strings hold and whatever
-- follows it, the place found is that of its closing brace.
pub find_matching_brace-object :
    (n : Inside) (rest : Bytes)
    → is_inside n ≡ true
    → find_matching_brace (b'{' ∷ (inside_text n ++ b'}' ∷ rest))
      ≡ some (1 + length (inside_text n))
unfolding find_matching_brace
find_matching_brace-object n rest h =
    brace_scan-open 0 (inside_text n ++ b'}' ∷ rest)
    ∙ ap (past (b'{' ∷ []))
        (brace_scan-inside n 0 (b'}' ∷ rest) h ∙ ap (past (inside_text n)) (brace_scan-last rest))
    ∙ ap some (omega arith)
