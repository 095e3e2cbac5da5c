-- ===== src/Filter/Thinking/Hold.antt =====
-- What `ProcessThinking` shows and what it holds back, by recursion on the text.
use zai_proxy.Base.{
  ℕ, suc, ◌-◌, ◌≤◌, ◌≡◌, refl, inl, inr, Bool, true, ◌||◌, [], ◌∷◌, ◌++◌, arith, if◌then◌else◌,
  Bool-cases, length, take,
}
use zai_proxy.Text.{Bytes, bytes_eq, has_suffix, replace_all}
use zai_proxy.Text.Laws.{bytes_eq_iff, has_suffix-cons}
use zai_proxy.Filter.Thinking.{ThinkingFilter, quoted_newline, process_content}

-- The texts that may be the start of a quoted newline.
abbrev pub is_partial : Bytes → Bool
is_partial s = bytes_eq s (b'\n' ∷ b'>' ∷ []) || bytes_eq s (b'\n' ∷ [])

unfoldable pub held : Bytes → Bytes
held [] = []
held (c ∷ s) = if is_partial (c ∷ s) then c ∷ s else held s

unfoldable pub shown : Bytes → Bytes
shown [] = []
shown (c ∷ s) = if is_partial (c ∷ s) then [] else c ∷ shown s

pub shown-append-held : (s : Bytes) → shown s ++ held s ≡ s
unfolding shown held
shown-append-held [] = refl
shown-append-held (c ∷ s) = ground (arith, shown-append-held s)

-- The two suffix tests of the code.
abbrev cut : Bytes → Bytes × Bytes
cut s =
    if has_suffix (b'\n' ∷ b'>' ∷ []) s
    then (take (length s - 2) s, b'\n' ∷ b'>' ∷ [])
    else if has_suffix (b'\n' ∷ []) s
    then (take (length s - 1) s, b'\n' ∷ [])
    else (s, [])

has_suffix-le-length : (t s : Bytes) → has_suffix t s ≡ true → length t ≤ length s
has_suffix-le-length t s h = unfold has_suffix in ground arith

take-length_pred :
    (c : ℕ) (s : Bytes) (k : ℕ)
    → k ≤ length s
    → take (suc (length s) - k) (c ∷ s) ≡ c ∷ take (length s - k) s
take-length_pred c s k h =
    let e : suc (length s) - k ≡ suc (length s - k) = omega arith in rw e refl

cut_at : (s t : Bytes) → s ≡ t → cut t ≡ (shown t, held t) → cut s ≡ (shown s, held s)
cut_at s t e h = rw e h

cut_lem : (s : Bytes) → cut s ≡ (shown s, held s)
unfolding shown held
cut_lem [] = unfold has_suffix in refl
cut_lem (c ∷ s) = elim (Bool-cases (bytes_eq (c ∷ s) (b'\n' ∷ b'>' ∷ []))) [
  | inl e ↦
      cut_at (c ∷ s) (b'\n' ∷ b'>' ∷ []) ((bytes_eq_iff _ _).0 e)
        (unfold has_suffix bytes_eq in refl)
  | inr n ↦ elim (Bool-cases (bytes_eq (c ∷ s) (b'\n' ∷ []))) [
    | inl e ↦
        cut_at (c ∷ s) (b'\n' ∷ []) ((bytes_eq_iff _ _).0 e) (unfold has_suffix bytes_eq in refl)
    | inr m ↦
        rw (has_suffix-cons (b'\n' ∷ b'>' ∷ []) s c, has_suffix-cons (b'\n' ∷ []) s c, n, m)
          (ground (
            arith,
            cut_lem s,
            has_suffix-le-length (b'\n' ∷ b'>' ∷ []) s,
            has_suffix-le-length (b'\n' ∷ []) s,
            take-length_pred c s 2,
            take-length_pred c s 1,
          ))
  ]
]

pub process_content_lem :
    (f : ThinkingFilter) (delta : Bytes)
    → let content = replace_all quoted_newline (b'\n' ∷ []) (f.buffer ++ delta) in
      process_content f delta ≡ (shown content, record f { buffer = held content })
unfolding process_content
process_content_lem f delta =
    ground (arith, cut_lem (replace_all quoted_newline (b'\n' ∷ []) (f.buffer ++ delta)))
