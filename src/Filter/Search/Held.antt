-- ===== src/Filter/Search/Held.antt =====
-- What `SearchRefFilter.Process` shows and holds back.
use zai_proxy.Base.{
  ◌∙◌, sym, ap, [], ◌∷◌, ℕ, zero, suc, ◌+◌, ◌-◌, ◌≤◌, ◌<◌, ◌≡◌, refl, inl, inr, true, false, ◌++◌,
  append-nil, arith, ◌==◌, Bool-cases, length, drop, take-append-drop, length-drop,
}
use mathlib.Core.Path.{subst}
use zai_proxy.Text.{Bytes}
use zai_proxy.Filter.Search.Reference.{
  is_partial_reference, SearchRefFilter, has_partial_reference, held_length, max_prefix_len,
  hold_back, replace_references, process,
}

-- The suffix of `n` bytes.
abbrev pub suffix : ℕ → Bytes → Bytes
suffix n s = drop (length s - n) s

-- The loop gives a length that it tried and whose suffix matches, or 0.
held_length-matches :
    (tries i : ℕ) (content : Bytes)
    → 0 < held_length tries i content
    → has_partial_reference (suffix (held_length tries i content) content) ≡ true
unfolding held_length
held_length-matches zero i content h = let no : ⊥ = omega arith in absurd no
held_length-matches (suc tries) i content h =
    elim (Bool-cases (has_partial_reference (suffix i content))) [
      | inl e ↦ rw e e
      | inr n ↦
          let pos_rest : 0 < held_length tries (suc i) content = ground arith in
          rw n (held_length-matches tries (suc i) content pos_rest)
    ]

held_length-le : (tries i : ℕ) (content : Bytes) → held_length tries i content ≤ i + tries - 1
unfolding held_length
held_length-le zero i content = omega arith
held_length-le (suc tries) i content = ground (arith, held_length-le tries (suc i) content)

-- With 0 no suffix that was tried matches.
held_length-none :
    (tries i n : ℕ) (content : Bytes)
    → 0 < i
    → held_length tries i content ≡ 0
    → i ≤ n
    → n < i + tries
    → has_partial_reference (suffix n content) ≡ false
unfolding held_length
held_length-none zero i n content p h a b = let no : ⊥ = omega arith in absurd no
held_length-none (suc tries) i n content p h a b =
    elim (Bool-cases (has_partial_reference (suffix i content))) [
      | inl e ↦ let no : ⊥ = ground arith in absurd no
      | inr m ↦ elim (Bool-cases (n == i)) [
        | inl e ↦
            let same : i ≡ n = ground arith in
            subst (λ k. has_partial_reference (suffix k content) ≡ false) same m
        | inr d ↦
            held_length-none tries (suc i) n content (omega arith) (ground arith) (ground arith)
              (ground arith)
      ]
    ]

-- The suffixes shorter than the loop's result do not match.
held_length-shortest :
    (tries i n : ℕ) (content : Bytes)
    → i ≤ n
    → n < held_length tries i content
    → has_partial_reference (suffix n content) ≡ false
unfolding held_length
held_length-shortest zero i n content a b = let no : ⊥ = omega arith in absurd no
held_length-shortest (suc tries) i n content a b =
    elim (Bool-cases (has_partial_reference (suffix i content))) [
      | inl e ↦ let no : ⊥ = ground arith in absurd no
      | inr m ↦ elim (Bool-cases (n == i)) [
        | inl e ↦
            let same : i ≡ n = ground arith in
            subst (λ k. has_partial_reference (suffix k content) ≡ false) same m
        | inr d ↦
            let below : n < held_length tries (suc i) content = ground arith in
            held_length-shortest tries (suc i) n content (ground arith) below
      ]
    ]

drop-drop : (k : ℕ) (s : Bytes) → drop 1 (drop k s) ≡ drop (suc k) s
drop-drop zero s = refl
drop-drop (suc k) [] = refl
drop-drop (suc k) (b ∷ s) = drop-drop k s

drop-length : (s : Bytes) → drop (length s) s ≡ []
drop-length [] = refl
drop-length (b ∷ s) = drop-length s

-- A text that matches while the text behind its first byte does not is a reference's start itself.
starts_here :
    (s : Bytes)
    → has_partial_reference s ≡ true
    → has_partial_reference (drop 1 s) ≡ false
    → is_partial_reference s ≡ true
unfolding has_partial_reference
starts_here [] h k = cc
starts_here (c ∷ s) h k = ground arith

-- What a call of `Process` that gave `shown` and the new filter has done with the replaced text.
pub record Holds (content shown : Bytes) (before after : SearchRefFilter) : Type 0 where
  pub whole : shown ++ after.buffer ≡ content
  pub bounded : length after.buffer ≤ 20
  pub held_starts : 0 < length after.buffer → is_partial_reference after.buffer ≡ true
  pub shortest :
      (n : ℕ) → 0 < n → n < length after.buffer → has_partial_reference (suffix n content) ≡ false
  pub none_missed :
      length after.buffer ≡ 0
      → (n : ℕ) → 0 < n
      → n ≤ 20
      → n ≤ length content
      → has_partial_reference (suffix n content) ≡ false
  pub same_results : after.search_results ≡ before.search_results

-- The shortest suffix that matches is the start of a reference.
held-is_partial_reference :
    (content : Bytes) (i : ℕ)
    → 0 < i
    → i ≤ length content
    → has_partial_reference (suffix i content) ≡ true
    → ((n : ℕ) → 0 < n → n < i → has_partial_reference (suffix n content) ≡ false)
    → is_partial_reference (suffix i content) ≡ true
unfolding has_partial_reference
held-is_partial_reference content i p l h k =
    starts_here (suffix i content) h
      (ap has_partial_reference (drop-drop (length content - i) content) ∙ shorter)
  where
    shorter : has_partial_reference (drop (suc (length content - i)) content) ≡ false
    shorter = elim (Bool-cases (i == 1)) [
      | inl e ↦
          let one : i ≡ 1 = ground arith in
          let whole : suc (length content - i) ≡ length content = omega arith in
          rw (whole, drop-length) refl
      | inr d ↦
          let more : 1 < i = ground arith in
          let shift : length content - (i - 1) ≡ suc (length content - i) = omega arith in
          ap (λ n. has_partial_reference (drop n content)) (sym shift)
          ∙ k (i - 1) (omega arith) (omega arith)
    ]

hold_back-Holds :
    (f : SearchRefFilter) (content : Bytes)
    → Holds content (hold_back f content).0 f (hold_back f content).1
unfolding hold_back
hold_back-Holds f content =
    let i = held_length (max_prefix_len content) 1 content in
    let in_range : i ≤ max_prefix_len content =
      omega (arith, held_length-le (max_prefix_len content) 1 content) in
    elim (Bool-cases (i == 0)) [
      | inl e ↦
          let zero_held : i ≡ 0 = ground arith in
          rw e (record {
            whole = append-nil content;
            bounded = omega arith;
            held_starts = λ h. let no : ⊥ = omega arith in absurd no;
            shortest = λ n p a. let no : ⊥ = omega arith in absurd no;
            none_missed = λ z n p a b.
                held_length-none (max_prefix_len content) 1 n content (omega arith) zero_held p
                  (ground arith);
            same_results = refl;
          })
      | inr d ↦
          let size : length (suffix i content) ≡ i =
            ground (arith, length-drop (length content - i) content) in
          rw d (record {
            whole = take-append-drop (length content - i) content;
            bounded = ground arith;
            held_starts = λ h.
                held-is_partial_reference content i (ground arith) (ground arith)
                  (held_length-matches (max_prefix_len content) 1 content (ground arith))
                  (λ n p a.
                    held_length-shortest (max_prefix_len content) 1 n content (omega arith) a);
            shortest = λ n p a.
                held_length-shortest (max_prefix_len content) 1 n content (omega arith)
                  (ground arith);
            none_missed = λ z n p a b. let no : ⊥ = ground arith in absurd no;
            same_results = refl;
          })
    ]

-- A call loses nothing: what it shows and what it holds back spell the buffered and the new text
-- with its references replaced. It holds back 20 bytes at most: a text that is itself the start of
-- a reference, the shortest suffix that holds one, and nothing only if no suffix of up to 20 bytes
-- holds one.
pub process-Holds :
    (f : SearchRefFilter) (content : Bytes)
    → Holds
        (replace_references 0 f.search_results (f.buffer ++ content))
        (process f content).0
        f
        (process f content).1
unfolding process
process-Holds f content =
    hold_back-Holds f (replace_references 0 f.search_results (f.buffer ++ content))
