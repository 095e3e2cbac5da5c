-- ===== src/Filter/Thinking/Unquote.antt =====
-- Taking the quote marks off a text that comes in two pieces.
use zai_proxy.Base.{
  sym, ◌∙◌, ℕ, ◌≡◌, refl, ap, ◌⊎◌, inl, inr, Bool, true, false, [], ◌∷◌, ◌++◌, arith, Bool-cases,
}
use zai_proxy.Text.{bytes_eq, Bytes, codes, has_prefix, replace_from, replace_all, contains, index}
use zai_proxy.Filter.Thinking.{quoted_newline}
use zai_proxy.Filter.Thinking.Hold.{is_partial, held, shown}

-- What the code's `ReplaceAll(text, "\n> ", "\n")` gives.
unfoldable pub unquote : Bytes → Bytes
unquote = replace_all quoted_newline (b'\n' ∷ [])

abbrev at_quote : Bytes → Bool
at_quote = has_prefix quoted_newline

-- No quoted line in the text starts with a further quote mark.
abbrev pub IsFlat : Bytes → Type 0
IsFlat [] = Unit
IsFlat (c ∷ s) = (has_prefix (b'\n' ∷ codes "> >") (c ∷ s) ≡ false) × IsFlat s

pub IsFlat-contains : (s : Bytes) → contains (b'\n' ∷ codes "> >") s ≡ false → IsFlat s
unfolding contains
IsFlat-contains [] h = tt
IsFlat-contains (c ∷ s) h =
    (unfold index in ground arith, IsFlat-contains s (unfold index in ground arith))

pub unquote-nil : unquote [] ≡ []
unfolding unquote replace_all
unquote-nil = refl

pub unquote_hit : (s : Bytes) → unquote (b'\n' ∷ b'>' ∷ b' ' ∷ s) ≡ b'\n' ∷ unquote s
unfolding unquote replace_all
unquote_hit s = refl

pub unquote_miss : (c : ℕ) (s : Bytes) → at_quote (c ∷ s) ≡ false → unquote (c ∷ s) ≡ c ∷ unquote s
unfolding unquote replace_all
unquote_miss c s h = rw (h, replace_from)

-- A text at a quote mark spells it.
at_quote-split : (s : Bytes) → at_quote s ≡ true → (r : Bytes) × (s ≡ b'\n' ∷ b'>' ∷ b' ' ∷ r)
unfolding has_prefix
at_quote-split [] h = absurd (cc)
at_quote-split (c ∷ []) h = absurd (ground arith)
at_quote-split (c ∷ d ∷ []) h = absurd (ground arith)
at_quote-split (c ∷ d ∷ e ∷ r) h = (r, ground arith)

at_quote-append : (w x : Bytes) → at_quote (w ++ x) ≡ false → at_quote w ≡ false
unfolding has_prefix
at_quote-append [] x h = refl
at_quote-append (c ∷ []) x h = ground arith
at_quote-append (c ∷ d ∷ []) x h = ground arith
at_quote-append (c ∷ d ∷ e ∷ w) x h = ground arith

unquote-eq-nil : (w : Bytes) → unquote w ≡ [] → w ≡ []
unquote-eq-nil [] h = refl
unquote-eq-nil (c ∷ w) h = elim (Bool-cases (at_quote (c ∷ w))) [
  | inl hit ↦ let (r, e) = at_quote-split (c ∷ w) hit in absurd (cc (unquote_hit r, ap unquote e))
  | inr miss ↦ absurd (cc (unquote_miss c w miss))
]

unquote-eq-mark : (w : Bytes) → unquote w ≡ b'>' ∷ [] → w ≡ b'>' ∷ []
unquote-eq-mark [] h = absurd (cc unquote-nil)
unquote-eq-mark (c ∷ w) h = elim (Bool-cases (at_quote (c ∷ w))) [
  | inl hit ↦
      let (r, e) = at_quote-split (c ∷ w) hit in
      absurd (ground (arith, unquote_hit r, ap unquote e))
  | inr miss ↦ ground (arith, unquote_miss c w miss, unquote-eq-nil w)
]

-- What is left when a piece ends where a quoted newline may have started.
is_partial-cases :
    (c : ℕ) (s : Bytes) → is_partial (c ∷ s) ≡ true → (c ≡ b'\n') × ((s ≡ []) ⊎ (s ≡ b'>' ∷ []))
unfolding bytes_eq
is_partial-cases c [] h = ground arith
is_partial-cases c (d ∷ []) h = ground arith
is_partial-cases c (d ∷ e ∷ s) h = absurd (ground arith)

-- The text `w ++ x`, when the code has made `u` of the piece `w` and holds a part of `u` back.
abbrev pub Splits : Bytes → Bytes → Bytes → Type 0
Splits w x u = (unquote (w ++ x) ≡ shown u ++ unquote (held u ++ x)) × IsFlat (held u ++ x)

Splits-held :
    (c : ℕ) (w x : Bytes)
    → is_partial (c ∷ w) ≡ true
    → IsFlat (c ∷ (w ++ x))
    → Splits (c ∷ w) x (c ∷ w)
unfolding shown held
Splits-held c w x p flat = (rw p refl, rw p flat)

Splits-shown :
    (w x : Bytes) (c : ℕ) (u : Bytes)
    → is_partial (c ∷ u) ≡ false
    → unquote (w ++ x) ≡ c ∷ (shown u ++ unquote (held u ++ x))
    → IsFlat (held u ++ x)
    → Splits w x (c ∷ u)
unfolding shown held
Splits-shown w x c u p e flat = (rw p e, rw p flat)

unquote_partial : (c : ℕ) (w : Bytes) → is_partial (c ∷ unquote w) ≡ true → unquote w ≡ w
unquote_partial c w p = elim (is_partial-cases c (unquote w) p).1 [
  | inl e ↦ e ∙ sym (unquote-eq-nil w e)
  | inr e ↦ e ∙ sym (unquote-eq-mark w e)
]

-- One byte that is no quote mark.
Splits-miss :
    (c : ℕ) (w x : Bytes)
    → at_quote (c ∷ (w ++ x)) ≡ false
    → IsFlat (c ∷ (w ++ x))
    → Splits w x (unquote w)
    → Splits (c ∷ w) x (unquote (c ∷ w))
Splits-miss c w x h flat ih =
    rw (unquote_miss c w (at_quote-append (c ∷ w) x h))
      (elim (Bool-cases (is_partial (c ∷ unquote w))) [
        | inr plain ↦
            Splits-shown (c ∷ w) x c (unquote w) plain (unquote_miss c (w ++ x) h ∙ ap (◌∷◌ c) ih.0)
              ih.1
        | inl partial ↦
            let same = unquote_partial c w partial in
            rw same (Splits-held c w x (rw same at partial) flat)
      ])

has_prefix_mark : (y : Bytes) → has_prefix (b'>' ∷ []) y ≡ false → has_prefix (codes "> ") y ≡ false
has_prefix_mark [] h = unfold has_prefix in refl
has_prefix_mark (c ∷ y) h = unfold has_prefix in ground arith

has_prefix_marks :
    (y : Bytes) → has_prefix (b'>' ∷ []) y ≡ false → has_prefix (codes "> >") y ≡ false
has_prefix_marks [] h = unfold has_prefix in refl
has_prefix_marks (c ∷ y) h = unfold has_prefix in ground arith

-- A piece that ends with a quote mark, before a text that starts with none.
Splits-end :
    (x : Bytes)
    → has_prefix (b'>' ∷ []) x ≡ false
    → IsFlat x
    → Splits (b'\n' ∷ b'>' ∷ b' ' ∷ []) x (b'\n' ∷ [])
Splits-end x mark flat =
    let q =
      Splits-held b'\n' [] x (unfold bytes_eq in refl)
        (unfold has_prefix in has_prefix_marks x mark, flat) in
    (
      unquote_hit x
          ∙ sym (unquote_miss b'\n' x (unfold has_prefix in has_prefix_mark x mark))
          ∙ q.0,
      q.1,
    )

-- A quote mark that lies in the piece.
Splits-hit :
    (w x : Bytes)
    → has_prefix (b'>' ∷ []) (w ++ x) ≡ false
    → IsFlat (w ++ x)
    → Splits w x (unquote w)
    → Splits (b'\n' ∷ b'>' ∷ b' ' ∷ w) x (b'\n' ∷ unquote w)
Splits-hit w x mark flat ih = elim (Bool-cases (is_partial (b'\n' ∷ unquote w))) [
  | inr plain ↦
      Splits-shown (b'\n' ∷ b'>' ∷ b' ' ∷ w) x b'\n' (unquote w) plain
        (unquote_hit (w ++ x) ∙ ap (◌∷◌ b'\n') ih.0) ih.1
  | inl partial ↦ elim (is_partial-cases b'\n' (unquote w) partial).1 [
    | inl nothing ↦
        let e = unquote-eq-nil w nothing in
        rw nothing (rw e (Splits-end x (rw e at mark) (rw e at flat)))
    | inr only ↦ absurd (unfold has_prefix in ground (arith, unquote-eq-mark w only))
  ]
]

Splits-hit_at :
    (t w x : Bytes)
    → t ≡ b'\n' ∷ b'>' ∷ b' ' ∷ w
    → IsFlat (t ++ x)
    → Splits w x (unquote w)
    → Splits t x (unquote t)
Splits-hit_at t w x e flat ih =
    let flat' = rw e at flat in
    rw e (rw (unquote_hit w) (Splits-hit w x (unfold has_prefix in ground arith) flat'.1.1.1 ih))

unquote_one : (c : ℕ) → unquote (c ∷ []) ≡ c ∷ []
unquote_one c = unquote_miss c [] (unfold has_prefix in ground arith) ∙ ap (◌∷◌ c) unquote-nil

unquote_two : (c d : ℕ) → unquote (c ∷ d ∷ []) ≡ c ∷ d ∷ []
unquote_two c d =
    unquote_miss c (d ∷ []) (unfold has_prefix in ground arith) ∙ ap (◌∷◌ c) (unquote_one d)

pub unquote-Splits : (w x : Bytes) → IsFlat (w ++ x) → Splits w x (unquote w)
unquote-Splits [] x flat = rw unquote-nil (unfold shown held in (refl, flat))
unquote-Splits (c ∷ []) x flat = elim (Bool-cases (at_quote (c ∷ x))) [
  | inr miss ↦ Splits-miss c [] x miss flat (unquote-Splits [] x flat.1)
  | inl hit ↦
      rw (unquote_one c) (Splits-held c [] x (unfold has_prefix bytes_eq in ground arith) flat)
]
unquote-Splits (c ∷ d ∷ []) x flat = elim (Bool-cases (at_quote (c ∷ d ∷ x))) [
  | inr miss ↦ Splits-miss c (d ∷ []) x miss flat (unquote-Splits (d ∷ []) x flat.1)
  | inl hit ↦
      rw (unquote_two c d)
        (Splits-held c (d ∷ []) x (unfold has_prefix bytes_eq in ground arith) flat)
]
unquote-Splits (c ∷ d ∷ e ∷ w) x flat = elim (Bool-cases (at_quote (c ∷ d ∷ e ∷ (w ++ x)))) [
  | inr miss ↦ Splits-miss c (d ∷ e ∷ w) x miss flat (unquote-Splits (d ∷ e ∷ w) x flat.1)
  | inl hit ↦
      Splits-hit_at (c ∷ d ∷ e ∷ w) w x (unfold has_prefix in ground arith) flat
        (unquote-Splits w x flat.1.1.1)
]

-- What is held back is no quoted newline yet.
pub unquote-held : (s : Bytes) → unquote (held s) ≡ held s
unfolding held
unquote-held [] = unquote-nil
unquote-held (c ∷ s) = elim (Bool-cases (is_partial (c ∷ s))) [
  | inr plain ↦ rw plain (unquote-held s)
  | inl partial ↦ rw partial (unquote-is_partial c s (is_partial-cases c s partial).1)
]
  where
    unquote-is_partial : (c : ℕ) (s : Bytes) → (s ≡ []) ⊎ (s ≡ b'>' ∷ []) → unquote (c ∷ s) ≡ c ∷ s
    unquote-is_partial c s (inl e) = rw e (unquote_one c)
    unquote-is_partial c s (inr e) = rw e (unquote_two c b'>')
