-- ===== src/Text/Laws.antt =====
-- What a positive or a negative test on a text says.
use zai_proxy.Base.{
  zero, ◌||◌, ◌-◌, ◌≢◌, some, Option-cases, Bool-cases, inl, inr, suc, leb, ◌==◌, ◌≤◌, false, ℕ,
  ◌+◌, true, [], ◌∷◌, ◌++◌, ◌≡◌, refl, sym, ap, ◌∙◌, ◌↔◌, arith, length, take, drop, length-append,
  take-append-drop, drop-append, take-append,
}
use zai_proxy.Text.{index, index, Bytes, bytes_eq, has_prefix, has_suffix, trim_suffix}

pub bytes_eq_iff : (a b : Bytes) → (bytes_eq a b ≡ true) ↔ (a ≡ b)
unfolding bytes_eq
bytes_eq_iff (x ∷ a) (y ∷ b) = ground (arith, bytes_eq_iff a b)
bytes_eq_iff _ _ = ground arith

pub bytes_eq_refl : (a : Bytes) → bytes_eq a a ≡ true
bytes_eq_refl a = (bytes_eq_iff a a).1 refl

pub has_prefix-append : (p s : Bytes) → has_prefix p (p ++ s) ≡ true
unfolding has_prefix
has_prefix-append [] s = refl
has_prefix-append (c ∷ p) s = ground (arith, has_prefix-append p s)

pub has_prefix-split : (p s : Bytes) → has_prefix p s ≡ true → p ++ drop (length p) s ≡ s
unfolding has_prefix
has_prefix-split [] s h = refl
has_prefix-split (c ∷ p) [] h = cc
has_prefix-split (c ∷ p) (d ∷ s) h = ground (arith, has_prefix-split p s)

pub has_suffix-append : (s t : Bytes) → has_suffix t (s ++ t) ≡ true
unfolding has_suffix
has_suffix-append s t =
    let e : length (s ++ t) - length t ≡ length s = omega (arith, length-append s t) in
    rw (e, drop-append, bytes_eq_refl) (ground (arith, length-append s t))

pub trim_suffix-append : (s t : Bytes) → trim_suffix t (s ++ t) ≡ s
unfolding trim_suffix
trim_suffix-append s t =
    let e : length (s ++ t) - length t ≡ length s = omega (arith, length-append s t) in
    rw (has_suffix-append, e) (take-append s t)

-- A positive suffix test splits the text at the suffix.
pub has_suffix-split : (s t : Bytes) → has_suffix t s ≡ true → trim_suffix t s ++ t ≡ s
unfolding trim_suffix
has_suffix-split s t h =
    rw h (
      ap (◌++◌ (take (length s - length t) s)) (sym same)
      ∙ take-append-drop (length s - length t) s)
  where
    same : drop (length s - length t) s ≡ t
    same = (bytes_eq_iff _ t).0 (unfold has_suffix in ground arith)

pub length-trim_suffix :
    (s t : Bytes) → has_suffix t s ≡ true → length (trim_suffix t s) + length t ≡ length s
length-trim_suffix s t h =
    omega (arith, length-append (trim_suffix t s) t, ap length (has_suffix-split s t h))

pub bytes_eq-length_ne : (a b : Bytes) → length a ≢ length b → bytes_eq a b ≡ false
bytes_eq-length_ne a b ne = elim (Bool-cases (bytes_eq a b)) [
  | inl same ↦ absurd (ne (ap length ((bytes_eq_iff a b).0 same)))
  | inr differ ↦ differ
]

-- A suffix is the whole text, or a suffix of its tail.
pub has_suffix-cons :
    (t s : Bytes) (c : ℕ) → has_suffix t (c ∷ s) ≡ (bytes_eq (c ∷ s) t || has_suffix t s)
unfolding has_suffix
has_suffix-cons t s c = elim (Bool-cases (leb (length t) (length s))) [
  | inl shorter ↦
      let e : suc (length s) - length t ≡ suc (length s - length t) = ground arith in
      let longer : leb (length t) (suc (length s)) ≡ true = ground arith in
      rw (shorter, e, longer, bytes_eq-length_ne (c ∷ s) t (λ q. ground arith)) refl
  | inr longer ↦ elim (Bool-cases (length t == suc (length s))) [
    | inl same ↦
        let e : suc (length s) - length t ≡ 0 = ground arith in
        let fits : leb (length t) (suc (length s)) ≡ true = ground arith in
        rw (longer, e, fits) (ground arith)
    | inr differ ↦
        let past : leb (length t) (suc (length s)) ≡ false = ground arith in
        rw (longer, past, bytes_eq-length_ne (c ∷ s) t (λ q. ground arith)) refl
  ]
]

pub has_prefix-length : (p s : Bytes) → has_prefix p s ≡ true → length p ≤ length s
unfolding has_prefix
has_prefix-length [] s h = omega arith
has_prefix-length (c ∷ p) [] h = cc
has_prefix-length (c ∷ p) (d ∷ s) h = ground (arith, has_prefix-length p s)

-- A position that `Index` gives lies in the text, with all of the text looked for.
pub index-le-length : (sub s : Bytes) (i : ℕ) → index sub s ≡ some i → i + length sub ≤ length s
unfolding index
index-le-length sub [] i h = ground (arith, has_prefix-length sub [])
index-le-length sub (c ∷ s) i h = elim (Option-cases (index sub s)) [
  | inl missing ↦ ground (arith, has_prefix-length sub (c ∷ s))
  | inr (j, found) ↦ ground (arith, has_prefix-length sub (c ∷ s), index-le-length sub s j found)
]

-- What `index` finds stands there.
pub index-has_prefix :
    (sub s : Bytes) (i : ℕ) → index sub s ≡ some i → has_prefix sub (drop i s) ≡ true
unfolding index
index-has_prefix sub [] zero h = ground arith
index-has_prefix sub [] (suc i) h = ground arith
index-has_prefix sub (c ∷ s) i h = elim (Bool-cases (has_prefix sub (c ∷ s))) [
  | inl e ↦ let first : i ≡ 0 = ground arith in rw first e
  | inr n ↦ elim (Option-cases (index sub s)) [
    | inl missing ↦ ground arith
    | inr (j, found) ↦
        let next : i ≡ suc j = ground arith in rw next (index-has_prefix sub s j found)
  ]
]
