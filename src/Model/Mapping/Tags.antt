-- ===== src/Model/Mapping/Tags.antt =====
-- `ParseModelName` against a printer of tagged names.
use zai_proxy.Base.{
  ℕ, zero, suc, ◌≤◌, Bool, true, false, ◌||◌, none, some, List, [], ◌∷◌, ◌++◌, ◌≡◌, ◌≢◌, refl, sym,
  ap, ◌∙◌, inl, inr, arith, length, length-append, Bool-cases, Option-cases, ◌<◌,
}
use native.Mathlib.Nat.{le_refl}
use zai_proxy.Text.{Bytes, codes, has_suffix, trim_suffix}
use zai_proxy.Text.Laws.{
  has_suffix-append, has_suffix-split, trim_suffix-append, length-trim_suffix,
}
use zai_proxy.Model.Mapping.{ParsedModel, strip_tag, strip_tags, parse_model_name}

pub data Tag : Type 0 where
  thinking search_tag tools : Tag

abbrev pub tag_text : Tag → Bytes
tag_text thinking = codes "-thinking"
tag_text search_tag = codes "-search"
tag_text tools = codes "-tools"

-- A base name with tags behind it. The head of the list is the last tag of the name.
abbrev pub tagged : Bytes → List Tag → Bytes
tagged base [] = base
tagged base (t ∷ ts) = tagged base ts ++ tag_text t

-- No tag stands at the end of the name.
pub record IsBare (base : Bytes) : Type 0 where
  pub not_thinking : has_suffix (codes "-thinking") base ≡ false
  pub not_search : has_suffix (codes "-search") base ≡ false
  pub not_tools : has_suffix (codes "-tools") base ≡ false

abbrev pub is_tag : Tag → Tag → Bool
is_tag thinking thinking = true
is_tag search_tag search_tag = true
is_tag tools tools = true
is_tag _ _ = false

abbrev pub has_tag : Tag → List Tag → Bool
has_tag t [] = false
has_tag t (u ∷ us) = is_tag t u || has_tag t us

last_or : ℕ → Bytes → ℕ
last_or d [] = d
last_or d (c ∷ s) = last_or c s

last_or-append : (d c : ℕ) (s t : Bytes) → last_or d (s ++ c ∷ t) ≡ last_or c t
unfolding last_or
last_or-append d c [] t = refl
last_or-append d c (x ∷ s) t = last_or-append x c s t

-- A text that ends with one byte has no suffix that ends with another.
has_suffix_other :
    (s : Bytes) (a b : ℕ) (t u : Bytes)
    → last_or a t ≢ last_or b u
    → has_suffix (b ∷ u) (s ++ a ∷ t) ≡ false
has_suffix_other s a b t u ne = elim (Bool-cases (has_suffix (b ∷ u) (s ++ a ∷ t))) [
  | inr no_suffix ↦ no_suffix
  | inl suffix ↦ absurd (
      ne (
        sym (last_or-append 0 a s t)
        ∙ ap (last_or 0) (sym (has_suffix-split (s ++ a ∷ t) (b ∷ u) suffix))
        ∙ last_or-append 0 b (trim_suffix (b ∷ u) (s ++ a ∷ t)) u))
]

-- What one round makes of a name that ends with the tag.
abbrev add_tag : Tag → ParsedModel → ParsedModel
add_tag thinking p = record p { enable_thinking = true }
add_tag search_tag p = record p { enable_search = true }
add_tag tools p = record p { enable_tools = true }

strip_tag-tag :
    (t : Tag) (s : Bytes) (p : ParsedModel)
    → p.base_model ≡ s ++ tag_text t
    → strip_tag p ≡ some (record (add_tag t p) { base_model = s })
unfolding strip_tag last_or
strip_tag-tag thinking s p e =
    rw (e, has_suffix-append s (codes "-thinking"), trim_suffix-append s (codes "-thinking"))
strip_tag-tag search_tag s p e =
    rw (e, has_suffix_other s b'-' b'-' (codes "search") (codes "thinking") (λ q. omega arith))
      (rw (has_suffix-append s (codes "-search"), trim_suffix-append s (codes "-search")))
strip_tag-tag tools s p e =
    rw (e, has_suffix_other s b'-' b'-' (codes "tools") (codes "thinking") (λ q. omega arith))
      (rw (has_suffix_other s b'-' b'-' (codes "tools") (codes "search") (λ q. omega arith))
        (rw (has_suffix-append s (codes "-tools"), trim_suffix-append s (codes "-tools"))))

strip_tag-IsBare : (p : ParsedModel) → IsBare p.base_model → strip_tag p ≡ none
unfolding strip_tag
strip_tag-IsBare p b = rw (b.not_thinking, b.not_search, b.not_tools)

strip_tags-IsBare : (n : ℕ) (p : ParsedModel) → IsBare p.base_model → strip_tags n p ≡ p
unfolding strip_tags
strip_tags-IsBare zero p b = refl
strip_tags-IsBare (suc n) p b = rw (strip_tag-IsBare p b, strip_tags)

-- The flags that a list of tags adds to those found so far.
abbrev with_tags : List Tag → Bytes → ParsedModel → ParsedModel
with_tags ts base p = record {
  base_model = base;
  enable_thinking = has_tag thinking ts || p.enable_thinking;
  enable_search = has_tag search_tag ts || p.enable_search;
  enable_tools = has_tag tools ts || p.enable_tools;
}

with_tags-add_tag :
    (t : Tag) (ts : List Tag) (base s : Bytes) (p : ParsedModel)
    → with_tags ts base (record (add_tag t p) { base_model = s }) ≡ with_tags (t ∷ ts) base p
with_tags-add_tag thinking ts base s p = ground arith
with_tags-add_tag search_tag ts base s p = ground arith
with_tags-add_tag tools ts base s p = ground arith

length-tagged : (base : Bytes) (ts : List Tag) → length ts ≤ length (tagged base ts)
length-tagged base [] = omega arith
length-tagged base (thinking ∷ ts) =
    omega (arith, length-tagged base ts, length-append (tagged base ts) (tag_text thinking))
length-tagged base (search_tag ∷ ts) =
    omega (arith, length-tagged base ts, length-append (tagged base ts) (tag_text search_tag))
length-tagged base (tools ∷ ts) =
    omega (arith, length-tagged base ts, length-append (tagged base ts) (tag_text tools))

strip_tags-tagged :
    (base : Bytes)
    → IsBare base
    → (ts : List Tag) (n : ℕ) (p : ParsedModel) → p.base_model ≡ tagged base ts
    → length ts ≤ n
    → strip_tags n p ≡ with_tags ts base p
unfolding strip_tags
strip_tags-tagged base b [] n p e h = strip_tags-IsBare n p (rw e b) ∙ ground arith
strip_tags-tagged base b (t ∷ ts) zero p e h = absurd (omega arith)
strip_tags-tagged base b (t ∷ ts) (suc n) p e h =
    rw (strip_tag-tag t (tagged base ts) p e, strip_tags)
      (strip_tags-tagged base b ts n _ refl (omega arith)
        ∙ with_tags-add_tag t ts base (tagged base ts) p)

-- `ParseModelName` of a name that ends with no tag, followed by any tags in any order and number,
-- gives that name back and sets exactly the flags of the tags that stand there.
pub parse_model_name-tagged :
    (base : Bytes) (ts : List Tag)
    → IsBare base
    → parse_model_name (tagged base ts) ≡ record {
      base_model = base;
      enable_thinking = has_tag thinking ts;
      enable_search = has_tag search_tag ts;
      enable_tools = has_tag tools ts;
    }
unfolding parse_model_name
parse_model_name-tagged base ts b =
    strip_tags-tagged base b ts _ _ refl (length-tagged base ts) ∙ ground arith

strip_tag-shorter :
    (p q : ParsedModel) → strip_tag p ≡ some q → length q.base_model < length p.base_model
unfolding strip_tag
strip_tag-shorter p q e = ground (
  arith,
  length-trim_suffix p.base_model (codes "-thinking"),
  length-trim_suffix p.base_model (codes "-search"),
  length-trim_suffix p.base_model (codes "-tools"),
)

strip_tag-none : (p : ParsedModel) → strip_tag p ≡ none → IsBare p.base_model
unfolding strip_tag
strip_tag-none p e = ground arith

strip_tags-base_IsBare :
    (n : ℕ) (p : ParsedModel) → length p.base_model ≤ n → IsBare (strip_tags n p).base_model
unfolding strip_tags
strip_tags-base_IsBare zero p h = elim (Option-cases (strip_tag p)) [
  | inl stop ↦ strip_tag-none p stop
  | inr (q, more) ↦ absurd (omega (arith, strip_tag-shorter p q more))
]
strip_tags-base_IsBare (suc n) p h = elim (Option-cases (strip_tag p)) [
  | inl stop ↦ rw (stop, strip_tags) (strip_tag-none p stop)
  | inr (q, more) ↦
      rw (more, strip_tags) (strip_tags-base_IsBare n q (omega (arith, strip_tag-shorter p q more)))
]

-- The loop of `ParseModelName` ends by its `break` on every name: what is left as the base model
-- ends with none of the three tags.
pub parse_model_name-IsBare : (model : Bytes) → IsBare (parse_model_name model).base_model
unfolding parse_model_name
parse_model_name-IsBare model = strip_tags-base_IsBare (length model) _ (le_refl (length model))
