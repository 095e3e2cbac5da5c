-- ===== src/Filter/Search/Sorting.antt =====
-- The sort of `GetSearchResultsMarkdown`.
use zai_proxy.Base.{
  ℤ, pos, negsuc, ℤ, ℕ, zero, suc, ◌≤◌, ◌≡◌, refl, sym, ap, inl, inr, true, false, List, [], ◌∷◌,
  arith, Bool-cases, length, All,
}
use mathlib.Core.List.{Perm}
use mathlib.Core.Path.{subst}
use mathlib.Core.List.Perm
use zai_proxy.Model.Types.{SearchResult}
use zai_proxy.Filter.Search.Sources.{gt_int, exchange, sort_results}

-- `r` may stand in front of `s`.
abbrev pub Before : SearchResult → SearchResult → Type 0
Before r s = gt_int r.index s.index ≡ false

gt_int_trans : (i j k : ℤ) → gt_int i j ≡ false → gt_int j k ≡ false → gt_int i k ≡ false
gt_int_trans (pos i) (pos j) (pos k) h g = ground arith
gt_int_trans (pos i) (pos j) (negsuc k) h g = cc
gt_int_trans (pos i) (negsuc j) k h g = cc
gt_int_trans (negsuc i) (pos j) (pos k) h g = refl
gt_int_trans (negsuc i) (pos j) (negsuc k) h g = cc
gt_int_trans (negsuc i) (negsuc j) (pos k) h g = refl
gt_int_trans (negsuc i) (negsuc j) (negsuc k) h g = ground arith

gt_int_asym : (i j : ℤ) → gt_int i j ≡ true → gt_int j i ≡ false
gt_int_asym (pos i) (pos j) h = ground arith
gt_int_asym (pos i) (negsuc j) h = refl
gt_int_asym (negsuc i) (pos j) h = cc
gt_int_asym (negsuc i) (negsuc j) h = ground arith

int_not_above : (i : ℤ) → gt_int i i ≡ false
int_not_above (pos i) = ground arith
int_not_above (negsuc i) = ground arith

-- What `exchange` does with one more result.
exchange-greater :
    (x y : SearchResult) (ys : List SearchResult)
    → gt_int x.index y.index ≡ true
    → exchange x (y ∷ ys) ≡ ((exchange y ys).0, x ∷ (exchange y ys).1)
unfolding exchange
exchange-greater x y ys h = rw h refl

exchange-less :
    (x y : SearchResult) (ys : List SearchResult)
    → gt_int x.index y.index ≡ false
    → exchange x (y ∷ ys) ≡ ((exchange x ys).0, y ∷ (exchange x ys).1)
unfolding exchange
exchange-less x y ys h = rw h refl

abbrev First : SearchResult → SearchResult × List SearchResult → Type 0
First x p = Before p.0 x × All (Before p.0) p.1

-- The result that comes to the front stands before the one that was there and the others.
exchange-First : (x : SearchResult) (rs : List SearchResult) → First x (exchange x rs)
exchange-First x [] = unfold exchange in (int_not_above x.index, tt)
exchange-First x (y ∷ ys) = elim (Bool-cases (gt_int x.index y.index)) [
  | inl greater ↦
      let (least, before) = exchange-First y ys in
      let least_x =
        gt_int_trans (exchange y ys).0.index y.index x.index least
          (gt_int_asym x.index y.index greater) in
      subst (First x) (sym (exchange-greater x y ys greater)) (least_x, (least_x, before))
  | inr not_greater ↦
      let (least, before) = exchange-First x ys in
      subst (First x) (sym (exchange-less x y ys not_greater))
        (least, (gt_int_trans (exchange x ys).0.index x.index y.index least not_greater, before))
]

exchange-Perm :
    (x : SearchResult) (rs : List SearchResult)
    → Perm (x ∷ rs) ((exchange x rs).0 ∷ (exchange x rs).1)
unfolding exchange
exchange-Perm x [] = Perm.refl (x ∷ [])
exchange-Perm x (y ∷ ys) = elim (Bool-cases (gt_int x.index y.index)) [
  | inl greater ↦ rw greater (
      Perm.trans (Perm.cons x (exchange-Perm y ys))
        (Perm.swap (exchange y ys).0 x (exchange y ys).1))
  | inr not_greater ↦ rw not_greater (
      Perm.trans (Perm.swap y x ys) (
        Perm.trans (Perm.cons y (exchange-Perm x ys))
          (Perm.swap (exchange x ys).0 y (exchange x ys).1)))
]

exchange-length : (x : SearchResult) (rs : List SearchResult) → length (exchange x rs).1 ≡ length rs
unfolding exchange
exchange-length x [] = refl
exchange-length x (y ∷ ys) = elim (Bool-cases (gt_int x.index y.index)) [
  | inl greater ↦ rw greater (ap suc (exchange-length y ys))
  | inr not_greater ↦ rw not_greater (ap suc (exchange-length x ys))
]

module _ (P : SearchResult → Type 0) where
  exchange-All :
      (x : SearchResult) (rs : List SearchResult)
      → P x
      → All P rs
      → P (exchange x rs).0 × All P (exchange x rs).1
  unfolding exchange
  exchange-All x [] px h = (px, tt)
  exchange-All x (y ∷ ys) px h = elim (Bool-cases (gt_int x.index y.index)) [
    | inl greater ↦ let (pz, hz) = exchange-All y ys h.0 h.1 in rw greater (pz, (px, hz))
    | inr not_greater ↦ let (pz, hz) = exchange-All x ys px h.1 in rw not_greater (pz, (h.0, hz))
  ]

  sort_results-All : (n : ℕ) (rs : List SearchResult) → All P rs → All P (sort_results n rs)
  unfolding sort_results
  sort_results-All zero rs h = h
  sort_results-All (suc n) [] h = tt
  sort_results-All (suc n) (r ∷ rs) h =
      let (pz, hz) = exchange-All r rs h.0 h.1 in (pz, sort_results-All n (exchange r rs).1 hz)

-- Each result stands before all the later ones.
abbrev pub Sorted : List SearchResult → Type 0
Sorted [] = Unit
Sorted (r ∷ rs) = All (Before r) rs × Sorted rs

sort_results-Sorted : (n : ℕ) (rs : List SearchResult) → length rs ≤ n → Sorted (sort_results n rs)
unfolding sort_results
sort_results-Sorted zero [] h = tt
sort_results-Sorted zero (r ∷ rs) h = let no : ⊥ = omega arith in absurd no
sort_results-Sorted (suc n) [] h = tt
sort_results-Sorted (suc n) (r ∷ rs) h = (
  sort_results-All (Before (exchange r rs).0) n (exchange r rs).1 (exchange-First r rs).1,
  sort_results-Sorted n (exchange r rs).1 (omega (arith, exchange-length r rs)),
)

sort_results-Perm : (n : ℕ) (rs : List SearchResult) → Perm rs (sort_results n rs)
unfolding sort_results
sort_results-Perm zero rs = Perm.refl rs
sort_results-Perm (suc n) [] = Perm.refl []
sort_results-Perm (suc n) (r ∷ rs) =
    Perm.trans (exchange-Perm r rs)
      (Perm.cons (exchange r rs).0 (sort_results-Perm n (exchange r rs).1))

-- In whatever order the map is ranged over, the list of sources has all the results, those of
-- smaller index first.
pub sort_results-Sorted_Perm :
    (rs : List SearchResult)
    → Sorted (sort_results (length rs) rs) × Perm rs (sort_results (length rs) rs)
sort_results-Sorted_Perm rs =
    (sort_results-Sorted (length rs) rs (omega arith), sort_results-Perm (length rs) rs)
