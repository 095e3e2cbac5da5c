-- ===== src/Middleware/RateLimit/Store.antt =====
-- The map of buckets: lookup after `insert`, and after `cleanupStale`.
use zai_proxy.Base.{
  ℕ, ◌+◌, ◌*◌, ◌<◌, ◌≡◌, refl, ◌⊎◌, inl, inr, false, none, some, List, [], ◌∷◌, arith,
  if◌then◌else◌, Bool-cases, All,
}
use zai_proxy.Text.{Bytes, bytes_eq}
use zai_proxy.Text.Laws.{bytes_eq_iff}
use zai_proxy.Middleware.RateLimit.{Bucket, lookup, insert, is_stale, cleanup_stale}

pub lookup-insert :
    (k j : Bytes) (b : Bucket) (m : List (Bytes × Bucket))
    → lookup j (insert k b m) ≡ (if bytes_eq k j then some b else lookup j m)
unfolding lookup insert
lookup-insert k j b [] = refl
lookup-insert k j b ((i, c) ∷ m) =
    ground (arith, bytes_eq_iff k j, bytes_eq_iff i k, bytes_eq_iff i j, lookup-insert k j b m)

-- Each key stands once, as in a map.
abbrev pub Fresh : Bytes → List (Bytes × Bucket) → Type 0
Fresh k m = All (λ e. bytes_eq e.0 k ≡ false) m

abbrev pub IsMap : List (Bytes × Bucket) → Type 0
IsMap [] = Unit
IsMap ((k, b) ∷ m) = Fresh k m × IsMap m

lookup-Fresh : (k : Bytes) (m : List (Bytes × Bucket)) → Fresh k m → lookup k m ≡ none
unfolding lookup
lookup-Fresh k [] h = refl
lookup-Fresh k ((j, b) ∷ m) h = ground (arith, lookup-Fresh k m h.1)

Fresh-cleanup_stale :
    (k : Bytes) (c now : ℕ) (m : List (Bytes × Bucket))
    → Fresh k m
    → Fresh k (cleanup_stale c now m)
unfolding cleanup_stale
Fresh-cleanup_stale k c now [] h = tt
Fresh-cleanup_stale k c now ((j, b) ∷ m) h = elim (Bool-cases (is_stale c now b)) [
  | inl stale ↦ rw stale (Fresh-cleanup_stale k c now m h.1)
  | inr kept ↦ rw kept (h.0, Fresh-cleanup_stale k c now m h.1)
]

pub cleanup_stale-IsMap :
    (c now : ℕ) (m : List (Bytes × Bucket)) → IsMap m → IsMap (cleanup_stale c now m)
unfolding cleanup_stale
cleanup_stale-IsMap c now [] h = tt
cleanup_stale-IsMap c now ((j, b) ∷ m) h = elim (Bool-cases (is_stale c now b)) [
  | inl stale ↦ rw stale (cleanup_stale-IsMap c now m h.1)
  | inr kept ↦ rw kept (Fresh-cleanup_stale j c now m h.0, cleanup_stale-IsMap c now m h.1)
]

Fresh-insert :
    (k j : Bytes) (b : Bucket) (m : List (Bytes × Bucket))
    → bytes_eq j k ≡ false
    → Fresh k m
    → Fresh k (insert j b m)
unfolding insert
Fresh-insert k j b [] ne h = (ne, tt)
Fresh-insert k j b ((i, c) ∷ m) ne h = elim (Bool-cases (bytes_eq i j)) [
  | inl same ↦ rw same (ne, h.1)
  | inr other ↦ rw other (h.0, Fresh-insert k j b m ne h.1)
]

pub insert-IsMap :
    (k : Bytes) (b : Bucket) (m : List (Bytes × Bucket)) → IsMap m → IsMap (insert k b m)
unfolding insert
insert-IsMap k b [] h = (tt, tt)
insert-IsMap k b ((i, c) ∷ m) h = elim (Bool-cases (bytes_eq i k)) [
  | inl same ↦ rw same (rw ((bytes_eq_iff i k).0 same) at h.0, h.1)
  | inr other ↦ rw other (
    Fresh-insert i k b m (ground (arith, bytes_eq_iff i k, bytes_eq_iff k i)) h.0,
    insert-IsMap k b m h.1,
  )
]

-- After the cleanup a key has its bucket, unless that was stale.
pub lookup-cleanup_stale :
    (k : Bytes) (c now : ℕ) (m : List (Bytes × Bucket))
    → IsMap m
    → (lookup k (cleanup_stale c now m) ≡ lookup k m)
      ⊎ ((b : Bucket) × (lookup k m ≡ some b)
          × (b.last_check + c * 2 < now)
          × (lookup k (cleanup_stale c now m) ≡ none))
unfolding lookup cleanup_stale
lookup-cleanup_stale k c now [] h = inl refl
lookup-cleanup_stale k c now ((j, b) ∷ m) h = elim (Bool-cases (is_stale c now b)) [
  | inr kept ↦ elim (Bool-cases (bytes_eq j k)) [
    | inl same ↦ rw (kept, same) (inl refl)
    | inr other ↦ rw (kept, other) (lookup-cleanup_stale k c now m h.1)
  ]
  | inl stale ↦ elim (Bool-cases (bytes_eq j k)) [
    | inl same ↦
        rw (stale, same) (inr (b, refl, ground arith, gone (rw ((bytes_eq_iff j k).0 same) at h.0)))
    | inr other ↦ rw (stale, other) (lookup-cleanup_stale k c now m h.1)
  ]
]
  where
    gone : Fresh k m → lookup k (cleanup_stale c now m) ≡ none
    gone f = lookup-Fresh k _ (Fresh-cleanup_stale k c now m f)
