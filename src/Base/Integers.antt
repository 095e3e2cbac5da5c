-- ===== src/Base/Integers.antt =====
-- Go's `int` where it may be negative.
use Prim.Native.Nat.{ℕ, zero, suc}

-- `negsuc n` is -(n + 1).
pub data ℤ : Type 0 where
  pos : ℕ → ℤ
  negsuc : ℕ → ℤ

-- `if x <= 0 { x = other }`
abbrev pub positive_or : ℤ → ℕ → ℕ
positive_or (pos zero) other = other
positive_or (pos (suc n)) other = suc n
positive_or (negsuc n) other = other

-- `n++` and `n--`
abbrev pub inc : ℤ → ℤ
inc (pos n) = pos (suc n)
inc (negsuc zero) = pos 0
inc (negsuc (suc n)) = negsuc n

abbrev pub dec : ℤ → ℤ
dec (pos zero) = negsuc 0
dec (pos (suc n)) = pos n
dec (negsuc n) = negsuc (suc n)
