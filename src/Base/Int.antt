-- ===== src/Base/Int.antt =====
-- The signed machine integers of the program, over the native numbers.
use Prim.Native.Nat.{ℕ, suc, ◌+◌, ◌-◌, ◌*◌, ◌%◌, ◌^◌, ◌≤◌, ◌<◌}
use mathlib.Core.Path.{◌≡◌}
use mathlib.Core.Bool.{Bool, true, false}
use native.Mathlib.Omega.{arith}
use tsdb_operator.Base.Tests.{ltb, leb, if◌then◌else◌}

-- `negsuc n` is -(n + 1).
pub data ℤ : Type 0 where
  pos : ℕ → ℤ
  negsuc : ℕ → ℤ

abbrev pub pos_part : ℤ → ℕ
pos_part (pos n) = n
pos_part (negsuc n) = 0

abbrev pub neg_part : ℤ → ℕ
neg_part (pos n) = 0
neg_part (negsuc n) = suc n

infix 50 ◌≤ℤ◌ ◌<ℤ◌
abbrev pub ◌≤ℤ◌ : ℤ → ℤ → Type 0
a ≤ℤ b = pos_part a + neg_part b ≤ pos_part b + neg_part a

abbrev pub ◌<ℤ◌ : ℤ → ℤ → Type 0
a <ℤ b = pos_part a + neg_part b < pos_part b + neg_part a

abbrev pub ltb_ℤ : ℤ → ℤ → Bool
ltb_ℤ a b = ltb (pos_part a + neg_part b) (pos_part b + neg_part a)

abbrev pub eqb_ℤ : ℤ → ℤ → Bool
eqb_ℤ a b =
    if leb (pos_part a + neg_part b) (pos_part b + neg_part a)
    then leb (pos_part b + neg_part a) (pos_part a + neg_part b)
    else false

pub eqb_ℤ→eq : (a b : ℤ) → eqb_ℤ a b ≡ true → a ≡ b
eqb_ℤ→eq a b h = ground arith

pub eqb_ℤ_refl : (a : ℤ) → eqb_ℤ a a ≡ true
eqb_ℤ_refl a = ground arith

-- `int32(n)` of a non-negative Go `int`.
unfoldable pub to_int32 : ℕ → ℤ
to_int32 n = let low = n % 2 ^ 32 in if ltb low (2 ^ 31) then pos low else negsuc (2 ^ 32 - 1 - low)

pub to_int32_small : (n : ℕ) → n < 2 ^ 31 → to_int32 n ≡ pos n
unfolding to_int32
to_int32_small n h = ground arith

-- Go's wrap-around of an int64.
abbrev low_64 : ℤ → ℕ
low_64 (pos n) = n % 2 ^ 64
low_64 (negsuc n) = 2 ^ 64 - 1 - n % 2 ^ 64

unfoldable pub to_int64 : ℤ → ℤ
to_int64 a = let low = low_64 a in if ltb low (2 ^ 63) then pos low else negsuc (2 ^ 64 - 1 - low)

abbrev neg_ℤ : ℤ → ℤ
neg_ℤ (pos n) = if leb n 0 then pos 0 else negsuc (n - 1)
neg_ℤ (negsuc n) = pos (suc n)

-- The product with a positive constant `suc k`.
abbrev scale : ℤ → ℕ → ℤ
scale (pos n) k = pos (n * k)
scale (negsuc n) k = negsuc (suc n * k - 1)

-- `-d` and `d * k` on int64, for a constant `k` above 0.
unfoldable pub neg_int64 : ℤ → ℤ
unfolding to_int64
neg_int64 d = to_int64 (neg_ℤ d)

unfoldable pub mul_int64 : ℤ → ℕ → ℤ
unfolding to_int64
mul_int64 d k = to_int64 (scale d k)

-- The sum of a natural number and an integer.
unfoldable pub shift : ℕ → ℤ → ℤ
shift n (pos m) = pos (n + m)
shift n (negsuc m) = if ltb m n then pos (n - m - 1) else negsuc (m - n)
