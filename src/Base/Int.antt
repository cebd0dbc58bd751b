-- ===== src/Base/Int.antt =====
-- Signed integers over the native numbers, under the library's names, and int64 subtraction.
use topsrv.Base.Tests.{eqb, ltb, leb, if◌then◌else◌}
use Prim.Native.Nat.{ℕ, suc, ◌+◌, ◌-◌, ◌^◌, ◌*◌, ◌%◌}
use mathlib.Core.Bool.{Bool, true, false}

-- `negsuc n` is -(n + 1).
pub data ℤ : Type 0 where
  pos : ℕ → ℤ
  negsuc : ℕ → ℤ

abbrev pub pos_part : ℤ → ℕ
pos_part (pos n) = n
pos_part (negsuc n) = 0

abbrev pub neg_part : ℤ → ℕ
neg_part (pos n) = 0
neg_part (negsuc n) = suc n

-- a - b, as an integer.
abbrev pub sub_ℕ : ℕ → ℕ → ℤ
sub_ℕ a b = if leb b a then pos (a - b) else negsuc (b - a - 1)

abbrev pub is_negative : ℤ → Bool
is_negative (pos n) = false
is_negative (negsuc n) = true

abbrev pub eqb_ℤ : ℤ → ℤ → Bool
eqb_ℤ a b = eqb (pos_part a + neg_part b) (pos_part b + neg_part a)

-- a - b on int64: the result wraps around at ±2^63.
unfoldable pub sub_int64 : ℤ → ℤ → ℤ
sub_int64 a b =
    let up = pos_part a + neg_part b in
    let down = neg_part a + pos_part b in
    if leb (2 ^ 63) (up - down)
    then sub_ℕ up (down + 2 ^ 64)
    else if ltb (2 ^ 63) (down - up)
    then sub_ℕ (up + 2 ^ 64) down
    else sub_ℕ up down

-- The int64 of a residue modulo 2^64.
unfoldable pub int64_of : ℕ → ℤ
int64_of n = let r = n % 2 ^ 64 in if leb (2 ^ 63) r then negsuc (2 ^ 64 - r - 1) else pos r

-- a * k on int64
unfoldable pub mul_int64 : ℤ → ℕ → ℤ
unfolding int64_of
mul_int64 (pos n) k = int64_of (n * k)
mul_int64 (negsuc n) k = int64_of (2 ^ 64 - suc n * k % 2 ^ 64)
