-- ===== src/Base/Int.antt =====
-- Go's `int` where a value may be negative: integers with the wrap-around of 64 bits written out.
use Prim.Native.Nat.{ℕ, suc, ◌+◌, ◌-◌, ◌*◌, ◌%◌, ◌^◌}
use mathlib.Core.Bool.{Bool}
use ydbops.Base.Tests.{ltb, leb, if◌then◌else◌}

pub data ℤ : Type 0 where
  pos : ℕ → ℤ
  negsuc : ℕ → ℤ

abbrev pub pos_part : ℤ → ℕ
pos_part (pos n) = n
pos_part (negsuc n) = 0

abbrev pub neg_part : ℤ → ℕ
neg_part (pos n) = 0
neg_part (negsuc n) = suc n

abbrev pub sub_ℕ : ℕ → ℕ → ℤ
sub_ℕ a b = if leb b a then pos (a - b) else negsuc (b - a - 1)

infixl 65 ◌-ℤ◌
abbrev pub ◌-ℤ◌ : ℤ → ℤ → ℤ
a -ℤ b = sub_ℕ (pos_part a + neg_part b) (neg_part a + pos_part b)

abbrev pub ltb_ℤ : ℤ → ℤ → Bool
ltb_ℤ a b = ltb (pos_part a + neg_part b) (pos_part b + neg_part a)

abbrev pub max_int : ℕ
max_int = 2 ^ 63 - 1

-- The value of one addition or subtraction of two `int`s, brought back into range.
abbrev pub wrap64 : ℤ → ℤ
wrap64 (pos n) = if leb n max_int then pos n else sub_ℕ n (2 ^ 64)
wrap64 (negsuc n) = if leb n max_int then negsuc n else pos (2 ^ 64 - (n + 1))

-- Any value, brought back into the range of 64 bits.
abbrev pub wrap_all : ℤ → ℤ
wrap_all (pos n) =
    if leb (n % 2 ^ 64) max_int then pos (n % 2 ^ 64) else negsuc (2 ^ 64 - n % 2 ^ 64 - 1)
wrap_all (negsuc n) =
    if leb (n % 2 ^ 64) max_int then negsuc (n % 2 ^ 64) else pos (2 ^ 64 - n % 2 ^ 64 - 1)

abbrev pub add64 : ℤ → ℤ → ℤ
add64 a b = wrap_all (sub_ℕ (pos_part a + pos_part b) (neg_part a + neg_part b))

abbrev pub mul64 : ℤ → ℤ → ℤ
mul64 a b = wrap_all (
    sub_ℕ (pos_part a * pos_part b + neg_part a * neg_part b)
      (pos_part a * neg_part b + neg_part a * pos_part b))
