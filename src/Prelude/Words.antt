-- ===== src/Prelude/Words.antt =====
-- Go's `int32` and `int64`. A value is its bit pattern, a number below 2 ^ 32 or 2 ^ 64; the signed
-- order compares the patterns shifted by half the range, and addition wraps.
use Prim.Native.Nat.{ℕ, ◌+◌, ◌-◌, ◌%◌, ◌^◌}
use mathlib.Core.Path.{◌≡◌, refl}
use mathlib.Core.Bool.{Bool, true}
use smolvm_operator.Prelude.Tests.{ltb, if◌then◌else◌}

abbrev pub Int32 : Type 0
Int32 = ℕ

abbrev pub Int64 : Type 0
Int64 = ℕ

abbrev pub int32_lt : Int32 → Int32 → Bool
int32_lt a b = ltb ((a + 2 ^ 31) % 2 ^ 32) ((b + 2 ^ 31) % 2 ^ 32)

abbrev pub int64_lt : Int64 → Int64 → Bool
int64_lt a b = ltb ((a + 2 ^ 63) % 2 ^ 64) ((b + 2 ^ 63) % 2 ^ 64)

abbrev pub int32_add : Int32 → Int32 → Int32
int32_add a b = (a + b) % 2 ^ 32

abbrev pub int64_add : Int64 → Int64 → Int64
int64_add a b = (a + b) % 2 ^ 64

-- The conversion `int64(x)` of an `int32`: the sign is extended.
abbrev pub int64_of_int32 : Int32 → Int64
int64_of_int32 a = if ltb a (2 ^ 31) then a else a + (2 ^ 64 - 2 ^ 32)

negative_is_below : int32_lt (2 ^ 32 - 1) 0 ≡ true
negative_is_below = refl

sum_wraps : int32_lt (int32_add (2 ^ 31 - 1) 1) 4 ≡ true
sum_wraps = refl

minus_one : int64_of_int32 (2 ^ 32 - 1) ≡ 2 ^ 64 - 1
minus_one = refl
