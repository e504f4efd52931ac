-- ===== src/Strconv.antt =====
-- strconv.Atoi and strings.LastIndex of Go's library, as portFromAddr of cmd/runtime-agent/main.go uses
-- them. Atoi's error is not looked at: its value on a syntax error is 0, and out of range the nearest.
pub mod Colons
pub mod Laws
use Prim.Native.Char.{Char, code}
use Prim.Native.String
use smolvm_operator.Prelude.{
  ℕ, String, Bool, true, false, ◌||◌, Option, none, some, ◌≡◌, refl, ◌+◌, ◌*◌, ◌-◌, ◌%◌, ◌^◌, Int64,
  ltb, ◌==◌, if◌then◌else◌,
}

-- What follows the last occurrence of a character.
unfoldable pub after_last : ℕ → String → Option String
after_last c String.[] = none
after_last c (String.◌∷◌ d s) = elim (after_last c s) [
  | some rest ↦ some rest
  | none ↦ if code d == c then some s else none
]

-- ParseUint in base 10: it stops at the first character that is no digit, and at the first digit with
-- which the number leaves the range of a uint64.
pub data Scan : Type 0 where
  scanned : ℕ → Scan
  syntax_error range_error : Scan

unfoldable pub scan : String → ℕ → Scan
scan String.[] n = scanned n
scan (String.◌∷◌ c s) n =
    let m = n * 10 + (code c - 0x30) in
    let rest = scan s m in
    if ltb (code c) 0x30 || ltb 0x39 (code c)
    then syntax_error
    else if ltb (2 ^ 64 - 1) m
    then range_error
    else rest

-- The magnitude with its sign, cut to the range of an int64.
abbrev pub positive : Scan → Int64
positive syntax_error = 0
positive range_error = 2 ^ 63 - 1
positive (scanned n) = if ltb n (2 ^ 63) then n else 2 ^ 63 - 1

abbrev pub negative : Scan → Int64
negative syntax_error = 0
negative range_error = 2 ^ 63
negative (scanned n) = if ltb (2 ^ 63) n then 2 ^ 63 else (2 ^ 64 - n) % 2 ^ 64

-- The digits behind the sign; there must be one.
abbrev pub magnitude : String → Scan
magnitude String.[] = syntax_error
magnitude (String.◌∷◌ c s) = scan (String.◌∷◌ c s) 0

unfoldable pub atoi : String → Int64
unfolding scan
atoi String.[] = 0
atoi (String.◌∷◌ c s) =
    if code c == 0x2d
    then negative (magnitude s)
    else if code c == 0x2b
    then positive (magnitude s)
    else positive (scan (String.◌∷◌ c s) 0)

atoi_run : atoi "9443" ≡ 9443
unfolding atoi
atoi_run = refl

atoi_negative : atoi "-1" ≡ 2 ^ 64 - 1
unfolding atoi
atoi_negative = refl

atoi_clipped : atoi "99999999999999999999x" ≡ 2 ^ 63 - 1
unfolding atoi
atoi_clipped = refl

atoi_syntax : atoi "80x" ≡ 0
unfolding atoi
atoi_syntax = refl
