-- ===== src/Prelude/Text.antt =====
-- Text: concatenation of the pieces of a format string, `%d` and `%q`, and `strings.Join`.
use Prim.Native.Nat.{ℕ, zero, suc, ◌-◌, ◌/◌, ◌%◌, ◌^◌}
use Prim.Native.Char.{Char, code}
use Prim.Native.String
use Prim.Native.String.{String}
use mathlib.Core.Path.{◌≡◌, refl}
use mathlib.Core.Bool.{false}
use mathlib.Core.Logic.{◌≢◌, inl, inr}
use native.Mathlib.Omega.{arith}
use text.Mathlib.Text.{◌==◌ as str_eq}
use text.Mathlib.TextEquality.{eq_iff}
use text.Mathlib.TextLemmas.{append-eq-nil_iff}
use mathlib.Core.List.{List, [], ◌∷◌}
use smolvm_operator.Prelude.Tests.{Bool-cases, ltb, ◌==◌, if◌then◌else◌}
use smolvm_operator.Prelude.Words.{Int32, Int64}

-- The pieces of a formatted text, one after the other.
abbrev pub concat : List String → String
concat [] = ""
concat (s ∷ rest) = String.◌++◌ s (concat rest)

abbrev pub join : String → List String → String
join separator [] = ""
join separator (s ∷ []) = s
join separator (s ∷ t ∷ rest) = String.◌++◌ s (String.◌++◌ separator (join separator (t ∷ rest)))

unfoldable pub digit : ℕ → String
digit n =
    if n == 0
    then "0"
    else if n == 1
    then "1"
    else if n == 2
    then "2"
    else if n == 3
    then "3"
    else if n == 4
    then "4"
    else if n == 5
    then "5"
    else if n == 6
    then "6"
    else if n == 7
    then "7"
    else if n == 8
    then "8"
    else "9"

-- The decimal digits of a number; a number has no more digits than `n + 1`.
unfoldable pub decimal_from : ℕ → ℕ → String
decimal_from zero n = ""
decimal_from (suc fuel) n =
    let rest = decimal_from fuel (n / 10) in
    if ltb n 10 then digit n else String.◌++◌ rest (digit (n % 10))

unfoldable pub decimal : ℕ → String
unfolding decimal_from digit
decimal n = decimal_from (suc n) n

-- `%d` of a signed word.
unfoldable pub show_int32 : Int32 → String
unfolding decimal
show_int32 a = if ltb a (2 ^ 31) then decimal a else concat ("-" ∷ decimal (2 ^ 32 - a) ∷ [])

unfoldable pub show_int64 : Int64 → String
unfolding decimal
show_int64 a = if ltb a (2 ^ 63) then decimal a else concat ("-" ∷ decimal (2 ^ 64 - a) ∷ [])

-- `%q` escapes the quote, the backslash and the usual control characters.
quote_char : Char → String
quote_char c =
    let n = code c in
    if n == 0x22
    then "\\\""
    else if n == 0x5c
    then "\\\\"
    else if n == 0x0a
    then "\\n"
    else if n == 0x0d
    then "\\r"
    else if n == 0x09
    then "\\t"
    else String.◌∷◌ c String.[]

quote_chars : String → String
quote_chars String.[] = ""
quote_chars (String.◌∷◌ c s) = String.◌++◌ (quote_char c) (quote_chars s)

unfoldable pub quote : String → String
unfolding quote_char quote_chars
quote s = concat ("\"" ∷ quote_chars s ∷ "\"" ∷ [])

-- A text that begins with a text that is not empty is not empty.
pub concat-ne-nil : (s : String) (rest : List String) → str_eq s "" ≡ false → concat (s ∷ rest) ≢ ""
concat-ne-nil s rest full empty =
    let at_front = (append-eq-nil_iff.0 empty).0 in ground (arith, eq_iff s "", at_front)

pub append-ne-nil : (s t : String) → str_eq s "" ≡ false → String.◌++◌ s t ≢ ""
append-ne-nil s t full empty =
    let at_front = (append-eq-nil_iff.0 empty).0 in ground (arith, eq_iff s "", at_front)

pub ne_of_test : (s t : String) → str_eq s t ≡ false → s ≢ t
ne_of_test s t h e = ground (arith, eq_iff s t)

unfoldable pub text_discrete : Discrete String
text_discrete s t = elim (Bool-cases (str_eq s t)) [
  | inl same ↦ yes ((eq_iff s t).0 same)
  | inr other ↦ no (ne_of_test s t other)
]

decimal_run : decimal 8080 ≡ "8080"
unfolding decimal
decimal_run = refl

show_int32_run : show_int32 (2 ^ 32 - 12) ≡ "-12"
unfolding show_int32
show_int32_run = refl

quote_run : quote "node\"1" ≡ "\"node\\\"1\""
unfolding quote
quote_run = refl
