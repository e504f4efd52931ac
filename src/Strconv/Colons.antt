-- ===== src/Strconv/Colons.antt =====
-- The text behind the last colon of an address.
use Prim.Native.Char.{code}
use Prim.Native.String
use text.Mathlib.TextLemmas.{cons-append, nil-append, append-nil}
use smolvm_operator.Prelude.{
  ℕ, String, Bool-cases, ◌≡◌, refl, inl, inr, ◌-◌, ◌^◌, ltb, arith, decimal, show_int32, Int32,
  none, some, ◌≢◌,
}
use smolvm_operator.Strconv.{after_last}
use smolvm_operator.Strconv.Laws.{AllDigits, decimal-AllDigits}

-- No character is a colon.
abbrev pub NoColon : String → Type 0
NoColon String.[] = Unit
NoColon (String.◌∷◌ c s) = (code c ≢ 0x3a) × NoColon s

AllDigits-NoColon : (s : String) → AllDigits s → NoColon s
AllDigits-NoColon String.[] digits = tt
AllDigits-NoColon (String.◌∷◌ c s) (low, high, digits) =
    ((λ e. omega (arith, e, high)), AllDigits-NoColon s digits)

pub show_int32-NoColon : (a : Int32) → NoColon (show_int32 a)
unfolding show_int32
show_int32-NoColon a = elim (Bool-cases (ltb a (2 ^ 31))) [
  | inl positive_a ↦ rw positive_a (AllDigits-NoColon _ (decimal-AllDigits a))
  | inr negative_a ↦
      rw
        (
          negative_a,
          append-nil (decimal (2 ^ 32 - a)),
          cons-append "-" "" (decimal (2 ^ 32 - a)),
          nil-append (decimal (2 ^ 32 - a)),
        )
        ((λ e. omega (arith, e)), AllDigits-NoColon _ (decimal-AllDigits (2 ^ 32 - a)))
]

after_last-NoColon : (s : String) → NoColon s → after_last 0x3a s ≡ none
unfolding after_last
after_last-NoColon String.[] free = refl
after_last-NoColon (String.◌∷◌ c s) (here, free) =
    rw (after_last, after_last-NoColon s free) (ground (arith, here))

after_last-append :
    (c : ℕ) (s t u : String) → after_last c t ≡ some u → after_last c (String.◌++◌ s t) ≡ some u
unfolding after_last
after_last-append c String.[] t u found = rw (nil-append t) found
after_last-append c (String.◌∷◌ d s) t u found =
    rw (cons-append d s t, after_last, after_last-append c s t u found) refl

pub after_last-colon :
    (s t : String) → NoColon t → after_last 0x3a (String.◌++◌ s (String.◌++◌ ":" t)) ≡ some t
unfolding after_last
after_last-colon s t free = after_last-append 0x3a s _ t (
    rw (cons-append ":" "" t, nil-append t, after_last, after_last-NoColon t free, nil-append t)
      refl)

-- Behind the last colon of an address are the digits of its port.
pub after_last-decimal :
    (host : String) (n : ℕ)
    → after_last 0x3a (String.◌++◌ host (String.◌++◌ ":" (decimal n))) ≡ some (decimal n)
after_last-decimal host n =
    after_last-colon host (decimal n) (AllDigits-NoColon (decimal n) (decimal-AllDigits n))
