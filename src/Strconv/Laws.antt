-- ===== src/Strconv/Laws.antt =====
-- Reading back the decimal digits that `%d` writes.
use Prim.Native.Char.{Char, code}
use Prim.Native.String
use text.Mathlib.TextLemmas.{
  cons-append, nil-append, append-nil, append_assoc, append-ne-nil_of_right_ne-nil,
}
use smolvm_operator.Prelude.{
  ℕ, zero, suc, String, Bool-cases, ◌≡◌, refl, ◌∙◌, ap, inl, inr, ◌+◌, ◌*◌, ◌-◌, ◌/◌, ◌%◌, ◌<◌, ◌≤◌,
  ◌^◌, ltb, arith, digit, decimal_from, decimal, show_int32, Int32, ◌≢◌, ne_of_test,
}
use smolvm_operator.Strconv.{scanned, scan, positive, negative, magnitude, atoi}

scan-char :
    (c : Char) (d : ℕ) (rest : String) (n : ℕ)
    → code c ≡ 0x30 + d
    → d < 10
    → n * 10 + d < 2 ^ 64
    → scan (String.◌++◌ (String.◌∷◌ c "") rest) n ≡ scan rest (n * 10 + d)
unfolding scan
scan-char c d rest n at small fits =
    let m : n * 10 + (code c - 0x30) ≡ n * 10 + d = omega (arith, at) in
    rw (cons-append c "" rest, nil-append rest) (ground (arith, at, m, ap (scan rest) m))

-- Reading one digit.
scan-digit :
    (d : ℕ) (rest : String) (n : ℕ)
    → d < 10
    → n * 10 + d < 2 ^ 64
    → scan (String.◌++◌ (digit d) rest) n ≡ scan rest (n * 10 + d)
unfolding digit
scan-digit zero rest n small fits = scan-char "0" 0 rest n refl (omega arith) fits
scan-digit (suc zero) rest n small fits = scan-char "1" 1 rest n refl (omega arith) fits
scan-digit (suc (suc zero)) rest n small fits = scan-char "2" 2 rest n refl (omega arith) fits
scan-digit (suc (suc (suc zero))) rest n small fits = scan-char "3" 3 rest n refl (omega arith) fits
scan-digit (suc (suc (suc (suc zero)))) rest n small fits =
    scan-char "4" 4 rest n refl (omega arith) fits
scan-digit (suc (suc (suc (suc (suc zero))))) rest n small fits =
    scan-char "5" 5 rest n refl (omega arith) fits
scan-digit (suc (suc (suc (suc (suc (suc zero)))))) rest n small fits =
    scan-char "6" 6 rest n refl (omega arith) fits
scan-digit (suc (suc (suc (suc (suc (suc (suc zero))))))) rest n small fits =
    scan-char "7" 7 rest n refl (omega arith) fits
scan-digit (suc (suc (suc (suc (suc (suc (suc (suc zero)))))))) rest n small fits =
    scan-char "8" 8 rest n refl (omega arith) fits
scan-digit (suc (suc (suc (suc (suc (suc (suc (suc (suc zero))))))))) rest n small fits =
    scan-char "9" 9 rest n refl (omega arith) fits
scan-digit (suc (suc (suc (suc (suc (suc (suc (suc (suc (suc d)))))))))) rest n small fits =
    absurd (omega arith)

pub scan-decimal_from :
    (fuel n : ℕ) (rest : String)
    → n < fuel
    → n < 2 ^ 64
    → scan (String.◌++◌ (decimal_from fuel n) rest) 0 ≡ scan rest n
unfolding decimal_from
scan-decimal_from zero n rest h fits = absurd (omega arith)
scan-decimal_from (suc fuel) n rest h fits = elim (Bool-cases (ltb n 10)) [
  | inl small ↦
      rw small (scan-digit n rest 0 (ground arith) (omega arith) ∙ ap (scan rest) (omega arith))
  | inr large ↦
      rw (large, append_assoc (decimal_from fuel (n / 10)) (digit (n % 10)) rest)
        (scan-decimal_from fuel (n / 10) (String.◌++◌ (digit (n % 10)) rest) (ground arith)
            (omega arith)
          ∙ scan-digit (n % 10) rest (n / 10) (omega arith) (omega arith)
          ∙ ap (scan rest) (omega arith))
]

-- All characters are digits.
abbrev pub AllDigits : String → Type 0
AllDigits String.[] = Unit
AllDigits (String.◌∷◌ c s) = (0x30 ≤ code c) × (code c ≤ 0x39) × AllDigits s

AllDigits-append : (s t : String) → AllDigits s → AllDigits t → AllDigits (String.◌++◌ s t)
AllDigits-append String.[] t hs ht = rw (nil-append t) ht
AllDigits-append (String.◌∷◌ c s) t (low, high, hs) ht =
    rw (cons-append c s t) (low, high, AllDigits-append s t hs ht)

digit-AllDigits : (d : ℕ) → d < 10 → AllDigits (digit d)
unfolding digit
digit-AllDigits zero small = (omega arith, omega arith, tt)
digit-AllDigits (suc zero) small = (omega arith, omega arith, tt)
digit-AllDigits (suc (suc zero)) small = (omega arith, omega arith, tt)
digit-AllDigits (suc (suc (suc zero))) small = (omega arith, omega arith, tt)
digit-AllDigits (suc (suc (suc (suc zero)))) small = (omega arith, omega arith, tt)
digit-AllDigits (suc (suc (suc (suc (suc zero))))) small = (omega arith, omega arith, tt)
digit-AllDigits (suc (suc (suc (suc (suc (suc zero)))))) small = (omega arith, omega arith, tt)
digit-AllDigits (suc (suc (suc (suc (suc (suc (suc zero))))))) small =
    (omega arith, omega arith, tt)
digit-AllDigits (suc (suc (suc (suc (suc (suc (suc (suc zero)))))))) small =
    (omega arith, omega arith, tt)
digit-AllDigits (suc (suc (suc (suc (suc (suc (suc (suc (suc zero))))))))) small =
    (omega arith, omega arith, tt)
digit-AllDigits (suc (suc (suc (suc (suc (suc (suc (suc (suc (suc d)))))))))) small =
    absurd (omega arith)

decimal_from-AllDigits : (fuel n : ℕ) → AllDigits (decimal_from fuel n)
unfolding decimal_from
decimal_from-AllDigits zero n = tt
decimal_from-AllDigits (suc fuel) n = elim (Bool-cases (ltb n 10)) [
  | inl small ↦ rw small (digit-AllDigits n (ground arith))
  | inr large ↦ rw large (
      AllDigits-append _ _ (decimal_from-AllDigits fuel (n / 10))
        (digit-AllDigits (n % 10) (omega arith)))
]

pub decimal-AllDigits : (n : ℕ) → AllDigits (decimal n)
unfolding decimal
decimal-AllDigits n = decimal_from-AllDigits (suc n) n

pub scan-decimal :
    (n : ℕ) (rest : String) → n < 2 ^ 64 → scan (String.◌++◌ (decimal n) rest) 0 ≡ scan rest n
unfolding decimal
scan-decimal n rest fits = scan-decimal_from (suc n) n rest (omega arith) fits

digit-ne-nil : (d : ℕ) → d < 10 → digit d ≢ ""
unfolding digit
digit-ne-nil zero small = ne_of_test "0" "" refl
digit-ne-nil (suc zero) small = ne_of_test "1" "" refl
digit-ne-nil (suc (suc zero)) small = ne_of_test "2" "" refl
digit-ne-nil (suc (suc (suc zero))) small = ne_of_test "3" "" refl
digit-ne-nil (suc (suc (suc (suc zero)))) small = ne_of_test "4" "" refl
digit-ne-nil (suc (suc (suc (suc (suc zero))))) small = ne_of_test "5" "" refl
digit-ne-nil (suc (suc (suc (suc (suc (suc zero)))))) small = ne_of_test "6" "" refl
digit-ne-nil (suc (suc (suc (suc (suc (suc (suc zero))))))) small = ne_of_test "7" "" refl
digit-ne-nil (suc (suc (suc (suc (suc (suc (suc (suc zero)))))))) small = ne_of_test "8" "" refl
digit-ne-nil (suc (suc (suc (suc (suc (suc (suc (suc (suc zero))))))))) small =
    ne_of_test "9" "" refl
digit-ne-nil (suc (suc (suc (suc (suc (suc (suc (suc (suc (suc d)))))))))) small =
    absurd (omega arith)

decimal-ne-nil : (n : ℕ) → decimal n ≢ ""
unfolding decimal decimal_from
decimal-ne-nil n = elim (Bool-cases (ltb n 10)) [
  | inl small ↦ rw small (digit-ne-nil n (ground arith))
  | inr large ↦ rw large (
      append-ne-nil_of_right_ne-nil (decimal_from n (n / 10)) (digit-ne-nil (n % 10) (omega arith)))
]

-- Atoi on a text of digits reads its magnitude.
atoi-AllDigits : (s : String) → s ≢ "" → AllDigits s → atoi s ≡ positive (scan s 0)
unfolding atoi
atoi-AllDigits String.[] full digits = absurd (full refl)
atoi-AllDigits (String.◌∷◌ c s) full (low, high, digits) = ground arith

magnitude-AllDigits : (s : String) → s ≢ "" → magnitude s ≡ scan s 0
magnitude-AllDigits String.[] full = absurd (full refl)
magnitude-AllDigits (String.◌∷◌ c s) full = refl

scan_whole : (n : ℕ) → n < 2 ^ 64 → scan (decimal n) 0 ≡ scanned n
unfolding scan
scan_whole n fits = rw (append-nil (decimal n)) at (scan-decimal n "" fits)

-- Atoi reads back the digits of a number in the range of an int64.
pub atoi-decimal : (n : ℕ) → n < 2 ^ 63 → atoi (decimal n) ≡ n
atoi-decimal n fits =
    atoi-AllDigits (decimal n) (decimal-ne-nil n) (decimal-AllDigits n)
    ∙ ap positive (scan_whole n (omega arith))
    ∙ ground arith

atoi-minus :
    (n : ℕ)
    → n < 2 ^ 63
    → atoi (String.◌++◌ "-" (String.◌++◌ (decimal n) "")) ≡ (2 ^ 64 - n) % 2 ^ 64
unfolding atoi
atoi-minus n fits =
    rw (append-nil (decimal n), cons-append "-" "" (decimal n), nil-append (decimal n))
      (ap negative (magnitude-AllDigits (decimal n) (decimal-ne-nil n) ∙ scan_whole n (omega arith))
        ∙ ground arith)

-- The word that `%d` of an int32 writes is the one that Atoi reads, cut to 32 bits.
pub atoi-show_int32 : (a : Int32) → a < 2 ^ 32 → atoi (show_int32 a) % 2 ^ 32 ≡ a
unfolding show_int32
atoi-show_int32 a fits = elim (Bool-cases (ltb a (2 ^ 31))) [
  | inl positive_a ↦
      rw positive_a (ap (λ n. n % 2 ^ 32) (atoi-decimal a (ground arith)) ∙ omega arith)
  | inr negative_a ↦
      rw negative_a (ap (λ n. n % 2 ^ 32) (atoi-minus (2 ^ 32 - a) (ground arith)) ∙ ground arith)
]
