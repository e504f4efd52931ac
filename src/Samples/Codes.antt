-- ===== src/Samples/Codes.antt =====
-- Texts in which each value says where it ends.
use Prim.Native.Char.{Char, code}
use Prim.Native.String
use text.Mathlib.TextLemmas.{cons-append}
use smolvm_operator.Prelude.{
  ℕ, zero, suc, String, Bool, ◌==◌, if◌then◌else◌, true, false, ◌≡◌, refl, ap, ◌∙◌, Option, none,
  some, List, [], ◌∷◌,
}

pub record Code (A : Type 0) : Type 0 where
  pub put : A → String → String
  pub take : String → Option (A × String)

pub record Exact {A : Type 0} (code : Code A) : Type 0 where
  pub take-put : (a : A) (rest : String) → code.take (code.put a rest) ≡ some (a, rest)
  pub put-append :
      (a : A) (s t : String) → String.◌++◌ (code.put a s) t ≡ code.put a (String.◌++◌ s t)

-- What is read after a first value.
and_then : {A B : Type 0} → (A → String → Option B) → Option (A × String) → Option B
and_then f none = none
and_then f (some (a, rest)) = f a rest

-- A bit: the character "1", or another.
take_bit : String → Option (Bool × String)
take_bit String.[] = none
take_bit (String.◌∷◌ c s) = some (code c == 0x31, s)

put_bit : Bool → String → String
put_bit true s = String.◌∷◌ "1" s
put_bit false s = String.◌∷◌ "0" s

take-put_bit : (b : Bool) (rest : String) → take_bit (put_bit b rest) ≡ some (b, rest)
unfolding take_bit put_bit
take-put_bit true rest = refl
take-put_bit false rest = refl

put_bit-append :
    (b : Bool) (s t : String) → String.◌++◌ (put_bit b s) t ≡ put_bit b (String.◌++◌ s t)
unfolding put_bit
put_bit-append true s t = cons-append "1" s t
put_bit-append false s t = cons-append "0" s t

pub bit : Code Bool
unfolding take_bit put_bit
bit = record { put = put_bit; take = take_bit }

pub bit-Exact : Exact bit
unfolding bit
bit-Exact = record { take-put = take-put_bit; put-append = put_bit-append }

put_number : ℕ → String → String
unfolding put_bit
put_number zero s = put_bit false s
put_number (suc n) s = put_bit true (put_number n s)

take_number : String → Option (ℕ × String)
take_number String.[] = none
take_number (String.◌∷◌ c s) =
    let more = take_number s in
    if code c == 0x31 then and_then (λ n rest. some (suc n, rest)) more else some (zero, s)

take-put_number : (n : ℕ) (rest : String) → take_number (put_number n rest) ≡ some (n, rest)
unfolding take_number put_number and_then
take-put_number zero rest = refl
take-put_number (suc n) rest = rw (take-put_number n rest) refl

put_number-append :
    (n : ℕ) (s t : String) → String.◌++◌ (put_number n s) t ≡ put_number n (String.◌++◌ s t)
unfolding put_number
put_number-append zero s t = cons-append "0" s t
put_number-append (suc n) s t =
    cons-append "1" (put_number n s) t ∙ ap (String.◌∷◌ "1") (put_number-append n s t)

pub number : Code ℕ
unfolding take_number put_number
number = record { put = put_number; take = take_number }

pub number-Exact : Exact number
unfolding number
number-Exact = record { take-put = take-put_number; put-append = put_number-append }

module _ {A B : Type 0} (first : Code A) (second : Code B) where
  pub pair : Code (A × B)
  pair = record {
    put = λ p s. first.put p.0 (second.put p.1 s);
    take = λ s.
        and_then (λ a rest. and_then (λ b rest'. some ((a, b), rest')) (second.take rest))
          (first.take s);
  }

  pub pair-Exact : Exact first → Exact second → Exact pair
  unfolding pair and_then
  pair-Exact e1 e2 = record {
    take-put = λ p rest. rw (e1.take-put p.0 (second.put p.1 rest), e2.take-put p.1 rest) refl;
    put-append = λ p s t.
        e1.put-append p.0 (second.put p.1 s) t ∙ ap (first.put p.0) (e2.put-append p.1 s t);
  }

module _ {A B : Type 0} (code_of : Code A) (to : B → A) (from : A → B) where
  pub via : Code B
  via = record {
    put = λ b s. code_of.put (to b) s;
    take = λ s. and_then (λ a rest. some (from a, rest)) (code_of.take s);
  }

  pub via-Exact : Exact code_of → ((b : B) → from (to b) ≡ b) → Exact via
  unfolding via and_then
  via-Exact exact back = record {
    take-put = λ b rest. rw (exact.take-put (to b) rest, back b) refl;
    put-append = λ b s t. exact.put-append (to b) s t;
  }

module _ {A : Type 0} (item : Code A) where
  count : List A → ℕ
  count [] = zero
  count (a ∷ xs) = suc (count xs)

  put_items : List A → String → String
  put_items [] s = s
  put_items (a ∷ xs) s = item.put a (put_items xs s)

  take_items : ℕ → String → Option (List A × String)
  take_items zero s = some ([], s)
  take_items (suc n) s =
      and_then (λ a rest. and_then (λ xs rest'. some (a ∷ xs, rest')) (take_items n rest))
        (item.take s)

  module _ (exact : Exact item) where
    take-put_items :
        (xs : List A) (rest : String) → take_items (count xs) (put_items xs rest) ≡ some (xs, rest)
    unfolding take_items put_items count and_then
    take-put_items [] rest = refl
    take-put_items (a ∷ xs) rest =
        rw (exact.take-put a (put_items xs rest), take-put_items xs rest) refl

    put_items-append :
        (xs : List A) (s t : String)
        → String.◌++◌ (put_items xs s) t ≡ put_items xs (String.◌++◌ s t)
    unfolding put_items
    put_items-append [] s t = refl
    put_items-append (a ∷ xs) s t =
        exact.put-append a (put_items xs s) t ∙ ap (item.put a) (put_items-append xs s t)

  pub list : Code (List A)
  unfolding count put_items take_items
  list = record {
    put = λ xs s. put_number (count xs) (put_items xs s);
    take = λ s. and_then take_items (take_number s);
  }

  pub list-Exact : Exact item → Exact list
  unfolding list and_then
  list-Exact exact = record {
    take-put = λ xs rest.
        rw (take-put_number (count xs) (put_items xs rest)) (take-put_items exact xs rest);
    put-append = λ xs s t.
        put_number-append (count xs) (put_items xs s) t
        ∙ ap (put_number (count xs)) (put_items-append exact xs s t);
  }

take_char : String → Option (Char × String)
take_char String.[] = none
take_char (String.◌∷◌ c s) = some (c, s)

pub character : Code Char
unfolding take_char
character = record { put = λ c s. String.◌∷◌ c s; take = take_char }

pub character-Exact : Exact character
unfolding character
character-Exact = record { take-put = λ c rest. refl; put-append = λ c s t. cons-append c s t }

unfoldable pub characters : String → List Char
characters String.[] = []
characters (String.◌∷◌ c s) = c ∷ characters s

unfoldable pub text_of : List Char → String
text_of [] = ""
text_of (c ∷ cs) = String.◌∷◌ c (text_of cs)

pub text_of-characters : (s : String) → text_of (characters s) ≡ s
unfolding text_of characters
text_of-characters String.[] = refl
text_of-characters (String.◌∷◌ c s) = ap (String.◌∷◌ c) (text_of-characters s)
