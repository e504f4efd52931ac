-- ===== src/Samples/Codecs.antt =====
-- Codecs that read back what they write, for the types of the runtime API. They stand for encoding/json in
-- the witnesses.
use Prim.Native.String
use smolvm_operator.Prelude.{ℕ, String, Bool, ◌≡◌, refl, Option, none, some, List, [], ◌∷◌}
use smolvm_operator.Smolvm.{message_error, Result, ok, err}
use smolvm_operator.Http.{Codec, Faithful}
use smolvm_operator.Samples.Codes.{
  Code, Exact, bit, bit-Exact, number, number-Exact, pair, pair-Exact, via, via-Exact, list,
  list-Exact, character, character-Exact, characters, text_of, text_of-characters,
}

-- A code with the proof that it is exact.
pub record Proved (A : Type 0) : Type 0 where
  code_of : Code A
  exact : Exact code_of

pub int : Proved ℕ
int = record { code_of = number; exact = number-Exact }

pub bool : Proved Bool
bool = record { code_of = bit; exact = bit-Exact }

infixr 4 ◌and◌
pub ◌and◌ : {A B : Type 0} → Proved A → Proved B → Proved (A × B)
p and q = record {
  code_of = pair p.code_of q.code_of;
  exact = pair-Exact p.code_of q.code_of p.exact q.exact;
}

pub many : {A : Type 0} → Proved A → Proved (List A)
many p = record { code_of = list p.code_of; exact = list-Exact p.code_of p.exact }

pub along :
    {A B : Type 0} (to : B → A) (from : A → B) → ((b : B) → from (to b) ≡ b) → Proved A → Proved B
along to from back p = record {
  code_of = via p.code_of to from;
  exact = via-Exact p.code_of to from p.exact back;
}

pub words : Proved String
unfolding text_of characters
words =
    along characters text_of text_of-characters
      (many (record { code_of = character; exact = character-Exact }))

to_list : {A : Type 0} → Option A → List A
to_list none = []
to_list (some a) = a ∷ []

of_list : {A : Type 0} → List A → Option A
of_list [] = none
of_list (a ∷ _) = some a

of_list-to_list : {A : Type 0} (o : Option A) → of_list (to_list o) ≡ o
unfolding of_list to_list
of_list-to_list none = refl
of_list-to_list (some a) = refl

pub maybe : {A : Type 0} → Proved A → Proved (Option A)
unfolding of_list to_list
maybe p = along to_list of_list of_list-to_list (many p)

-- The codec that reads the first value of a text.
read_first : {A : Type 0} → Code A → String → Result A
read_first code_of s = elim (code_of.take s) [
  | none ↦ err (message_error "unexpected end of JSON input")
  | some found ↦ ok found.0
]

unfoldable pub codec : {A : Type 0} → Proved A → Codec A
unfolding read_first
codec p = record {
  marshal = λ a. p.code_of.put a "";
  unmarshal = read_first p.code_of;
  decode = read_first p.code_of;
}

read_first-put :
    {A : Type 0} (p : Proved A) (a : A) (rest : String)
    → read_first p.code_of (p.code_of.put a rest) ≡ ok a
unfolding read_first
read_first-put p a rest = rw (read_first, p.exact.take-put a rest) refl

pub codec-Faithful : {A : Type 0} (p : Proved A) → Faithful (codec p)
unfolding codec
codec-Faithful p = record {
  unmarshal-marshal =
      λ a. rw (p.exact.put-append a "" "\n") (read_first-put p a (String.◌++◌ "" "\n"));
  decode-marshal = λ a. read_first-put p a "";
}
