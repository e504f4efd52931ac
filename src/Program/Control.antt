-- ===== src/Program/Control.antt =====
-- Go's `if err != nil` after a call, as functions by clauses, with the rule for each.
use smolvm_operator.Prelude.{◌≡◌, refl, Option, none, some}
use smolvm_operator.Smolvm.{Error, Result, ok, err}
use smolvm_operator.Program.{Call, Program, History}
use smolvm_operator.Program.Rules.{Holds}

module _ {A B : Type 0} where
  -- The first branch takes the error, the second the value.
  abbrev pub caught : (Error → Program B) → (A → Program B) → Result A → Program B
  caught fail go (err e) = fail e
  caught fail go (ok a) = go a

module _ {B : Type 0} where
  abbrev pub on_error : (Error → Program B) → Program B → Option Error → Program B
  on_error fail go none = go
  on_error fail go (some e) = fail e

module _ {P : History → Call → Type 0} {A B : Type 0} {Q : History → B → Type 0} where
  pub Holds-caught :
      {h : History} {fail : Error → Program B} {go : A → Program B} (r : Result A)
      → ((e : Error) → r ≡ err e → Holds P Q h (fail e))
      → ((a : A) → r ≡ ok a → Holds P Q h (go a))
      → Holds P Q h (caught fail go r)
  Holds-caught (err e) hf hg = hf e refl
  Holds-caught (ok a) hf hg = hg a refl

module _ {P : History → Call → Type 0} {B : Type 0} {Q : History → B → Type 0} where
  pub Holds-on_error :
      {h : History} {fail : Error → Program B} {go : Program B} (o : Option Error)
      → ((e : Error) → o ≡ some e → Holds P Q h (fail e))
      → (o ≡ none → Holds P Q h go)
      → Holds P Q h (on_error fail go o)
  Holds-on_error none hf hg = hg refl
  Holds-on_error (some e) hf hg = hf e refl
