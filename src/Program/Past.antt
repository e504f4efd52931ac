-- ===== src/Program/Past.antt =====
-- What a history says: a call was made and had an answer, and this stays so as the history grows.
use smolvm_operator.Prelude.{◌∷◌}
use smolvm_operator.Program.{Call, Reply, Answered, History}

pub data Got (c : Call) (x : Reply c) : History → Type 0 where
  latest : {h : History} → Got c x ((c, x) ∷ h)
  earlier : {a : Answered} {h : History} → Got c x h → Got c x (a ∷ h)

-- `g` holds all that `h` holds.
pub record Extends (h g : History) : Type 0 where
  pub keeps : (c : Call) (x : Reply c) → Got c x h → Got c x g

pub Extends-refl : (h : History) → Extends h h
Extends-refl h = record { keeps = λ c x got. got }

pub Extends-cons : {h g : History} (a : Answered) → Extends h g → Extends h (a ∷ g)
Extends-cons a e = record { keeps = λ c x got. earlier (e.keeps c x got) }

pub Extends-trans : {h g k : History} → Extends h g → Extends g k → Extends h k
Extends-trans e f = record { keeps = λ c x got. f.keeps c x (e.keeps c x got) }

-- For `search`: what an explicit history holds, and that it extends its own tail.
pub ruleset past = (latest, earlier, Extends-refl, Extends-cons)
