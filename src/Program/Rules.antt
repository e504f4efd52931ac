-- ===== src/Program/Rules.antt =====
-- What holds of a program whatever the environment answers: each call is allowed by the history
-- before it, and each result fits the history that led to it.
use smolvm_operator.Prelude.{◌≡◌, refl, Bool, true, false, ◌∷◌, if◌then◌else◌}
use smolvm_operator.Program.Past.{Extends, Extends-cons}
use smolvm_operator.Program.{Call, Reply, Program, ret, call, ◌>>=◌, History}

pub data Holds (P : History → Call → Type 0) {A : Type 0} (Q : History → A → Type 0)
    : History → Program A → Type 0 where
  returns : {h : History} {a : A} → Q h a → Holds P Q h (ret a)
  calls :
      {h : History} {c : Call} {k : Reply c → Program A}
      → P h c
      → ((r : Reply c) → Holds P Q ((c, r) ∷ h) (k r))
      → Holds P Q h (call c k)

module _ {P : History → Call → Type 0} {A : Type 0} {Q : History → A → Type 0} where
  pub Holds-if :
      {h : History} {p q : Program A} (b : Bool)
      → (b ≡ true → Holds P Q h p)
      → (b ≡ false → Holds P Q h q)
      → Holds P Q h (if b then p else q)
  Holds-if true hp hq = hp refl
  Holds-if false hp hq = hq refl

module _ {P : History → Call → Type 0} {A B : Type 0} {R : History → A → Type 0}
    {Q : History → B → Type 0} where
  pub Holds-bind :
      {h : History} {p : Program A} {f : A → Program B}
      → Holds P R h p
      → ((g : History) (a : A) → R g a → Holds P Q g (f a))
      → Holds P Q h (p >>= f)
  Holds-bind (returns now) later = later _ _ now
  Holds-bind (calls allowed rest) later = calls allowed (λ r. Holds-bind (rest r) later)

module _ {P P' : History → Call → Type 0} {A : Type 0} {Q Q' : History → A → Type 0} where
  pub Holds-mono :
      {h : History} {p : Program A}
      → Holds P Q h p
      → ((g : History) (c : Call) → P g c → P' g c)
      → ((g : History) (a : A) → Q g a → Q' g a)
      → Holds P' Q' h p
  Holds-mono (returns now) allow imp = returns (imp _ _ now)
  Holds-mono (calls allowed rest) allow imp =
      calls (allow _ _ allowed) (λ r. Holds-mono (rest r) allow imp)

-- Allowances that hold at a history hold for the rest of the program, if they last.
module _ {P P' : History → Call → Type 0} {A : Type 0} {Q : History → A → Type 0}
    (first : History) where
  pub Holds-since :
      {h : History} {p : Program A}
      → Extends first h
      → Holds P Q h p
      → ((g : History) (c : Call) → Extends first g → P g c → P' g c)
      → Holds P' Q h p
  Holds-since since (returns now) allow = returns now
  Holds-since since (calls allowed rest) allow =
      calls (allow _ _ since allowed) (λ r. Holds-since (Extends-cons _ since) (rest r) allow)

-- The history that a result fits extends the first.
module _ {P : History → Call → Type 0} {A : Type 0} {Q : History → A → Type 0}
    (first : History) where
  pub Holds-onwards :
      {h : History} {p : Program A}
      → Extends first h
      → Holds P Q h p
      → Holds P (λ g a. Extends first g × Q g a) h p
  Holds-onwards since (returns now) = returns (since, now)
  Holds-onwards since (calls allowed rest) =
      calls allowed (λ r. Holds-onwards (Extends-cons _ since) (rest r))
