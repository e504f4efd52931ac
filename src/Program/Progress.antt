-- ===== src/Program/Progress.antt =====
-- What a program does once its environment answers as assumed: it makes a call of a kind, or it ends with a
-- result of a kind. The environment may have any state; only its answers are assumed.
use smolvm_operator.Program.{Call, Reply, Program, ret, call, ◌>>=◌}

abbrev pub Assumption : Type 1
Assumption = (c : Call) → Reply c → Type 0

-- Whatever the assumed answers are, a call that the goal describes is made.
pub data Reaches (given : Assumption) (goal : Call → Type 0) {A : Type 0} : Program A → Type 0 where
  here : {c : Call} {k : Reply c → Program A} → goal c → Reaches given goal (call c k)
  next :
      {c : Call} {k : Reply c → Program A}
      → ((r : Reply c) → given c r → Reaches given goal (k r))
      → Reaches given goal (call c k)

-- Whatever the assumed answers are, the program ends with such a result.
pub data Ends (given : Assumption) {A : Type 0} (Q : A → Type 0) : Program A → Type 0 where
  ends : {a : A} → Q a → Ends given Q (ret a)
  after :
      {c : Call} {k : Reply c → Program A}
      → ((r : Reply c) → given c r → Ends given Q (k r))
      → Ends given Q (call c k)

module _ {given : Assumption} {A B : Type 0} {f : A → Program B} {goal : Call → Type 0} where
  pub Reaches-bind :
      {Q : A → Type 0} {p : Program A}
      → Ends given Q p
      → ((a : A) → Q a → Reaches given goal (f a))
      → Reaches given goal (p >>= f)
  Reaches-bind (ends q) later = later _ q
  Reaches-bind (after rest) later = next (λ r good. Reaches-bind (rest r good) later)

  -- A program that ends in any case.
  pub Reaches-then :
      (p : Program A) → ((a : A) → Reaches given goal (f a)) → Reaches given goal (p >>= f)
  Reaches-then (ret a) later = later a
  Reaches-then (call c k) later = next (λ r good. Reaches-then (k r) later)

module _ {given : Assumption} {A B : Type 0} {f : A → Program B} {R : B → Type 0} where
  pub Ends-bind :
      {Q : A → Type 0} {p : Program A}
      → Ends given Q p
      → ((a : A) → Q a → Ends given R (f a))
      → Ends given R (p >>= f)
  Ends-bind (ends q) later = later _ q
  Ends-bind (after rest) later = after (λ r good. Ends-bind (rest r good) later)

module _ {given : Assumption} {A : Type 0} where
  pub Ends-any : (p : Program A) → Ends given (λ a. Unit {0}) p
  Ends-any (ret a) = ends tt
  Ends-any (call c k) = after (λ r good. Ends-any (k r))

-- Fewer answers are assumed possible.
module _ {given stronger : Assumption}
    (weaken : (c : Call) (r : Reply c) → stronger c r → given c r) {A : Type 0}
    {Q : A → Type 0} where
  pub Ends-weaken : {p : Program A} → Ends given Q p → Ends stronger Q p
  Ends-weaken (ends q) = ends q
  Ends-weaken (after rest) = after (λ r good. Ends-weaken (rest r (weaken _ r good)))
