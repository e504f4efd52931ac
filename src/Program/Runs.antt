-- ===== src/Program/Runs.antt =====
-- What a program leads to in an environment with a state: each call is answered, and changes the state, in one of
-- the ways that the environment allows.
use mathlib.Core.Path.{subst}
use smolvm_operator.Prelude.{◌≡◌, sym, ◌∙◌}
use smolvm_operator.Program.{Call, Reply, Program, ret, call, ◌>>=◌, History}
use smolvm_operator.Program.Progress.{Assumption, Ends, ends, after}
use smolvm_operator.Program.Rules.{Holds, returns, calls}

abbrev pub Environment : Type 0 → Type 1
Environment S = S → (c : Call) → Reply c → S → Type 0

-- However the environment answers, the program ends, with such a state and result.
pub data Leads {S : Type 0} (env : Environment S) {A : Type 0} (Q : S → A → Type 0)
    : S → Program A → Type 0 where
  done : {s : S} {a : A} → Q s a → Leads env Q s (ret a)
  on :
      {s : S} {c : Call} {k : Reply c → Program A}
      → ((x : Reply c) (t : S) → env s c x t → Leads env Q t (k x))
      → Leads env Q s (call c k)

module _ {S : Type 0} {env : Environment S} {A B : Type 0} {Q : S → A → Type 0}
    {R : S → B → Type 0} where
  pub Leads-bind :
      {s : S} {p : Program A} {f : A → Program B}
      → Leads env Q s p
      → ((t : S) (a : A) → Q t a → Leads env R t (f a))
      → Leads env R s (p >>= f)
  Leads-bind (done q) later = later _ _ q
  Leads-bind (on rest) later = on (λ x t e. Leads-bind (rest x t e) later)

module _ {S : Type 0} {env : Environment S} {A : Type 0} {Q R : S → A → Type 0} where
  pub Leads-mono :
      {s : S} {p : Program A}
      → Leads env Q s p
      → ((t : S) (a : A) → Q t a → R t a)
      → Leads env R s p
  Leads-mono (done q) imp = done (imp _ _ q)
  Leads-mono (on rest) imp = on (λ x t e. Leads-mono (rest x t e) imp)

-- A program that only reads leaves the state as it is, and ends as it ends where its answers are assumed.
module _ {S : Type 0} (env : Environment S) (given : Assumption) (Quiet : Call → Type 0)
    {A : Type 0}
    (quiet : (s : S) (c : Call) (x : Reply c) (t : S)
      → Quiet c
      → env s c x t
      → (t ≡ s) × given c x) where
  pub Leads-quiet :
      {R : History → A → Type 0} {Q : A → Type 0} {h : History} {p : Program A} (s u : S)
      → u ≡ s
      → Holds (λ g c. Quiet c) R h p
      → Ends given Q p
      → Leads env (λ t a. (t ≡ s) × Q a) u p
  Leads-quiet s u unchanged (returns r) (ends q) = done (unchanged, q)
  Leads-quiet s u unchanged (calls silent rest) (after later) = on (λ x t e.
      let (same, good) = quiet u _ x t silent e in
      Leads-quiet s t (same ∙ unchanged) (rest x) (later x good))

-- An environment that allows less.
module _ {S : Type 0} {env narrow : Environment S}
    (allowed : (s : S) (c : Call) (x : Reply c) (t : S) → narrow s c x t → env s c x t) {A : Type 0}
    {Q : S → A → Type 0} where
  pub Leads-narrow : {s : S} {p : Program A} → Leads env Q s p → Leads narrow Q s p
  Leads-narrow (done q) = done q
  Leads-narrow (on rest) = on (λ x t e. Leads-narrow (rest x t (allowed _ _ _ _ e)))

-- A call that is answered in a known way and leaves the state as it is.
module _ {S : Type 0} {env : Environment S} {A : Type 0} {Q : S → A → Type 0} where
  pub on_quiet :
      {s : S} {c : Call} {k : Reply c → Program A} (G : Reply c → Type 0)
      → ((x : Reply c) (t : S) → env s c x t → (t ≡ s) × G x)
      → ((x : Reply c) → G x → Leads env Q s (k x))
      → Leads env Q s (call c k)
  on_quiet {s} {c} {k} G known go = on (λ x t e.
      let (same, good) = known x t e in subst (λ u. Leads env Q u (k x)) (sym same) (go x good))

  -- What goes on from a known state with a known value.
  pub from_known :
      {B : Type 0} (s t : S) (k : B → Program A) (a b : B)
      → (t ≡ s) × (a ≡ b)
      → Leads env Q s (k b)
      → Leads env Q t (k a)
  from_known s t k a b (same, e) go =
      subst (λ u. Leads env Q u (k a)) (sym same) (subst (λ y. Leads env Q s (k y)) (sym e) go)
