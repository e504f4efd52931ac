-- ===== src/Agent/Supervise.antt =====
-- supervise of cmd/runtime-agent/main.go, and strings.Fields.
mod Tests
use Prim.Native.Char.{Char}
use Prim.Native.String
use smolvm_operator.Prelude.{
  ℕ, zero, suc, String, Bool, Bool-cases, inl, inr, true, false, ◌≡◌, ◌≢◌, ◌↔◌, refl, ap, List, [],
  ◌∷◌, arith, str_eq, eq_iff, if◌then◌else◌,
}
use smolvm_operator.Http.Paths.{is_space, trim_start, trim_end, trim_space}

abbrev close_word : String × List String → List String
close_word (word, words) = if str_eq word "" then words else word ∷ words

-- The word that a text begins with, which may be empty, and the words after it.
first_word : (Char → Bool) → String → String × List String
first_word cut String.[] = ("", [])
first_word cut (String.◌∷◌ c s) =
    let rest = first_word cut s in
    if cut c then ("", close_word rest) else (String.◌∷◌ c rest.0, rest.1)

unfoldable pub fields : String → List String
unfolding first_word is_space
fields s = close_word (first_word is_space s)

-- exec.CommandContext: the program and its arguments.
pub record Command : Type 0 where
  pub program : String
  pub arguments : List String

-- The loop; for each round, whether ctx.Err() is not nil before it, and whether the context is done
-- before two seconds have passed after it.
unfoldable pub run_rounds : Command → List (Bool × Bool) → List Command
run_rounds command [] = []
run_rounds command ((cancelled, done) ∷ more) =
    let rest = run_rounds command more in
    if cancelled then [] else command ∷ (if done then [] else rest)

-- The commands that are run, each after the one before has ended.
unfoldable pub supervise : String → List (Bool × Bool) → List Command
unfolding fields run_rounds
supervise command rounds = elim (fields command) [
  | [] ↦ []
  | program ∷ arguments ↦ run_rounds (record { program = program; arguments = arguments }) rounds
]

abbrev AllSpace : String → Type 0
AllSpace String.[] = Unit
AllSpace (String.◌∷◌ c s) = (is_space c ≡ true) × AllSpace s

close_word-empty : (w : String × List String) → (close_word w ≡ []) ↔ ((w.0 ≡ "") × (w.1 ≡ []))
close_word-empty (word, words) = ground (arith, eq_iff word "")

cons-ne-nil : (c : Char) (s : String) → String.◌∷◌ c s ≢ ""
cons-ne-nil c s e = let same : true ≡ false = ap is_full e in ground (arith, same)
  where
    is_full : String → Bool
    is_full String.[] = false
    is_full (String.◌∷◌ d t) = true

fields-AllSpace : (s : String) → (close_word (first_word is_space s) ≡ []) ↔ AllSpace s
unfolding first_word
fields-AllSpace String.[] = ground arith
fields-AllSpace (String.◌∷◌ c s) = elim (Bool-cases (is_space c)) [
  | inl space ↦ rw (first_word, space) (ground (arith, space, fields-AllSpace s))
  | inr other ↦
      rw (first_word, other)
        (ground (
          arith,
          other,
          close_word-empty (String.◌∷◌ c (first_word is_space s).0, (first_word is_space s).1),
          cons-ne-nil c (first_word is_space s).0,
        ))
]

trim_start-AllSpace : (s : String) → AllSpace (trim_start is_space s) ↔ AllSpace s
unfolding trim_start
trim_start-AllSpace String.[] = ground arith
trim_start-AllSpace (String.◌∷◌ c s) = elim (Bool-cases (is_space c)) [
  | inl space ↦ rw (trim_start, space) (ground (arith, space, trim_start-AllSpace s))
  | inr other ↦ rw (trim_start, other) (ground arith)
]

trim_end-AllSpace : (s : String) → (trim_end is_space s ≡ "") ↔ AllSpace s
unfolding trim_end
trim_end-AllSpace String.[] = ground arith
trim_end-AllSpace (String.◌∷◌ c s) = ground (
  arith,
  trim_end-AllSpace s,
  eq_iff (trim_end is_space s) "",
  cons-ne-nil c (trim_end is_space s),
)

-- A text is only white space exactly if it has no words.
pub trim_space-fields : (s : String) → (trim_space s ≡ "") ↔ (fields s ≡ [])
unfolding trim_space fields
trim_space-fields s =
    ground
      (arith, trim_end-AllSpace (trim_start is_space s), trim_start-AllSpace s, fields-AllSpace s)

-- A number of runs, and of rounds in which the context goes on.
abbrev pub runs_of : ℕ → Command → List Command
runs_of zero command = []
runs_of (suc n) command = command ∷ runs_of n command

abbrev pub going_on : ℕ → List (Bool × Bool) → List (Bool × Bool)
going_on zero last = last
going_on (suc n) last = (false, false) ∷ going_on n last

module _ (command : Command) where
  run_rounds-going_on : (n : ℕ) → run_rounds command (going_on n []) ≡ runs_of n command
  unfolding run_rounds
  run_rounds-going_on zero = refl
  run_rounds-going_on (suc n) = ap (λ rest. command ∷ rest) (run_rounds-going_on n)

  run_rounds-cancelled :
      (n : ℕ) (done : Bool) (more : List (Bool × Bool))
      → run_rounds command (going_on n ((true, done) ∷ more)) ≡ runs_of n command
  unfolding run_rounds
  run_rounds-cancelled zero done more = refl
  run_rounds-cancelled (suc n) done more =
      ap (λ rest. command ∷ rest) (run_rounds-cancelled n done more)

  run_rounds-done :
      (n : ℕ) (more : List (Bool × Bool))
      → run_rounds command (going_on n ((false, true) ∷ more)) ≡ runs_of (suc n) command
  unfolding run_rounds
  run_rounds-done zero more = refl
  run_rounds-done (suc n) more = ap (λ rest. command ∷ rest) (run_rounds-done n more)

-- This command and no other is run: once in each round while the context goes on, and not again when the
-- context is done, which is seen before a run or while waiting after it.
abbrev pub RunsOnly : String → Command → Type 0
RunsOnly line command =
    (n : ℕ)
    → (supervise line (going_on n []) ≡ runs_of n command)
      × ((done : Bool) (more : List (Bool × Bool))
          → supervise line (going_on n ((true, done) ∷ more)) ≡ runs_of n command)
      × ((more : List (Bool × Bool))
          → supervise line (going_on n ((false, true) ∷ more)) ≡ runs_of (suc n) command)

RunsOnly-fields :
    (line : String) (words : List String)
    → fields line ≡ words
    → words ≢ []
    → (program : String) × (arguments : List String) × (fields line ≡ program ∷ arguments)
      × RunsOnly line (record { program = program; arguments = arguments })
unfolding supervise
RunsOnly-fields line [] e full = absurd (full refl)
RunsOnly-fields line (program ∷ arguments) e full =
    let command : Command = record { program = program; arguments = arguments } in
    (
      program,
      arguments,
      e,
      λ n. (
        rw (supervise, e) (run_rounds-going_on command n),
        (λ done more. rw (supervise, e) (run_rounds-cancelled command n done more)),
        (λ more. rw (supervise, e) (run_rounds-done command n more)),
      ),
    )

-- A command line that main supervises, one that is not only white space, has a first word: supervise runs
-- that program with the words after it as its arguments, and nothing else, once in each round while the
-- context goes on; when the context is done before a run, that run is not made, and when it is done
-- while waiting after a run, there is no other.
pub supervise-RunsOnly :
    (line : String)
    → trim_space line ≢ ""
    → (program : String) × (arguments : List String) × (fields line ≡ program ∷ arguments)
      × RunsOnly line (record { program = program; arguments = arguments })
supervise-RunsOnly line full =
    RunsOnly-fields line (fields line) refl (λ e. full ((trim_space-fields line).1 e))
