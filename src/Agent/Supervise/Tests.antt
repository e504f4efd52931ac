-- ===== src/Agent/Supervise/Tests.antt =====
-- A concrete command line.
use smolvm_operator.Prelude.{String, true, false, ◌≡◌, refl, List, [], ◌∷◌, ne_of_test}
use smolvm_operator.Http.Paths.{trim_space}
use smolvm_operator.Agent.Supervise.{fields, Command, supervise, RunsOnly, supervise-RunsOnly}

abbrev line : String
line = " smolvm serve  start"

fields_run : fields line ≡ "smolvm" ∷ "serve" ∷ "start" ∷ []
unfolding fields
fields_run = refl

-- The context ends after the second round.
abbrev serve : Command
serve = record { program = "smolvm"; arguments = "serve" ∷ "start" ∷ [] }

supervise_run :
    supervise line ((false, false) ∷ (false, true) ∷ (false, false) ∷ []) ≡ serve ∷ serve ∷ []
unfolding supervise
supervise_run = refl

supervise-RunsOnly_example :
    (program : String) × (arguments : List String) × (fields line ≡ program ∷ arguments)
    × RunsOnly line (record { program = program; arguments = arguments })
unfolding trim_space
supervise-RunsOnly_example = supervise-RunsOnly line (ne_of_test (trim_space line) "" refl)
