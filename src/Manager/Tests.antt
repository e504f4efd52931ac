-- ===== src/Manager/Tests.antt =====
-- The manager with its default flags.
use smolvm_operator.Prelude.{String, ◌≡◌, refl, none, some, [], ◌∷◌}
use smolvm_operator.Smolvm.{message_error}
use smolvm_operator.Program.Rules.{Holds}
use smolvm_operator.Controller.Reconcile.{reconcile}
use smolvm_operator.Controller.Permitted.Writes.{AnyOutcome}
use smolvm_operator.Manager.{
  default_flags, manager_options, new_reconciler, setup_with_manager, Answers, new_manager, setup,
  add_healthz_check, exit, main,
}
use smolvm_operator.Manager.Laws.{ChangesReach, reconcile-ChangesReach}
use smolvm_operator.Samples.Libraries.{libraries}

abbrev no_environ : String → String
no_environ key = ""

-- The health check cannot be added.
abbrev failing : Answers
failing = record {
  new_manager = none;
  setup = none;
  healthz = some (message_error "add check");
  readyz = none;
  start = none;
}

main_run :
    main libraries no_environ default_flags failing
    ≡ new_manager (manager_options default_flags)
      ∷ setup (new_reconciler libraries no_environ)
      ∷ add_healthz_check
      ∷ exit
      ∷ []
unfolding main
main_run = refl

reconcile-ChangesReach_example : Holds (ChangesReach libraries no_environ) AnyOutcome [] (
    reconcile
      (setup_with_manager (new_reconciler libraries no_environ))
      (record { name = "a"; namespace = "b" }))
reconcile-ChangesReach_example =
    reconcile-ChangesReach libraries no_environ (record { name = "a"; namespace = "b" })
