-- ===== src/Manager.antt =====
-- cmd/main.go: the manager's options and what main does, as the list of its effects; and SetupWithManager of
-- internal/controller/smolvm_controller.go.
pub mod Laws
mod Tests
use smolvm_operator.Prelude.{
  String, Bool, true, false, Option, none, some, List, [], ◌∷◌, ◌≡◌, not, if◌then◌else◌,
}
use smolvm_operator.Smolvm.{Error}
use smolvm_operator.Client.{Client, new_client}
use smolvm_operator.Deps.{Deps}
use smolvm_operator.Program.{Key, Program, ret}
use smolvm_operator.Controller.Reconciler.{Reconciler}
use smolvm_operator.Controller.Watch.{requests_for_node_change}

-- The field of a tls.Config that main changes.
pub record TlsConfig : Type 0 where
  pub next_protos : List String

pub record Flags : Type 0 where
  pub metrics_address : String
  pub probe_address : String
  pub enable_leader_election : Bool
  pub secure_metrics : Bool
  pub enable_http2 : Bool

abbrev pub default_flags : Flags
default_flags = record {
  metrics_address = ":8080";
  probe_address = ":8081";
  enable_leader_election = false;
  secure_metrics = false;
  enable_http2 = false;
}

unfoldable pub disable_http2 : TlsConfig → TlsConfig
disable_http2 c = record c { next_protos = "http/1.1" ∷ [] }

abbrev tls_opts : Flags → List (TlsConfig → TlsConfig)
tls_opts flags = if not flags.enable_http2 then disable_http2 ∷ [] else []

pub record ManagerOptions : Type 0 where
  pub metrics_address : String
  pub metrics_secure : Bool
  pub metrics_tls_opts : List (TlsConfig → TlsConfig)
  pub webhook_tls_opts : List (TlsConfig → TlsConfig)
  pub probe_address : String
  pub leader_election : Bool
  pub leader_election_id : String

unfoldable pub manager_options : Flags → ManagerOptions
unfolding disable_http2
manager_options flags = record {
  metrics_address = flags.metrics_address;
  metrics_secure = flags.secure_metrics;
  metrics_tls_opts = tls_opts flags;
  webhook_tls_opts = tls_opts flags;
  probe_address = flags.probe_address;
  leader_election = flags.enable_leader_election;
  leader_election_id = "29b477d6.smolvm.dev";
}

-- The reconciler that main makes, with the libraries and os.Getenv.
unfoldable pub new_reconciler : Deps → (String → String) → Reconciler
new_reconciler d env = record {
  deps = d;
  has_factory = false;
  has_recorder = false;
  runtime_token = env "SMOLVM_RUNTIME_TOKEN";
  insecure_skip_verify = env "SMOLVM_RUNTIME_INSECURE_SKIP_VERIFY";
}

-- SetupWithManager gives a reconciler without a recorder the manager's.
unfoldable pub setup_with_manager : Reconciler → Reconciler
setup_with_manager r = record r { has_recorder = true }

-- What the controller watches, and the keys that a change requests.
pub data Change : Type 0 where
  vm_changed : Key → Change
  kubernetes_node_changed smolvm_node_changed : String → Change

unfoldable pub requests_for : Change → Program (List Key)
unfolding requests_for_node_change
requests_for (vm_changed key) = ret (key ∷ [])
requests_for (kubernetes_node_changed name) = requests_for_node_change name
requests_for (smolvm_node_changed name) = requests_for_node_change name

-- runtimeClient where RuntimeFactory is nil.
unfoldable pub runtime_client : (String → String) → Client
runtime_client env = new_client (env "SMOLVM_API_URL") (env "SMOLVM_API_SOCKET")

-- The errors of NewManager, SetupWithManager, AddHealthzCheck, AddReadyzCheck and Start.
pub record Answers : Type 0 where
  pub new_manager : Option Error
  pub setup : Option Error
  pub healthz : Option Error
  pub readyz : Option Error
  pub start : Option Error

pub data Effect : Type 0 where
  new_manager : ManagerOptions → Effect
  setup : Reconciler → Effect
  add_healthz_check add_readyz_check start exit : Effect

-- An error ends the program with the code 1.
abbrev or_exit : Option Error → List Effect → List Effect
or_exit none next = next
or_exit (some e) next = exit ∷ []

unfoldable pub main : Deps → (String → String) → Flags → Answers → List Effect
unfolding manager_options new_reconciler
main d env flags w =
    new_manager (manager_options flags)
    ∷ or_exit w.new_manager (
        setup (new_reconciler d env)
        ∷ or_exit w.setup (
            add_healthz_check
            ∷ or_exit w.healthz (add_readyz_check ∷ or_exit w.readyz (start ∷ or_exit w.start []))))
