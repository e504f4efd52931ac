-- ===== src/Agent.antt =====
-- cmd/runtime-agent/main.go: the agent, what it observes, and its HTTP handlers. A path that is not clean
-- is redirected by ServeMux before it reaches a handler; that redirect is not modelled.
pub mod Cleanup
pub mod Relay
pub mod Report
pub mod Certificate
pub mod Startup
pub mod Supervise
use Prim.Native.String
use smolvm_operator.Prelude.{
  ℕ, String, Bool, true, not, ◌&&◌, ◌||◌, Option, none, some, List, [], ◌∷◌, ◌++◌, ◌*◌, ◌/◌, ◌%◌,
  ◌^◌, ◌-◌, ltb, Int32, Int64, str_eq, join, concat, if◌then◌else◌,
}
use smolvm_operator.Api.{KubernetesNode}
use smolvm_operator.Smolvm.{
  Identity, Health, Capabilities, Error, error_text, is_not_found, Result, ok, err,
}
use smolvm_operator.Http.{Request, Response, Exchange, answer, ◌>>=◌, Web}
use smolvm_operator.Http.Paths.{has_prefix, trim_prefix, split_slash}
use smolvm_operator.Client
use smolvm_operator.Client.{Client}

pub record Agent : Type 0 where
  pub smolvm : Client
  pub node_name : String
  pub node_uid : String
  pub pod_name : String
  pub pod_namespace : String
  pub pod_ip : String
  pub version : String
  pub token : String
  pub listen_port : Int32

-- What the agent observes: its files, its disk (Bavail and Bsize of Statfs), and what client.Get answers
-- for its Kubernetes node where capabilityReport asks.
pub record Host : Type 0 where
  pub socket_ready : Bool
  pub state_ready : Bool
  pub kvm_available : Bool
  pub statfs : Result (ℕ × ℕ)
  pub node : Result KubernetesNode

abbrev missing_parts : Host → List String
missing_parts host =
    (if not host.socket_ready then "smolvm socket unavailable" ∷ [] else [])
    ++ (if not host.state_ready then "state directory unavailable" ∷ [] else [])
    ++ (if not host.kvm_available then "KVM unavailable" ∷ [] else [])

unfoldable pub health_of : Host → Health
health_of host =
    let healthy = host.socket_ready && host.state_ready && host.kvm_available in
    record {
      ok = healthy;
      kvm_available = host.kvm_available;
      socket_ready = host.socket_ready;
      state_ready = host.state_ready;
      message = if healthy then "runtime healthy" else join "; " (missing_parts host);
    }

-- Go's division of an int64 by a positive number, which rounds towards zero.
unfoldable pub quotient : Int64 → ℕ → Int64
quotient a k = if ltb a (2 ^ 63) then a / k else (2 ^ 64 - (2 ^ 64 - a) / k) % 2 ^ 64

unfoldable pub storage_gib : Result (ℕ × ℕ) → Int64
storage_gib (err e) = 0
storage_gib (ok (available, size)) = available * size % 2 ^ 64 / 1024 / 1024 / 1024

unfoldable pub capability_report : Agent → Host → Capabilities
unfolding quotient storage_gib
capability_report a host = record {
  runtime_version = a.version;
  protocol_version = "v1alpha1";
  cpus = elim host.node [ err e ↦ 0 | ok node ↦ node.allocatable_cpus % 2 ^ 32 ];
  memory_mib = elim host.node [
    | err e ↦ 0
    | ok node ↦ quotient (quotient node.allocatable_memory 1024) 1024
  ];
  storage_gib = storage_gib host.statfs;
  kvm_available = host.kvm_available;
}

-- http.Error, which ends the text with a line break.
abbrev pub http_error : String → ℕ → Response
http_error text status = record { status = status; body = ok (String.◌++◌ text "\n") }

abbrev pub not_found : Response
not_found = http_error "404 page not found" 404

abbrev pub not_allowed : Response
not_allowed = http_error "method not allowed" 405

-- writeJSON; Encode ends its text with a line break.
abbrev pub write_json : ℕ → String → Response
write_json status text = record { status = status; body = ok (String.◌++◌ text "\n") }

module _ (web : Web) where
  unfoldable pub error_response : Error → Response
  error_response e =
      http_error (error_text e) (if is_not_found e || web.kube_not_found e then 404 else 500)

  -- writeResult, with the value as JSON, and without a value.
  unfoldable pub write_result : Result String → Response
  unfolding error_response
  write_result (err e) = error_response e
  write_result (ok text) = write_json 200 text

  unfoldable pub write_done : Option Error → Response
  unfolding error_response
  write_done (some e) = error_response e
  write_done none = record { status = 204; body = ok "" }

  abbrev pub encoded : {A : Type 0} → (A → String) → Result A → Result String
  encoded marshal (err e) = err e
  encoded marshal (ok a) = ok (marshal a)

module _ (web : Web) (a : Agent) where
  unfoldable pub with_auth : (Request → Exchange Response) → Request → Exchange Response
  with_auth next q =
      if not (str_eq a.token "") && not (str_eq q.authorization (String.◌++◌ "Bearer " a.token))
      then answer (http_error "unauthorized" 401)
      else next q

  unfoldable pub healthz : Host → Request → Exchange Response
  healthz host q =
      let health = health_of host in
      answer (write_json (if not health.ok then 503 else 200) (web.health.marshal health))

  unfoldable pub identity : Request → Exchange Response
  identity q = answer (
      write_json 200
        (web.identity.marshal (record { node_name = a.node_name; node_uid = a.node_uid })))

  unfoldable pub capabilities : Host → Request → Exchange Response
  capabilities host q =
      answer (write_json 200 (web.capabilities.marshal (capability_report a host)))

  unfoldable pub machines : Request → Exchange Response
  unfolding write_result
  machines q =
      if str_eq q.method "GET"
      then Client.list_machines web a.smolvm
        >>= (λ r. answer (write_result web (encoded web web.machines.marshal r)))
      else if not (str_eq q.method "POST")
      then answer not_allowed
      else elim (web.create_request.decode q.body) [
        | err e ↦ answer (http_error (error_text e) 400)
        | ok wanted ↦
            Client.create_machine web a.smolvm wanted
            >>= (λ r. answer (write_result web (encoded web web.machine.marshal r)))
      ]

  -- The path has the name only.
  unfoldable pub machine_itself : String → Request → Exchange Response
  unfolding write_result write_done
  machine_itself name q =
      if str_eq q.method "GET"
      then Client.get_machine web a.smolvm name
        >>= (λ r. answer (write_result web (encoded web web.machine.marshal r)))
      else if str_eq q.method "DELETE"
      then Client.delete_machine web a.smolvm name >>= (λ r. answer (write_done web r))
      else answer not_allowed

  unfoldable pub machine_action : (name action : String) → Request → Exchange Response
  unfolding write_done
  machine_action name action q =
      if not (str_eq q.method "POST")
      then answer not_allowed
      else if str_eq action "exec" || str_eq action "start"
      then Client.ensure_machine_running web a.smolvm name >>= (λ r. answer (write_done web r))
      else if str_eq action "stop"
      then Client.stop_machine web a.smolvm name >>= (λ r. answer (write_done web r))
      else if str_eq action "resize"
      then elim (web.resize_request.decode q.body) [
        | err e ↦ answer (http_error (error_text e) 400)
        | ok wanted ↦
            Client.resize_machine web a.smolvm name wanted >>= (λ r. answer (write_done web r))
      ]
      else answer not_found

  unfoldable pub machine_at : List String → Request → Exchange Response
  unfolding machine_itself machine_action
  machine_at [] q = answer not_found
  machine_at (name ∷ []) q = if str_eq name "" then answer not_found else machine_itself name q
  machine_at (name ∷ action ∷ rest) q =
      if str_eq name "" then answer not_found else machine_action name action q

  unfoldable pub machine : Request → Exchange Response
  unfolding machine_at split_slash trim_prefix
  machine q = machine_at (split_slash (trim_prefix q.path Client.machines_path)) q

  -- The routes of main.
  unfoldable pub serve : Host → Request → Exchange Response
  unfolding with_auth healthz identity capabilities machines machine has_prefix
  serve host q =
      if str_eq q.path "/healthz"
      then healthz host q
      else if str_eq q.path "/api/v1/identity"
      then with_auth identity q
      else if str_eq q.path "/api/v1/capabilities"
      then with_auth (capabilities host) q
      else if str_eq q.path "/api/v1/machines"
      then with_auth machines q
      else if has_prefix q.path Client.machines_path
      then with_auth machine q
      else answer not_found
