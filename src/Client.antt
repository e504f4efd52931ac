-- ===== src/Client.antt =====
-- internal/smolvm/client.go: NewClientWithAuth and the methods of Client. The socket or the host behind a
-- base URL, TLS and the time limit belong to the transport.
use Prim.Native.String
use smolvm_operator.Prelude.{
  ℕ, String, false, Option, none, some, List, [], ◌∷◌, ltb, ◌==◌, str_eq, concat, show_int32,
  if◌then◌else◌,
}
use smolvm_operator.Smolvm.{
  MachineInfo, Identity, Health, Capabilities, CreateMachineRequest, ResizeRequest, Error,
  api_error, message_error, Result, ok, err, error_text,
}
use smolvm_operator.Program
use smolvm_operator.Program.{Operation, OperationReply}
use smolvm_operator.Http.{
  Request, Response, Exchange, answer, send, ◌>>=◌, ExecResponse, Codec, Web,
}
use smolvm_operator.Http.Paths.{trim_space, trim_right_slash}

pub record Client : Type 0 where
  pub base_url : String
  pub token : String

unfoldable pub new_client_with_auth : (base_url socket_path token : String) → Client
new_client_with_auth base_url socket_path token =
    let url = if str_eq base_url "" then "http://127.0.0.1:8080" else base_url in
    record {
      base_url = trim_right_slash (if str_eq socket_path "" then url else "http://unix");
      token = token;
    }

unfoldable pub new_client : (base_url socket_path : String) → Client
unfolding new_client_with_auth
new_client base_url socket_path = new_client_with_auth base_url socket_path ""

-- The zero values that a method returns for an empty body.
abbrev pub zero_machine : MachineInfo
zero_machine = record {
  name = "";
  state = "";
  cpus = 0;
  memory_mib = 0;
  pid = none;
  ports = [];
  network = false;
  storage_gb = none;
  overlay_gb = none;
}

abbrev pub zero_health : Health
zero_health = record {
  ok = false;
  kvm_available = false;
  socket_ready = false;
  state_ready = false;
  message = "";
}

abbrev pub zero_identity : Identity
zero_identity = record { node_name = ""; node_uid = "" }

abbrev pub zero_capabilities : Capabilities
zero_capabilities = record {
  runtime_version = "";
  protocol_version = "";
  cpus = 0;
  memory_mib = 0;
  storage_gib = 0;
  kvm_available = false;
}

abbrev pub zero_exec : ExecResponse
zero_exec = record { exit_code = 0; stdout = ""; stderr = "" }

-- The answer to a request: the body, or an APIError for a status from 400 on.
unfoldable pub read_body : ℕ → Result String → Result String
read_body status (err e) = err e
read_body status (ok text) =
    if ltb status 400 then ok text else err (api_error status (trim_space text))

unfoldable pub received : Result Response → Result String
unfolding read_body
received (err e) = err e
received (ok response) = read_body response.status response.body

unfoldable pub decoded : {A : Type 0} → Codec A → A → Result String → Result A
decoded codec zero_value (err e) = err e
decoded codec zero_value (ok text) =
    if str_eq text "" then ok zero_value else elim (codec.unmarshal text) [
      | ok a ↦ ok a
      | err e ↦ err (message_error (concat ("decode smolvm response: " ∷ error_text e ∷ [])))
    ]

-- A method that takes nothing from the body returns the error only.
abbrev pub error_of : {A : Type 0} → Result A → Option Error
error_of (ok a) = none
error_of (err e) = some e

-- The end of EnsureMachineRunning.
unfoldable pub exit_error : Result ExecResponse → Option Error
unfolding show_int32
exit_error (err e) = some e
exit_error (ok result) =
    if result.exit_code == 0
    then none
    else some (
        message_error (
          concat (
            "ensure running command exited "
            ∷ show_int32 result.exit_code
            ∷ ": "
            ∷ result.stderr
            ∷ [])))

abbrev pub machines_path : String
machines_path = "/api/v1/machines/"

abbrev pub new_request : Client → (method path : String) → Option String → Request
new_request c method path body = record {
  method = method;
  base_url = c.base_url;
  path = path;
  content_type = elim body [ none ↦ "" | some text ↦ "application/json" ];
  authorization = if str_eq c.token "" then "" else String.◌++◌ "Bearer " c.token;
  body = elim body [ none ↦ "" | some text ↦ text ];
}

-- A POST to a machine's sub-resource.
abbrev pub action_path : (name action : String) → String
action_path name action = String.◌++◌ machines_path (String.◌++◌ name (String.◌++◌ "/" action))

module _ (web : Web) (c : Client) where
  unfoldable pub request : (method path : String) → Option String → Exchange (Result String)
  unfolding received
  request method path body = elim (web.url_error (String.◌++◌ c.base_url path)) [
    | some e ↦ answer (err e)
    | none ↦ send (new_request c method path body) (λ response. answer (received response))
  ]

  unfoldable pub health : Exchange (Result Health)
  unfolding request decoded
  health = request "GET" "/healthz" none >>= λ r. answer (decoded web.health zero_health r)

  unfoldable pub get_identity : Exchange (Result Identity)
  unfolding request decoded
  get_identity =
      request "GET" "/api/v1/identity" none >>= λ r. answer (decoded web.identity zero_identity r)

  unfoldable pub capabilities : Exchange (Result Capabilities)
  unfolding request decoded
  capabilities = request "GET" "/api/v1/capabilities" none >>= λ r.
      answer (decoded web.capabilities zero_capabilities r)

  unfoldable pub list_machines : Exchange (Result (List MachineInfo))
  unfolding request decoded
  list_machines = request "GET" "/api/v1/machines" none >>= λ r. answer (decoded web.machines [] r)

  unfoldable pub get_machine : String → Exchange (Result MachineInfo)
  unfolding request decoded
  get_machine name = request "GET" (String.◌++◌ machines_path name) none >>= λ r.
      answer (decoded web.machine zero_machine r)

  unfoldable pub create_machine : CreateMachineRequest → Exchange (Result MachineInfo)
  unfolding request decoded
  create_machine wanted =
      request "POST" "/api/v1/machines" (some (web.create_request.marshal wanted)) >>= λ r.
      answer (decoded web.machine zero_machine r)

  unfoldable pub start_machine : String → Exchange (Option Error)
  unfolding request
  start_machine name = request "POST" (action_path name "start") none >>= λ r. answer (error_of r)

  unfoldable pub ensure_machine_running : String → Exchange (Option Error)
  unfolding request decoded exit_error
  ensure_machine_running name =
      request "POST" (action_path name "exec") (some (web.exec_request.marshal ("true" ∷ [])))
      >>= λ r. answer (exit_error (decoded web.exec_response zero_exec r))

  unfoldable pub stop_machine : String → Exchange (Option Error)
  unfolding request
  stop_machine name = request "POST" (action_path name "stop") none >>= λ r. answer (error_of r)

  unfoldable pub delete_machine : String → Exchange (Option Error)
  unfolding request
  delete_machine name =
      request "DELETE" (String.◌++◌ machines_path name) none >>= λ r. answer (error_of r)

  unfoldable pub resize_machine : String → ResizeRequest → Exchange (Option Error)
  unfolding request
  resize_machine name wanted =
      request "POST" (action_path name "resize") (some (web.resize_request.marshal wanted)) >>= λ r.
      answer (error_of r)

  -- The client as the controller's SmolVMRuntime.
  unfoldable pub operate : (op : Operation) → Exchange (OperationReply op)
  operate Program.health = health
  operate Program.identity = get_identity
  operate Program.capabilities = capabilities
  operate (Program.get_machine name) = get_machine name
  operate (Program.create_machine wanted) = create_machine wanted
  operate (Program.ensure_machine_running name) = ensure_machine_running name
  operate (Program.stop_machine name) = stop_machine name
  operate (Program.delete_machine name) = delete_machine name
  operate (Program.resize_machine name wanted) = resize_machine name wanted
