-- ===== src/Agent/Relay.antt =====
-- The runtime API end to end: a client of internal/smolvm/client.go whose requests the handlers of
-- cmd/runtime-agent/main.go answer.
pub mod Replies
pub mod Routes
pub mod About
mod Tests
use Prim.Native.String
use smolvm_operator.Prelude.{
  String, Bool-cases, ◌≡◌, ◌∙◌, ap, inl, inr, refl, false, not, Option, none, some, [], ◌∷◌, str_eq,
  if◌then◌else◌,
}
use smolvm_operator.Smolvm.{
  CreateMachineRequest, ResizeRequest, Health, Error, api_error, Result, ok, err,
}
use smolvm_operator.Program
use smolvm_operator.Program.{Operation, OperationReply}
use smolvm_operator.Http.{Exchange, answer, ◌>>=◌, through, FaithfulJson, Web}
use smolvm_operator.Http.Paths.{trim_space, has_slash}
use smolvm_operator.Client
use smolvm_operator.Client.{
  Client, zero_machine, zero_health, zero_exec, decoded, error_of, exit_error, read_body,
  new_request, operate,
}
use smolvm_operator.Agent.{
  Agent, Host, health_of, capability_report, http_error, machine, machines, machine_itself,
  machine_action, write_result, write_done, encoded, with_auth, serve, healthz,
}
use Replies.{
  relayed_result, relayed_done, read_json, read_result, read_done, read_exec, relay_lem,
  request-sent,
}
use Routes.{
  authorization, Admitted, Stranger, with_auth-Admitted, with_auth-Stranger, serve-machine,
  serve-machines, machine-itself, machine-action,
}

-- A name that is one segment of a path.
abbrev pub IsSegment : String → Type 0
IsSegment name = (str_eq name "" ≡ false) × (has_slash name ≡ false)

-- The operations on machines, with names that are segments.
abbrev pub OnMachine : Operation → Type 0
OnMachine Program.health = ⊥
OnMachine Program.identity = ⊥
OnMachine Program.capabilities = ⊥
OnMachine (Program.create_machine wanted) = Unit
OnMachine (Program.get_machine name) = IsSegment name
OnMachine (Program.ensure_machine_running name) = IsSegment name
OnMachine (Program.stop_machine name) = IsSegment name
OnMachine (Program.delete_machine name) = IsSegment name
OnMachine (Program.resize_machine name wanted) = IsSegment name

abbrev pub relayed : Web → (op : Operation) → OperationReply op → OperationReply op
relayed web Program.health r = relayed_result web r
relayed web Program.identity r = relayed_result web r
relayed web Program.capabilities r = relayed_result web r
relayed web (Program.create_machine wanted) r = relayed_result web r
relayed web (Program.get_machine name) r = relayed_result web r
relayed web (Program.ensure_machine_running name) r = relayed_done web r
relayed web (Program.stop_machine name) r = relayed_done web r
relayed web (Program.delete_machine name) r = relayed_done web r
relayed web (Program.resize_machine name wanted) r = relayed_done web r

module _ (web : Web) (a : Agent) (host : Host) (remote : Client) (admitted : Admitted a remote)
    (faithful : FaithfulJson web)
    (url : (path : String) → web.url_error (String.◌++◌ remote.base_url path) ≡ none) where
  served_create :
      (wanted : CreateMachineRequest)
      → serve web a host
          (new_request remote "POST" "/api/v1/machines" (some (web.create_request.marshal wanted)))
        ≡ (Client.create_machine web a.smolvm wanted >>= λ r.
            answer (write_result web (encoded web web.machine.marshal r)))
  unfolding machines
  served_create wanted =
      serve-machines web a host _ refl
      ∙ with_auth-Admitted web a remote _ _ admitted refl
      ∙ rw (faithful.create_request.decode-marshal wanted) refl

  served_itself :
      (method name : String)
      → IsSegment name
      → let q = new_request remote method (String.◌++◌ Client.machines_path name) none in
        serve web a host q ≡ machine_itself web a name q
  served_itself method name (full, clean) =
      serve-machine web a host _ name refl
      ∙ with_auth-Admitted web a remote _ _ admitted refl
      ∙ machine-itself web a _ name refl clean full

  served_action :
      (name action : String) (body : Option String)
      → IsSegment name
      → has_slash action ≡ false
      → let q = new_request remote "POST" (Client.action_path name action) body in
        serve web a host q ≡ machine_action web a name action q
  served_action name action body (full, clean) single =
      serve-machine web a host _ (String.◌++◌ name (String.◌++◌ "/" action)) refl
      ∙ with_auth-Admitted web a remote _ _ admitted refl
      ∙ machine-action web a _ name action refl clean full single

  served_resize :
      (name : String) (wanted : ResizeRequest)
      → IsSegment name
      → serve web a host (
          new_request remote "POST"
            (Client.action_path name "resize")
            (some (web.resize_request.marshal wanted)))
        ≡ (Client.resize_machine web a.smolvm name wanted >>= λ r. answer (write_done web r))
  unfolding machine_action has_slash
  served_resize name wanted named =
      served_action name "resize" (some (web.resize_request.marshal wanted)) named refl
      ∙ rw (faithful.resize_request.decode-marshal wanted) refl

  -- An operation on a machine that the controller's client makes through the agent is the same operation
  -- of the agent's client on the node's runtime, and the caller gets its result; of an error it gets
  -- whether something is missing (404) or not (500) and the text. This holds if the machine's name is
  -- one segment of a path, the agent accepts the client's token, JSON reads back, and the URLs are
  -- accepted.
  pub operate-relay :
      (op : Operation)
      → OnMachine op
      → through (serve web a host) (operate web remote op)
        ≡ (operate web a.smolvm op >>= λ r. answer (relayed web op r))
  unfolding operate Client.get_machine Client.create_machine Client.ensure_machine_running
      Client.stop_machine Client.delete_machine Client.resize_machine machine_itself machine_action
      has_slash
  operate-relay Program.health none_of = absurd none_of
  operate-relay Program.identity none_of = absurd none_of
  operate-relay Program.capabilities none_of = absurd none_of
  operate-relay (Program.create_machine wanted) _ =
      relay_lem web remote (serve web a host) "POST" "/api/v1/machines"
        (some (web.create_request.marshal wanted)) (decoded web.machine zero_machine)
        (Client.create_machine web a.smolvm wanted) _ _ (url _) (served_create wanted)
        (read_result web zero_machine faithful.machine)
  operate-relay (Program.get_machine name) named =
      relay_lem web remote (serve web a host) "GET" _ none (decoded web.machine zero_machine)
        (Client.get_machine web a.smolvm name) _ _ (url _) (served_itself "GET" name named)
        (read_result web zero_machine faithful.machine)
  operate-relay (Program.ensure_machine_running name) named =
      let body = some (web.exec_request.marshal ("true" ∷ [])) in
      relay_lem web remote (serve web a host) "POST" _ body
        (λ r. exit_error (decoded web.exec_response zero_exec r))
        (Client.ensure_machine_running web a.smolvm name) _ _ (url _)
        (served_action name "exec" body named refl) (read_exec web)
  operate-relay (Program.stop_machine name) named =
      relay_lem web remote (serve web a host) "POST" _ none error_of
        (Client.stop_machine web a.smolvm name) _ _ (url _)
        (served_action name "stop" none named refl) (read_done web)
  operate-relay (Program.delete_machine name) named =
      relay_lem web remote (serve web a host) "DELETE" _ none error_of
        (Client.delete_machine web a.smolvm name) _ _ (url _) (served_itself "DELETE" name named)
        (read_done web)
  operate-relay (Program.resize_machine name wanted) named =
      relay_lem web remote (serve web a host) "POST" _ (some (web.resize_request.marshal wanted))
        error_of (Client.resize_machine web a.smolvm name wanted) _ _ (url _)
        (served_resize name wanted named) (read_done web)
