-- ===== src/Agent/Relay/About.antt =====
-- What a client learns of an agent, and what an agent tells a client whose token it does not know.
use Prim.Native.String
use smolvm_operator.Prelude.{String, ◌≡◌, ◌∙◌, ap, refl, Option, none, some, [], ◌∷◌, if◌then◌else◌}
use smolvm_operator.Smolvm.{Error, api_error, ok, err}
use smolvm_operator.Program
use smolvm_operator.Program.{Operation, OperationReply}
use smolvm_operator.Http.{Request, Response, Exchange, answer, through, FaithfulJson, Web}
use smolvm_operator.Http.Paths.{trim_space}
use smolvm_operator.Client
use smolvm_operator.Client.{
  Client, zero_machine, zero_health, zero_identity, zero_capabilities, zero_exec, decoded, error_of,
  exit_error, new_request, operate,
}
use smolvm_operator.Agent
use smolvm_operator.Agent.{Agent, Host, health_of, capability_report, http_error, with_auth, serve}
use smolvm_operator.Agent.Relay.Replies.{read_json, read_health, request-sent, refuse_lem}
use smolvm_operator.Agent.Relay.Routes.{
  authorization, Admitted, Stranger, with_auth-Admitted, with_auth-Stranger, serve-machine,
}

module _ (web : Web) (a : Agent) (host : Host) (remote : Client) (faithful : FaithfulJson web)
    (url : (path : String) → web.url_error (String.◌++◌ remote.base_url path) ≡ none) where
  -- A client that asks an agent for its health gets the report of a healthy node as it is, and from an
  -- unhealthy node an APIError with the status 503: it never gets a report that is not OK. Its JSON
  -- must read back, and its URLs be accepted.
  pub health-relay :
      through (serve web a host) (Client.health web remote)
      ≡ answer (
          if (health_of host).ok
          then ok (health_of host)
          else err
              (api_error 503 (trim_space (String.◌++◌ (web.health.marshal (health_of host)) "\n"))))
  unfolding Client.health serve Agent.healthz
  health-relay =
      rw (request-sent web remote "GET" "/healthz" none (url "/healthz"))
        (ap answer (read_health zero_health faithful.health (health_of host).ok (health_of host)))

  -- A client whose token the agent accepts learns the agent's identity and its capabilities as they are,
  -- if the JSON reads back and the URLs are accepted.
  pub about-relay :
      Admitted a remote
      → (through (serve web a host) (Client.get_identity web remote)
          ≡ answer (ok (record { node_name = a.node_name; node_uid = a.node_uid })))
        × (through (serve web a host) (Client.capabilities web remote)
            ≡ answer (ok (capability_report a host)))
  unfolding Client.get_identity Client.capabilities serve Agent.identity Agent.capabilities
  about-relay admitted = (
    rw
        (
          request-sent web remote "GET" "/api/v1/identity" none (url "/api/v1/identity"),
          with_auth-Admitted web a remote (Agent.identity web a)
              (new_request remote "GET" "/api/v1/identity" none) admitted refl,
        )
        (ap answer (read_json zero_identity faithful.identity _)),
    rw
        (
          request-sent web remote "GET" "/api/v1/capabilities" none (url "/api/v1/capabilities"),
          with_auth-Admitted web a remote (Agent.capabilities web a host)
              (new_request remote "GET" "/api/v1/capabilities" none) admitted refl,
        )
        (ap answer (read_json zero_capabilities faithful.capabilities _)),
  )

-- Every operation but the health check.
abbrev pub IsGuarded : Operation → Type 0
IsGuarded Program.health = ⊥
IsGuarded _ = Unit

abbrev unauthorized : Error
unauthorized = api_error 401 "unauthorized"

abbrev pub refused : (op : Operation) → OperationReply op
refused Program.health = err unauthorized
refused Program.identity = err unauthorized
refused Program.capabilities = err unauthorized
refused (Program.create_machine wanted) = err unauthorized
refused (Program.get_machine name) = err unauthorized
refused (Program.ensure_machine_running name) = some unauthorized
refused (Program.stop_machine name) = some unauthorized
refused (Program.delete_machine name) = some unauthorized
refused (Program.resize_machine name wanted) = some unauthorized

module _ (web : Web) (a : Agent) (host : Host) (remote : Client) (stranger : Stranger a remote)
    (url : (path : String) → web.url_error (String.◌++◌ remote.base_url path) ≡ none) where
  refused_machine :
      (method rest : String) (body : Option String)
      → serve web a host (new_request remote method (String.◌++◌ Client.machines_path rest) body)
        ≡ answer (http_error "unauthorized" 401)
  refused_machine method rest body =
      serve-machine web a host _ rest refl ∙ with_auth-Stranger web a remote _ _ stranger refl

  refused_fixed :
      (next : Request → Exchange Response) (q : Request)
      → q.authorization ≡ authorization remote
      → with_auth web a next q ≡ answer (http_error "unauthorized" 401)
  refused_fixed next q header = with_auth-Stranger web a remote next q stranger header

  -- An agent that has a token answers a client with another token, or with none, with the status 401 on
  -- every operation but the health check, and sends nothing to the node's runtime.
  pub operate-Stranger :
      (op : Operation)
      → IsGuarded op
      → through (serve web a host) (operate web remote op) ≡ answer (refused op)
  unfolding operate serve Client.get_identity Client.capabilities Client.get_machine
      Client.create_machine Client.ensure_machine_running Client.stop_machine Client.delete_machine
      Client.resize_machine decoded exit_error
  operate-Stranger Program.health guarded = absurd guarded
  operate-Stranger Program.identity guarded =
      refuse_lem web remote (serve web a host) "GET" "/api/v1/identity" none
        (decoded web.identity zero_identity) (url _)
        (refused_fixed (Agent.identity web a) (new_request remote "GET" "/api/v1/identity" none)
          refl)
  operate-Stranger Program.capabilities guarded =
      refuse_lem web remote (serve web a host) "GET" "/api/v1/capabilities" none
        (decoded web.capabilities zero_capabilities) (url _)
        (refused_fixed (Agent.capabilities web a host)
          (new_request remote "GET" "/api/v1/capabilities" none) refl)
  operate-Stranger (Program.create_machine wanted) guarded =
      let body = some (web.create_request.marshal wanted) in
      refuse_lem web remote (serve web a host) "POST" "/api/v1/machines" body
        (decoded web.machine zero_machine) (url _)
        (refused_fixed (Agent.machines web a) (new_request remote "POST" "/api/v1/machines" body)
          refl)
  operate-Stranger (Program.get_machine name) guarded =
      refuse_lem web remote (serve web a host) "GET" _ none (decoded web.machine zero_machine)
        (url _) (refused_machine "GET" name none)
  operate-Stranger (Program.ensure_machine_running name) guarded =
      let body = some (web.exec_request.marshal ("true" ∷ [])) in
      refuse_lem web remote (serve web a host) "POST" _ body
        (λ r. exit_error (decoded web.exec_response zero_exec r)) (url _)
        (refused_machine "POST" (String.◌++◌ name (String.◌++◌ "/" "exec")) body)
  operate-Stranger (Program.stop_machine name) guarded =
      refuse_lem web remote (serve web a host) "POST" _ none error_of (url _)
        (refused_machine "POST" (String.◌++◌ name (String.◌++◌ "/" "stop")) none)
  operate-Stranger (Program.delete_machine name) guarded =
      refuse_lem web remote (serve web a host) "DELETE" _ none error_of (url _)
        (refused_machine "DELETE" name none)
  operate-Stranger (Program.resize_machine name wanted) guarded =
      let body = some (web.resize_request.marshal wanted) in
      refuse_lem web remote (serve web a host) "POST" _ body error_of (url _)
        (refused_machine "POST" (String.◌++◌ name (String.◌++◌ "/" "resize")) body)
