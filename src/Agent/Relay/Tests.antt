-- ===== src/Agent/Relay/Tests.antt =====
-- The runtime API at a concrete agent and client.
use Prim.Native.String
use smolvm_operator.Prelude.{◌≡◌, inr, refl, false, some}
use smolvm_operator.Smolvm.{api_error, ok, err}
use smolvm_operator.Program
use smolvm_operator.Http.{answer, ◌>>=◌, through}
use smolvm_operator.Http.Paths.{has_slash, trim_space}
use smolvm_operator.Client
use smolvm_operator.Client.{Client, operate}
use smolvm_operator.Agent.{health_of, capability_report, serve}
use smolvm_operator.Agent.Relay.{relayed, operate-relay}
use smolvm_operator.Agent.Relay.About.{health-relay, about-relay, operate-Stranger}
use smolvm_operator.Samples.Agents.{sample_agent, sample_host, controller_client, stranger_client}
use smolvm_operator.Samples.Json.{sample_web, sample_web-FaithfulJson, sample_web-url_error}

named : has_slash "k8s-default-alpine-0" ≡ false
unfolding has_slash
named = refl

operate-relay_example :
    through
      (serve sample_web sample_agent sample_host)
      (operate sample_web controller_client (Program.get_machine "k8s-default-alpine-0"))
    ≡ (operate sample_web sample_agent.smolvm (Program.get_machine "k8s-default-alpine-0") >>= λ r.
        answer (relayed sample_web (Program.get_machine "k8s-default-alpine-0") r))
operate-relay_example =
    operate-relay sample_web sample_agent sample_host controller_client (inr refl)
      sample_web-FaithfulJson (λ path. sample_web-url_error _)
      (Program.get_machine "k8s-default-alpine-0") (refl, named)

health-relay_example :
    through (serve sample_web sample_agent sample_host) (Client.health sample_web controller_client)
    ≡ answer (
        err (
          api_error 503
            (trim_space (String.◌++◌ (sample_web.health.marshal (health_of sample_host)) "\n"))))
unfolding health_of
health-relay_example =
    health-relay sample_web sample_agent sample_host controller_client sample_web-FaithfulJson
      (λ path. sample_web-url_error _)

about-relay_example :
    (through
        (serve sample_web sample_agent sample_host)
        (Client.get_identity sample_web controller_client)
      ≡ answer (ok (record { node_name = "node-a"; node_uid = "uid-a" })))
    × (through
          (serve sample_web sample_agent sample_host)
          (Client.capabilities sample_web controller_client)
        ≡ answer (ok (capability_report sample_agent sample_host)))
about-relay_example =
    about-relay sample_web sample_agent sample_host controller_client sample_web-FaithfulJson
      (λ path. sample_web-url_error _) (inr refl)

operate-Stranger_example :
    through
      (serve sample_web sample_agent sample_host)
      (operate sample_web stranger_client (Program.delete_machine "k8s-default-alpine-0"))
    ≡ answer (some (api_error 401 "unauthorized"))
operate-Stranger_example =
    operate-Stranger sample_web sample_agent sample_host stranger_client (refl, refl)
      (λ path. sample_web-url_error _) (Program.delete_machine "k8s-default-alpine-0") tt
