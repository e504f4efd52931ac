-- ===== src/Agent/Startup/Laws/Tests.antt =====
-- Starting a concrete agent.
use smolvm_operator.Prelude.{
  ◌≡◌, ◌↔◌, ◌⊎◌, refl, true, none, some, [], ◌∷◌, Any, str_eq, if◌then◌else◌, concat, decimal,
  arith, ◌*◌, ◌^◌,
}
use smolvm_operator.Smolvm.{ok}
use smolvm_operator.Program.{api_client}
use smolvm_operator.Agent.Certificate.{Crypto}
use smolvm_operator.Agent.Report.{reported_status, ReportTimes}
use smolvm_operator.Agent.Startup.{
  Environ, Flags, default_flags, new_agent, Answers, server_closed, supervise, report_loop,
  cleanup_loop, shutdown_when_done, tls_listen, serve_listener, exit, main,
}
use smolvm_operator.Agent.Startup.Laws.{
  node_client-started, main_starts, ReportsFrom, CleansFrom, Serves, Ready, Certified, Certifies,
  Passes,
}
use smolvm_operator.Controller.Reconciler.{node_client}
use smolvm_operator.Samples.{sample_node}
use smolvm_operator.Samples.Agents.{healthy_host}
use smolvm_operator.Samples.Libraries.{sample_reconciler}

abbrev sample_environ : Environ
sample_environ key =
    if str_eq key "NODE_NAME" then "node-a" else if str_eq key "POD_IP" then "10.0.0.7" else ""

abbrev cleaning_flags : Flags
cleaning_flags = record default_flags { cleanup_policy = "delete" }

-- Libraries that write down what they are asked for.
abbrev sample_crypto : Crypto
sample_crypto = record {
  generate_key = λ bits. ok "key";
  public_key = λ key. concat ("public " ∷ key ∷ []);
  create_certificate = λ template parent public private.
      ok (concat (template.common_name ∷ ", " ∷ public ∷ ", by " ∷ private ∷ []));
  marshal_private_key = λ key. key;
  encode_to_memory = λ type bytes. concat (type ∷ ": " ∷ bytes ∷ []);
  x509_key_pair = λ cert_pem key_pem. ok (concat (cert_pem ∷ "; " ∷ key_pem ∷ []));
}

-- The server stops when the context is done.
abbrev until_done : Answers
until_done = record {
  config = none;
  client = none;
  serve_files = some server_closed;
  crypto = sample_crypto;
  readings = record { serial_now = 1; before_now = 10 ^ 18; after_now = 10 ^ 18 };
  listen = none;
  serve = some server_closed;
}

main_run :
    main cleaning_flags sample_environ until_done
    ≡ supervise cleaning_flags.serve_command
      ∷ report_loop (new_agent cleaning_flags sample_environ) (20 * 10 ^ 9)
      ∷ cleanup_loop (new_agent cleaning_flags sample_environ) (300 * 10 ^ 9)
      ∷ shutdown_when_done
      ∷ tls_listen ":9443" (record {
        min_version = 0x0303;
        certificates = "CERTIFICATE: node-a, public key, by key; RSA PRIVATE KEY: key" ∷ [];
      })
      ∷ serve_listener (new_agent cleaning_flags sample_environ)
      ∷ []
unfolding main
main_run = refl

nameless_run :
    main (record default_flags { serve_command = " " }) (λ key. "") until_done
    ≡ exit "NODE_NAME is required" ∷ []
unfolding main
nameless_run = refl

abbrev sample_times : ReportTimes
sample_times = record { heartbeat = 100; ready = 101; kvm = 101; runtime = 102; schedulable = 102 }

node_client-started_example :
    node_client sample_reconciler (record sample_node {
      status =
          reported_status
            (new_agent default_flags sample_environ)
            healthy_host
            true
            sample_times
            sample_node.status;
    })
    ≡ api_client
        (concat ("https://" ∷ sample_environ "POD_IP" ∷ ":" ∷ decimal 9443 ∷ []))
        sample_reconciler.runtime_token
        (str_eq sample_reconciler.insecure_skip_verify "true")
unfolding decimal
node_client-started_example =
    node_client-started sample_reconciler default_flags sample_environ healthy_host true
      sample_times sample_node "" 9443 (omega arith) refl

main_starts_example :
    (Any
        (ReportsFrom (new_agent cleaning_flags sample_environ))
        (main cleaning_flags sample_environ until_done)
      ↔ Ready sample_environ until_done)
    × (Any
          (CleansFrom (new_agent cleaning_flags sample_environ))
          (main cleaning_flags sample_environ until_done)
        ↔ (Ready sample_environ until_done × (cleaning_flags.cleanup_policy ≡ "delete")))
    × (Any
          (Serves (new_agent cleaning_flags sample_environ))
          (main cleaning_flags sample_environ until_done)
        ↔ (Ready sample_environ until_done
            × (Certified cleaning_flags
                ⊎ (Certifies until_done (sample_environ "NODE_NAME") × Passes until_done.listen))))
main_starts_example = main_starts cleaning_flags sample_environ until_done
