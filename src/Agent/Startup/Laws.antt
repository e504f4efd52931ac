-- ===== src/Agent/Startup/Laws.antt =====
-- What main of cmd/runtime-agent/main.go starts, and the address at which the controller finds it.
mod Tests
use Prim.Native.String
use mathlib.Core.Path.{subst}
use smolvm_operator.Prelude.{
  ℕ, String, Bool, ◌≡◌, ◌≢◌, ◌↔◌, ◌⊎◌, inl, ◌∙◌, refl, ap, Option, none, some, List, [], ◌∷◌, ◌<◌,
  ◌%◌, ◌^◌, arith, Any, str_eq, eq_iff, concat, decimal, show_int32,
}
use smolvm_operator.Api.{SmolVmNode}
use smolvm_operator.Program.{api_client}
use smolvm_operator.Strconv.Colons.{after_last-decimal}
use smolvm_operator.Strconv.Laws.{atoi-decimal}
use smolvm_operator.Smolvm.{Result, ok, err}
use smolvm_operator.Agent.{Agent, Host}
use smolvm_operator.Agent.Certificate.{TlsConfig, self_signed_tls_config}
use smolvm_operator.Agent.Report.{ReportTimes, reported_status}
use smolvm_operator.Agent.Startup.{
  Environ, getenv, port_from_addr, Flags, new_agent, Failure, server_closed, failure, Answers,
  Effect, supervise, report_loop, cleanup_loop, listen_and_serve_tls, serve_listener, listen_with,
  exit, fatal_err, serve_self_signed, serve_all, node_name_required, run_agent, main,
}
use smolvm_operator.Controller.Reconciler.{Reconciler, node_client}

-- portFromAddr reads the port of an address back.
pub port_from_addr-decimal :
    (host : String) (n : ℕ)
    → n < 2 ^ 32
    → port_from_addr (String.◌++◌ host (String.◌++◌ ":" (decimal n))) ≡ n
unfolding port_from_addr
port_from_addr-decimal host n fits =
    rw (port_from_addr, after_last-decimal host n)
      (ap (λ k. k % 2 ^ 32) (atoi-decimal n (omega arith)) ∙ omega arith)

show_int32-small : (n : ℕ) → n < 2 ^ 31 → show_int32 n ≡ decimal n
unfolding show_int32
show_int32-small n fits = ground arith

getenv-empty : (env : Environ) (key : String) → getenv env key "" ≡ env key
unfolding getenv
getenv-empty env key = ground (arith, eq_iff (env key) "")

-- The status that an agent writes which is started with a bind address `host:n` and has a POD_IP gives
-- the controller the address of its API: https, that IP, and the port n, for every n below 2 ^ 31.
pub node_client-started :
    (r : Reconciler) (flags : Flags) (env : Environ) (host : Host) (is_ready : Bool)
    (t : ReportTimes) (node : SmolVmNode) (address : String) (n : ℕ)
    → n < 2 ^ 31
    → flags.bind_address ≡ String.◌++◌ address (String.◌++◌ ":" (decimal n))
    → node_client r
        (record node { status = reported_status (new_agent flags env) host is_ready t node.status })
      ≡ api_client
          (concat ("https://" ∷ env "POD_IP" ∷ ":" ∷ decimal n ∷ []))
          r.runtime_token
          (str_eq r.insecure_skip_verify "true")
unfolding reported_status new_agent
node_client-started r flags env host is_ready t node address n fits bound =
    let port : show_int32 (new_agent flags env).listen_port ≡ decimal n =
      ap show_int32 (ap port_from_addr bound ∙ port_from_addr-decimal address n (omega arith))
      ∙ show_int32-small n fits in
    rw (port, getenv-empty env "POD_IP") refl

-- The step does not end the program.
abbrev pub Passes : Option Failure → Type 0
Passes none = Unit
Passes (some server_closed) = Unit
Passes (some (failure message)) = ⊥

-- Libraries that answer and a name of the node: the agent gets to work.
abbrev pub Ready : Environ → Answers → Type 0
Ready env w = Passes w.config × Passes w.client × (env "NODE_NAME" ≢ "")

abbrev pub ReportsFrom : Agent → Effect → Type 0
ReportsFrom a (report_loop b interval) = b ≡ a
ReportsFrom a _ = ⊥

abbrev pub CleansFrom : Agent → Effect → Type 0
CleansFrom a (cleanup_loop b interval) = b ≡ a
CleansFrom a _ = ⊥

-- It serves the agent's handlers, by the files or by the certificate that it made.
abbrev pub Serves : Agent → Effect → Type 0
Serves a (listen_and_serve_tls address cert key b) = b ≡ a
Serves a (serve_listener b) = b ≡ a
Serves a _ = ⊥

module _ (P : Effect → Type 0) (no_exit : (message : String) → ¬ P (exit message)) where
  Any-fatal_err :
      (f : Option Failure) (next : List Effect) → Any P (fatal_err f next) ↔ (Passes f × Any P next)
  unfolding fatal_err
  Any-fatal_err none next = ground arith
  Any-fatal_err (some server_closed) next = ground arith
  Any-fatal_err (some (failure message)) next = ground (arith, no_exit message)

  Any-main :
      (flags : Flags) (env : Environ) (w : Answers)
      → ¬ P (supervise flags.serve_command)
      → Any P (main flags env w) ↔ (Ready env w × Any P (run_agent flags w (new_agent flags env)))
  unfolding main new_agent
  Any-main flags env w no_supervise =
      let a = new_agent flags env in
      ground (
        arith,
        no_supervise,
        getenv-empty env "NODE_NAME",
        eq_iff (env "NODE_NAME") "",
        Any-fatal_err w.config
            (fatal_err w.client (fatal_err (node_name_required a) (run_agent flags w a))),
        Any-fatal_err w.client (fatal_err (node_name_required a) (run_agent flags w a)),
        Any-fatal_err (node_name_required a) (run_agent flags w a),
      )

-- A certificate can be made for the node.
abbrev pub IsOk : {A : Type 0} → Result A → Type 0
IsOk (ok a) = Unit
IsOk (err e) = ⊥

abbrev pub Certifies : Answers → String → Type 0
Certifies w node_name = IsOk (self_signed_tls_config w.crypto w.readings node_name)

-- A certificate and its key are given.
abbrev pub Certified : Flags → Type 0
Certified flags = (flags.cert_file ≢ "") × (flags.key_file ≢ "")

module _ (flags : Flags) (w : Answers) (a : Agent) where
  reports_lem : Any (ReportsFrom a) (run_agent flags w a)
  unfolding run_agent
  reports_lem = inl refl

  listen_with-cleans : (made : Result TlsConfig) → ¬ Any (CleansFrom a) (listen_with flags w a made)
  unfolding listen_with
  listen_with-cleans (err e) = ground arith
  listen_with-cleans (ok config) =
      let go = Any-fatal_err (CleansFrom a) (λ message bad. bad) in
      ground (arith, go w.listen (serve_listener a ∷ fatal_err w.serve []), go w.serve [])

  listen_with-Serves :
      (made : Result TlsConfig)
      → Any (Serves a) (listen_with flags w a made) ↔ (IsOk made × Passes w.listen)
  unfolding listen_with
  listen_with-Serves (err e) = ground arith
  listen_with-Serves (ok config) =
      let same : a ≡ a = refl in
      let go = Any-fatal_err (Serves a) (λ message bad. bad) in
      ground (arith, same, go w.listen (serve_listener a ∷ fatal_err w.serve []), go w.serve [])

  cleans_lem : Any (CleansFrom a) (run_agent flags w a) ↔ (flags.cleanup_policy ≡ "delete")
  unfolding run_agent serve_all serve_self_signed
  cleans_lem =
      let same : a ≡ a = refl in
      let go = Any-fatal_err (CleansFrom a) (λ message bad. bad) in
      ground (
        arith,
        eq_iff flags.cleanup_policy "delete",
        same,
        go w.serve_files (serve_self_signed flags w a),
        listen_with-cleans (self_signed_tls_config w.crypto w.readings a.node_name),
      )

  serves_lem :
      Any (Serves a) (run_agent flags w a)
      ↔ (Certified flags ⊎ (Certifies w a.node_name × Passes w.listen))
  unfolding run_agent serve_all serve_self_signed
  serves_lem =
      let same : a ≡ a = refl in
      let go = Any-fatal_err (Serves a) (λ message bad. bad) in
      ground (
        arith,
        eq_iff flags.cert_file "",
        eq_iff flags.key_file "",
        same,
        go w.serve_files (serve_self_signed flags w a),
        listen_with-Serves (self_signed_tls_config w.crypto w.readings a.node_name),
      )

new_agent-serves :
    (flags : Flags) (env : Environ) (w : Answers)
    → Any (Serves (new_agent flags env)) (run_agent flags w (new_agent flags env))
      ↔ (Certified flags ⊎ (Certifies w (env "NODE_NAME") × Passes w.listen))
unfolding new_agent
new_agent-serves flags env w =
    subst
      (λ name.
        Any (Serves (new_agent flags env)) (run_agent flags w (new_agent flags env))
        ↔ (Certified flags ⊎ (Certifies w name × Passes w.listen)))
      (getenv-empty env "NODE_NAME") (serves_lem flags w (new_agent flags env))

-- The agent that main makes from its flags and environment reports exactly if the configuration and the
-- Kubernetes client are there and NODE_NAME is given; it cleans up orphans exactly if, besides, the
-- policy is "delete"; and it serves its handlers exactly if, besides, a certificate and a key are given,
-- or selfSignedTLSConfig makes a certificate for the node and main can listen.
pub main_starts :
    (flags : Flags) (env : Environ) (w : Answers)
    → (Any (ReportsFrom (new_agent flags env)) (main flags env w) ↔ Ready env w)
      × (Any (CleansFrom (new_agent flags env)) (main flags env w)
          ↔ (Ready env w × (flags.cleanup_policy ≡ "delete")))
      × (Any (Serves (new_agent flags env)) (main flags env w)
          ↔ (Ready env w × (Certified flags ⊎ (Certifies w (env "NODE_NAME") × Passes w.listen))))
main_starts flags env w =
    let a = new_agent flags env in
    (
      ground (
        arith,
        Any-main (ReportsFrom a) (λ m bad. bad) flags env w (λ bad. bad),
        reports_lem flags w a,
      ),
      ground (
        arith,
        Any-main (CleansFrom a) (λ m bad. bad) flags env w (λ bad. bad),
        cleans_lem flags w a,
      ),
      ground (
        arith,
        Any-main (Serves a) (λ m bad. bad) flags env w (λ bad. bad),
        new_agent-serves flags env w,
      ),
    )
