-- ===== src/Agent/Startup.antt =====
-- main, getenv, portFromAddr, fatalErr and the file probes of cmd/runtime-agent/main.go. What main does is the
-- list of its effects, in order; the goroutines that it starts stand in it where they are started.
pub mod Laws
use smolvm_operator.Prelude.{
  ℕ, String, Bool, true, false, not, ◌&&◌, Option, none, some, List, [], ◌∷◌, ◌++◌, ◌%◌, ◌^◌, ◌*◌,
  Int32, Int64, str_eq, if◌then◌else◌,
}
use smolvm_operator.Api.{KubernetesNode}
use smolvm_operator.Smolvm.{Result, ok, err, error_text}
use smolvm_operator.Http.Paths.{trim_space}
use smolvm_operator.Strconv.{after_last, atoi}
use smolvm_operator.Client.{new_client}
use smolvm_operator.Agent.{Agent, Host}
use smolvm_operator.Agent.Certificate.{Crypto, Readings, TlsConfig, self_signed_tls_config}

-- os.Getenv: a variable that is not set is the empty text.
abbrev pub Environ : Type 0
Environ = String → String

unfoldable pub getenv : Environ → (key fallback : String) → String
getenv env key fallback = let value = env key in if not (str_eq value "") then value else fallback

unfoldable pub port_from_addr : String → Int32
port_from_addr addr = elim (after_last 0x3a addr) [ none ↦ 0 | some port ↦ atoi port % 2 ^ 32 ]

-- The flags; an interval is in nanoseconds.
pub record Flags : Type 0 where
  pub bind_address : String
  pub socket_path : String
  pub cert_file : String
  pub key_file : String
  pub serve_command : String
  pub report_interval : Int64
  pub cleanup_policy : String

abbrev pub default_flags : Flags
default_flags = record {
  bind_address = ":9443";
  socket_path = "/var/run/smolvm/smolvm.sock";
  cert_file = "";
  key_file = "";
  serve_command = "smolvm serve start --listen unix:///var/run/smolvm/smolvm.sock";
  report_interval = 20 * 10 ^ 9;
  cleanup_policy = "none";
}

unfoldable pub new_agent : Flags → Environ → Agent
unfolding getenv port_from_addr
new_agent flags env = record {
  smolvm = new_client "http://unix" flags.socket_path;
  node_name = getenv env "NODE_NAME" "";
  node_uid = "";
  pod_name = getenv env "POD_NAME" "";
  pod_namespace = getenv env "POD_NAMESPACE" "default";
  pod_ip = getenv env "POD_IP" "";
  version = getenv env "SMOLVM_RUNTIME_VERSION" "unknown";
  token = getenv env "SMOLVM_RUNTIME_TOKEN" "";
  listen_port = port_from_addr flags.bind_address;
}

-- http.ErrServerClosed, or another error, by its text.
pub data Failure : Type 0 where
  server_closed : Failure
  failure : String → Failure

-- What the libraries answer: GetConfigOrDie (which ends the program itself), client.New,
-- ListenAndServeTLS, those behind selfSignedTLSConfig, tls.Listen and Serve.
pub record Answers : Type 0 where
  pub config : Option Failure
  pub client : Option Failure
  pub serve_files : Option Failure
  pub crypto : Crypto
  pub readings : Readings
  pub listen : Option Failure
  pub serve : Option Failure

pub data Effect : Type 0 where
  supervise : (command : String) → Effect
  report_loop : Agent → (interval : Int64) → Effect
  cleanup_loop : Agent → (interval : Int64) → Effect
  shutdown_when_done : Effect
  listen_and_serve_tls : (address cert_file key_file : String) → Agent → Effect
  tls_listen : (address : String) → TlsConfig → Effect
  serve_listener : Agent → Effect
  exit : (message : String) → Effect

-- fatalErr, with what follows the call.
unfoldable pub fatal_err : Option Failure → List Effect → List Effect
fatal_err none next = next
fatal_err (some server_closed) next = next
fatal_err (some (failure message)) next = exit message ∷ []

-- There is a certificate, or no way to one.
unfoldable pub listen_with : Flags → Answers → Agent → Result TlsConfig → List Effect
unfolding fatal_err
listen_with flags w a (err e) = exit (error_text e) ∷ []
listen_with flags w a (ok config) =
    tls_listen flags.bind_address config
    ∷ fatal_err w.listen (serve_listener a ∷ fatal_err w.serve [])

-- From the certificate on.
unfoldable pub serve_self_signed : Flags → Answers → Agent → List Effect
unfolding listen_with self_signed_tls_config
serve_self_signed flags w a =
    listen_with flags w a (self_signed_tls_config w.crypto w.readings a.node_name)

unfoldable pub serve_all : Flags → Answers → Agent → List Effect
unfolding serve_self_signed
serve_all flags w a =
    let self_signed = serve_self_signed flags w a in
    if not (str_eq flags.cert_file "") && not (str_eq flags.key_file "")
    then listen_and_serve_tls flags.bind_address flags.cert_file flags.key_file a
      ∷ fatal_err w.serve_files self_signed
    else self_signed

abbrev pub node_name_required : Agent → Option Failure
node_name_required a =
    if str_eq a.node_name "" then some (failure "NODE_NAME is required") else none

-- The agent is ready; it is shared by the loops and the handlers.
unfoldable pub run_agent : Flags → Answers → Agent → List Effect
unfolding serve_all
run_agent flags w a =
    report_loop a flags.report_interval
    ∷ ((if str_eq flags.cleanup_policy "delete" then cleanup_loop a (5 * 60 * 10 ^ 9) ∷ [] else [])
        ++ shutdown_when_done ∷ serve_all flags w a)

unfoldable pub main : Flags → Environ → Answers → List Effect
unfolding new_agent run_agent fatal_err trim_space
main flags env w =
    let a = new_agent flags env in
    (if not (str_eq (trim_space flags.serve_command) "")
      then supervise flags.serve_command ∷ []
      else [])
    ++ fatal_err w.config
        (fatal_err w.client (fatal_err (node_name_required a) (run_agent flags w a)))

-- os.Stat's answer: IsDir, and ModeCharDevice of the mode.
pub record FileInfo : Type 0 where
  pub is_dir : Bool
  pub char_device : Bool

-- os.Stat and os.CreateTemp, which answers with the name of the file.
pub record Files : Type 0 where
  pub stat : String → Result FileInfo
  pub create_temp : (directory pattern : String) → Result String

pub data FileCall : Type 0 where
  close_file remove_file : String → FileCall

unfoldable pub is_char_device : Files → String → Bool
is_char_device files path = elim (files.stat path) [ err e ↦ false | ok info ↦ info.char_device ]

unfoldable pub path_exists : Files → String → Bool
path_exists files path = elim (files.stat path) [ err e ↦ false | ok info ↦ true ]

-- The result, and what is done with the file that was created.
abbrev write_check : Result String → Bool × List FileCall
write_check (err e) = (false, [])
write_check (ok name) = (true, close_file name ∷ remove_file name ∷ [])

unfoldable pub dir_writable : Files → String → Bool × List FileCall
dir_writable files path = elim (files.stat path) [
  | err e ↦ (false, [])
  | ok info ↦
      if not info.is_dir
      then (false, [])
      else write_check (files.create_temp path ".smolvm-write-check-*")
]

-- What the agent observes.
unfoldable pub observe : Files → Result (ℕ × ℕ) → Result KubernetesNode → Host
unfolding is_char_device path_exists dir_writable
observe files statfs node = record {
  socket_ready = path_exists files "/var/run/smolvm/smolvm.sock";
  state_ready = (dir_writable files "/var/lib/smolvm").0;
  kvm_available = is_char_device files "/dev/kvm";
  statfs = statfs;
  node = node;
}
