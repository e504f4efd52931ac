-- ===== src/Samples/Json.antt =====
-- The codecs of Samples/Codecs.antt for the types of the runtime API.
use smolvm_operator.Prelude.{String, ◌≡◌, none, refl, false}
use smolvm_operator.Smolvm.{
  PortSpec, MachineInfo, Identity, Health, Capabilities, CreateMachineRequest, ResizeRequest,
}
use smolvm_operator.Http.{ExecResponse, FaithfulJson, Web}
use smolvm_operator.Samples.Codecs.{
  Proved, int, bool, ◌and◌, many, along, words, maybe, codec, codec-Faithful,
}

port : Proved PortSpec
port =
    along (λ m. (m.host, m.guest)) (λ (host, guest). record { host = host; guest = guest })
      (λ m. refl) (int and int)

machine : Proved MachineInfo
machine =
    along
      (λ m. (
        m.name,
        (
          m.state,
          (m.cpus, (m.memory_mib, (m.pid, (m.ports, (m.network, (m.storage_gb, m.overlay_gb)))))),
        ),
      ))
      (λ (name, (state, (cpus, (memory_mib, (pid, (ports, (network, (storage_gb, overlay_gb)))))))).
        record {
          name = name;
          state = state;
          cpus = cpus;
          memory_mib = memory_mib;
          pid = pid;
          ports = ports;
          network = network;
          storage_gb = storage_gb;
          overlay_gb = overlay_gb;
        })
      (λ m. refl)
      (words
        and words
        and int
        and int
        and maybe int
        and many port
        and bool
        and maybe int
        and maybe int)

identity : Proved Identity
identity =
    along (λ m. (m.node_name, m.node_uid))
      (λ (node_name, node_uid). record { node_name = node_name; node_uid = node_uid }) (λ m. refl)
      (words and words)

health : Proved Health
health =
    along (λ m. (m.ok, (m.kvm_available, (m.socket_ready, (m.state_ready, m.message)))))
      (λ (ok, (kvm_available, (socket_ready, (state_ready, message)))). record {
        ok = ok;
        kvm_available = kvm_available;
        socket_ready = socket_ready;
        state_ready = state_ready;
        message = message;
      })
      (λ m. refl) (bool and bool and bool and bool and words)

capabilities : Proved Capabilities
capabilities =
    along
      (λ m. (
        m.runtime_version,
        (m.protocol_version, (m.cpus, (m.memory_mib, (m.storage_gib, m.kvm_available)))),
      ))
      (λ (runtime_version, (protocol_version, (cpus, (memory_mib, (storage_gib, kvm_available))))).
        record {
          runtime_version = runtime_version;
          protocol_version = protocol_version;
          cpus = cpus;
          memory_mib = memory_mib;
          storage_gib = storage_gib;
          kvm_available = kvm_available;
        })
      (λ m. refl) (words and words and int and int and int and bool)

create_request : Proved CreateMachineRequest
create_request =
    along
      (λ m. (
        m.name,
        (
          m.cpus,
          (
            m.memory_mib,
            (
              m.ports,
              (m.network, (m.storage_gb, (m.overlay_gb, (m.allowed_cidrs, (m.image, m.from))))),
            ),
          ),
        ),
      ))
      (λ (
        name,
        (
          cpus,
          (
            memory_mib,
            (ports, (network, (storage_gb, (overlay_gb, (allowed_cidrs, (image, from)))))),
          ),
        ),
      ).
        record {
          name = name;
          cpus = cpus;
          memory_mib = memory_mib;
          ports = ports;
          network = network;
          storage_gb = storage_gb;
          overlay_gb = overlay_gb;
          allowed_cidrs = allowed_cidrs;
          image = image;
          from = from;
        })
      (λ m. refl)
      (words
        and int
        and int
        and many port
        and bool
        and maybe int
        and maybe int
        and many words
        and words
        and words)

resize_request : Proved ResizeRequest
resize_request =
    along (λ m. (m.storage_gb, m.overlay_gb))
      (λ (storage_gb, overlay_gb). record { storage_gb = storage_gb; overlay_gb = overlay_gb })
      (λ m. refl) (maybe int and maybe int)

exec_response : Proved ExecResponse
exec_response =
    along (λ m. (m.exit_code, (m.stdout, m.stderr)))
      (λ (exit_code, (stdout, stderr)). record {
        exit_code = exit_code;
        stdout = stdout;
        stderr = stderr;
      })
      (λ m. refl) (int and words and words)

pub sample_web : Web
unfolding codec
sample_web = record {
  url_error = λ url. none;
  kube_not_found = λ e. false;
  machine = codec machine;
  machines = codec (many machine);
  identity = codec identity;
  health = codec health;
  capabilities = codec capabilities;
  create_request = codec create_request;
  resize_request = codec resize_request;
  exec_request = codec (many words);
  exec_response = codec exec_response;
}

pub sample_web-FaithfulJson : FaithfulJson sample_web
unfolding sample_web
sample_web-FaithfulJson = record {
  machine = codec-Faithful machine;
  identity = codec-Faithful identity;
  health = codec-Faithful health;
  capabilities = codec-Faithful capabilities;
  create_request = codec-Faithful create_request;
  resize_request = codec-Faithful resize_request;
}

pub sample_web-url_error : (url : String) → sample_web.url_error url ≡ none
unfolding sample_web
sample_web-url_error url = refl
