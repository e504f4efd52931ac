-- ===== src/Samples/Agents.antt =====
-- An agent, what it observes, and two clients: the controller's, and one without a token.
use smolvm_operator.Prelude.{true, false}
use smolvm_operator.Smolvm.{message_error, ok, err}
use smolvm_operator.Client.{Client}
use smolvm_operator.Agent.{Agent, Host}

abbrev pub sample_agent : Agent
sample_agent = record {
  smolvm = record { base_url = "http://unix"; token = "" };
  node_name = "node-a";
  node_uid = "uid-a";
  pod_name = "runtime-x";
  pod_namespace = "smolvm-system";
  pod_ip = "10.0.0.7";
  version = "0.8.1";
  token = "secret";
  listen_port = 9443;
}

abbrev pub sample_host : Host
sample_host = record {
  socket_ready = true;
  state_ready = true;
  kvm_available = false;
  statfs = ok (2, 4096);
  node = err (message_error "not found");
}

abbrev pub controller_client : Client
controller_client = record { base_url = "https://10.0.0.7:9443"; token = "secret" }

abbrev pub stranger_client : Client
stranger_client = record { base_url = "https://10.0.0.7:9443"; token = "" }

-- The same host with its KVM device.
abbrev pub healthy_host : Host
healthy_host = record sample_host { kvm_available = true }
