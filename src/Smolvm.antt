-- ===== src/Smolvm.antt =====
-- The data of internal/smolvm/client.go: what the runtime API takes and returns, and the errors that
-- the program tells apart. The JSON field names and their order on the wire are not modelled.
use smolvm_operator.Prelude.{
  ℕ, String, Bool, false, Option, List, [], ◌∷◌, Int32, Int64, ◌==◌, str_eq, concat, decimal,
  if◌then◌else◌,
}

pub record PortSpec : Type 0 where
  pub host : Int32
  pub guest : Int32

pub record MachineInfo : Type 0 where
  pub name : String
  pub state : String
  pub cpus : Int32
  pub memory_mib : Int32
  pub pid : Option Int32
  pub ports : List PortSpec
  pub network : Bool
  pub storage_gb : Option Int64
  pub overlay_gb : Option Int64

pub record Identity : Type 0 where
  pub node_name : String
  pub node_uid : String

pub record Health : Type 0 where
  pub ok : Bool
  pub kvm_available : Bool
  pub socket_ready : Bool
  pub state_ready : Bool
  pub message : String

pub record Capabilities : Type 0 where
  pub runtime_version : String
  pub protocol_version : String
  pub cpus : Int32
  pub memory_mib : Int64
  pub storage_gib : Int64
  pub kvm_available : Bool

pub record CreateMachineRequest : Type 0 where
  pub name : String
  pub cpus : Int32
  pub memory_mib : Int32
  pub ports : List PortSpec
  pub network : Bool
  pub storage_gb : Option Int64
  pub overlay_gb : Option Int64
  pub allowed_cidrs : List String
  pub image : String
  pub from : String

pub record ResizeRequest : Type 0 where
  pub storage_gb : Option Int64
  pub overlay_gb : Option Int64

-- A Go `error` that is not nil: an APIError of the runtime API with its HTTP status and body, an
-- error that `fmt.Errorf` makes, or one that a library returns, known by its text.
pub data Error : Type 0 where
  api_error : ℕ → String → Error
  message_error : String → Error
  library_error : String → Error

pub data Result {ℓ} (A : Type ℓ) : Type ℓ where
  ok : A → Result A
  err : Error → Result A

-- IsNotFound: the error is an APIError with the status 404.
abbrev pub is_not_found : Error → Bool
is_not_found (api_error status body) = status == 404
is_not_found _ = false

-- `err.Error()`, with APIError's own method.
unfoldable pub error_text : Error → String
unfolding decimal
error_text (api_error status body) =
    if str_eq body ""
    then concat ("smolvm API returned HTTP " ∷ decimal status ∷ [])
    else concat ("smolvm API returned HTTP " ∷ decimal status ∷ ": " ∷ body ∷ [])
error_text (message_error text) = text
error_text (library_error text) = text
