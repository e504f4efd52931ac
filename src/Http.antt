-- ===== src/Http.antt =====
-- The parts of Go's net/http, strings and encoding/json that internal/smolvm/client.go and
-- cmd/runtime-agent/main.go stand on. A request's path is the URL's Path: what url.PathEscape escapes is
-- unescaped where the URL is parsed.
pub mod Laws
pub mod Paths
use Prim.Native.String
use smolvm_operator.Prelude.{ℕ, String, Bool, ◌≡◌, Option, List}
use smolvm_operator.Smolvm.{
  MachineInfo, Identity, Health, Capabilities, CreateMachineRequest, ResizeRequest, Error, Result,
  ok,
}

pub record Request : Type 0 where
  pub method : String
  pub base_url : String
  pub path : String
  pub content_type : String
  pub authorization : String
  pub body : String

-- A response, with what reading its whole body gives.
pub record Response : Type 0 where
  pub status : ℕ
  pub body : Result String

-- A function that sends requests, one after the other: each is answered by a response or by an error
-- of the transport.
pub data Exchange (A : Type 0) : Type 0 where
  answer : A → Exchange A
  send : Request → (Result Response → Exchange A) → Exchange A

infixl 5 ◌>>=◌
abbrev pub ◌>>=◌ : {A B : Type 0} → Exchange A → (A → Exchange B) → Exchange B
answer a >>= f = f a
send q k >>= f = send q (λ r. k r >>= f)

-- A client whose requests a server answers: the requests left are those that the server sends.
abbrev pub through : {A : Type 0} → (Request → Exchange Response) → Exchange A → Exchange A
through serve (answer a) = answer a
through serve (send q k) = serve q >>= λ response. through serve (k (ok response))

pub record ExecResponse : Type 0 where
  pub exit_code : ℕ
  pub stdout : String
  pub stderr : String

-- encoding/json at one type: Marshal, Unmarshal of a whole text, and Decode of the first value in it.
-- Marshal fails for none of the types here.
pub record Codec (A : Type 0) : Type 0 where
  pub marshal : A → String
  pub unmarshal : String → Result A
  pub decode : String → Result A

-- What one side writes, the other reads back: Encode ends its text with a line break, Marshal does not.
pub record Faithful {A : Type 0} (codec : Codec A) : Type 0 where
  pub unmarshal-marshal : (a : A) → codec.unmarshal (String.◌++◌ (codec.marshal a) "\n") ≡ ok a
  pub decode-marshal : (a : A) → codec.decode (codec.marshal a) ≡ ok a

-- The libraries of the two programs that are taken as they are.
pub record Web : Type 0 where
  -- http.NewRequestWithContext: the error, if it refuses the URL
  pub url_error : String → Option Error
  -- apierrors.IsNotFound
  pub kube_not_found : Error → Bool
  pub machine : Codec MachineInfo
  pub machines : Codec (List MachineInfo)
  pub identity : Codec Identity
  pub health : Codec Health
  pub capabilities : Codec Capabilities
  pub create_request : Codec CreateMachineRequest
  pub resize_request : Codec ResizeRequest
  pub exec_request : Codec (List String)
  pub exec_response : Codec ExecResponse

-- Every JSON codec of the API reads back what it wrote.
pub record FaithfulJson (web : Web) : Type 0 where
  pub machine : Faithful web.machine
  pub identity : Faithful web.identity
  pub health : Faithful web.health
  pub capabilities : Faithful web.capabilities
  pub create_request : Faithful web.create_request
  pub resize_request : Faithful web.resize_request
