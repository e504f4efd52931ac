-- ===== src/Agent/Relay/Routes.antt =====
-- Where the mux and the handlers of cmd/runtime-agent/main.go send a request of the client.
use Prim.Native.String
use text.Mathlib.TextLemmas.{append_cancel_left}
use smolvm_operator.Prelude.{
  String, Bool-cases, ◌≡◌, ◌⊎◌, inl, inr, refl, ◌∙◌, false, none, str_eq, eq_iff, arith,
  append-ne-nil, ne_of_test, if◌then◌else◌,
}
use smolvm_operator.Http.{Request, Response, Exchange, answer, Web}
use smolvm_operator.Http.Paths.{
  cut_prefix, cut_prefix-append, has_prefix, trim_prefix, split_slash, split_slash-name,
  split_slash-append, has_slash,
}
use smolvm_operator.Client
use smolvm_operator.Client.{Client}
use smolvm_operator.Agent.{
  Agent, Host, http_error, with_auth, machine_at, machine_itself, machine_action, machine, machines,
  serve,
}

-- A text with a prefix is not a text without it.
starts-ne :
    (prefix s t : String) → cut_prefix prefix t ≡ none → str_eq (String.◌++◌ prefix s) t ≡ false
starts-ne prefix s t other = elim (Bool-cases (str_eq (String.◌++◌ prefix s) t)) [
  | inl same ↦ absurd (cc ((eq_iff (String.◌++◌ prefix s) t).0 same, cut_prefix-append prefix s))
  | inr differs ↦ differs
]

-- The header that the client sends.
abbrev pub authorization : Client → String
authorization remote = if str_eq remote.token "" then "" else String.◌++◌ "Bearer " remote.token

-- The agent asks for no token, or for the client's.
abbrev pub Admitted : Agent → Client → Type 0
Admitted a remote = (a.token ≡ "") ⊎ (remote.token ≡ a.token)

-- The agent asks for a token that is not the client's.
abbrev pub Stranger : Agent → Client → Type 0
Stranger a remote = (str_eq a.token "" ≡ false) × (str_eq remote.token a.token ≡ false)

authorization-bearer :
    (remote : Client) (token : String)
    → remote.token ≡ token
    → str_eq token "" ≡ false
    → authorization remote ≡ String.◌++◌ "Bearer " token
authorization-bearer remote token same full = rw (same, full) refl

empty-ne-bearer : (token : String) → str_eq "" (String.◌++◌ "Bearer " token) ≡ false
empty-ne-bearer token =
    ground (arith, eq_iff "" (String.◌++◌ "Bearer " token), append-ne-nil "Bearer " token refl)

bearer-ne-bearer :
    (s t : String)
    → str_eq s t ≡ false
    → str_eq (String.◌++◌ "Bearer " s) (String.◌++◌ "Bearer " t) ≡ false
bearer-ne-bearer s t other =
    elim (Bool-cases (str_eq (String.◌++◌ "Bearer " s) (String.◌++◌ "Bearer " t))) [
      | inr differs ↦ differs
      | inl same ↦ absurd (
          ne_of_test s t other (
            append_cancel_left "Bearer " s t
              ((eq_iff (String.◌++◌ "Bearer " s) (String.◌++◌ "Bearer " t)).0 same)))
    ]

-- A client with another token does not send the agent's.
authorization-Stranger :
    (a : Agent) (remote : Client)
    → Stranger a remote
    → str_eq (authorization remote) (String.◌++◌ "Bearer " a.token) ≡ false
authorization-Stranger a remote (full, other) = elim (Bool-cases (str_eq remote.token "")) [
  | inl free ↦ rw (free) (empty-ne-bearer a.token)
  | inr set ↦ rw (set) (bearer-ne-bearer remote.token a.token other)
]

module _ (web : Web) (a : Agent) where
  pub with_auth-Admitted :
      (remote : Client) (next : Request → Exchange Response) (q : Request)
      → Admitted a remote
      → q.authorization ≡ authorization remote
      → with_auth web a next q ≡ next q
  unfolding with_auth
  with_auth-Admitted remote next q (inl free) header = rw (free) refl
  with_auth-Admitted remote next q (inr same) header = elim (Bool-cases (str_eq a.token "")) [
    | inl free ↦ rw (free) refl
    | inr full ↦
        rw (header, authorization-bearer remote a.token same full, full)
          (ground (arith, eq_iff (String.◌++◌ "Bearer " a.token) (String.◌++◌ "Bearer " a.token)))
  ]

  pub with_auth-Stranger :
      (remote : Client) (next : Request → Exchange Response) (q : Request)
      → Stranger a remote
      → q.authorization ≡ authorization remote
      → with_auth web a next q ≡ answer (http_error "unauthorized" 401)
  unfolding with_auth
  with_auth-Stranger remote next q stranger header =
      rw (header, stranger.0, authorization-Stranger a remote stranger) refl

  pub serve-machine :
      (host : Host) (q : Request) (rest : String)
      → q.path ≡ String.◌++◌ Client.machines_path rest
      → serve web a host q ≡ with_auth web a (machine web a) q
  unfolding serve has_prefix
  serve-machine host q rest at =
      rw
        (
          at,
          starts-ne Client.machines_path rest "/healthz" refl,
          starts-ne Client.machines_path rest "/api/v1/identity" refl,
          starts-ne Client.machines_path rest "/api/v1/capabilities" refl,
          starts-ne Client.machines_path rest "/api/v1/machines" refl,
          cut_prefix-append Client.machines_path rest,
        )
        refl

  machine-rest :
      (q : Request) (rest : String)
      → q.path ≡ String.◌++◌ Client.machines_path rest
      → machine web a q ≡ machine_at web a (split_slash rest) q
  unfolding machine trim_prefix
  machine-rest q rest at = rw (at, cut_prefix-append Client.machines_path rest) refl

  pub machine-itself :
      (q : Request) (name : String)
      → q.path ≡ String.◌++◌ Client.machines_path name
      → has_slash name ≡ false
      → str_eq name "" ≡ false
      → machine web a q ≡ machine_itself web a name q
  unfolding machine_at
  machine-itself q name at clean full =
      machine-rest q name at ∙ rw (split_slash-name name clean, full) refl

  pub machine-action :
      (q : Request) (name action : String)
      → q.path ≡ String.◌++◌ Client.machines_path (String.◌++◌ name (String.◌++◌ "/" action))
      → has_slash name ≡ false
      → str_eq name "" ≡ false
      → has_slash action ≡ false
      → machine web a q ≡ machine_action web a name action q
  unfolding machine_at
  machine-action q name action at clean full single =
      machine-rest q (String.◌++◌ name (String.◌++◌ "/" action)) at
      ∙ rw (split_slash-append name action clean, split_slash-name action single, full) refl

  pub serve-machines :
      (host : Host) (q : Request)
      → q.path ≡ "/api/v1/machines"
      → serve web a host q ≡ with_auth web a (machines web a) q
  unfolding serve
  serve-machines host q at = rw (at) refl
