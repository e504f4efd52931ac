-- ===== src/Agent/Relay/Replies.antt =====
-- What a client reads from the agent's answers.
use Prim.Native.String
use smolvm_operator.Prelude.{
  String, Bool, true, not, Bool-cases, ◌≡◌, inl, inr, refl, false, ◌||◌, Option, none, some, str_eq,
  eq_iff, arith, ne_of_test, ap, ◌∙◌, if◌then◌else◌,
}
use text.Mathlib.TextLemmas.{append-ne-nil_of_right_ne-nil}
use smolvm_operator.Smolvm.{Error, api_error, Result, ok, err, is_not_found, error_text}
use smolvm_operator.Http.{
  Response, Exchange, answer, send, ◌>>=◌, through, Request, Codec, Faithful, Web,
}
use smolvm_operator.Http.Laws.{bind_assoc, bind_cong}
use smolvm_operator.Http.Paths.{trim_space}
use smolvm_operator.Client.{
  Client, zero_exec, read_body, received, decoded, error_of, exit_error, new_request, request,
}
use smolvm_operator.Agent.{
  write_json, http_error, error_response, write_result, write_done, encoded,
}

module _ (web : Web) where
  -- An error of the node's runtime as the client sees it: only whether something is missing survives
  -- in the status; the text is the body.
  abbrev pub relayed_error : Error → Error
  relayed_error e =
      api_error (if is_not_found e || web.kube_not_found e then 404 else 500)
        (trim_space (String.◌++◌ (error_text e) "\n"))

  abbrev pub relayed_result : {A : Type 0} → Result A → Result A
  relayed_result (ok a) = ok a
  relayed_result (err e) = err (relayed_error e)

  abbrev pub relayed_done : Option Error → Option Error
  relayed_done none = none
  relayed_done (some e) = some (relayed_error e)

line-ne-empty : (s : String) → str_eq (String.◌++◌ s "\n") "" ≡ false
line-ne-empty s =
    let some_text = append-ne-nil_of_right_ne-nil s {t = "\n"} (ne_of_test "\n" "" refl) in
    ground (arith, eq_iff (String.◌++◌ s "\n") "", some_text)

module _ {A : Type 0} {codec : Codec A} (zero_value : A) (faithful : Faithful codec) where
  pub read_json :
      (a : A) → decoded codec zero_value (received (ok (write_json 200 (codec.marshal a)))) ≡ ok a
  unfolding decoded received read_body
  read_json a = rw (line-ne-empty (codec.marshal a), faithful.unmarshal-marshal a) refl

  -- A health report, which an unhealthy agent sends with the status 503.
  pub read_health :
      (healthy : Bool) (a : A)
      → decoded codec zero_value
          (received (ok (write_json (if not healthy then 503 else 200) (codec.marshal a))))
        ≡ (if healthy
            then ok a
            else err (api_error 503 (trim_space (String.◌++◌ (codec.marshal a) "\n"))))
  unfolding decoded received read_body
  read_health true a = read_json a
  read_health false a = refl

module _ (web : Web) where
  received-error : (e : Error) → received (ok (error_response web e)) ≡ err (relayed_error web e)
  unfolding error_response received read_body
  received-error e = elim (Bool-cases (is_not_found e || web.kube_not_found e)) [
    | inl missing ↦ rw (missing) refl
    | inr failed ↦ rw (failed) refl
  ]

  pub read_result :
      {A : Type 0} {codec : Codec A} (zero_value : A)
      → Faithful codec
      → (r : Result A)
      → decoded codec zero_value (received (ok (write_result web (encoded web codec.marshal r))))
        ≡ relayed_result web r
  unfolding write_result decoded
  read_result zero_value faithful (ok a) = read_json zero_value faithful a
  read_result zero_value faithful (err e) = rw (received-error e) refl

  pub read_done :
      (r : Option Error) → error_of (received (ok (write_done web r))) ≡ relayed_done web r
  unfolding write_done received read_body
  read_done none = refl
  read_done (some e) = rw (received-error e) refl

  pub read_exec :
      (r : Option Error)
      → exit_error (decoded web.exec_response zero_exec (received (ok (write_done web r))))
        ≡ relayed_done web r
  unfolding write_done received read_body decoded exit_error
  read_exec none = refl
  read_exec (some e) = rw (received-error e) refl

  pub request-sent :
      (remote : Client) (method path : String) (body : Option String)
      → web.url_error (String.◌++◌ remote.base_url path) ≡ none
      → request web remote method path body
        ≡ send (new_request remote method path body) (λ response. answer (received response))
  unfolding request
  request-sent remote method path body url = rw (request, url) refl

  -- A method of the client, if the server answers with what it makes of one local exchange.
  pub relay_lem :
      {A B : Type 0} (remote : Client) (serve : Request → Exchange Response) (method path : String)
      (body : Option String) (read : Result String → A) (local : Exchange B) (write : B → Response)
      (relayed : B → A)
      → web.url_error (String.◌++◌ remote.base_url path) ≡ none
      → serve (new_request remote method path body) ≡ (local >>= λ r. answer (write r))
      → ((r : B) → read (received (ok (write r))) ≡ relayed r)
      → through serve (request web remote method path body >>= λ r. answer (read r))
        ≡ (local >>= λ r. answer (relayed r))
  relay_lem remote serve method path body read local write relayed url served reads =
      rw (request-sent remote method path body url, served)
        (bind_assoc local (λ r. answer (write r))
            (λ response. answer (read (received (ok response))))
          ∙ bind_cong local (λ r. answer (read (received (ok (write r))))) (λ r. answer (relayed r))
              (λ r. ap answer (reads r)))

  -- The same, if the server refuses the request.
  pub refuse_lem :
      {A : Type 0} (remote : Client) (serve : Request → Exchange Response) (method path : String)
      (body : Option String) (read : Result String → A)
      → web.url_error (String.◌++◌ remote.base_url path) ≡ none
      → serve (new_request remote method path body) ≡ answer (http_error "unauthorized" 401)
      → through serve (request web remote method path body >>= λ r. answer (read r))
        ≡ answer (read (err (api_error 401 "unauthorized")))
  unfolding received read_body trim_space
  refuse_lem remote serve method path body read url refused =
      rw (request-sent remote method path body url, refused) refl
