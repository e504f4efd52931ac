-- ===== src/Agent/Certificate.antt =====
-- selfSignedTLSConfig of cmd/runtime-agent/main.go. The cryptographic libraries are parameters; keys, certificates
-- and PEM blocks are texts.
use smolvm_operator.Prelude.{ℕ, String, List, [], ◌∷◌, ◌+◌, ◌-◌, ◌*◌, ◌^◌, ltb, if◌then◌else◌}
use smolvm_operator.Smolvm.{Result, ok, err}

-- A time in nanoseconds, since 1970 or before it.
pub data Moment : Type 0 where
  since_epoch before_epoch : ℕ → Moment

abbrev pub minute : ℕ
minute = 60 * 10 ^ 9

abbrev pub day : ℕ
day = 24 * 60 * minute

abbrev pub minute_before : ℕ → Moment
minute_before now =
    if ltb now minute then before_epoch (minute - now) else since_epoch (now - minute)

pub data KeyUsage : Type 0 where
  key_encipherment digital_signature : KeyUsage

pub data ExtKeyUsage : Type 0 where
  server_auth : ExtKeyUsage

-- x509.Certificate, as far as it is filled in.
pub record Template : Type 0 where
  pub serial_number : ℕ
  pub common_name : String
  pub not_before : Moment
  pub not_after : Moment
  pub key_usage : List KeyUsage
  pub ext_key_usage : List ExtKeyUsage
  pub dns_names : List String
  pub ip_addresses : List String

-- rsa.GenerateKey and its PublicKey, x509.CreateCertificate and MarshalPKCS1PrivateKey, pem.EncodeToMemory,
-- and tls.X509KeyPair.
pub record Crypto : Type 0 where
  pub generate_key : (bits : ℕ) → Result String
  pub public_key : String → String
  pub create_certificate : (template parent : Template) (public private : String) → Result String
  pub marshal_private_key : String → String
  pub encode_to_memory : (type bytes : String) → String
  pub x509_key_pair : (cert_pem key_pem : String) → Result String

-- The three readings of the clock, in order.
pub record Readings : Type 0 where
  pub serial_now : ℕ
  pub before_now : ℕ
  pub after_now : ℕ

pub record TlsConfig : Type 0 where
  pub min_version : ℕ
  pub certificates : List String

abbrev pub template_for : Readings → String → Template
template_for t node_name = record {
  serial_number = t.serial_now;
  common_name = node_name;
  not_before = minute_before t.before_now;
  not_after = since_epoch (t.after_now + day);
  key_usage = key_encipherment ∷ digital_signature ∷ [];
  ext_key_usage = server_auth ∷ [];
  dns_names = node_name ∷ [];
  ip_addresses = "127.0.0.1" ∷ [];
}

abbrev and_then : {A B : Type 0} → Result A → (A → Result B) → Result B
and_then (ok a) f = f a
and_then (err e) f = err e

-- An error ends the program, by fatalErr.
unfoldable pub self_signed_tls_config : Crypto → Readings → String → Result TlsConfig
self_signed_tls_config lib t node_name =
    let template = template_for t node_name in
    and_then (lib.generate_key 2048) (λ key.
      and_then (lib.create_certificate template template (lib.public_key key) key) (λ der.
        let cert_pem = lib.encode_to_memory "CERTIFICATE" der in
        let key_pem = lib.encode_to_memory "RSA PRIVATE KEY" (lib.marshal_private_key key) in
        and_then (lib.x509_key_pair cert_pem key_pem)
          (λ cert. ok (record { min_version = 0x0303; certificates = cert ∷ [] }))))
