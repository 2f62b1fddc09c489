-- ===== src/Security/Profile.antt =====
-- `TlsProfile::apply` of src/security/tls_profile.cpp and `create_ctx` of src/transport/tls_context.cpp. What
-- the program asks of a TLS context is a list of calls; what OpenSSL returns for a call, after those made
-- before, is a parameter.
pub mod Settings
pub mod Steps
pub mod Laws
pub mod Made
use iso26430_6_asm_prototype.Base.{
  ℕ, String, List, [], ◌∷◌, ◌++◌, Bool, true, false, not, ◌&&◌, ◌||◌, Result, ok, err, ◌==◌,
  if◌then◌else◌, Text, codes,
}
use iso26430_6_asm_prototype.Security.Certificates.{OpenSsl, validate_certificate_profile_from_file}
use iso26430_6_asm_prototype.Service.Actions.{Action, pure, lift, ◌>>=◌}

pub record TlsConfig : Type 0 where
  pub certificate : Text
  pub private_key : Text
  pub ca_certificate : Text
  pub require_peer_certificate : Bool
  pub verify_peer : Bool
  pub allow_tls10 : Bool
  pub cipher_list : String

-- The struct with the defaults of its other fields.
unfoldable pub tls_config : Text → Text → Text → TlsConfig
tls_config certificate private_key ca_certificate = record {
  certificate = certificate;
  private_key = private_key;
  ca_certificate = ca_certificate;
  require_peer_certificate = true;
  verify_peer = true;
  allow_tls10 = true;
  cipher_list = "AES128-SHA";
}

-- `SSL_CTX_set_verify` is called with `SSL_VERIFY_PEER` or not, and with `SSL_VERIFY_FAIL_IF_NO_PEER_CERT` or
-- not; the two versions are `TLS1_VERSION`, the option is `SSL_OP_NO_COMPRESSION`, and files are in PEM.
pub data Call : Type 0 where
  set_cipher_list : String → Call
  set_min_tls1 set_max_tls1 : Call
  set_security_level : ℕ → Call
  set_no_compression : Call
  use_certificate_file : Text → Call
  use_private_key_file : Text → Call
  check_private_key : Call
  load_verify_locations : Text → Call
  set_verify : Bool → Bool → Call

-- What `TLS_server_method` and `TLS_client_method` give, which `SSL_CTX_new` takes.
pub data Method : Type 0 where
  server_method client_method : Method

-- What a call returns, behind the calls made before.
abbrev pub Returns : Type 0
Returns = List Call → Call → ℕ

abbrev pub empty : Text → Bool
empty [] = true
empty (c ∷ path) = false

-- A call whose return value is not looked at.
abbrev pub tell : Call → Action (List Call) (Unit {0})
tell c calls = (ok tt, calls ++ c ∷ [])

unfoldable pub verify_mode : TlsConfig → Bool → Call
verify_mode config server_mode =
    if config.verify_peer
    then set_verify true (server_mode && config.require_peer_certificate)
    else set_verify false false

unfoldable pub made : Result (Unit {0}) × List Call → Result (List Call)
made (ok done, calls) = ok calls
made (err what, calls) = err what

module _ (returns : Returns) where
  unfoldable pub expect : Call → String → Action (List Call) (Unit {0})
  expect c message calls = (if returns calls c == 1 then ok tt else err message, calls ++ c ∷ [])

  unfoldable pub allow_tls10_only : Bool → Action (List Call) (Unit {0})
  allow_tls10_only false = pure tt
  allow_tls10_only true = do
    _ ← expect set_min_tls1 "failed to set min TLS version"
    expect set_max_tls1 "failed to set max TLS version"

  unfoldable pub use_credentials : TlsConfig → Action (List Call) (Unit {0})
  use_credentials config =
      if not (empty config.certificate) || not (empty config.private_key)
      then (if empty config.certificate || empty config.private_key
          then lift (err "certificate and private key must be provided together")
          else (do
            _ ← expect (use_certificate_file config.certificate) "failed to load certificate"
            _ ← expect (use_private_key_file config.private_key) "failed to load private key"
            expect check_private_key "private key mismatch"))
      else pure tt

  module _ {P : Type 0} (openssl : OpenSsl P) where
    unfoldable pub apply : TlsConfig → Bool → Action (List Call) (Unit {0})
    apply config server_mode = do
      _ ← lift (validate_certificate_profile_from_file openssl config.certificate)
      _ ← expect (set_cipher_list config.cipher_list) "failed to set cipher list"
      _ ← allow_tls10_only config.allow_tls10
      _ ← tell (set_security_level 0)
      _ ← tell set_no_compression
      _ ← use_credentials config
      _ ← expect (load_verify_locations config.ca_certificate) "failed to load CA certificate"
      tell (verify_mode config server_mode)

    -- A new context, if OpenSSL gives one: the calls that made it what it is.
    unfoldable pub create_ctx : Bool → TlsConfig → Bool → Result (List Call)
    unfolding made
    create_ctx allocated config server_mode =
        if allocated then made (apply config server_mode []) else err "failed to allocate SSL_CTX"

    unfoldable pub create_server : (Method → Bool) → TlsConfig → Result (List Call)
    create_server allocated config = create_ctx (allocated server_method) config true

    unfoldable pub create_client : (Method → Bool) → TlsConfig → Result (List Call)
    create_client allocated config = create_ctx (allocated client_method) config false
