-- ===== src/Security/Profile/Laws.antt =====
-- `apply` sets a context up as `settings` says.
use iso26430_6_asm_prototype.Base.{
  ◌≡◌, refl, List, [], ◌∷◌, append-nil, Bool, true, false, not, ◌&&◌, ◌||◌, ok, if◌then◌else◌, Text,
  arith, inl,
}
use iso26430_6_asm_prototype.Security.Certificates.{OpenSsl}
use iso26430_6_asm_prototype.Security.Profile.{
  TlsConfig, Call, set_cipher_list, set_min_tls1, set_max_tls1, set_security_level,
  set_no_compression, use_certificate_file, use_private_key_file, check_private_key,
  load_verify_locations, set_verify, Returns, empty, tell, expect, allow_tls10_only,
  use_credentials, verify_mode,
}
use iso26430_6_asm_prototype.Service.Actions.{Action, ◌>>=◌}
use iso26430_6_asm_prototype.Security.Profile.Settings.{is_checked, all_succeed, settings}
use iso26430_6_asm_prototype.Security.Profile.Steps.{
  Does, tell-Does, expect-Does, bind-Does, Throws, first-Throws, then-Throws,
}

given :
    {A : Type 0}
    → (certificate key : Text) → (not (empty certificate) && not (empty key)) ≡ true
    → (x y z : A)
    → (if not (empty certificate) || not (empty key)
        then (if empty certificate || empty key then x else y)
        else z)
      ≡ y
given certificate key h x y z = ground (arith, h)

module _ (returns : Returns) {P : Type 0} (openssl : OpenSsl P) where
  unfoldable pub has_credentials : TlsConfig → Bool
  has_credentials config = not (empty config.certificate) && not (empty config.private_key)

  pure-Does : Does returns (λ calls. (ok tt, calls)) []
  unfolding Does all_succeed
  pure-Does calls = inl (refl, rw (append-nil calls) refl)

  allow-Does :
      (allowed : Bool)
      → Does returns
          (allow_tls10_only returns allowed)
          (if allowed then set_min_tls1 ∷ set_max_tls1 ∷ [] else [])
  unfolding allow_tls10_only is_checked
  allow-Does false = pure-Does
  allow-Does true =
      bind-Does returns (expect returns set_min_tls1 _) (expect returns set_max_tls1 _)
        (set_min_tls1 ∷ []) (set_max_tls1 ∷ []) (expect-Does returns set_min_tls1 _ refl)
        (expect-Does returns set_max_tls1 _ refl)

  use_credentials-Does :
      (config : TlsConfig)
      → has_credentials config ≡ true
      → Does returns (use_credentials returns config) (
          use_certificate_file config.certificate
          ∷ use_private_key_file config.private_key
          ∷ check_private_key
          ∷ [])
  unfolding use_credentials has_credentials is_checked
  use_credentials-Does config h = rw (given config.certificate config.private_key h _ _) (
      bind-Does returns (expect returns (use_certificate_file config.certificate) _) _
        (use_certificate_file config.certificate ∷ [])
        (use_private_key_file config.private_key ∷ check_private_key ∷ [])
        (expect-Does returns (use_certificate_file config.certificate) _ refl)
        (bind-Does returns (expect returns (use_private_key_file config.private_key) _) _
          (use_private_key_file config.private_key ∷ []) (check_private_key ∷ [])
          (expect-Does returns (use_private_key_file config.private_key) _ refl)
          (expect-Does returns check_private_key _ refl)))

  verify_mode-set_verify :
      (config : TlsConfig) (server_mode : Bool)
      → verify_mode config server_mode
        ≡ set_verify config.verify_peer
            (config.verify_peer && server_mode && config.require_peer_certificate)
  unfolding verify_mode
  verify_mode-set_verify config server_mode = ground arith

  use_credentials-Throws :
      (config : TlsConfig)
      → empty config.certificate ≡ false
      → has_credentials config ≡ false
      → Throws (use_credentials returns config)
  unfolding use_credentials has_credentials Throws
  use_credentials-Throws config h missing calls =
      ("certificate and private key must be provided together", ground (arith, h, missing))

  abbrev finish : TlsConfig → Bool → Action (List Call) (Unit {0})
  finish config server_mode = do
    _ ← expect returns (load_verify_locations config.ca_certificate) "failed to load CA certificate"
    tell (verify_mode config server_mode)

  abbrev pub set_up : TlsConfig → Bool → Action (List Call) (Unit {0})
  set_up config server_mode = do
    _ ← expect returns (set_cipher_list config.cipher_list) "failed to set cipher list"
    _ ← allow_tls10_only returns config.allow_tls10
    _ ← tell (set_security_level 0)
    _ ← tell set_no_compression
    _ ← use_credentials returns config
    finish config server_mode

  pub set_up-Does :
      (config : TlsConfig) (server_mode : Bool)
      → has_credentials config ≡ true
      → Does returns (set_up config server_mode) (settings config server_mode)
  unfolding settings is_checked
  set_up-Does config server_mode h = rw (← verify_mode-set_verify config server_mode) (
      bind-Does returns (expect returns (set_cipher_list config.cipher_list) _) _
        (set_cipher_list config.cipher_list ∷ []) _
        (expect-Does returns (set_cipher_list config.cipher_list) _ refl)
        (bind-Does returns (allow_tls10_only returns config.allow_tls10) _ _ _
          (allow-Does config.allow_tls10)
          (bind-Does returns (tell (set_security_level 0)) _ (set_security_level 0 ∷ []) _
            (tell-Does returns (set_security_level 0) refl)
            (bind-Does returns (tell set_no_compression) _ (set_no_compression ∷ []) _
              (tell-Does returns set_no_compression refl)
              (bind-Does returns (use_credentials returns config) _ _ _
                (use_credentials-Does config h)
                (bind-Does returns (expect returns (load_verify_locations config.ca_certificate) _)
                  _ (load_verify_locations config.ca_certificate ∷ []) _
                  (expect-Does returns (load_verify_locations config.ca_certificate) _ refl)
                  (tell-Does returns (verify_mode config server_mode)
                    (rw (verify_mode-set_verify config server_mode) refl))))))))

  pub set_up-Throws :
      (config : TlsConfig) (server_mode : Bool)
      → empty config.certificate ≡ false
      → has_credentials config ≡ false
      → Throws (set_up config server_mode)
  set_up-Throws config server_mode h none_given =
      then-Throws (expect returns (set_cipher_list config.cipher_list) _) _ (
        then-Throws (allow_tls10_only returns config.allow_tls10) _ (
          then-Throws (tell (set_security_level 0)) _ (
            then-Throws (tell set_no_compression) _ (
              first-Throws (use_credentials returns config) _
                (use_credentials-Throws config h none_given)))))
