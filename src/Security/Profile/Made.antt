-- ===== src/Security/Profile/Made.antt =====
-- Which contexts the program makes.
use iso26430_6_asm_prototype.Base.{
  ◌≡◌, ◌≢◌, refl, sym, ap, ◌∙◌, List, [], ◌∷◌, none, Bool, true, false, Result, ok, err, Text,
  arith, Bool-cases, Result-cases, inl, inr, ◌↔◌,
}
use iso26430_6_asm_prototype.Security.Certificates.{
  OpenSsl, require, validate_certificate_profile_from_file,
}
use iso26430_6_asm_prototype.Security.Profile.{
  TlsConfig, Call, Returns, empty, apply, create_ctx, made,
}
use iso26430_6_asm_prototype.Security.Profile.Settings.{all_succeed, settings}
use iso26430_6_asm_prototype.Security.Profile.Steps.{Does, Throws}
use iso26430_6_asm_prototype.Security.Profile.Laws.{
  has_credentials, set_up, set_up-Does, set_up-Throws,
}

module _ (returns : Returns) {P : Type 0} (openssl : OpenSsl P) where
  made_ok :
      (r : Result (Unit {0}) × List Call) (calls : List Call)
      → made r ≡ ok calls
      → r ≡ (ok tt, calls)
  unfolding made
  made_ok (ok done, calls) after h = ground (arith, h)
  made_ok (err what, calls) after h = absurd (ground (arith, h))

  module _ (no_file : openssl.bio_new_file [] ≡ none) where
    named :
        (path : Text)
        → validate_certificate_profile_from_file openssl path ≡ ok tt
        → empty path ≡ false
    unfolding validate_certificate_profile_from_file require
    named [] h = absurd (ground (arith, h, no_file))
    named (c ∷ path) h = refl

    unfoldable pub IsMade : TlsConfig → Bool → List Call → Type 0
    IsMade config server_mode calls =
        (validate_certificate_profile_from_file openssl config.certificate ≡ ok tt)
        × (has_credentials returns openssl config ≡ true)
        × (all_succeed returns [] (settings config server_mode) ≡ true)
        × (calls ≡ settings config server_mode)

    made_cases :
        (config : TlsConfig) (server_mode : Bool) (calls : List Call)
        → made (set_up returns openssl config server_mode []) ≡ ok calls
        → empty config.certificate ≡ false
        → (has_credentials returns openssl config ≡ true)
          × (all_succeed returns [] (settings config server_mode) ≡ true)
          × (calls ≡ settings config server_mode)
    unfolding Does Throws
    made_cases config server_mode calls h given_path =
        elim (Bool-cases (has_credentials returns openssl config)) [
          | inl given_key ↦ elim (set_up-Does returns openssl config server_mode given_key []) [
            | inl (all, same) ↦ (given_key, all, ap (λ r. r.1) (sym (made_ok _ calls h) ∙ same))
            | inr (failed, what, thrown) ↦
                absurd (ground (arith, sym (ap (λ r. r.0) (made_ok _ calls h)) ∙ thrown))
          ]
          | inr missing ↦
              let (what, thrown) =
                set_up-Throws returns openssl config server_mode given_path missing [] in
              absurd (ground (arith, sym (ap (λ r. r.0) (made_ok _ calls h)) ∙ thrown))
        ]

    not_allocated :
        (config : TlsConfig) (server_mode : Bool) (calls : List Call)
        → create_ctx returns openssl false config server_mode ≢ ok calls
    unfolding create_ctx
    not_allocated config server_mode calls h = ground (arith, h)

    create_ctx-IsMade :
        (config : TlsConfig) (server_mode : Bool) (calls : List Call)
        → create_ctx returns openssl true config server_mode ≡ ok calls
        → IsMade config server_mode calls
    unfolding create_ctx apply made IsMade
    create_ctx-IsMade config server_mode calls h =
        elim (Result-cases (validate_certificate_profile_from_file openssl config.certificate)) [
          | inl (done, e) ↦
              let (given_key, all, same) =
                made_cases config server_mode calls (rw e at h) (named config.certificate e) in
              (e, given_key, all, same)
          | inr (what, e) ↦ absurd (ground (arith, rw e at h))
        ]

    IsMade-made :
        (config : TlsConfig) (server_mode : Bool) (calls : List Call)
        → IsMade config server_mode calls
        → create_ctx returns openssl true config server_mode ≡ ok calls
    unfolding create_ctx apply made IsMade Does
    IsMade-made config server_mode calls (e, given_key, all, same) =
        elim (set_up-Does returns openssl config server_mode given_key []) [
          | inl (_, computed) ↦ rw (e, computed, same) refl
          | inr (failed, _, _) ↦ absurd (ground (arith, sym all ∙ failed))
        ]

    -- Where a file without a name cannot be opened, a TLS context is made just when OpenSSL allocates it,
    -- the certificate file holds an accepted certificate, a private key file is named too, and each call of
    -- `settings` that can fail succeeds. The context has been set up by these calls, in this order.
    pub create_ctx_iff :
        (allocated : Bool) (config : TlsConfig) (server_mode : Bool) (calls : List Call)
        → (create_ctx returns openssl allocated config server_mode ≡ ok calls)
          ↔ ((allocated ≡ true) × IsMade config server_mode calls)
    create_ctx_iff true config server_mode calls = (
      λ h. (refl, create_ctx-IsMade config server_mode calls h),
      λ (_, h). IsMade-made config server_mode calls h,
    )
    create_ctx_iff false config server_mode calls = (
      λ h. absurd (not_allocated config server_mode calls h),
      λ (h, _). absurd (ground (arith, h)),
    )
