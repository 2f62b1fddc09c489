-- ===== src/Security/Profile/Settings.antt =====
-- What a context that the program makes is set to.
use iso26430_6_asm_prototype.Base.{
  List, [], ◌∷◌, ◌++◌, Bool, true, false, ◌&&◌, ◌==◌, if◌then◌else◌,
}
use iso26430_6_asm_prototype.Security.Profile.{
  TlsConfig, Call, set_cipher_list, set_min_tls1, set_max_tls1, set_security_level,
  set_no_compression, use_certificate_file, use_private_key_file, check_private_key,
  load_verify_locations, set_verify, Returns,
}

-- The calls that set a context up, in order.
unfoldable pub settings : TlsConfig → Bool → List Call
settings config server_mode =
    set_cipher_list config.cipher_list
    ∷ ((if config.allow_tls10 then set_min_tls1 ∷ set_max_tls1 ∷ [] else [])
        ++ (set_security_level 0
            ∷ set_no_compression
            ∷ use_certificate_file config.certificate
            ∷ use_private_key_file config.private_key
            ∷ check_private_key
            ∷ load_verify_locations config.ca_certificate
            ∷ set_verify config.verify_peer
                (config.verify_peer && server_mode && config.require_peer_certificate)
            ∷ []))

-- The calls whose return value says whether they succeeded.
unfoldable pub is_checked : Call → Bool
is_checked (set_security_level level) = false
is_checked set_no_compression = false
is_checked (set_verify peer fail) = false
is_checked _ = true

-- Made one after the other, behind `calls`, each call that can fail returns 1.
unfoldable pub all_succeed : Returns → List Call → List Call → Bool
unfolding is_checked
all_succeed returns calls [] = true
all_succeed returns calls (c ∷ more) =
    (if is_checked c then returns calls c == 1 else true)
    && all_succeed returns (calls ++ c ∷ []) more
