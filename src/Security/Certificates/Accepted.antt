-- ===== src/Security/Certificates/Accepted.antt =====
-- Which certificates the program accepts.
use iso26430_6_asm_prototype.Base.{
  ℕ, ◌≡◌, refl, String, Option, none, some, Bool, true, false, Result, ok, ◌==◌, ==_iff, ◌↔◌, arith,
  Text, ◌>>=◌,
}
use iso26430_6_asm_prototype.Security.Certificates.{
  OpenSsl, require, demand, validate_certificate_profile, validate_certificate_profile_from_file,
}

module _ {A B : Type 0} where
  pub require_ok :
      (message : String) (o : Option A) (f : A → Result B) (b : B)
      → (require message o >>= f) ≡ ok b
      → (a : A) × (o ≡ some a) × (f a ≡ ok b)
  unfolding require
  require_ok message none f b h = absurd (ground (arith, h))
  require_ok message (some a) f b h = (a, refl, h)

pub demand_ok :
    {B : Type 0} (message : String) (test : Bool) (f : Unit {0} → Result B) (b : B)
    → (demand message test >>= f) ≡ ok b
    → (test ≡ true) × (f tt ≡ ok b)
unfolding demand
demand_ok message true f b h = (refl, h)
demand_ok message false f b h = absurd (ground (arith, h))

demanded : (message : String) {a b : ℕ} → demand message (a == b) ≡ ok tt → a ≡ b
unfolding demand
demanded message h = ground (arith, h)

module _ {P : Type 0} (openssl : OpenSsl P) where
  -- The certificate has an RSA key of 2048 bits with the exponent 65537.
  pub record IsProfile (x509 : P) : Type 0 where
    pub key : P
    pub rsa : P
    pub n : P
    pub e : P
    pub has_key : openssl.x509_get_pubkey x509 ≡ some key
    pub kind : openssl.evp_pkey_base_id key ≡ openssl.evp_pkey_rsa
    pub has_rsa : openssl.evp_pkey_get0_rsa key ≡ some rsa
    pub has_n : (openssl.rsa_get0_key rsa).0 ≡ some n
    pub has_e : (openssl.rsa_get0_key rsa).1 ≡ some e
    pub bits : openssl.bn_num_bits n ≡ 2048
    pub exponent : openssl.bn_get_word e ≡ 65537

  IsProfile-accepted :
      (x509 : P) → IsProfile x509 → validate_certificate_profile openssl (some x509) ≡ ok tt
  unfolding validate_certificate_profile require demand
  IsProfile-accepted x509 h =
      rw (h.has_key, h.kind, h.has_rsa, h.has_n, h.has_e, h.bits, h.exponent) (ground arith)

  accepted-IsProfile :
      (x509 : P) → validate_certificate_profile openssl (some x509) ≡ ok tt → IsProfile x509
  unfolding validate_certificate_profile require
  accepted-IsProfile x509 h =
      let (key, has_key, h2) = require_ok _ (openssl.x509_get_pubkey x509) _ tt h in
      let (kind, h3) = demand_ok _ (openssl.evp_pkey_base_id key == openssl.evp_pkey_rsa) _ tt h2 in
      let (rsa, has_rsa, h4) = require_ok _ (openssl.evp_pkey_get0_rsa key) _ tt h3 in
      let (n, has_n, h5) = require_ok _ (openssl.rsa_get0_key rsa).0 _ tt h4 in
      let (e, has_e, h6) = require_ok _ (openssl.rsa_get0_key rsa).1 _ tt h5 in
      let (bits, h7) = demand_ok _ (openssl.bn_num_bits n == 2048) _ tt h6 in
      record {
        key = key;
        rsa = rsa;
        n = n;
        e = e;
        has_key = has_key;
        kind = (==_iff _ _).0 kind;
        has_rsa = has_rsa;
        has_n = has_n;
        has_e = has_e;
        bits = (==_iff _ _).0 bits;
        exponent = demanded _ h7;
      }

  -- A certificate is accepted just when its public key is an RSA key with 2048 bits and the exponent
  -- 65537.
  pub validate_certificate_profile_iff :
      (x509 : P) → (validate_certificate_profile openssl (some x509) ≡ ok tt) ↔ IsProfile x509
  validate_certificate_profile_iff x509 = (accepted-IsProfile x509, IsProfile-accepted x509)

  -- A certificate file is accepted just when it can be opened, holds a certificate, and that is accepted.
  pub validate_certificate_profile_from_file_ok :
      (path : Text)
      → validate_certificate_profile_from_file openssl path ≡ ok tt
      → (bio : P) × (x509 : P) × (openssl.bio_new_file path ≡ some bio)
        × (openssl.pem_read_bio_x509 bio ≡ some x509)
        × IsProfile x509
  unfolding validate_certificate_profile_from_file
  validate_certificate_profile_from_file_ok path h =
      let (bio, opened, h1) = require_ok _ (openssl.bio_new_file path) _ tt h in
      let (x509, parsed, h2) = require_ok _ (openssl.pem_read_bio_x509 bio) _ tt h1 in
      (bio, x509, opened, parsed, accepted-IsProfile x509 h2)
