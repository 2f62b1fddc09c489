-- ===== src/Security/Certificates.antt =====
-- src/security/certificate_utils.cpp. OpenSSL is a parameter: what its functions return on pointers to its
-- objects, where `none` is the null pointer.
pub mod Accepted
use iso26430_6_asm_prototype.Base.{
  ℕ, String, Option, none, some, List, [], ◌∷◌, ◌++◌, Bool, true, false, Result, ok, err, ◌>>=◌,
  ◌==◌, if◌then◌else◌, Text,
}
use iso26430_6_asm_prototype.Common.{ByteBuffer}
use iso26430_6_asm_prototype.LeKey.Jsonl.{bytes_to_hex}

pub record OpenSsl (P : Type 0) : Type 0 where
  pub x509_get_pubkey : P → Option P
  pub evp_pkey_base_id : P → ℕ
  pub evp_pkey_rsa : ℕ
  pub evp_pkey_get0_rsa : P → Option P
  -- `n` and `e`.
  pub rsa_get0_key : P → Option P × Option P
  pub bn_num_bits : P → ℕ
  pub bn_get_word : P → ℕ
  -- The digest, when the call returns 1.
  pub x509_digest : P → Option ByteBuffer
  pub x509_get_subject_name : P → Option P
  pub x509_get_issuer_name : P → Option P
  -- A memory BIO for a name; whether the name was printed into it; what it holds then.
  pub bio_new : P → Option P
  pub x509_name_print_ex : P → P → Bool
  pub bio_get_mem_ptr : P → P → Option Text
  pub bio_new_file : Text → Option P
  pub pem_read_bio_x509 : P → Option P

pub record PeerIdentity : Type 0 where
  pub subject : Text
  pub issuer : Text
  pub sha256_thumbprint : Text

-- A null pointer, or a test that fails, throws.
unfoldable pub require : {A : Type 0} → String → Option A → Result A
require message none = err message
require message (some a) = ok a

unfoldable pub demand : String → Bool → Result (Unit {0})
demand message true = ok tt
demand message false = err message

or_empty : Option Text → Text
or_empty none = []
or_empty (some text) = text

abbrev pub digest_to_hex : ByteBuffer → Text
digest_to_hex digest = bytes_to_hex digest

module _ {P : Type 0} (openssl : OpenSsl P) where
  unfoldable pub name_to_string : Option P → Result Text
  unfolding or_empty
  name_to_string none = ok []
  name_to_string (some name) = do
    bio ← require "failed to allocate BIO" (openssl.bio_new name)
    _ ← demand "failed to format X509 name" (openssl.x509_name_print_ex bio name)
    ok (or_empty (openssl.bio_get_mem_ptr bio name))

  unfoldable pub read_peer_identity : Option P → Result PeerIdentity
  read_peer_identity certificate = do
    x509 ← require "peer certificate missing" certificate
    digest ← require "failed to digest peer certificate" (openssl.x509_digest x509)
    subject ← name_to_string (openssl.x509_get_subject_name x509)
    issuer ← name_to_string (openssl.x509_get_issuer_name x509)
    ok (record { subject = subject; issuer = issuer; sha256_thumbprint = digest_to_hex digest })

  unfoldable pub validate_certificate_profile : Option P → Result (Unit {0})
  validate_certificate_profile certificate = do
    x509 ← require "certificate missing" certificate
    key ← require "failed to read certificate public key" (openssl.x509_get_pubkey x509)
    _ ←
        demand "certificate public key must be RSA"
          (openssl.evp_pkey_base_id key == openssl.evp_pkey_rsa)
    rsa ← require "failed to access RSA public key" (openssl.evp_pkey_get0_rsa key)
    let parameters = openssl.rsa_get0_key rsa
    n ← require "RSA public key parameters missing" parameters.0
    e ← require "RSA public key parameters missing" parameters.1
    _ ← demand "certificate RSA key must be 2048 bits" (openssl.bn_num_bits n == 2048)
    demand "certificate RSA exponent must be 65537" (openssl.bn_get_word e == 65537)

  unfoldable pub validate_certificate_profile_from_file : Text → Result (Unit {0})
  validate_certificate_profile_from_file certificate_path = do
    bio ← require "failed to open certificate file" (openssl.bio_new_file certificate_path)
    certificate ← require "failed to parse certificate file" (openssl.pem_read_bio_x509 bio)
    validate_certificate_profile (some certificate)
