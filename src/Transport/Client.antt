-- ===== src/Transport/Client.antt =====
-- `TlsClient` of src/transport/tls_client.cpp, from the socket on. What the system and OpenSSL do is a
-- parameter.
pub mod Peers
pub mod Reached
use iso26430_6_asm_prototype.Base.{ℕ, String, Option, List, Bool, Result, ok, ◌>>=◌, Text}
use iso26430_6_asm_prototype.Common.{ByteBuffer, StandardRequest, StandardResponse}
use iso26430_6_asm_prototype.Security.Certificates.{
  OpenSsl, demand, validate_certificate_profile, read_peer_identity,
}
use iso26430_6_asm_prototype.Security.Profile.{Method, Returns, TlsConfig, create_client}
use iso26430_6_asm_prototype.Transport.ClientCalls.{ssl_expect_positive}
use iso26430_6_asm_prototype.Transport.Errors.{Returned}
use iso26430_6_asm_prototype.Transport.Exchange as Exchange
use iso26430_6_asm_prototype.Transport.Reading.{SslInput}
use iso26430_6_asm_prototype.Transport.Socket.{make_tcp_socket, connect}
use iso26430_6_asm_prototype.Transport.Writing.{Ssl}

-- Whether `SSL_CTX_new` gives a context for a method; the socket, the addresses of the host and which of them can be
-- connected to, with the text of `errno`; whether `SSL_new` gives an object; what `SSL_connect` leads to;
-- the certificate of the peer; and what writing and reading return.
pub record Route (P : Type 0) : Type 0 where
  pub context : Method → Bool
  pub socket : Result ℕ
  pub resolved : Result (List Bool)
  pub reason : String
  pub object : Bool
  pub handshake : Returned
  pub certificate : Option P
  pub ssl : Ssl
  pub input : SslInput

pub record ClientExchangeResult : Type 0 where
  pub response : StandardResponse
  pub peer_thumbprint : Text

module _ {P : Type 0} (config : TlsConfig) (returns : Returns) (openssl : OpenSsl P) where
  unfoldable pub send_request :
      Route P → (ByteBuffer → ByteBuffer) → StandardRequest → Result ClientExchangeResult
  send_request route server request = do
    _ ← create_client returns openssl route.context config
    _ ← make_tcp_socket route.socket
    _ ← connect route.resolved route.reason
    _ ← demand "failed to allocate SSL object" route.object
    _ ← ssl_expect_positive route.handshake "SSL_connect"
    _ ← validate_certificate_profile openssl route.certificate
    peer ← read_peer_identity openssl route.certificate
    response ← Exchange.send_request route.ssl route.input server request
    ok (record { response = response; peer_thumbprint = peer.sha256_thumbprint })
