-- ===== src/Transport/Client/Reached.antt =====
-- `TlsClient::send_request` of src/transport/tls_client.cpp when a server is reached.
use iso26430_6_asm_prototype.Base.{ℕ, ◌≡◌, refl, List, true, ok}
use iso26430_6_asm_prototype.Common.{ByteBuffer, StandardRequest, StandardResponse}
use iso26430_6_asm_prototype.Security.Certificates.{
  OpenSsl, PeerIdentity, demand, validate_certificate_profile, read_peer_identity,
}
use iso26430_6_asm_prototype.Security.Profile.{Returns, TlsConfig, Call, create_client}
use iso26430_6_asm_prototype.Transport.Client.{Route, send_request}
use iso26430_6_asm_prototype.Transport.Errors.{ssl_expect_positive}
use iso26430_6_asm_prototype.Transport.Exchange as Exchange
use iso26430_6_asm_prototype.Transport.Exchange.Dialog.{Writes, Delivers}
use iso26430_6_asm_prototype.Transport.Socket.{make_tcp_socket, connect}

-- Every step up to the exchange goes through, every write takes a byte at least, and every read delivers
-- what there is.
pub record Reaches {P : Type 0} (config : TlsConfig) (returns : Returns) (openssl : OpenSsl P)
    (route : Route P) (identity : PeerIdentity) : Type 0 where
  pub calls : List Call
  pub context_made : create_client returns openssl route.context config ≡ ok calls
  pub descriptor : ℕ
  pub opened : route.socket ≡ ok descriptor
  pub connected : connect route.resolved route.reason ≡ ok tt
  pub object : route.object ≡ true
  pub shaken : ssl_expect_positive route.handshake "SSL_connect" ≡ ok tt
  pub validated : validate_certificate_profile openssl route.certificate ≡ ok tt
  pub identified : read_peer_identity openssl route.certificate ≡ ok identity
  pub writes : Writes route.ssl
  pub reads : Delivers route.input

-- The result is the response of the exchange and the thumbprint of the server.
pub send_request_reached :
    {P : Type 0}
    → (config : TlsConfig) (returns : Returns) (openssl : OpenSsl P) (route : Route P)
      (identity : PeerIdentity) (server : ByteBuffer → ByteBuffer) (request : StandardRequest)
      (response : StandardResponse)
    → Reaches config returns openssl route identity
    → Exchange.send_request route.ssl route.input server request ≡ ok response
    → send_request config returns openssl route server request
      ≡ ok (record { response = response; peer_thumbprint = identity.sha256_thumbprint })
unfolding send_request make_tcp_socket demand
send_request_reached config returns openssl route identity server request response h answered =
    rw
      (
        h.context_made, h.opened, h.connected, h.object, h.shaken, h.validated, h.identified,
        answered,
      )
      refl
