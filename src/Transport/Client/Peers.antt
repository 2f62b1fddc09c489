-- ===== src/Transport/Client/Peers.antt =====
-- Whom the client and the server talk to.
use iso26430_6_asm_prototype.Base.{
  bind_ok, ◌≡◌, refl, String, Option, none, some, List, Bool, ok, err, Result-cases, inl, inr, ◌⊎◌,
  arith,
}
use iso26430_6_asm_prototype.Common.{ByteBuffer, StandardRequest}
use iso26430_6_asm_prototype.Security.Certificates.{
  OpenSsl, demand, require, validate_certificate_profile, read_peer_identity,
}
use iso26430_6_asm_prototype.Security.Certificates.Accepted.{
  IsProfile, validate_certificate_profile_iff,
}
use iso26430_6_asm_prototype.Security.Profile.{
  Returns, TlsConfig, Call, create_client, create_server,
}
use iso26430_6_asm_prototype.Service.Handlers.{AsmService}
use iso26430_6_asm_prototype.Transport.Errors.{ssl_expect_positive}
use iso26430_6_asm_prototype.Transport.Exchange as Exchange
use iso26430_6_asm_prototype.Transport.Socket.{make_tcp_socket, connect}
use iso26430_6_asm_prototype.Transport.Client.{Route, ClientExchangeResult, send_request}
use iso26430_6_asm_prototype.Transport.Server.{Connection, Server, serve_client}

module _ {P : Type 0} (openssl : OpenSsl P) where
  -- The peer has shown a certificate that is accepted.
  unfoldable pub IsAccepted : Option P → Type 0
  IsAccepted certificate = (x509 : P) × (certificate ≡ some x509) × IsProfile openssl x509

  validated-IsAccepted :
      (certificate : Option P)
      → validate_certificate_profile openssl certificate ≡ ok tt
      → IsAccepted certificate
  unfolding validate_certificate_profile require IsAccepted
  validated-IsAccepted none h = absurd (ground (arith, h))
  validated-IsAccepted (some x509) h =
      (x509, refl, (validate_certificate_profile_iff openssl x509).0 h)

  -- The client returns a response only if its context could be set up, a connection was made, the handshake
  -- succeeded and the certificate of the peer is accepted; and the response is the peer's answer to the
  -- request over this connection.
  pub send_request_ok :
      (config : TlsConfig) (returns : Returns) (route : Route P) (server : ByteBuffer → ByteBuffer)
      (request : StandardRequest) (result : ClientExchangeResult)
      → send_request config returns openssl route server request ≡ ok result
      → ((calls : List Call) × (create_client returns openssl route.context config ≡ ok calls))
        × (connect route.resolved route.reason ≡ ok tt)
        × (ssl_expect_positive route.handshake "SSL_connect" ≡ ok tt)
        × IsAccepted route.certificate
        × (Exchange.send_request route.ssl route.input server request ≡ ok result.response)
  unfolding send_request
  send_request_ok config returns route server request result h =
      let (calls, made, h1) =
        bind_ok (create_client returns openssl route.context config) _ result h in
      let (_, _, h2) = bind_ok (make_tcp_socket route.socket) _ result h1 in
      let (_, connected, h3) = bind_ok (connect route.resolved route.reason) _ result h2 in
      let (_, _, h4) = bind_ok (demand "failed to allocate SSL object" route.object) _ result h3 in
      let (_, shaken, h5) =
        bind_ok (ssl_expect_positive route.handshake "SSL_connect") _ result h4 in
      let (_, validated, h6) =
        bind_ok (validate_certificate_profile openssl route.certificate) _ result h5 in
      let (_, _, h7) = bind_ok (read_peer_identity openssl route.certificate) _ result h6 in
      let (response, answered, h8) =
        bind_ok (Exchange.send_request route.ssl route.input server request) _ result h7 in
      (
        (calls, made),
        connected,
        shaken,
        validated-IsAccepted route.certificate validated,
        ground (arith, answered, h8),
      )

  -- A session of the server either throws with the server as it was, or its context could be set up,
  -- the handshake succeeded and the certificate of the peer is accepted.
  pub serve_client_checks :
      {S : Type 0}
      → (service : AsmService S) (config : TlsConfig) (returns : Returns) (observer : Bool)
        (c : Connection P) (s : Server S)
      → ((what : String) × (serve_client service config returns openssl observer c s
            ≡ (err what, s)))
        ⊎ (((calls : List Call) × (create_server returns openssl c.context config ≡ ok calls))
            × (ssl_expect_positive c.handshake "SSL_accept" ≡ ok tt)
            × IsAccepted c.certificate)
  unfolding serve_client
  serve_client_checks service config returns observer c s =
      elim (Result-cases (create_server returns openssl c.context config)) [
        | inr (what, e) ↦ inl (what, rw e refl)
        | inl (calls, e) ↦ elim (Result-cases (demand "failed to allocate SSL object" c.object)) [
          | inr (what, e2) ↦ inl (what, rw (e, e2) refl)
          | inl (_, e2) ↦ elim (Result-cases (ssl_expect_positive c.handshake "SSL_accept")) [
            | inr (what, e3) ↦ inl (what, rw (e, e2, e3) refl)
            | inl (_, e3) ↦
                elim (Result-cases (validate_certificate_profile openssl c.certificate)) [
                  | inr (what, e4) ↦ inl (what, rw (e, e2, e3, e4) refl)
                  | inl (_, e4) ↦ inr ((calls, e), e3, validated-IsAccepted c.certificate e4)
                ]
          ]
        ]
      ]
