-- ===== src/Apps/Initiator/Trust.antt =====
-- What has happened when src/apps/asm_initiator.cpp prints a response.
use iso26430_6_asm_prototype.Base.{ℕ, String, ◌≡◌, List, ok, Text}
use iso26430_6_asm_prototype.Common.{ByteBuffer, StandardRequest}
use iso26430_6_asm_prototype.Apps.Initiator.{prepared, prepare}
use iso26430_6_asm_prototype.Apps.Initiator.Printing.{result_line, exits, main, main-prints}
use iso26430_6_asm_prototype.Security.Certificates.{OpenSsl}
use iso26430_6_asm_prototype.Security.Profile.{Returns, TlsConfig, Call, create_client}
use iso26430_6_asm_prototype.Transport.Client.{Route, ClientExchangeResult}
use iso26430_6_asm_prototype.Transport.Client.Peers.{IsAccepted, send_request_ok}
use iso26430_6_asm_prototype.Transport.Errors.{ssl_expect_positive}
use iso26430_6_asm_prototype.Transport.Exchange as Exchange
use iso26430_6_asm_prototype.Transport.Socket.{connect}

-- The steps before the exchange went through, and the line is what the exchange gave.
pub record Talked {P : Type 0} (returns : Returns) (openssl : OpenSsl P)
    (route : Text → ℕ → Route P) (server : ByteBuffer → ByteBuffer) (argv : List Text) (line : Text)
    : Type 0 where
  pub config : TlsConfig
  pub host : Text
  pub request : StandardRequest
  pub result : ClientExchangeResult
  pub calls : List Call
  pub asks : prepare argv ≡ prepared config host request
  pub sets_up : create_client returns openssl (route host 1173).context config ≡ ok calls
  pub connects : connect (route host 1173).resolved (route host 1173).reason ≡ ok tt
  pub shakes : ssl_expect_positive (route host 1173).handshake "SSL_connect" ≡ ok tt
  pub accepts : IsAccepted openssl (route host 1173).certificate
  pub exchanges :
      Exchange.send_request (route host 1173).ssl (route host 1173).input server request
      ≡ ok result.response
  pub shows : result_line result ≡ ok line

-- Whatever the command line, the server and the network do: if asm_initiator exits with 0, then the command
-- line asks for a request, the TLS profile was set up, a connection was made, the handshake succeeded, the
-- certificate of the peer is accepted, and the line that is printed is that of the response which the
-- exchange of this request over this connection gave.
pub main-Talked :
    {P : Type 0}
    → (returns : Returns) (openssl : OpenSsl P) (route : Text → ℕ → Route P)
      (server : ByteBuffer → ByteBuffer) (argv : List Text) (line : Text) (what : String)
    → main returns openssl route server argv ≡ exits 0 line what
    → Talked returns openssl route server argv line
main-Talked returns openssl route server argv line what h =
    let (config, host, request, result, asks, sent, shows) =
      main-prints returns openssl route server argv line what h in
    let ((calls, sets_up), connects, shakes, accepts, exchanges) =
      send_request_ok openssl config returns (route host 1173) server request result sent in
    record {
      config = config;
      host = host;
      request = request;
      result = result;
      calls = calls;
      asks = asks;
      sets_up = sets_up;
      connects = connects;
      shakes = shakes;
      accepts = accepts;
      exchanges = exchanges;
      shows = shows;
    }
