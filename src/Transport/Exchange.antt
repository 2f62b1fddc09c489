-- ===== src/Transport/Exchange.antt =====
-- `TlsClient::send_request` of src/transport/tls_client.cpp after the handshake and the check of the
-- certificate, and the whole of a server's session from `read_one_message` on. What the two sides write
-- is what the other side may read.
pub mod Dialog
use iso26430_6_asm_prototype.Base.{ℕ, [], Result, ok, err, ◌>>=◌}
use iso26430_6_asm_prototype.Common.{ByteBuffer, StandardRequest, StandardResponse}
use iso26430_6_asm_prototype.Service.Handlers.{AsmService}
use iso26430_6_asm_prototype.Transport.ClientCalls
use iso26430_6_asm_prototype.Transport.Frames.{encoded_request, read_answer}
use iso26430_6_asm_prototype.Transport.Reading.{SslInput, read_one_message}
use iso26430_6_asm_prototype.Transport.Session.{Session, serve_message}
use iso26430_6_asm_prototype.Transport.Writing.{Ssl, Wire}

abbrev pub fresh_wire : Wire
fresh_wire = record { calls = 0; sent = [] }

-- The peer is a function from the bytes that the client sent to the bytes that come back.
unfoldable pub send_request :
    Ssl → SslInput → (ByteBuffer → ByteBuffer) → StandardRequest → Result StandardResponse
send_request ssl input peer request = do
  bytes ← encoded_request request
  let (written, wire) = ClientCalls.write_all ssl bytes fresh_wire
  _ ← written
  response_bytes ← ClientCalls.read_one_message input (peer wire.sent)
  read_answer response_bytes

module _ {S : Type 0} (service : AsmService S) (ssl : Ssl) (input : SslInput) (now : ℕ) where
  -- A message that cannot be read ends the session; the caller of `serve_client` catches that.
  unfoldable pub answered : Result ByteBuffer → Session S → Result (Unit {0}) × Session S
  answered (ok request_bytes) s = serve_message service ssl now request_bytes s
  answered (err what) s = (err what, s)

  unfoldable pub answer_client : ByteBuffer → Session S → Result (Unit {0}) × Session S
  unfolding answered
  answer_client pending s = answered (read_one_message input pending) s

  -- The server as the client's peer, with nothing written yet.
  abbrev pub peer : Session S → ByteBuffer → ByteBuffer
  peer s pending = (answer_client pending (record s { wire = fresh_wire })).1.wire.sent
