-- ===== src/Transport/Session/Handled.antt =====
-- `TlsServer::serve_client` of src/transport/tls_server.cpp for a message that holds a request which the
-- service answers: the `try` block goes through.
use iso26430_6_asm_prototype.Base.{ℕ, ◌<◌, ◌≡◌, ◌≢◌, refl, some, ◌++◌, Text, ok, bind_ok}
use iso26430_6_asm_prototype.Common.{ByteBuffer, StandardRequest, ServiceResult}
use iso26430_6_asm_prototype.Klv
use iso26430_6_asm_prototype.Codec.{decode_request}
use iso26430_6_asm_prototype.Service.{handle_request}
use iso26430_6_asm_prototype.Service.Handlers.{AsmService}
use iso26430_6_asm_prototype.Transport.Frames.{encoded, read_request}
use iso26430_6_asm_prototype.Transport.Session.{
  Session, SessionTrace, attempt, caught, serve_message,
}
use iso26430_6_asm_prototype.Transport.Writing.{Ssl}
use iso26430_6_asm_prototype.Transport.Writing.Complete.{write_all_sends}

-- The trace of a request that was answered.
abbrev pub traced : Text → StandardRequest → ServiceResult → SessionTrace
traced thumbprint r result = record {
  peer_thumbprint = thumbprint;
  command = r.command;
  request_id = some r.request_id;
  status = result.response.response_code;
  note = result.note;
}

module _ {S : Type 0} (service : AsmService S) (ssl : Ssl)
    (writes : (call size : ℕ) → 0 < size → ssl.write call size ≢ 0) where
  -- The session ends, has the handler's effect on the store, writes the answer, and has its trace.
  pub serve_message_handled :
      (now : ℕ) (raw bytes : ByteBuffer) (r : StandardRequest) (result : ServiceResult)
      (s : Session S)
      → read_request raw ≡ ok r
      → (handle_request service now r raw s.store).0 ≡ ok result
      → encoded result.response ≡ ok bytes
      → let after = serve_message service ssl now raw s in
        (after.0 ≡ ok tt)
        × (after.1.store ≡ (handle_request service now r raw s.store).1)
        × (after.1.wire.sent ≡ s.wire.sent ++ bytes)
        × (after.1.trace ≡ traced s.trace.peer_thumbprint r result)
  unfolding serve_message caught attempt read_request
  serve_message_handled now raw bytes r result s read handled framed =
      let (packet, decoded, request) = bind_ok (Klv.decode raw) decode_request r read in
      let (after, wrote, sent) = write_all_sends ssl writes bytes s.wire in
      (
        rw (decoded, request, handled, framed, wrote) refl,
        rw (decoded, request, handled, framed, wrote) refl,
        rw (decoded, request, handled, framed, wrote) sent,
        rw (decoded, request, handled, framed, wrote) refl,
      )
