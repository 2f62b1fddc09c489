-- ===== src/Transport/Session.antt =====
-- `TlsServer::serve_client` of src/transport/tls_server.cpp from the message on: after the handshake and
-- the check of the certificate, for the bytes that `read_one_message` gave. The local variables and the
-- connection are a state; what a `try` block did before it threw stays done.
pub mod OneAnswer
pub mod Handled
use iso26430_6_asm_prototype.Base.{ℕ, String, Text, Option, some, none, Result, ok, err}
use iso26430_6_asm_prototype.Common.{
  ByteBuffer, Command, bad_request, GeneralResponse, successful, StandardRequest, StandardResponse,
  ServiceResult,
}
use iso26430_6_asm_prototype.Klv
use iso26430_6_asm_prototype.Codec
use iso26430_6_asm_prototype.Service.{handle_request, handle_decode_failure}
use iso26430_6_asm_prototype.Service.Actions.{Action, lift, ◌>>=◌}
use iso26430_6_asm_prototype.Service.Handlers.{AsmService}
use iso26430_6_asm_prototype.Transport.Frames.{encoded}
use iso26430_6_asm_prototype.Transport.Writing.{Ssl, Wire, write_all}

pub record SessionTrace : Type 0 where
  pub peer_thumbprint : Text
  pub command : Command
  pub request_id : Option ℕ
  pub status : GeneralResponse
  pub note : String

-- A session: the state of the key store, what is written, and the trace so far.
pub record Session (S : Type 0) : Type 0 where
  pub store : S
  pub wire : Wire
  pub trace : SessionTrace

-- The trace before the message is read, the other fields as the struct declares them.
abbrev pub fresh_trace : Text → SessionTrace
fresh_trace thumbprint = record {
  peer_thumbprint = thumbprint;
  command = bad_request;
  request_id = none;
  status = successful;
  note = "";
}

module _ {S : Type 0} where
  abbrev pub set_trace : (SessionTrace → SessionTrace) → Action (Session S) (Unit {0})
  set_trace f s = (ok tt, record s { trace = f s.trace })

  abbrev pub on_store : {A : Type 0} → Action S A → Action (Session S) A
  on_store m s = let (r, store) = m s.store in (r, record s { store = store })

  abbrev pub on_wire : {A : Type 0} → Action Wire A → Action (Session S) A
  on_wire m s = let (r, wire) = m s.wire in (r, record s { wire = wire })

module _ {S : Type 0} (service : AsmService S) (ssl : Ssl) where
  -- The `try` block.
  unfoldable pub attempt : ℕ → ByteBuffer → Action (Session S) (Unit {0})
  attempt now request_bytes = do
    klv_packet ← lift (Klv.decode request_bytes)
    request ← lift (Codec.decode_request klv_packet)
    _ ←
        set_trace
          (λ t. record t { command = request.command; request_id = some request.request_id })
    result ← on_store (handle_request service now request request_bytes)
    _ ← set_trace (λ t. record t { status = result.response.response_code; note = result.note })
    response ← lift (encoded result.response)
    on_wire (write_all ssl response)

  -- The `catch` block.
  unfoldable pub recover : ByteBuffer → String → Action (Session S) (Unit {0})
  recover request_bytes what = do
    let result = handle_decode_failure service request_bytes what
    _ ← set_trace (λ t. record t { status = result.response.response_code; note = what })
    response ← lift (encoded result.response)
    on_wire (write_all ssl response)

  unfoldable pub caught : ByteBuffer → Result (Unit {0}) × Session S → Result (Unit {0}) × Session S
  caught request_bytes (ok done, s) = (ok done, s)
  caught request_bytes (err what, s) = recover request_bytes what s

  unfoldable pub serve_message : ℕ → ByteBuffer → Action (Session S) (Unit {0})
  unfolding caught
  serve_message now request_bytes s = caught request_bytes (attempt now request_bytes s)
