-- ===== src/Transport/Session/OneAnswer.antt =====
-- What a peer gets for one message, over a connection on which every call of `SSL_write` takes a byte.
use iso26430_6_asm_prototype.Base.{
  ℕ, ◌<◌, ◌≡◌, ◌≢◌, refl, ◌∙◌, sym, ap, ◌⊎◌, inl, inr, some, none, ◌++◌, arith, String, length, All,
  IsByte, IsU32, Result, ok, err, Result-cases,
}
use iso26430_6_asm_prototype.Common.{
  ByteBuffer, bad_request, invalid, StandardRequest, StandardResponse, ServiceResult,
}
use iso26430_6_asm_prototype.Klv
use iso26430_6_asm_prototype.Klv.{KlvPacket}
use iso26430_6_asm_prototype.Klv.Ber.{max_length}
use iso26430_6_asm_prototype.Codec.{decode_request}
use iso26430_6_asm_prototype.Codec.Responses.{HasRightId, IsSendable, length-content, content}
use iso26430_6_asm_prototype.Service.{handle_request, handle_decode_failure, bad_request_result}
use iso26430_6_asm_prototype.Service.Handlers.{AsmService}
use iso26430_6_asm_prototype.Service.Answers.{MustRefuse, handle_request_answer}
use iso26430_6_asm_prototype.Transport.Frames.{
  encoded, read_answer, read_request, encoded-sendable, encoded_fits, read_request-IsU32,
}
use iso26430_6_asm_prototype.Transport.Session.{Session, attempt, recover, serve_message, caught}
use iso26430_6_asm_prototype.Transport.Writing.{Ssl, Wire, write_all}
use iso26430_6_asm_prototype.Transport.Writing.Complete.{write_all_sends}

module _ {S : Type 0} (service : AsmService S) (ssl : Ssl) where
  -- The block threw before it wrote, or it went through to the write of the answer.
  pub record Wrote (now : ℕ) (raw : ByteBuffer) (s : Session S) : Type 0 where
    pub request : StandardRequest
    pub result : ServiceResult
    pub bytes : ByteBuffer
    pub read : read_request raw ≡ ok request
    pub handled : (handle_request service now request raw s.store).0 ≡ ok result
    pub framed : encoded result.response ≡ ok bytes
    pub done : attempt service ssl now raw s ≡ (
      (write_all ssl bytes s.wire).0,
      record {
        store = (handle_request service now request raw s.store).1;
        wire = (write_all ssl bytes s.wire).1;
        trace = record {
          peer_thumbprint = s.trace.peer_thumbprint;
          command = request.command;
          request_id = some request.request_id;
          status = result.response.response_code;
          note = result.note;
        };
      },
    )

  attempt_cases :
      (now : ℕ) (raw : ByteBuffer) (s : Session S)
      → ((what : String) × ((attempt service ssl now raw s).0 ≡ err what)
          × ((attempt service ssl now raw s).1.wire ≡ s.wire))
        ⊎ Wrote now raw s
  unfolding attempt read_request
  attempt_cases now raw s = elim (Result-cases (Klv.decode raw)) [
    | inr (m, e) ↦ inl (m, rw e refl, rw e refl)
    | inl (packet, e) ↦ elim (Result-cases (decode_request packet)) [
      | inr (m, f) ↦ inl (m, rw (e, f) refl, rw (e, f) refl)
      | inl (request, f) ↦ elim (Result-cases (handle_request service now request raw s.store).0) [
        | inr (m, g) ↦ inl (m, rw (e, f, g) refl, rw (e, f, g) refl)
        | inl (result, g) ↦ elim (Result-cases (encoded result.response)) [
          | inr (m, h) ↦ inl (m, rw (e, f, g, h) refl, rw (e, f, g, h) refl)
          | inl (bytes, h) ↦ inr (record {
            request = request;
            result = result;
            bytes = bytes;
            read = rw (e, f) refl;
            handled = g;
            framed = h;
            done = rw (e, f, g, h) refl;
          })
        ]
      ]
    ]
  ]

-- A BadRequest that copies the message.
abbrev pub refusal : ByteBuffer → StandardResponse
refusal raw = record {
  command = bad_request;
  request_id = none;
  payload = raw;
  response_code = invalid;
}

-- The response echoes command and id of the request in the message, which the service need not refuse;
-- or it is a BadRequest that copies the message.
abbrev pub Fits : ByteBuffer → StandardResponse → Type 0
Fits raw response =
    ((request : StandardRequest) × (read_request raw ≡ ok request)
      × (¬ MustRefuse request)
      × (response.command ≡ request.command)
      × (response.request_id ≡ some request.request_id))
    ⊎ (response ≡ refusal raw)

-- The session ended without an exception. Behind what was sent before stand the bytes of one response,
-- which a client reads back, and the trace has its response code.
pub record Answered {S : Type 0} (raw : ByteBuffer) (before : Wire)
    (outcome : Result (Unit {0}) × Session S) : Type 0 where
  pub response : StandardResponse
  pub bytes : ByteBuffer
  pub ended : outcome.0 ≡ ok tt
  pub sent : outcome.1.wire.sent ≡ before.sent ++ bytes
  pub sendable : IsSendable response
  pub framed : encoded response ≡ ok bytes
  pub legible : read_answer bytes ≡ ok response
  pub fitting : Fits raw response
  pub traced : outcome.1.trace.status ≡ response.response_code

module _ {S : Type 0} (service : AsmService S) (ssl : Ssl)
    (works : (call size : ℕ) → 0 < size → ssl.write call size ≢ 0) (raw : ByteBuffer) where
  recover-Answered :
      (what : String) (before : Wire) (s : Session S)
      → length raw < max_length
      → s.wire ≡ before
      → Answered raw before (recover service ssl raw what s)
  unfolding recover handle_decode_failure bad_request_result content
  recover-Answered what before s short same =
      let sendable : IsSendable (refusal raw) = record {
        right_id = inl (refl, refl);
        size_fits = ground arith;
      } in
      let (bytes, framed, legible) = encoded-sendable (refusal raw) sendable in
      let (after, wrote, sent) = write_all_sends ssl works bytes s.wire in
      record {
        response = refusal raw;
        bytes = bytes;
        ended = rw (framed, wrote) refl;
        sent = rw (framed, wrote) (sent ∙ ap (λ w. w.sent ++ bytes) same);
        sendable = sendable;
        framed = framed;
        legible = legible;
        fitting = inr refl;
        traced = rw framed refl;
      }

  result-Fits :
      (now : ℕ) (request : StandardRequest) (s : S) (result : ServiceResult)
      → read_request raw ≡ ok request
      → IsU32 request.request_id
      → (handle_request service now request raw s).0 ≡ ok result
      → Fits raw result.response × HasRightId result.response
  result-Fits now request s result read id h =
      elim (handle_request_answer service now request raw s result h) [
        | inl (fine, (command, echoed)) ↦ (
          inl (request, read, fine, command, echoed),
          inr ((λ bad. fine (inr (sym command ∙ bad))), (request.request_id, echoed, id)),
        )
        | inr (_, (bad, without, copied, code), _) ↦ (inr (ground arith), inl (bad, without))
      ]

  pub serve_message_answers :
      (now : ℕ) (s : Session S)
      → ((request : StandardRequest) → read_request raw ≡ ok request → IsU32 request.request_id)
      → length raw < max_length
      → Answered raw s.wire (serve_message service ssl now raw s)
  unfolding serve_message caught
  serve_message_answers now s ids short = elim (attempt_cases service ssl now raw s) [
    | inl (what, threw, same) ↦ go (attempt service ssl now raw s) what threw same
    | inr w ↦
        let (fitting, right_id) =
          result-Fits now w.request s.store w.result w.read (ids w.request w.read) w.handled in
        let sendable : IsSendable w.result.response = record {
          right_id = right_id;
          size_fits = omega (
            arith,
            length-content w.result.response,
            encoded_fits w.result.response w.bytes right_id w.framed,
          );
        } in
        let (sent_bytes, framed, legible) = encoded-sendable w.result.response sendable in
        let (after, wrote, sent) = write_all_sends ssl works w.bytes s.wire in
        let same : sent_bytes ≡ w.bytes = ground (arith, framed, w.framed) in
        record {
          response = w.result.response;
          bytes = w.bytes;
          ended = rw (w.done, wrote) refl;
          sent = rw (w.done, wrote) sent;
          sendable = sendable;
          framed = w.framed;
          legible = rw same at legible;
          fitting = fitting;
          traced = rw (w.done, wrote) refl;
        }
  ]
    where
      go :
          (o : Result (Unit {0}) × Session S) (what : String)
          → o.0 ≡ err what
          → o.1.wire ≡ s.wire
          → Answered raw s.wire (caught service ssl raw o)
      go (ok done, t) what threw same = absurd (ground arith)
      go (err m, t) what threw same = recover-Answered m s.wire t short same

  -- A message of any bytes, fewer than 2 ^ 24 - 1, gets one answer, and the session ends without an
  -- exception. The client reads the answer as a response with command and id of the request that the
  -- message holds, one that is not to be refused, or as a BadRequest with a copy of the message; the
  -- trace has its response code. Every call of `SSL_write` is taken to write a byte at least.
  pub serve_message-Answered :
      (now : ℕ) (s : Session S)
      → All IsByte raw
      → length raw < max_length
      → Answered raw s.wire (serve_message service ssl now raw s)
  serve_message-Answered now s bytes short =
      serve_message_answers now s (λ request read. read_request-IsU32 raw request bytes read) short
