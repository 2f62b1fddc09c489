-- ===== src/Transport/Exchange/Dialog.antt =====
-- One request and its answer, over connections that lose nothing.
use iso26430_6_asm_prototype.Base.{
  ℕ, ◌+◌, ◌≤◌, ◌<◌, ◌≡◌, ◌≢◌, refl, ◌∙◌, ap, ◌⊎◌, inl, inr, some, arith, length, take, take_all, ok,
  err, ◌>>=◌,
}
use iso26430_6_asm_prototype.Common.{ByteBuffer, StandardRequest, StandardResponse}
use iso26430_6_asm_prototype.Codec.Requests.{IsSendable}
use iso26430_6_asm_prototype.Codec.Responses as Responses
use iso26430_6_asm_prototype.Service.Handlers.{AsmService}
use iso26430_6_asm_prototype.Transport.Exchange.{
  fresh_wire, send_request, answer_client, answered, peer,
}
use iso26430_6_asm_prototype.Transport.Frames.{
  encoded_request, read_request, read_answer, encoded, encoded_request-sendable, some_bytes,
  cut_answer,
}
use iso26430_6_asm_prototype.Transport.Reading.{SslInput, buffer_size, read_one_message}
use iso26430_6_asm_prototype.Transport.Session.{Session, serve_message}
use iso26430_6_asm_prototype.Transport.Session.OneAnswer.{Fits, refusal, serve_message_answers}
use iso26430_6_asm_prototype.Transport.Writing.{Ssl}
use iso26430_6_asm_prototype.Transport.Writing.Complete.{write_all_sends}

-- Every call of `SSL_write` that is given bytes takes one at least.
abbrev pub Writes : Ssl → Type 0
Writes ssl = (call size : ℕ) → 0 < size → ssl.write call size ≢ 0

-- A call of `SSL_read` delivers all that is under way, if the buffer has room for it, and fills the
-- buffer if there is more.
pub record Delivers (input : SslInput) : Type 0 where
  pub whole : (pending size : ℕ) → pending ≤ size → input.read pending size ≡ pending
  pub full : (pending size : ℕ) → size < pending → input.read pending size ≡ size

pub read_one_message-whole :
    (input : SslInput) (pending : ByteBuffer)
    → Delivers input
    → 0 < length pending
    → length pending ≤ buffer_size
    → read_one_message input pending ≡ ok pending
unfolding read_one_message
read_one_message-whole input pending d some_bytes fits =
    ground (arith, d.whole (length pending) buffer_size fits, take_all pending)

read_one_message-full :
    (input : SslInput) (pending : ByteBuffer)
    → Delivers input
    → buffer_size < length pending
    → read_one_message input pending ≡ ok (take buffer_size pending)
unfolding read_one_message
read_one_message-full input pending d more = rw (d.full (length pending) buffer_size more) refl

-- A response to a request: it echoes command and id, unless the id is zero; or it is a BadRequest that
-- copies the message.
abbrev pub Answers : StandardRequest → ByteBuffer → StandardResponse → Type 0
Answers r raw response =
    ((r.request_id ≢ 0)
      × (response.command ≡ r.command)
      × (response.request_id ≡ some r.request_id))
    ⊎ (response ≡ refusal raw)

Fits-Answers :
    (r : StandardRequest) (raw : ByteBuffer) (response : StandardResponse)
    → read_request raw ≡ ok r
    → Fits raw response
    → Answers r raw response
Fits-Answers r raw response e (inr copied) = inr copied
Fits-Answers r raw response e (inl (request, read, fine, command, id)) =
    let same : request ≡ r = ground (arith, e, read) in
    inl ((λ zero. fine (inl (ap (λ q. q.request_id) same ∙ zero))), ground arith, ground arith)

-- What the client makes of the bytes that come back.
send_request-peer :
    (ssl : Ssl) (input : SslInput) (back : ByteBuffer → ByteBuffer) (r : StandardRequest)
    (raw : ByteBuffer)
    → Writes ssl
    → encoded_request r ≡ ok raw
    → send_request ssl input back r ≡ (read_one_message input (back raw) >>= read_answer)
unfolding send_request
send_request-peer ssl input back r raw writes framed =
    let (after, wrote, sent) = write_all_sends ssl writes raw fresh_wire in
    rw (framed, wrote, sent) refl

module _ (ssl : Ssl) (input : SslInput) (back : ByteBuffer → ByteBuffer) (r : StandardRequest)
    (raw bytes : ByteBuffer) (response : StandardResponse) (writes : Writes ssl)
    (reads : Delivers input) (framed : encoded_request r ≡ ok raw) (comes : back raw ≡ bytes)
    (sendable : Responses.IsSendable response) (answer : encoded response ≡ ok bytes)
    (legible : read_answer bytes ≡ ok response) where
  pub short_answer : length bytes ≤ buffer_size → send_request ssl input back r ≡ ok response
  short_answer fits =
      send_request-peer ssl input back r raw writes framed
      ∙ rw
          (
            comes,
            read_one_message-whole input bytes reads (some_bytes response bytes sendable answer)
                fits,
          )
          legible

  long_answer :
      buffer_size < length bytes → send_request ssl input back r ≡ err "KLV value length mismatch"
  long_answer more =
      send_request-peer ssl input back r raw writes framed
      ∙ rw (comes, read_one_message-full input bytes reads more)
          (cut_answer response bytes buffer_size sendable answer (omega arith) more)

module _ {S : Type 0} (service : AsmService S) (server client : Ssl)
    (to_server to_client : SslInput) (server_writes : Writes server) (client_writes : Writes client)
    (server_reads : Delivers to_server) (client_reads : Delivers to_client) where
  peer-bytes :
      (now : ℕ) (s : Session S) (raw bytes : ByteBuffer)
      → 0 < length raw
      → length raw ≤ buffer_size
      → (serve_message service server now raw (record s { wire = fresh_wire })).1.wire.sent ≡ bytes
      → peer service server to_server now s raw ≡ bytes
  unfolding answer_client answered
  peer-bytes now s raw bytes some_raw fits e =
      rw (peer, read_one_message-whole to_server raw server_reads some_raw fits) e

  -- A client that sends a request that can be sent, of at most 4096 bytes in all, causes one
  -- response of the server, which echoes command and id, or is a BadRequest with a copy of what the
  -- client sent, always so for the id zero. The client reads the response if that has at most 4096
  -- bytes too; a longer one is cut, and `send_request` throws for its size. Each `SSL_write` is
  -- taken to write a byte at least, and each `SSL_read` to deliver as much of what is under way as
  -- the buffer holds.
  pub send_request-answer :
      (now : ℕ) (r : StandardRequest) (s : Session S)
      → IsSendable r
      → 24 + length r.payload ≤ buffer_size
      → (raw : ByteBuffer) × (response : StandardResponse) × (bytes : ByteBuffer) × (encoded_request
            r
          ≡ ok raw)
        × Answers r raw response
        × (encoded response ≡ ok bytes)
        × (length bytes ≤ buffer_size
            → send_request client to_client (peer service server to_server now s) r ≡ ok response)
        × (buffer_size < length bytes
            → send_request client to_client (peer service server to_server now s) r
              ≡ err "KLV value length mismatch")
  send_request-answer now r s sendable short =
      let (raw, framed, read, size) = encoded_request-sendable r sendable in
      let a =
        serve_message_answers service server server_writes raw now (record s { wire = fresh_wire })
          (λ request e. ground (arith, read, sendable.id_fits)) (omega (arith, size)) in
      let comes = peer-bytes now s raw a.bytes (omega (arith, size)) (omega (arith, size)) a.sent in
      let back = peer service server to_server now s in
      (
        raw,
        a.response,
        a.bytes,
        framed,
        Fits-Answers r raw a.response read a.fitting,
        a.framed,
        short_answer client to_client back r raw a.bytes a.response client_writes client_reads
            framed comes a.sendable a.framed a.legible,
        long_answer client to_client back r raw a.bytes a.response client_writes client_reads framed
            comes a.sendable a.framed a.legible,
      )
