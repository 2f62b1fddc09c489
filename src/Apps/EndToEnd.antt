-- ===== src/Apps/EndToEnd.antt =====
-- src/apps/asm_initiator.cpp and src/transport/tls_server.cpp together: an order that a user types, and what the
-- user reads and the responder's keys are in the end.
pub mod Reply
pub mod Visits
pub mod OnDisk
pub mod Uncaught
use iso26430_6_asm_prototype.Base.{
  ℕ, ◌+◌, ◌≤◌, ◌<◌, ◌≡◌, refl, inl, inr, some, List, [], ◌∷◌, ◌++◌, true, length, arith, Result, ok,
  ◌>>=◌, bind_ok, Text, codes, sym, ◌∙◌,
}
use iso26430_6_asm_prototype.Common.{
  ByteBuffer, bad_request, ServiceResult, StandardRequest, command_to_string, response_to_string,
}
use iso26430_6_asm_prototype.Apps.Initiator.Answers.{
  answer_text, told, IsAnswerable, answer_text-told,
}
use iso26430_6_asm_prototype.Apps.Initiator.Orders.{
  Order, asked, IsOrder, command_line, prepare-command_line,
}
use iso26430_6_asm_prototype.Apps.Initiator.Printing.{
  payload_text, result_line, exits, main, main-exits,
}
use iso26430_6_asm_prototype.Apps.Initiator.Replies.{
  carried_out, reply_code, reply_size, answer_shape-reply, asked_payload, asked-IsSendable,
}
use iso26430_6_asm_prototype.Codec.Responses.{IsSendable}
use iso26430_6_asm_prototype.EventLog.{EventLogStore}
use iso26430_6_asm_prototype.LeKey.Store.{Keys}
use iso26430_6_asm_prototype.QuerySpb.{StaticQuerySpbStatusProvider}
use iso26430_6_asm_prototype.Security.Certificates.{OpenSsl, PeerIdentity}
use iso26430_6_asm_prototype.Security.Profile.{Returns, TlsConfig, tls_config}
use iso26430_6_asm_prototype.Service.{handle_request}
use iso26430_6_asm_prototype.Service.Answers.{handle_request_answer}
use iso26430_6_asm_prototype.Service.Handlers.{AsmService}
use iso26430_6_asm_prototype.Service.KeyCommands.{in_memory_service}
use iso26430_6_asm_prototype.Streams.{decimal}
use iso26430_6_asm_prototype.Transport.Client.{Route, send_request}
use iso26430_6_asm_prototype.Transport.Client.Reached.{Reaches, send_request_reached}
use iso26430_6_asm_prototype.Transport.Exchange.Dialog.{short_answer}
use iso26430_6_asm_prototype.Transport.Frames.{
  encoded, read_request, encoded_request, encoded_request-sendable, encoded-sendable,
  length-encoded,
}
use iso26430_6_asm_prototype.Transport.Reading.{buffer_size}
use iso26430_6_asm_prototype.Transport.Server.{Connection, Server, serve_client}
use iso26430_6_asm_prototype.Transport.Server.Admitted.{Admits, serve_client_admitted}
use iso26430_6_asm_prototype.Transport.Session.{SessionTrace}
use iso26430_6_asm_prototype.Transport.Server.Rounds.{admission}
use iso26430_6_asm_prototype.Transport.Session.Handled.{traced}
use Reply.{OrderReply, order_reply, reply_line, result_line-reply_line, reply-IsSendable}

-- All that one session wrote.
abbrev pub first_written : List ByteBuffer → ByteBuffer
first_written [] = []
first_written (bytes ∷ others) = bytes

module _ {S Q : Type 0} (service : AsmService S) (config : TlsConfig) (server_returns : Returns)
    (server_ssl : OpenSsl Q) where
  -- A server serves one client, and tells the observer.
  abbrev pub session_over : Connection Q → ByteBuffer → Server S → Result (Unit {0}) × Server S
  session_over c raw s =
      serve_client service config server_returns server_ssl true (record c { pending = raw }) s

  -- What the client hears when it has sent these bytes.
  abbrev pub responder_over : Connection Q → Server S → ByteBuffer → ByteBuffer
  responder_over c s raw = first_written (session_over c raw (record s { written = [] })).1.written

  session_over_served :
      (r : StandardRequest) (c : Connection Q) (identity : PeerIdentity) (s : Server S)
      (raw bytes : ByteBuffer) (result : ServiceResult)
      → Admits config server_returns server_ssl c identity
      → 0 < length raw
      → length raw ≤ buffer_size
      → read_request raw ≡ ok r
      → (handle_request service c.now r raw s.store).0 ≡ ok result
      → encoded result.response ≡ ok bytes
      → session_over c raw s ≡ (
        ok tt,
        record {
          store = (handle_request service c.now r raw s.store).1;
          traces = s.traces ++ traced identity.sha256_thumbprint r result ∷ [];
          written = s.written ++ bytes ∷ [];
          sockets = s.sockets;
        },
      )
  unfolding admission
  session_over_served r c identity s raw bytes result h =
      serve_client_admitted service config server_returns server_ssl (record c { pending = raw })
        identity (record { enters = h.enters; writes = h.writes; reads = h.reads }) s r result bytes

  -- A request that can be sent, of 40 bytes at most, and a short answer to it that can be sent: the session
  -- does what the handler does and tells the observer, and the client has the answer.
  pub exchange_over :
      {P : Type 0} (client_config : TlsConfig) (returns : Returns) (openssl : OpenSsl P)
      (route : Route P) (server_identity : PeerIdentity)
      → Reaches client_config returns openssl route server_identity
      → (r : StandardRequest) (c : Connection Q) (client_identity : PeerIdentity) (s : Server S)
        (raw : ByteBuffer) (result : ServiceResult) (id : ℕ)
      → Admits config server_returns server_ssl c client_identity
      → encoded_request r ≡ ok raw
      → read_request raw ≡ ok r
      → length raw ≡ 24 + length r.payload
      → length r.payload ≤ 40
      → (handle_request service c.now r raw s.store).0 ≡ ok result
      → IsSendable result.response
      → result.response.request_id ≡ some id
      → 25 + length result.response.payload ≤ buffer_size
      → (bytes : ByteBuffer) × (session_over c raw s ≡ (
        ok tt,
        record {
          store = (handle_request service c.now r raw s.store).1;
          traces = s.traces ++ traced client_identity.sha256_thumbprint r result ∷ [];
          written = s.written ++ bytes ∷ [];
          sockets = s.sockets;
        },
      ))
        × (send_request client_config returns openssl route (responder_over c s) r
            ≡ ok (record {
              response = result.response;
              peer_thumbprint = server_identity.sha256_thumbprint;
            }))
  exchange_over client_config returns openssl route server_identity reached r c client_identity s
        raw result id admitted framed read size small handled can_be_sent one short =
      let (bytes, written, legible) = encoded-sendable result.response can_be_sent in
      let measured = length-encoded result.response bytes can_be_sent written in
      let some_raw : 0 < length raw = omega (arith, size) in
      let short_raw : length raw ≤ buffer_size = omega (arith, size, small) in
      let replies =
        session_over_served r c client_identity (record s { written = [] }) raw bytes result
          admitted some_raw short_raw read handled written in
      let comes : responder_over c s raw ≡ bytes = rw replies refl in
      let heard =
        short_answer route.ssl route.input (responder_over c s) r raw bytes result.response
          reached.writes reached.reads framed comes can_be_sent written legible
          (omega (arith, rw one at measured, short)) in
      (
        bytes,
        session_over_served r c client_identity s raw bytes result admitted some_raw short_raw read
            handled written,
        send_request_reached client_config returns openssl route server_identity
            (responder_over c s) r result.response reached heard,
      )

module _ (log : EventLogStore) (status : StaticQuerySpbStatusProvider) where
  module _ {Q : Type 0} (config : TlsConfig) (server_returns : Returns)
      (server_ssl : OpenSsl Q) where
    -- The responder with its keys in memory.
    abbrev pub session : Connection Q → ByteBuffer → Server Keys → Result (Unit {0}) × Server Keys
    session = session_over (in_memory_service log status) config server_returns server_ssl

    abbrev pub responder : Connection Q → Server Keys → ByteBuffer → ByteBuffer
    responder = responder_over (in_memory_service log status) config server_returns server_ssl

    module _ {P : Type 0} (returns : Returns) (openssl : OpenSsl P)
        (name host certificate key ca : Text) where
      -- What a user types is done. The numbers of the order fit their types and a key has 16 bytes; a window
      -- of times does not end before it starts; the answer fits its fields and 4096 bytes; client and
      -- server let each other in; and every write takes a byte at least, and every read delivers what
      -- there is. Then asm_initiator exits with 0 and prints the server's thumbprint, the command, the
      -- response code, the id, and what was asked for. The session of the server, over the keys in
      -- memory and for the bytes that asm_initiator sends, ends without an exception, leaves the keys as
      -- the order says, and tells the observer the client's thumbprint, the command and the response
      -- code.
      pub order_carried_out :
          (o : Order) (route : Text → ℕ → Route P) (c : Connection Q)
          (server_identity client_identity : PeerIdentity) (s : Server Keys)
          → IsOrder o
          → IsAnswerable log status c.now o s.store
          → 25 + reply_size log status c.now o s.store ≤ buffer_size
          → Reaches
              (tls_config certificate key ca)
              returns
              openssl
              (route host 1173)
              server_identity
          → Admits config server_returns server_ssl c client_identity
          → (main returns openssl route
                (responder c s)
                (command_line name host certificate key ca o)
              ≡ exits 0
                  (reply_line log status server_identity.sha256_thumbprint c.now o s.store)
                  "")
            × ((raw : ByteBuffer) × (trace : SessionTrace) × (encoded_request (asked o) ≡ ok raw)
                × ((session c raw s).0 ≡ ok tt)
                × ((session c raw s).1.store ≡ carried_out o s.store)
                × ((session c raw s).1.traces ≡ s.traces ++ trace ∷ [])
                × (trace.peer_thumbprint ≡ client_identity.sha256_thumbprint)
                × (trace.command ≡ (asked o).command)
                × (trace.status ≡ reply_code log status c.now o s.store))
      order_carried_out o route c server_identity client_identity s h fits short reached admitted =
          let (sendable, small) = asked-IsSendable o h in
          let (raw, framed, read, size) = encoded_request-sendable (asked o) sendable in
          let reply = order_reply log status c.now raw o s.store h fits in
          let can_be_sent = reply-IsSendable log status c.now raw o s.store reply h short in
          let (bytes, serves, heard) =
            exchange_over (in_memory_service log status) config server_returns server_ssl
              (tls_config certificate key ca) returns openssl (route host 1173) server_identity
              reached (asked o) c client_identity s raw reply.result 1 admitted framed read size
              small reply.handled can_be_sent reply.id (omega (arith, reply.size, short)) in
          (
            main-exits returns openssl route (responder c s)
                (command_line name host certificate key ca o) (tls_config certificate key ca) host _
                (asked o) _ (prepare-command_line name host certificate key ca o h) heard
                (result_line-reply_line log status c.now raw o s.store
                  server_identity.sha256_thumbprint reply),
            (
              raw,
              traced client_identity.sha256_thumbprint (asked o) reply.result,
              framed,
              rw serves refl,
              rw serves reply.effect,
              rw serves refl,
              refl,
              refl,
              reply.code,
            ),
          )
