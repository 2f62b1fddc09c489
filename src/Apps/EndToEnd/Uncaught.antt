-- ===== src/Apps/EndToEnd/Uncaught.antt =====
-- src/apps/asm_initiator.cpp with an answer that it cannot print.
use iso26430_6_asm_prototype.Base.{
  ℕ, ◌<◌, ◌≡◌, refl, inr, [], ◌∷◌, ◌++◌, arith, ok, err, IsU32, Text,
}
use iso26430_6_asm_prototype.Common.{ByteBuffer, ServiceResult, invalid, get_event_list}
use iso26430_6_asm_prototype.Apps.EndToEnd.{session_over, responder_over, exchange_over}
use iso26430_6_asm_prototype.Apps.Initiator.Orders.{
  list_events, asked, IsOrder, command_line, prepare-command_line,
}
use iso26430_6_asm_prototype.Apps.Initiator.Printing.{
  payload_text, result_line, aborts, main, main-aborts,
}
use iso26430_6_asm_prototype.Apps.Initiator.Replies.{asked-IsSendable}
use iso26430_6_asm_prototype.Batch.{decode_batch}
use iso26430_6_asm_prototype.EventLog.Payload.{decode_list_response, decode_u32_batch}
use iso26430_6_asm_prototype.EventLog.Payload.RoundTrip.{decode_requests}
use iso26430_6_asm_prototype.Security.Certificates.{OpenSsl, PeerIdentity}
use iso26430_6_asm_prototype.Security.Profile.{Returns, TlsConfig, tls_config}
use iso26430_6_asm_prototype.Service.{handle_request, dispatch}
use iso26430_6_asm_prototype.Service.Handlers.{AsmService, handle_get_event_list, reply}
use iso26430_6_asm_prototype.Transport.Client.{Route}
use iso26430_6_asm_prototype.Transport.Client.Reached.{Reaches}
use iso26430_6_asm_prototype.Transport.Frames.{encoded_request, encoded_request-sendable}
use iso26430_6_asm_prototype.Transport.Server.{Connection, Server}
use iso26430_6_asm_prototype.Transport.Server.Admitted.{Admits}
use iso26430_6_asm_prototype.Transport.Session.{SessionTrace}
use iso26430_6_asm_prototype.Transport.Session.Handled.{traced}

-- The service's answer to a window of times that ends before it starts.
inverted_answer : ℕ → ℕ → ServiceResult
inverted_answer start stop =
    reply get_event_list (asked (list_events start stop)) [] invalid
      "GetEventList rejected because time_start > time_stop"

inverted_refused :
    {S : Type 0} (service : AsmService S) (now start stop : ℕ) (raw : ByteBuffer) (s : S)
    → IsU32 start
    → IsU32 stop
    → stop < start
    → handle_request service now (asked (list_events start stop)) raw s
      ≡ (ok (inverted_answer start stop), s)
unfolding handle_request dispatch handle_get_event_list asked inverted_answer
inverted_refused service now start stop raw s fits fits2 h =
    rw (decode_requests start stop 0 fits fits2 (omega arith)).0 (ground (arith, h))

inverted_unprintable :
    (start stop : ℕ) (thumbprint : Text)
    → result_line
        (record { response = (inverted_answer start stop).response; peer_thumbprint = thumbprint })
      ≡ err "batch payload too short"
unfolding result_line payload_text decode_list_response decode_u32_batch decode_batch
    inverted_answer
inverted_unprintable start stop thumbprint = refl

module _ {S P Q : Type 0} (service : AsmService S) (config : TlsConfig) (server_returns : Returns)
    (server_ssl : OpenSsl Q) (returns : Returns) (openssl : OpenSsl P)
    (name host certificate key ca : Text) where
  -- A user asks for a window of times whose end comes before its start; the times have 32 bits. Client and
  -- server let each other in, every write takes a byte at least, and every read delivers what there is.
  -- Then asm_initiator ends with an exception that nobody catches, that of the decoder of a batch, and
  -- the server has done its part whatever its event log and its key store are: its session ends
  -- without an exception, leaves the key store as it was, and tells the observer that the request was
  -- invalid.
  pub inverted_range_uncaught :
      (start stop : ℕ) (route : Text → ℕ → Route P) (c : Connection Q)
      (server_identity client_identity : PeerIdentity) (s : Server S)
      → IsU32 start
      → IsU32 stop
      → stop < start
      → Reaches (tls_config certificate key ca) returns openssl (route host 1173) server_identity
      → Admits config server_returns server_ssl c client_identity
      → (main returns openssl route
            (responder_over service config server_returns server_ssl c s)
            (command_line name host certificate key ca (list_events start stop))
          ≡ aborts "batch payload too short")
        × ((raw : ByteBuffer) × (trace : SessionTrace) × (encoded_request
                (asked (list_events start stop))
              ≡ ok raw)
            × ((session_over service config server_returns server_ssl c raw s).0 ≡ ok tt)
            × ((session_over service config server_returns server_ssl c raw s).1.store ≡ s.store)
            × ((session_over service config server_returns server_ssl c raw s).1.traces
                ≡ s.traces ++ trace ∷ [])
            × (trace.command ≡ get_event_list)
            × (trace.status ≡ invalid))
  unfolding inverted_answer asked IsOrder
  inverted_range_uncaught start stop route c server_identity client_identity s fits fits2 h reached
        admitted =
      let o = list_events start stop in
      let (sendable, small) = asked-IsSendable o (fits, fits2) in
      let (raw, framed, read, size) = encoded_request-sendable (asked o) sendable in
      let refused = inverted_refused service c.now start stop raw s.store fits fits2 h in
      let result = inverted_answer start stop in
      let (bytes, serves, heard) =
        exchange_over service config server_returns server_ssl (tls_config certificate key ca)
          returns openssl (route host 1173) server_identity reached (asked o) c client_identity s
          raw result 1 admitted framed read size small (rw refused refl)
          (record { right_id = inr ((λ bad. cc), (1, refl, omega arith)); size_fits = omega arith })
          refl (omega arith) in
      (
        main-aborts returns openssl route
            (responder_over service config server_returns server_ssl c s)
            (command_line name host certificate key ca o) (tls_config certificate key ca) host _
            (asked o) _ (prepare-command_line name host certificate key ca o (fits, fits2)) heard
            (inverted_unprintable start stop server_identity.sha256_thumbprint),
        (
          raw,
          traced client_identity.sha256_thumbprint (asked o) result,
          framed,
          rw serves refl,
          rw (serves, refused) refl,
          rw serves refl,
          refl,
          refl,
        ),
      )
