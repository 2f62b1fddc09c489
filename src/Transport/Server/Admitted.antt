-- ===== src/Transport/Server/Admitted.antt =====
-- `TlsServer::serve_client` of src/transport/tls_server.cpp for a client that is let in.
use iso26430_6_asm_prototype.Base.{◌≤◌, ◌<◌, ◌≡◌, ◌∙◌, refl, [], ◌∷◌, ◌++◌, true, length, ok}
use iso26430_6_asm_prototype.Common.{ByteBuffer, StandardRequest, ServiceResult}
use iso26430_6_asm_prototype.Security.Certificates.{OpenSsl, PeerIdentity}
use iso26430_6_asm_prototype.Security.Profile.{Returns, TlsConfig}
use iso26430_6_asm_prototype.Service.{handle_request}
use iso26430_6_asm_prototype.Service.Handlers.{AsmService}
use iso26430_6_asm_prototype.Transport.Exchange.{fresh_wire, answer_client, answered}
use iso26430_6_asm_prototype.Transport.Exchange.Dialog.{Writes, Delivers, read_one_message-whole}
use iso26430_6_asm_prototype.Transport.Frames.{encoded, read_request}
use iso26430_6_asm_prototype.Transport.Reading.{buffer_size}
use iso26430_6_asm_prototype.Transport.Server.{Connection, Server, serve_client}
use iso26430_6_asm_prototype.Transport.Server.Rounds.{admission, serve_client-admission}
use iso26430_6_asm_prototype.Transport.Session.{Session, fresh_trace}
use iso26430_6_asm_prototype.Transport.Session.Handled.{traced, serve_message_handled}

-- The client is let in, every write takes a byte at least, and every read delivers
-- what there is.
pub record Admits {P : Type 0} (config : TlsConfig) (returns : Returns) (openssl : OpenSsl P)
    (c : Connection P) (identity : PeerIdentity) : Type 0 where
  pub enters : admission config returns openssl c ≡ ok identity
  pub writes : Writes c.ssl
  pub reads : Delivers c.input

module _ {S P : Type 0} (service : AsmService S) (config : TlsConfig) (returns : Returns)
    (openssl : OpenSsl P) (c : Connection P) (identity : PeerIdentity)
    (admitted : Admits config returns openssl c identity) where
  -- A request that is read whole, and that the service answers, is answered: the store is as the handler
  -- leaves it, the answer is written, and the observer is told.
  pub serve_client_admitted :
      (s : Server S) (r : StandardRequest) (result : ServiceResult) (bytes : ByteBuffer)
      → 0 < length c.pending
      → length c.pending ≤ buffer_size
      → read_request c.pending ≡ ok r
      → (handle_request service c.now r c.pending s.store).0 ≡ ok result
      → encoded result.response ≡ ok bytes
      → serve_client service config returns openssl true c s ≡ (
        ok tt,
        record {
          store = (handle_request service c.now r c.pending s.store).1;
          traces = s.traces ++ traced identity.sha256_thumbprint r result ∷ [];
          written = s.written ++ bytes ∷ [];
          sockets = s.sockets;
        },
      )
  unfolding answer_client answered
  serve_client_admitted s r result bytes some_bytes short read handled framed =
      let session : Session S = record {
        store = s.store;
        wire = fresh_wire;
        trace = fresh_trace identity.sha256_thumbprint;
      } in
      let (ended, store, sent, trace) =
        serve_message_handled service c.ssl admitted.writes c.now c.pending bytes r result session
          read handled framed in
      serve_client-admission service config returns openssl true c s
      ∙ rw
          (
            admitted.enters,
            read_one_message-whole c.input c.pending admitted.reads some_bytes short,
            ended,
            store,
            sent,
            trace,
          )
          refl
