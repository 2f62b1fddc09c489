-- ===== src/Transport/Server/Simulation.antt =====
-- One key store in place of another under `TlsServer` of src/transport/tls_server.cpp: the whole server, when the
-- two stores do the same.
pub mod Loops
use iso26430_6_asm_prototype.Base.{
  ℕ, ◌≡◌, refl, String, List, [], ◌∷◌, ◌++◌, Bool, true, false, Result, ok, err, Result-cases,
  Bool-cases, inl, inr,
}
use iso26430_6_asm_prototype.Common.{ByteBuffer}
use iso26430_6_asm_prototype.Codec.{decode_request}
use iso26430_6_asm_prototype.EventLog.{EventLogStore}
use iso26430_6_asm_prototype.Klv
use iso26430_6_asm_prototype.LeKey.{LeKeyStore}
use iso26430_6_asm_prototype.QuerySpb.{StaticQuerySpbStatusProvider}
use iso26430_6_asm_prototype.Security.Certificates.{OpenSsl}
use iso26430_6_asm_prototype.Security.Profile.{Returns, TlsConfig}
use iso26430_6_asm_prototype.Service.{handle_request, handle_decode_failure, bad_request_result}
use iso26430_6_asm_prototype.Service.Handlers.{AsmService}
use iso26430_6_asm_prototype.Service.Refinement.{Agrees, Refines, handle_request-Agrees}
use iso26430_6_asm_prototype.Transport.Exchange.{fresh_wire, answer_client, answered}
use iso26430_6_asm_prototype.Transport.Frames.{encoded}
use iso26430_6_asm_prototype.Transport.Reading.{read_one_message}
use iso26430_6_asm_prototype.Transport.Server.{
  Connection, Ready, failed, timeout, ready, Turn, opened, Server, serve_client, after_answer,
  reported, handle_client, loop, loop_body,
}
use iso26430_6_asm_prototype.Transport.Server.Rounds.{admission, serve_client-admission}
use iso26430_6_asm_prototype.Transport.Server.Starting.{startup, start-startup}
use iso26430_6_asm_prototype.Transport.Session.{
  Session, fresh_trace, attempt, recover, serve_message, caught,
}
use iso26430_6_asm_prototype.Transport.Socket.{accept}
use iso26430_6_asm_prototype.Transport.Writing.{Ssl}

-- The session and the server with their stores seen through a view.
abbrev see_session : {S T : Type 0} → (S → T) → Session S → Session T
see_session view s = record { store = view s.store; wire = s.wire; trace = s.trace }

abbrev pub see : {S T : Type 0} → (S → T) → Server S → Server T
see view s = record {
  store = view s.store;
  traces = s.traces;
  written = s.written;
  sockets = s.sockets;
}

-- The service over a key store.
abbrev pub serving :
    {S : Type 0} → EventLogStore → StaticQuerySpbStatusProvider → LeKeyStore S → AsmService S
serving log status store = record {
  event_log_store = log;
  le_key_store = store;
  spb_status_provider = status;
}

module _ {S T : Type 0} (log : EventLogStore) (status : StaticQuerySpbStatusProvider)
    (concrete : LeKeyStore S) (abstract : LeKeyStore T) (view : S → T)
    (h : Refines concrete abstract view) where
  attempt-Agrees :
      (ssl : Ssl) (now : ℕ) (raw : ByteBuffer) (s : Session S)
      → Agrees
          (see_session view)
          (attempt (serving log status concrete) ssl now raw s)
          (attempt (serving log status abstract) ssl now raw (see_session view s))
  unfolding attempt
  attempt-Agrees ssl now raw s = elim (Result-cases (Klv.decode raw)) [
    | inr (m, bad) ↦ rw bad (refl, refl)
    | inl (p, read) ↦ elim (Result-cases (decode_request p)) [
      | inr (m, bad) ↦ rw (read, bad) (refl, refl)
      | inl (r, request) ↦
          let (same, seen) =
            handle_request-Agrees log status concrete abstract view h now r raw s.store in
          elim (Result-cases
            (handle_request (serving log status abstract) now r raw (view s.store)).0) [
              | inr (m, thrown) ↦ rw (read, request, same, ← seen, thrown) (refl, refl)
              | inl (result, handled) ↦ elim (Result-cases (encoded result.response)) [
                | inr (m, bad) ↦ rw (read, request, same, ← seen, handled, bad) (refl, refl)
                | inl (out, framed) ↦ rw (read, request, same, ← seen, handled, framed) (refl, refl)
              ]
            ]
    ]
  ]

  recover-Agrees :
      (ssl : Ssl) (raw : ByteBuffer) (what : String) (s : Session S)
      → Agrees
          (see_session view)
          (recover (serving log status concrete) ssl raw what s)
          (recover (serving log status abstract) ssl raw what (see_session view s))
  unfolding recover handle_decode_failure
  recover-Agrees ssl raw what s =
      elim (Result-cases (encoded (bad_request_result raw what).response)) [
        | inl (bytes, framed) ↦ rw framed (refl, refl)
        | inr (m, bad) ↦ rw bad (refl, refl)
      ]

  caught-Agrees :
      (ssl : Ssl) (raw : ByteBuffer) (o : Result (Unit {0}) × Session S)
      (p : Result (Unit {0}) × Session T)
      → Agrees (see_session view) o p
      → Agrees
          (see_session view)
          (caught (serving log status concrete) ssl raw o)
          (caught (serving log status abstract) ssl raw p)
  unfolding caught
  caught-Agrees ssl raw (ok done, s) (q, t) (same, seen) = rw (← same, ← seen) (refl, refl)
  caught-Agrees ssl raw (err what, s) (q, t) (same, seen) =
      rw (← same, ← seen) (recover-Agrees ssl raw what s)

  serve_message-Agrees :
      (ssl : Ssl) (now : ℕ) (raw : ByteBuffer) (s : Session S)
      → Agrees
          (see_session view)
          (serve_message (serving log status concrete) ssl now raw s)
          (serve_message (serving log status abstract) ssl now raw (see_session view s))
  unfolding serve_message
  serve_message-Agrees ssl now raw s = caught-Agrees ssl raw _ _ (attempt-Agrees ssl now raw s)

  answer_client-Agrees :
      {P : Type 0}
      → (c : Connection P) (s : Session S)
      → Agrees
          (see_session view)
          (answer_client (serving log status concrete) c.ssl c.input c.now c.pending s)
          (answer_client
            (serving log status abstract)
            c.ssl
            c.input
            c.now
            c.pending
            (see_session view s))
  unfolding answer_client answered
  answer_client-Agrees c s = elim (Result-cases (read_one_message c.input c.pending)) [
    | inl (raw, e) ↦ rw e (serve_message-Agrees c.ssl c.now raw s)
    | inr (what, e) ↦ rw e (refl, refl)
  ]

  module _ {P : Type 0} (config : TlsConfig) (returns : Returns) (openssl : OpenSsl P)
      (observer : Bool) where
    after_answer-Agrees :
        (o : Result (Unit {0}) × Session S) (p : Result (Unit {0}) × Session T) (s : Server S)
        → Agrees (see_session view) o p
        → Agrees
            (see view)
            (after_answer (serving log status concrete) config returns openssl observer o s)
            (after_answer
              (serving log status abstract)
              config
              returns
              openssl
              observer
              p
              (see view s))
    after_answer-Agrees (ok done, session) (q, t) s (same, seen) =
        rw (← same, ← seen)
          (elim (Bool-cases observer) [
            | inl on ↦ rw on (refl, refl)
            | inr off ↦ rw off (refl, refl)
          ])
    after_answer-Agrees (err what, session) (q, t) s (same, seen) = rw (← same, ← seen) (refl, refl)

    pub serve_client-Agrees :
        (c : Connection P) (s : Server S)
        → Agrees
            (see view)
            (serve_client (serving log status concrete) config returns openssl observer c s)
            (serve_client
              (serving log status abstract)
              config
              returns
              openssl
              observer
              c
              (see view s))
    serve_client-Agrees c s =
        let entry =
          serve_client-admission (serving log status concrete) config returns openssl observer c
            s in
        let entry2 =
          serve_client-admission (serving log status abstract) config returns openssl observer c
            (see view s) in
        elim (Result-cases (admission config returns openssl c)) [
          | inr (what, e) ↦ rw (entry, entry2, e) (refl, refl)
          | inl (peer, e) ↦
              let session : Session S = record {
                store = s.store;
                wire = fresh_wire;
                trace = fresh_trace peer.sha256_thumbprint;
              } in
              rw (entry, entry2, e) (after_answer-Agrees _ _ s (answer_client-Agrees c session))
        ]

    reported-Agrees :
        (o : Result (Unit {0}) × Server S) (p : Result (Unit {0}) × Server T)
        → Agrees (see view) o p
        → see view (reported (serving log status concrete) config returns openssl observer o)
          ≡ reported (serving log status abstract) config returns openssl observer p
    reported-Agrees (ok done, s) (q, t) (same, seen) = rw (← same, ← seen) refl
    reported-Agrees (err what, s) (q, t) (same, seen) =
        rw (← same, ← seen)
          (elim (Bool-cases observer) [ inl on ↦ rw on refl | inr off ↦ rw off refl ])

    pub handle_client-see :
        (fd : ℕ) (c : Connection P) (s : Server S)
        → see view
            (handle_client (serving log status concrete) config returns openssl observer fd c s)
          ≡ handle_client
              (serving log status abstract)
              config
              returns
              openssl
              observer
              fd
              c
              (see view s)
    handle_client-see fd c s =
        let begun : Server S = record s { sockets = s.sockets ++ opened fd ∷ [] } in
        rw (← (reported-Agrees _ _ (serve_client-Agrees c begun))) refl
