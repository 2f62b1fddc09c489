-- ===== src/Transport/Server/Stores.antt =====
-- What holds of the key store, whatever the server is sent.
use iso26430_6_asm_prototype.Base.{
  ℕ, ◌≡◌, String, List, [], ◌∷◌, ◌++◌, arith, Bool, true, false, Result, ok, err, take, All,
  All-take, IsByte, Result-cases, Bool-cases, inl, inr, length, ◌==◌,
}
use iso26430_6_asm_prototype.Common.{ByteBuffer, StandardRequest}
use iso26430_6_asm_prototype.Codec.{decode_request}
use iso26430_6_asm_prototype.Codec.Requests.{decode_request-IsByte}
use iso26430_6_asm_prototype.Klv
use iso26430_6_asm_prototype.Klv.RoundTrip.{decode-IsByte}
use iso26430_6_asm_prototype.Security.Certificates.{OpenSsl}
use iso26430_6_asm_prototype.Security.Profile.{Returns, TlsConfig}
use iso26430_6_asm_prototype.Service.{handle_request}
use iso26430_6_asm_prototype.Service.Handlers.{AsmService}
use iso26430_6_asm_prototype.Transport.Exchange.{fresh_wire, answer_client, answered}
use iso26430_6_asm_prototype.Transport.Frames.{encoded}
use iso26430_6_asm_prototype.Transport.Reading.{read_one_message, buffer_size}
use iso26430_6_asm_prototype.Transport.Session.{
  Session, fresh_trace, attempt, recover, serve_message, caught,
}
use iso26430_6_asm_prototype.Transport.Server.{
  Connection, Ready, failed, timeout, ready, Turn, opened, Server, serve_client, after_answer,
  reported, handle_client, loop, loop_body,
}
use iso26430_6_asm_prototype.Transport.Server.Rounds.{serve_client_cases}
use iso26430_6_asm_prototype.Transport.Socket.{accept}
use iso26430_6_asm_prototype.Transport.Writing.{Ssl}

-- The handler keeps a property of the key store, when the payload of the request is bytes.
abbrev pub Keeps : {S : Type 0} → AsmService S → (S → Type 0) → Type 0
Keeps {S} service K =
    (now : ℕ) (request : StandardRequest) (raw : ByteBuffer) (s : S)
    → All IsByte request.payload
    → K s
    → K (handle_request service now request raw s).1

module _ {S : Type 0} (service : AsmService S) where
  pub recover-store :
      (ssl : Ssl) (raw : ByteBuffer) (what : String) (s : Session S)
      → (recover service ssl raw what s).1.store ≡ s.store
  unfolding recover
  recover-store ssl raw what s = ground arith

module _ {S : Type 0} (service : AsmService S) (K : S → Type 0) (keeps : Keeps service K) where
  attempt-keeps :
      (ssl : Ssl) (now : ℕ) (raw : ByteBuffer) (s : Session S)
      → All IsByte raw
      → K s.store
      → K (attempt service ssl now raw s).1.store
  unfolding attempt
  attempt-keeps ssl now raw s bytes h = elim (Result-cases (Klv.decode raw)) [
    | inr (m, bad) ↦ rw bad h
    | inl (p, read) ↦ elim (Result-cases (decode_request p)) [
      | inr (m, bad) ↦ rw (read, bad) h
      | inl (r, request) ↦
          let payload = decode_request-IsByte p r (decode-IsByte raw p bytes read) request in
          let kept = keeps now r raw s.store payload h in
          elim (Result-cases (handle_request service now r raw s.store).0) [
            | inr (m, thrown) ↦ rw (read, request, thrown) kept
            | inl (result, handled) ↦ elim (Result-cases (encoded result.response)) [
              | inr (m, bad) ↦ rw (read, request, handled, bad) kept
              | inl (out, framed) ↦ rw (read, request, handled, framed) kept
            ]
          ]
    ]
  ]

  caught-keeps :
      (ssl : Ssl) (raw : ByteBuffer) (o : Result (Unit {0}) × Session S)
      → K o.1.store
      → K (caught service ssl raw o).1.store
  unfolding caught
  caught-keeps ssl raw (ok done, s) h = h
  caught-keeps ssl raw (err what, s) h = rw (recover-store service ssl raw what s) h

  serve_message-keeps :
      (ssl : Ssl) (now : ℕ) (raw : ByteBuffer) (s : Session S)
      → All IsByte raw
      → K s.store
      → K (serve_message service ssl now raw s).1.store
  unfolding serve_message
  serve_message-keeps ssl now raw s bytes h =
      caught-keeps ssl raw (attempt service ssl now raw s) (attempt-keeps ssl now raw s bytes h)

  answer_client-keeps :
      {P : Type 0}
      → (c : Connection P) (s : Session S) → All IsByte c.pending
      → K s.store
      → K (answer_client service c.ssl c.input c.now c.pending s).1.store
  unfolding answer_client answered read_one_message
  answer_client-keeps c s bytes h =
      let rc = c.input.read (length c.pending) buffer_size in
      elim (Bool-cases (rc == 0)) [
        | inl nothing ↦ rw nothing h
        | inr some_read ↦ rw some_read (
            serve_message-keeps c.ssl c.now (take rc c.pending) s
              (All-take IsByte rc c.pending bytes) h)
      ]

-- What a client sends in a round is bytes.
abbrev pub SelectsBytes : {P : Type 0} → Ready P → Type 0
SelectsBytes (ready client c) = All IsByte c.pending
SelectsBytes _ = Unit {0}

abbrev pub BringsBytes : {P : Type 0} → Turn P → Type 0
BringsBytes turn = SelectsBytes turn.select

module _ {S P : Type 0} (service : AsmService S) (config : TlsConfig) (returns : Returns)
    (openssl : OpenSsl P) (observer : Bool) (K : S → Type 0) (keeps : Keeps service K) where
  after_answer-keeps :
      (o : Result (Unit {0}) × Session S) (s : Server S)
      → K o.1.store
      → K (after_answer service config returns openssl observer o s).1.store
  after_answer-keeps (ok done, session) s h = elim (Bool-cases observer) [
    | inl on ↦ rw on h
    | inr off ↦ rw off h
  ]
  after_answer-keeps (err what, session) s h = h

  serve_client-keeps :
      (c : Connection P) (s : Server S)
      → All IsByte c.pending
      → K s.store
      → K (serve_client service config returns openssl observer c s).1.store
  serve_client-keeps c s bytes h =
      elim (serve_client_cases service config returns openssl observer c s) [
        | inl (what, e) ↦ rw e h
        | inr (peer, e) ↦
            let session : Session S = record {
              store = s.store;
              wire = fresh_wire;
              trace = fresh_trace peer.sha256_thumbprint;
            } in
            rw e (
              after_answer-keeps (answer_client service c.ssl c.input c.now c.pending session) s
                (answer_client-keeps service K keeps c session bytes h))
      ]

  reported-keeps :
      (o : Result (Unit {0}) × Server S)
      → K o.1.store
      → K (reported service config returns openssl observer o).store
  reported-keeps (ok done, s) h = h
  reported-keeps (err what, s) h = elim (Bool-cases observer) [
    | inl on ↦ rw on h
    | inr off ↦ rw off h
  ]

  handle_client-keeps :
      (fd : ℕ) (c : Connection P) (s : Server S)
      → All IsByte c.pending
      → K s.store
      → K (handle_client service config returns openssl observer fd c s).store
  handle_client-keeps fd c s bytes h =
      let begun : Server S = record s { sockets = s.sockets ++ opened fd ∷ [] } in
      reported-keeps (serve_client service config returns openssl observer c begun)
        (serve_client-keeps c begun bytes h)

  round-keeps :
      (stop : Bool) (select : Ready P) (turns : List (Turn P)) (s : Server S)
      → SelectsBytes select
      → ((next : Server S)
          → K next.store
          → K (loop service config returns openssl observer turns next).1.store)
      → K s.store
      → K
          (loop service config returns openssl observer
            ((record { stop = stop; select = select }) ∷ turns)
            s).1.store
  unfolding loop loop_body accept
  round-keeps true select turns s bytes rest h = h
  round-keeps false (failed true true) turns s bytes rest h = h
  round-keeps false (failed false stop) turns s bytes rest h = h
  round-keeps false (failed true false) turns s bytes rest h = rest s h
  round-keeps false timeout turns s bytes rest h = rest s h
  round-keeps false (ready (err what) c) turns s bytes rest h = h
  round-keeps false (ready (ok fd) c) turns s bytes rest h =
      rest (handle_client service config returns openssl observer fd c s)
        (handle_client-keeps fd c s bytes h)

  -- What every request keeps, the server keeps, whatever the rounds of its loop bring.
  pub loop-keeps :
      (turns : List (Turn P)) (s : Server S)
      → All BringsBytes turns
      → K s.store
      → K (loop service config returns openssl observer turns s).1.store
  unfolding loop
  loop-keeps [] s bytes h = h
  loop-keeps (turn ∷ turns) s (first, bytes) h =
      round-keeps turn.stop turn.select turns s first (λ next. loop-keeps turns next bytes) h
