-- ===== src/Transport/Server/Requests.antt =====
-- The loop of src/transport/tls_server.cpp as the service sees it: the requests that reach it, one after
-- another.
use iso26430_6_asm_prototype.Base.{
  ℕ, ◌≡◌, refl, List, [], ◌∷◌, ◌++◌, Bool, true, false, Result, ok, err, ◌>>=◌, ◌∙◌, if◌then◌else◌,
  Result-cases, Bool-cases, inl, inr,
}
use iso26430_6_asm_prototype.Common.{ByteBuffer}
use iso26430_6_asm_prototype.Codec.{decode_request}
use iso26430_6_asm_prototype.Klv
use iso26430_6_asm_prototype.Security.Certificates.{OpenSsl}
use iso26430_6_asm_prototype.Security.Profile.{Returns, TlsConfig}
use iso26430_6_asm_prototype.Service.{handle_request}
use iso26430_6_asm_prototype.Service.Handlers.{AsmService}
use iso26430_6_asm_prototype.Service.Refinement.{Arrival, run}
use iso26430_6_asm_prototype.Transport.Exchange.{fresh_wire, answer_client, answered}
use iso26430_6_asm_prototype.Transport.Frames.{encoded, read_request}
use iso26430_6_asm_prototype.Transport.Reading.{read_one_message}
use iso26430_6_asm_prototype.Transport.Server.{
  Connection, Ready, failed, timeout, ready, Turn, opened, Server, serve_client, after_answer,
  reported, handle_client, loop, loop_body,
}
use iso26430_6_asm_prototype.Transport.Server.Rounds.{admission, serve_client-admission}
use iso26430_6_asm_prototype.Transport.Server.Stores.{recover-store}
use iso26430_6_asm_prototype.Transport.Session.{
  Session, fresh_trace, attempt, serve_message, caught,
}
use iso26430_6_asm_prototype.Transport.Socket.{accept}
use iso26430_6_asm_prototype.Transport.Writing.{Ssl}

-- The request in a message, if there is one.
abbrev message_arrival : ℕ → ByteBuffer → Result Arrival
message_arrival now raw = do
  request ← read_request raw
  ok (record { now = now; request = request; raw = raw })

module _ {P : Type 0} (config : TlsConfig) (returns : Returns) (openssl : OpenSsl P) where
  -- The request that a client brings, if its handshake and its certificate are good and its message can
  -- be read.
  unfoldable pub arrival : Connection P → Result Arrival
  arrival c = do
    _ ← admission config returns openssl c
    raw ← read_one_message c.input c.pending
    message_arrival c.now raw

  abbrev with_arrival : Result Arrival → List Arrival → List Arrival
  with_arrival (ok a) rest = a ∷ rest
  with_arrival (err what) rest = rest

  -- What the rest of the rounds brings counts only if the loop goes on.
  abbrev select_arrivals : Ready P → List Arrival → List Arrival
  select_arrivals (failed true false) rest = rest
  select_arrivals (failed _ _) rest = []
  select_arrivals timeout rest = rest
  select_arrivals (ready (ok fd) c) rest = with_arrival (arrival c) rest
  select_arrivals (ready (err what) c) rest = []

  -- The requests of the clients of a run, in their order.
  unfoldable pub arrivals : List (Turn P) → List Arrival
  arrivals [] = []
  arrivals (turn ∷ turns) =
      let rest = arrivals turns in if turn.stop then [] else select_arrivals turn.select rest

module _ {S : Type 0} (service : AsmService S) where
  -- The effect of a request on the store, if there is one.
  abbrev pub stored : Result Arrival → S → S
  stored (ok a) s = (handle_request service a.now a.request a.raw s).1
  stored (err what) s = s

  attempt_store :
      (ssl : Ssl) (now : ℕ) (raw : ByteBuffer) (s : Session S)
      → (attempt service ssl now raw s).1.store ≡ stored (message_arrival now raw) s.store
  unfolding attempt read_request
  attempt_store ssl now raw s = elim (Result-cases (Klv.decode raw)) [
    | inr (m, bad) ↦ rw bad refl
    | inl (p, read) ↦ elim (Result-cases (decode_request p)) [
      | inr (m, bad) ↦ rw (read, bad) refl
      | inl (r, request) ↦ elim (Result-cases (handle_request service now r raw s.store).0) [
        | inr (m, thrown) ↦ rw (read, request, thrown) refl
        | inl (result, handled) ↦ elim (Result-cases (encoded result.response)) [
          | inr (m, bad) ↦ rw (read, request, handled, bad) refl
          | inl (out, framed) ↦ rw (read, request, handled, framed) refl
        ]
      ]
    ]
  ]

  caught_store :
      (ssl : Ssl) (raw : ByteBuffer) (o : Result (Unit {0}) × Session S)
      → (caught service ssl raw o).1.store ≡ o.1.store
  unfolding caught
  caught_store ssl raw (ok done, s) = refl
  caught_store ssl raw (err what, s) = recover-store service ssl raw what s

  serve_message_store :
      (ssl : Ssl) (now : ℕ) (raw : ByteBuffer) (s : Session S)
      → (serve_message service ssl now raw s).1.store ≡ stored (message_arrival now raw) s.store
  unfolding serve_message
  serve_message_store ssl now raw s =
      caught_store ssl raw (attempt service ssl now raw s) ∙ attempt_store ssl now raw s

  answer_client_store :
      {P : Type 0}
      → (c : Connection P) (s : Session S)
      → (answer_client service c.ssl c.input c.now c.pending s).1.store
        ≡ stored (read_one_message c.input c.pending >>= message_arrival c.now) s.store
  unfolding answer_client answered
  answer_client_store c s = elim (Result-cases (read_one_message c.input c.pending)) [
    | inl (raw, e) ↦ rw e (serve_message_store c.ssl c.now raw s)
    | inr (what, e) ↦ rw e refl
  ]

module _ {S P : Type 0} (service : AsmService S) (config : TlsConfig) (returns : Returns)
    (openssl : OpenSsl P) (observer : Bool) where
  after_answer_store :
      (o : Result (Unit {0}) × Session S) (s : Server S)
      → (after_answer service config returns openssl observer o s).1.store ≡ o.1.store
  after_answer_store (ok done, session) s = elim (Bool-cases observer) [
    | inl on ↦ rw on refl
    | inr off ↦ rw off refl
  ]
  after_answer_store (err what, session) s = refl

  serve_client_store :
      (c : Connection P) (s : Server S)
      → (serve_client service config returns openssl observer c s).1.store
        ≡ stored service (arrival config returns openssl c) s.store
  unfolding arrival
  serve_client_store c s =
      let entry = serve_client-admission service config returns openssl observer c s in
      elim (Result-cases (admission config returns openssl c)) [
        | inr (what, e) ↦ rw (entry, e) refl
        | inl (peer, e) ↦
            let session : Session S = record {
              store = s.store;
              wire = fresh_wire;
              trace = fresh_trace peer.sha256_thumbprint;
            } in
            rw (entry, e)
              (after_answer_store (answer_client service c.ssl c.input c.now c.pending session) s
                ∙ answer_client_store service c session)
      ]

  reported_store :
      (o : Result (Unit {0}) × Server S)
      → (reported service config returns openssl observer o).store ≡ o.1.store
  reported_store (ok done, s) = refl
  reported_store (err what, s) = elim (Bool-cases observer) [
    | inl on ↦ rw on refl
    | inr off ↦ rw off refl
  ]

  handle_client_store :
      (fd : ℕ) (c : Connection P) (s : Server S)
      → (handle_client service config returns openssl observer fd c s).store
        ≡ stored service (arrival config returns openssl c) s.store
  handle_client_store fd c s =
      let begun : Server S = record s { sockets = s.sockets ++ opened fd ∷ [] } in
      reported_store (serve_client service config returns openssl observer c begun)
      ∙ serve_client_store c begun

  run-stored :
      (a : Result Arrival) (rest : List Arrival) (s : S)
      → (run service (with_arrival config returns openssl a rest) s).1
        ≡ (run service rest (stored service a s)).1
  unfolding run
  run-stored (ok a) rest s = refl
  run-stored (err what) rest s = refl

  round_run :
      (stop : Bool) (select : Ready P) (turns : List (Turn P)) (s : Server S)
      → ((next : Server S)
          → (loop service config returns openssl observer turns next).1.store
            ≡ (run service (arrivals config returns openssl turns) next.store).1)
      → (loop service config returns openssl observer
          ((record { stop = stop; select = select }) ∷ turns)
          s).1.store
        ≡ (run service
            (arrivals config returns openssl ((record { stop = stop; select = select }) ∷ turns))
            s.store).1
  unfolding loop loop_body accept arrivals run
  round_run true select turns s rest = refl
  round_run false (failed true true) turns s rest = refl
  round_run false (failed false stop) turns s rest = refl
  round_run false (failed true false) turns s rest = rest s
  round_run false timeout turns s rest = rest s
  round_run false (ready (err what) c) turns s rest = refl
  round_run false (ready (ok fd) c) turns s rest =
      let next = handle_client service config returns openssl observer fd c s in
      rest next
      ∙ rw
          (
            handle_client_store fd c s,
            run-stored (arrival config returns openssl c) (arrivals config returns openssl turns)
                s.store,
          )
          refl

  -- Whatever the rounds of the loop bring, the server's keys are in the end as the service leaves them
  -- when it handles, one after another, the requests of the clients with a good handshake, an accepted
  -- certificate and a message that can be read. Other clients, and answers that cannot be written,
  -- change nothing.
  pub loop-run :
      (turns : List (Turn P)) (s : Server S)
      → (loop service config returns openssl observer turns s).1.store
        ≡ (run service (arrivals config returns openssl turns) s.store).1
  unfolding loop arrivals run
  loop-run [] s = refl
  loop-run (turn ∷ turns) s = round_run turn.stop turn.select turns s (λ next. loop-run turns next)
