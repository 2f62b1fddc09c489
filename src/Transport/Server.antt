-- ===== src/Transport/Server.antt =====
-- `TlsServer` of src/transport/tls_server.cpp: a session from the handshake on, and the loop that accepts
-- connections. What the system and OpenSSL do in one round of the loop is a parameter.
pub mod Rounds
pub mod Serving
pub mod Stores
pub mod Admitted
pub mod Views
pub mod Simulation
pub mod Requests
pub mod Ending
pub mod Starting
use iso26430_6_asm_prototype.Base.{
  ℕ, String, Option, none, some, List, [], ◌∷◌, ◌++◌, Bool, true, false, Result, ok, err,
  if◌then◌else◌, Text,
}
use iso26430_6_asm_prototype.Common.{ByteBuffer}
use iso26430_6_asm_prototype.Security.Certificates.{
  OpenSsl, demand, validate_certificate_profile, read_peer_identity,
}
use iso26430_6_asm_prototype.Security.Profile.{Method, Returns, TlsConfig, create_server}
use iso26430_6_asm_prototype.Service.Actions.{Action, pure, lift, resume, ◌>>=◌}
use iso26430_6_asm_prototype.Service.Handlers.{AsmService}
use iso26430_6_asm_prototype.Transport.Errors.{Returned, ssl_expect_positive}
use iso26430_6_asm_prototype.Transport.Exchange.{fresh_wire, answer_client}
use iso26430_6_asm_prototype.Transport.Reading.{SslInput}
use iso26430_6_asm_prototype.Transport.Session.{Session, SessionTrace, fresh_trace}
use iso26430_6_asm_prototype.Transport.Socket.{
  accept, make_tcp_socket, set_reuse_addr, bind_and_listen,
}
use iso26430_6_asm_prototype.Transport.Writing.{Ssl}

-- A connection: whether `SSL_CTX_new`, for a method, and `SSL_new` give an object, what `SSL_accept` returns, the
-- certificate of the peer, what reading and writing return, the bytes under way, and the time.
pub record Connection (P : Type 0) : Type 0 where
  pub context : Method → Bool
  pub object : Bool
  pub handshake : Returned
  pub certificate : Option P
  pub ssl : Ssl
  pub input : SslInput
  pub pending : ByteBuffer
  pub now : ℕ

-- How `select` ends: with an error, which is `EINTR` or not, and what the stop flag is then; without a
-- client; or with one, whose descriptor `::accept` gives, if it succeeds.
pub data Ready (P : Type 0) : Type 0 where
  failed : Bool → Bool → Ready P
  timeout : Ready P
  ready : Result ℕ → Connection P → Ready P

-- A round of the loop: the stop flag at its head, and `select`.
pub record Turn (P : Type 0) : Type 0 where
  pub stop : Bool
  pub select : Ready P

-- What the system gives the listening socket.
pub record Listening : Type 0 where
  pub context : Method → Bool
  pub socket : Result ℕ
  pub reuse : Bool
  pub bound : Result (Unit {0})
  pub listening : Result (Unit {0})

pub data SocketEvent : Type 0 where
  opened closed : ℕ → SocketEvent

-- The key store, what the observer was told, what was written to each client, and the client sockets that
-- were opened and closed.
pub record Server (S : Type 0) : Type 0 where
  pub store : S
  pub traces : List SessionTrace
  pub written : List ByteBuffer
  pub sockets : List SocketEvent

-- How a run ends; `running` is a run whose further rounds are not known.
pub data Outcome : Type 0 where
  returned running : Outcome
  threw : String → Outcome

module _ {S P : Type 0} (service : AsmService S) (config : TlsConfig) (returns : Returns)
    (openssl : OpenSsl P) (observer : Bool) where
  -- The observer, if there is one.
  abbrev pub observe : SessionTrace → Action (Server S) (Unit {0})
  observe trace s = (ok tt, if observer then record s { traces = s.traces ++ trace ∷ [] } else s)

  abbrev pub after_answer : Result (Unit {0}) × Session S → Server S → Result (Unit {0}) × Server S
  after_answer (result, session) s =
      resume result (λ done. observe session.trace)
        (record s { store = session.store; written = s.written ++ session.wire.sent ∷ [] })

  -- The local objects of a session live from here on.
  abbrev pub converse : Connection P → Text → Action (Server S) (Unit {0})
  converse c thumbprint s =
      after_answer
        (answer_client service c.ssl c.input c.now c.pending
          (record { store = s.store; wire = fresh_wire; trace = fresh_trace thumbprint }))
        s

  unfoldable pub serve_client : Connection P → Action (Server S) (Unit {0})
  serve_client c = do
    _ ← lift (create_server returns openssl c.context config)
    _ ← lift (demand "failed to allocate SSL object" c.object)
    _ ← lift (ssl_expect_positive c.handshake "SSL_accept")
    _ ← lift (validate_certificate_profile openssl c.certificate)
    peer ← lift (read_peer_identity openssl c.certificate)
    converse c peer.sha256_thumbprint

  -- `catch (const std::exception& ex)`: a trace with nothing but a note.
  abbrev pub reported : Result (Unit {0}) × Server S → Server S
  reported (ok done, s) = s
  reported (err what, s) = (observe (record (fresh_trace []) { note = what }) s).1

  abbrev pub handle_client : ℕ → Connection P → Server S → Server S
  handle_client fd c s =
      let served = reported (serve_client c (record s { sockets = s.sockets ++ opened fd ∷ [] })) in
      record served { sockets = served.sockets ++ closed fd ∷ [] }

  abbrev pub with_client : Result ℕ → Connection P → Server S → Option Outcome × Server S
  with_client (ok fd) c s = (none, handle_client fd c s)
  with_client (err what) c s = (some (threw what), s)

  abbrev pub after_select : Ready P → Server S → Option Outcome × Server S
  after_select (failed interrupted stop) s = (
    if interrupted then if stop then some returned else none else some (threw "select failed"),
    s,
  )
  after_select timeout s = (none, s)
  after_select (ready client c) s = with_client (accept client) c s

  -- One round: how the loop ends, if it does.
  unfoldable pub loop_body : Turn P → Server S → Option Outcome × Server S
  loop_body turn s = if turn.stop then (some returned, s) else after_select turn.select s

  abbrev pub unless_ended : Option Outcome → Server S → Outcome × Server S → Outcome × Server S
  unless_ended none s rest = rest
  unless_ended (some outcome) s rest = (outcome, s)

  unfoldable pub loop : List (Turn P) → Server S → Outcome × Server S
  loop [] s = (running, s)
  loop (turn ∷ turns) s =
      let (ended, next) = loop_body turn s in
      let rest = loop turns next in unless_ended ended next rest

  abbrev pub start : Listening → Action (Server S) (Unit {0})
  start system = do
    _ ← lift (create_server returns openssl system.context config)
    _ ← lift (make_tcp_socket system.socket)
    _ ← lift (set_reuse_addr system.reuse)
    lift (bind_and_listen system.bound system.listening)

  abbrev pub started : Result (Unit {0}) → Outcome × Server S → Server S → Outcome × Server S
  started (ok done) rest s = rest
  started (err what) rest s = (threw what, s)

  unfoldable pub run : Listening → List (Turn P) → Server S → Outcome × Server S
  run system turns s =
      let (result, next) = start system s in let rest = loop turns next in started result rest next
