-- ===== src/Transport/Server/Serving.antt =====
-- What the loop does with the connections that it accepts.
use iso26430_6_asm_prototype.Base.{
  ℕ, suc, ◌+◌, ◌≡◌, refl, ◌∙◌, List, [], ◌∷◌, ◌++◌, append_assoc, append-nil, length, length-append,
  arith, Bool, true, Result, ok, err, Text, inl, inr,
}
use iso26430_6_asm_prototype.Security.Certificates.{OpenSsl}
use iso26430_6_asm_prototype.Security.Profile.{Returns, TlsConfig}
use iso26430_6_asm_prototype.Service.Handlers.{AsmService}
use iso26430_6_asm_prototype.Transport.Exchange.{fresh_wire, answer_client}
use iso26430_6_asm_prototype.Transport.Session.{Session, fresh_trace}
use iso26430_6_asm_prototype.Transport.Server.{
  Connection, Turn, opened, closed, Server, serve_client, converse, after_answer, reported,
  handle_client, loop,
}
use iso26430_6_asm_prototype.Transport.Server.Rounds.{
  clients, lifetimes, serve_client_cases, IsRound, loop_cases,
}

module _ {S P : Type 0} (service : AsmService S) (config : TlsConfig) (returns : Returns)
    (openssl : OpenSsl P) (observer : Bool) where
  -- A session leaves the client sockets alone.
  after_answer-sockets :
      (o : Result (Unit {0}) × Session S) (s : Server S)
      → (after_answer service config returns openssl observer o s).1.sockets ≡ s.sockets
  after_answer-sockets (ok done, session) s = ground arith
  after_answer-sockets (err what, session) s = refl

  converse-sockets :
      (c : Connection P) (thumbprint : Text) (s : Server S)
      → (converse service config returns openssl observer c thumbprint s).1.sockets ≡ s.sockets
  converse-sockets c thumbprint s =
      after_answer-sockets
        (answer_client service c.ssl c.input c.now c.pending
          (record { store = s.store; wire = fresh_wire; trace = fresh_trace thumbprint }))
        s

  serve_client-sockets :
      (c : Connection P) (s : Server S)
      → (serve_client service config returns openssl observer c s).1.sockets ≡ s.sockets
  serve_client-sockets c s = elim (serve_client_cases service config returns openssl observer c s) [
    | inl (what, e) ↦ rw e refl
    | inr (peer, e) ↦ rw e (converse-sockets c peer.sha256_thumbprint s)
  ]

  reported-sockets :
      (o : Result (Unit {0}) × Server S)
      → (reported service config returns openssl observer o).sockets ≡ o.1.sockets
  reported-sockets (ok done, s) = refl
  reported-sockets (err what, s) = ground arith

  handle_client-sockets :
      (fd : ℕ) (c : Connection P) (s : Server S)
      → (handle_client service config returns openssl observer fd c s).sockets
        ≡ s.sockets ++ lifetimes (fd ∷ [])
  unfolding lifetimes
  handle_client-sockets fd c s =
      let begun : Server S = record s { sockets = s.sockets ++ opened fd ∷ [] } in
      rw
        (
          reported-sockets (serve_client service config returns openssl observer c begun),
          serve_client-sockets c begun,
          append_assoc s.sockets (opened fd ∷ []) (closed fd ∷ []),
        )
        refl

  loop-sockets :
      (turns : List (Turn P)) (s : Server S)
      → (loop service config returns openssl observer turns s).1.sockets
        ≡ s.sockets ++ lifetimes (clients turns)
  unfolding loop clients lifetimes IsRound
  loop-sockets [] s = rw (append-nil s.sockets) refl
  loop-sockets (turn ∷ turns) s =
      elim (loop_cases service config returns openssl observer turn turns s) [
        | inl (o, e, none_served) ↦ rw (e, none_served, append-nil s.sockets) refl
        | inr (inl (e, same)) ↦ rw (e, same) (loop-sockets turns s)
        | inr (inr (fd, c, e, first)) ↦
            rw
              (
                e,
                first,
                loop-sockets turns (handle_client service config returns openssl observer fd c s),
                handle_client-sockets fd c s,
                append_assoc s.sockets (opened fd ∷ closed fd ∷ []) (lifetimes (clients turns)),
              )
              refl
      ]

-- Whether the loop is left to report an exception.
unreported : Result (Unit {0}) → ℕ
unreported (ok done) = 0
unreported (err what) = 1

module _ {S P : Type 0} (service : AsmService S) (config : TlsConfig) (returns : Returns)
    (openssl : OpenSsl P) where
  after_answer-traces :
      (o : Result (Unit {0}) × Session S) (s : Server S)
      → let (result, after) = after_answer service config returns openssl true o s in
        length after.traces + unreported result ≡ suc (length s.traces)
  unfolding unreported
  after_answer-traces (ok done, session) s =
      omega (arith, length-append s.traces (session.trace ∷ []))
  after_answer-traces (err what, session) s = omega arith

  serve_client-traces :
      (c : Connection P) (s : Server S)
      → let (result, after) = serve_client service config returns openssl true c s in
        length after.traces + unreported result ≡ suc (length s.traces)
  unfolding unreported
  serve_client-traces c s = elim (serve_client_cases service config returns openssl true c s) [
    | inl (what, e) ↦ rw e (omega arith)
    | inr (peer, e) ↦ rw e (
        after_answer-traces
          (answer_client service c.ssl c.input c.now c.pending (record {
            store = s.store;
            wire = fresh_wire;
            trace = fresh_trace peer.sha256_thumbprint;
          }))
          s)
  ]

  reported-traces :
      (o : Result (Unit {0}) × Server S)
      → length (reported service config returns openssl true o).traces
        ≡ length o.1.traces + unreported o.0
  unfolding unreported
  reported-traces (ok done, s) = omega arith
  reported-traces (err what, s) =
      omega (arith, length-append s.traces (record (fresh_trace []) { note = what } ∷ []))

  handle_client-traces :
      (fd : ℕ) (c : Connection P) (s : Server S)
      → length (handle_client service config returns openssl true fd c s).traces
        ≡ suc (length s.traces)
  handle_client-traces fd c s =
      let begun : Server S = record s { sockets = s.sockets ++ opened fd ∷ [] } in
      reported-traces (serve_client service config returns openssl true c begun)
      ∙ serve_client-traces c begun

  loop-traces :
      (turns : List (Turn P)) (s : Server S)
      → length (loop service config returns openssl true turns s).1.traces
        ≡ length s.traces + length (clients turns)
  unfolding loop clients IsRound
  loop-traces [] s = omega arith
  loop-traces (turn ∷ turns) s =
      elim (loop_cases service config returns openssl true turn turns s) [
        | inl (o, e, none_served) ↦ rw (e, none_served) (omega arith)
        | inr (inl (e, same)) ↦ rw (e, same) (loop-traces turns s)
        | inr (inr (fd, c, e, first)) ↦
            let next = handle_client service config returns openssl true fd c s in
            rw (e, first) (omega (arith, loop-traces turns next, handle_client-traces fd c s))
      ]

  -- Whatever the rounds of the loop bring, the server closes the socket of each client that it accepts before
  -- it accepts another, also when the session throws, and the observer is told of each client exactly once.
  pub loop_serves :
      (turns : List (Turn P)) (s : Server S)
      → let after = (loop service config returns openssl true turns s).1 in
        (after.sockets ≡ s.sockets ++ lifetimes (clients turns))
        × (length after.traces ≡ length s.traces + length (clients turns))
  loop_serves turns s =
      (loop-sockets service config returns openssl true turns s, loop-traces turns s)
