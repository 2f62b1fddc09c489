-- ===== src/Transport/Server/Simulation/Loops.antt =====
-- The loop and the run of `TlsServer`, of src/transport/tls_server.cpp, over one key store in place of another.
use iso26430_6_asm_prototype.Base.{◌≡◌, refl, List, [], ◌∷◌, Bool, true, false, Result, ok, err}
use iso26430_6_asm_prototype.EventLog.{EventLogStore}
use iso26430_6_asm_prototype.LeKey.{LeKeyStore}
use iso26430_6_asm_prototype.QuerySpb.{StaticQuerySpbStatusProvider}
use iso26430_6_asm_prototype.Security.Certificates.{OpenSsl}
use iso26430_6_asm_prototype.Security.Profile.{Returns, TlsConfig}
use iso26430_6_asm_prototype.Service.Refinement.{Refines}
use iso26430_6_asm_prototype.Transport.Server.{
  Outcome, Listening, run, started, Ready, failed, timeout, ready, Turn, Server, handle_client,
  loop, loop_body,
}
use iso26430_6_asm_prototype.Transport.Server.Starting.{startup, start-startup}
use iso26430_6_asm_prototype.Transport.Socket.{accept}
use iso26430_6_asm_prototype.Transport.Server.Simulation.{see, serving, handle_client-see}

module _ {S T : Type 0} (log : EventLogStore) (status : StaticQuerySpbStatusProvider)
    (concrete : LeKeyStore S) (abstract : LeKeyStore T) (view : S → T)
    (h : Refines concrete abstract view) where
  module _ {P : Type 0} (config : TlsConfig) (returns : Returns) (openssl : OpenSsl P)
      (observer : Bool) where
    round-see :
        (stop : Bool) (select : Ready P) (turns : List (Turn P)) (s : Server S)
        → ((next : Server S)
            → (loop
                  (serving log status abstract)
                  config
                  returns
                  openssl
                  observer
                  turns
                  (see view next)
                ≡ (
                  (loop (serving log status concrete) config returns openssl observer turns next).0,
                  see view
                      (loop
                        (serving log status concrete)
                        config
                        returns
                        openssl
                        observer
                        turns
                        next).1,
                )))
        → let round : Turn P = record { stop = stop; select = select } in
          loop
            (serving log status abstract)
            config
            returns
            openssl
            observer
            (round ∷ turns)
            (see view s)
          ≡ (
            (loop
                (serving log status concrete)
                config
                returns
                openssl
                observer
                (round ∷ turns)
                s).0,
            see view
                (loop
                  (serving log status concrete)
                  config
                  returns
                  openssl
                  observer
                  (round ∷ turns)
                  s).1,
          )
    unfolding loop loop_body accept
    round-see true select turns s rest = refl
    round-see false (failed true true) turns s rest = refl
    round-see false (failed false stop) turns s rest = refl
    round-see false (failed true false) turns s rest = rest s
    round-see false timeout turns s rest = rest s
    round-see false (ready (err what) c) turns s rest = refl
    round-see false (ready (ok fd) c) turns s rest =
        rw
          (← (
            handle_client-see log status concrete abstract view h config returns openssl observer fd
              c s))
          (rest
            (handle_client (serving log status concrete) config returns openssl observer fd c s))

    -- Two servers whose stores do the same, seen through a view, run in step.
    pub loop-see :
        (turns : List (Turn P)) (s : Server S)
        → loop (serving log status abstract) config returns openssl observer turns (see view s) ≡ (
          (loop (serving log status concrete) config returns openssl observer turns s).0,
          see view (loop (serving log status concrete) config returns openssl observer turns s).1,
        )
    unfolding loop
    loop-see [] s = refl
    loop-see (turn ∷ turns) s =
        round-see turn.stop turn.select turns s (λ next. loop-see turns next)

    started-see :
        (result : Result (Unit {0})) (rest : Outcome × Server S) (s : Server S)
        → started
            (serving log status abstract)
            config
            returns
            openssl
            observer
            result
            (rest.0, see view rest.1)
            (see view s)
          ≡ (
            (started (serving log status concrete) config returns openssl observer result rest s).0,
            see view
                (started
                  (serving log status concrete)
                  config
                  returns
                  openssl
                  observer
                  result
                  rest
                  s).1,
          )
    started-see (ok done) rest s = refl
    started-see (err what) rest s = refl

    -- So do their runs from the start on.
    pub run-see :
        (system : Listening) (turns : List (Turn P)) (s : Server S)
        → run
            (serving log status abstract)
            config
            returns
            openssl
            observer
            system
            turns
            (see view s)
          ≡ (
            (run (serving log status concrete) config returns openssl observer system turns s).0,
            see view
                (run
                  (serving log status concrete)
                  config
                  returns
                  openssl
                  observer
                  system
                  turns
                  s).1,
          )
    unfolding run
    run-see system turns s =
        rw
          (
            start-startup (serving log status concrete) config returns openssl observer system s,
            start-startup (serving log status abstract) config returns openssl observer system
                (see view s),
            loop-see turns s,
          )
          (started-see (startup config returns openssl system)
            (loop (serving log status concrete) config returns openssl observer turns s) s)
