-- ===== src/Transport/Server/Starting.antt =====
-- The start of the server, before its loop.
use iso26430_6_asm_prototype.Base.{
  ◌≡◌, refl, List, All, Bool, Result, ok, err, ◌>>=◌, Result-cases, inl, inr,
}
use iso26430_6_asm_prototype.Security.Certificates.{OpenSsl}
use iso26430_6_asm_prototype.Security.Profile.{Returns, TlsConfig, create_server}
use iso26430_6_asm_prototype.Service.Handlers.{AsmService}
use iso26430_6_asm_prototype.Transport.Socket.{make_tcp_socket, set_reuse_addr, bind_and_listen}
use iso26430_6_asm_prototype.Transport.Server.{
  Server, Outcome, Listening, Turn, run, loop, start, started,
}
use iso26430_6_asm_prototype.Transport.Server.Stores.{Keeps, BringsBytes, loop-keeps}

-- The listening socket, without a server around it.
abbrev pub startup : {P : Type 0} → TlsConfig → Returns → OpenSsl P → Listening → Result (Unit {0})
startup config returns openssl system = do
  _ ← create_server returns openssl system.context config
  _ ← make_tcp_socket system.socket
  _ ← set_reuse_addr system.reuse
  bind_and_listen system.bound system.listening

module _ {S P : Type 0} (service : AsmService S) (config : TlsConfig) (returns : Returns)
    (openssl : OpenSsl P) (observer : Bool) where
  pub start-startup :
      (system : Listening) (s : Server S)
      → start service config returns openssl observer system s
        ≡ (startup config returns openssl system, s)
  start-startup system s =
      elim (Result-cases (create_server returns openssl system.context config)) [
        | inr (what, e) ↦ rw e refl
        | inl (_, e) ↦ elim (Result-cases (make_tcp_socket system.socket)) [
          | inr (what, e2) ↦ rw (e, e2) refl
          | inl (_, e2) ↦ elim (Result-cases (set_reuse_addr system.reuse)) [
            | inr (what, e3) ↦ rw (e, e2, e3) refl
            | inl (_, e3) ↦ rw (e, e2, e3) refl
          ]
        ]
      ]

  started-keeps :
      (K : S → Type 0) (result : Result (Unit {0})) (rest : Outcome × Server S) (s : Server S)
      → K rest.1.store
      → K s.store
      → K (started service config returns openssl observer result rest s).1.store
  started-keeps K (ok done) rest s later h = later
  started-keeps K (err what) rest s later h = h

  -- What every request keeps, a run of the server keeps.
  pub run-keeps :
      (K : S → Type 0) (system : Listening) (turns : List (Turn P)) (s : Server S)
      → Keeps service K
      → All BringsBytes turns
      → K s.store
      → K (run service config returns openssl observer system turns s).1.store
  unfolding run
  run-keeps K system turns s keeps bytes h = rw (start-startup system s) (
      started-keeps K (startup config returns openssl system)
        (loop service config returns openssl observer turns s) s
        (loop-keeps service config returns openssl observer K keeps turns s bytes h) h)
