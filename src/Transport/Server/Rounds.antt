-- ===== src/Transport/Server/Rounds.antt =====
-- A session of the server, and a round of its loop, case by case.
use iso26430_6_asm_prototype.Base.{
  ℕ, ◌≡◌, refl, String, List, [], ◌∷◌, Bool, true, false, Result, ok, err, ◌>>=◌, ◌∙◌,
  if◌then◌else◌, Result-cases, inl, inr, ◌⊎◌,
}
use iso26430_6_asm_prototype.Security.Certificates.{
  OpenSsl, PeerIdentity, demand, validate_certificate_profile, read_peer_identity,
}
use iso26430_6_asm_prototype.Security.Profile.{Returns, TlsConfig, create_server}
use iso26430_6_asm_prototype.Service.Actions.{resume}
use iso26430_6_asm_prototype.Service.Handlers.{AsmService}
use iso26430_6_asm_prototype.Transport.Socket.{accept}
use iso26430_6_asm_prototype.Transport.Errors.{ssl_expect_positive}
use iso26430_6_asm_prototype.Transport.Server.{
  Connection, Ready, failed, timeout, ready, Turn, SocketEvent, opened, closed, Server, Outcome,
  returned, threw, serve_client, converse, handle_client, loop_body, loop,
}

-- The descriptors of the clients that are accepted before the loop ends.
clients_of : {P : Type 0} → Ready P → List ℕ → List ℕ
clients_of (failed true false) rest = rest
clients_of (failed true true) rest = []
clients_of (failed false stop) rest = []
clients_of timeout rest = rest
clients_of (ready (ok fd) c) rest = fd ∷ rest
clients_of (ready (err what) c) rest = []

unfoldable pub clients : {P : Type 0} → List (Turn P) → List ℕ
unfolding clients_of
clients [] = []
clients (turn ∷ turns) =
    let rest = clients turns in if turn.stop then [] else clients_of turn.select rest

-- Each client socket is opened and closed before the next is opened.
unfoldable pub lifetimes : List ℕ → List SocketEvent
lifetimes [] = []
lifetimes (fd ∷ fds) = opened fd ∷ closed fd ∷ lifetimes fds

-- What stands before the message in a session: who the client is, if it is let in.
unfoldable pub admission :
    {P : Type 0} → TlsConfig → Returns → OpenSsl P → Connection P → Result PeerIdentity
admission config returns openssl c = do
  _ ← create_server returns openssl c.context config
  _ ← demand "failed to allocate SSL object" c.object
  _ ← ssl_expect_positive c.handshake "SSL_accept"
  _ ← validate_certificate_profile openssl c.certificate
  read_peer_identity openssl c.certificate

module _ {S P : Type 0} (service : AsmService S) (config : TlsConfig) (returns : Returns)
    (openssl : OpenSsl P) (observer : Bool) where
  pub serve_client-admission :
      (c : Connection P) (s : Server S)
      → serve_client service config returns openssl observer c s
        ≡ resume
            (admission config returns openssl c)
            (λ peer. converse service config returns openssl observer c peer.sha256_thumbprint)
            s
  unfolding serve_client admission
  serve_client-admission c s =
      elim (Result-cases (create_server returns openssl c.context config)) [
        | inr (what, e) ↦ rw e refl
        | inl (_, e) ↦ elim (Result-cases (demand "failed to allocate SSL object" c.object)) [
          | inr (what, e2) ↦ rw (e, e2) refl
          | inl (_, e2) ↦ elim (Result-cases (ssl_expect_positive c.handshake "SSL_accept")) [
            | inr (what, e3) ↦ rw (e, e2, e3) refl
            | inl (_, e3) ↦
                elim (Result-cases (validate_certificate_profile openssl c.certificate)) [
                  | inr (what, e4) ↦ rw (e, e2, e3, e4) refl
                  | inl (_, e4) ↦ rw (e, e2, e3, e4) refl
                ]
          ]
        ]
      ]

  -- A session fails before anything else happens, or comes to the message.
  pub serve_client_cases :
      (c : Connection P) (s : Server S)
      → ((what : String) × (serve_client service config returns openssl observer c s
            ≡ (err what, s)))
        ⊎ ((peer : PeerIdentity) × (serve_client service config returns openssl observer c s
              ≡ converse service config returns openssl observer c peer.sha256_thumbprint s))
  serve_client_cases c s = elim (Result-cases (admission config returns openssl c)) [
    | inr (what, e) ↦ inl (what, serve_client-admission c s ∙ rw e refl)
    | inl (peer, e) ↦ inr (peer, serve_client-admission c s ∙ rw e refl)
  ]

  -- A round ends the loop, leaves everything as it was, or serves a client.
  unfoldable pub IsRound : Turn P → List (Turn P) → Server S → Type 0
  IsRound turn turns s =
      let after = loop service config returns openssl observer (turn ∷ turns) s in
      ((o : Outcome) × (after ≡ (o, s)) × (clients (turn ∷ turns) ≡ []))
      ⊎ (((after ≡ loop service config returns openssl observer turns s)
            × (clients (turn ∷ turns) ≡ clients turns))
          ⊎ ((fd : ℕ) × (c : Connection P) × (after
                ≡ loop service config returns openssl observer turns
                    (handle_client service config returns openssl observer fd c s))
              × (clients (turn ∷ turns) ≡ fd ∷ clients turns)))

  round :
      (stop : Bool) (select : Ready P) (turns : List (Turn P)) (s : Server S)
      → IsRound (record { stop = stop; select = select }) turns s
  unfolding IsRound loop clients loop_body clients_of accept
  round true select turns s = inl (returned, refl, refl)
  round false (failed true true) turns s = inl (returned, refl, refl)
  round false (failed false stop) turns s = inl (threw "select failed", refl, refl)
  round false (ready (err what) c) turns s = inl (threw _, refl, refl)
  round false (failed true false) turns s = inr (inl (refl, refl))
  round false timeout turns s = inr (inl (refl, refl))
  round false (ready (ok fd) c) turns s = inr (inr (fd, c, refl, refl))

  pub loop_cases : (turn : Turn P) (turns : List (Turn P)) (s : Server S) → IsRound turn turns s
  loop_cases turn turns s = round turn.stop turn.select turns s
