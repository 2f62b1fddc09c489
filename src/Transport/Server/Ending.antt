-- ===== src/Transport/Server/Ending.antt =====
-- How a run of the server ends.
use iso26430_6_asm_prototype.Base.{
  ℕ, ◌≡◌, refl, some, List, [], ◌∷◌, ◌++◌, arith, Bool, true, false, ok, err, All,
}
use iso26430_6_asm_prototype.EventLog.{EventLogStore}
use iso26430_6_asm_prototype.LeKey.Jsonl.Store.{Disk, JsonlLeKeyStore, open_store}
use iso26430_6_asm_prototype.LeKey.Jsonl.Saved.{IsWorking, IsKept, open_store-IsKept}
use iso26430_6_asm_prototype.QuerySpb.{StaticQuerySpbStatusProvider}
use iso26430_6_asm_prototype.Security.Certificates.{OpenSsl}
use iso26430_6_asm_prototype.Security.Profile.{Returns, TlsConfig}
use iso26430_6_asm_prototype.Service.Handlers.{AsmService}
use iso26430_6_asm_prototype.Service.Persistence.{jsonl_service, handle-IsKept}
use iso26430_6_asm_prototype.Transport.Socket.{accept}
use iso26430_6_asm_prototype.Transport.Server.{
  Ready, failed, timeout, ready, Turn, Server, returned, handle_client, loop, loop_body,
}
use iso26430_6_asm_prototype.Transport.Server.Stores.{BringsBytes, loop-keeps}

-- The system calls of a round succeed: `select` fails with `EINTR` at most, and a client is accepted.
abbrev pub SelectGoesWell : {P : Type 0} → Ready P → Type 0
SelectGoesWell (failed interrupted stop) = interrupted ≡ true
SelectGoesWell timeout = Unit {0}
SelectGoesWell (ready client c) = (fd : ℕ) × (client ≡ ok fd)

abbrev pub GoesWell : {P : Type 0} → Turn P → Type 0
GoesWell turn = SelectGoesWell turn.select

module _ {S P : Type 0} (service : AsmService S) (config : TlsConfig) (returns : Returns)
    (openssl : OpenSsl P) (observer : Bool) where
  -- What the loop does behind the rounds `turns` is no more than to return.
  abbrev Stops : List (Turn P) → List (Turn P) → Server S → Type 0
  Stops turns others s =
      loop service config returns openssl observer (turns ++ others) s
      ≡ (returned, (loop service config returns openssl observer turns s).1)

  round-Stops :
      (stop : Bool) (select : Ready P) (turns others : List (Turn P)) (s : Server S)
      → SelectGoesWell select
      → ((next : Server S) → Stops turns others next)
      → Stops ((record { stop = stop; select = select }) ∷ turns) others s
  unfolding loop loop_body accept
  round-Stops true select turns others s well rest = refl
  round-Stops false (failed true true) turns others s well rest = refl
  round-Stops false (failed false stop) turns others s well rest = absurd (ground (arith, well))
  round-Stops false (failed true false) turns others s well rest = rest s
  round-Stops false timeout turns others s well rest = rest s
  round-Stops false (ready (err what) c) turns others s (fd, well) rest =
      absurd (ground (arith, well))
  round-Stops false (ready (ok fd) c) turns others s well rest =
      rest (handle_client service config returns openssl observer fd c s)

  -- Once the stop flag is set, the loop returns at the head of the round: it ends by returning, and the key
  -- store, what was written, the traces and the sockets are as the rounds before it alone leave them, so
  -- that a client who waits in this round or a later one is neither accepted nor answered. Before, `select`
  -- fails with nothing but `EINTR`, and each client is accepted.
  pub loop_stops :
      (turns : List (Turn P)) (last : Turn P) (more : List (Turn P)) (s : Server S)
      → All GoesWell turns
      → last.stop ≡ true
      → loop service config returns openssl observer (turns ++ last ∷ more) s
        ≡ (returned, (loop service config returns openssl observer turns s).1)
  unfolding loop loop_body
  loop_stops [] last more s well stopped = rw stopped refl
  loop_stops (turn ∷ turns) last more s (first, well) stopped =
      round-Stops turn.stop turn.select turns (last ∷ more) s first
        (λ next. loop_stops turns last more next well stopped)

module _ {P : Type 0} (log : EventLogStore) (status : StaticQuerySpbStatusProvider) (disk : Disk)
    (config : TlsConfig) (returns : Returns) (openssl : OpenSsl P) (observer : Bool) where
  -- A server over a key store with a file, on a file system that never fails, that starts with a file that
  -- reads as its keys: whatever the rounds of its loop bring, with whatever sessions and in whatever order,
  -- a program that starts on the file again has the keys that the server had. What clients send is bytes.
  pub loop_restart :
      (turns : List (Turn P)) (s : Server JsonlLeKeyStore)
      → IsWorking disk
      → All BringsBytes turns
      → IsKept s.store
      → let last =
          (loop (jsonl_service log status disk) config returns openssl observer turns s).1.store in
        open_store disk (some last.file)
        ≡ ok (record { keys = last.keys; file = last.file; openings = 0 })
  loop_restart turns s w bytes h =
      let service = jsonl_service log status disk in
      open_store-IsKept disk (loop service config returns openssl observer turns s).1.store w (
        loop-keeps service config returns openssl observer IsKept
          (λ now request raw s payload.
            handle-IsKept log status disk w (record { now = now; request = request; raw = raw }) s
              payload)
          turns s bytes h)
