-- ===== src/Apps/Responder/Restart.antt =====
-- The key file that the responder leaves behind.
use iso26430_6_asm_prototype.Base.{
  ◌≡◌, Option, none, some, List, All, Result, ok, err, Result-cases, inl, inr, Text, true,
}
use iso26430_6_asm_prototype.Apps.Responder.{
  Setup, setup, Ran, ran, service_over, fresh_server, event_log, over_file, with_keys, with_events,
  with_setup, main,
}
use iso26430_6_asm_prototype.EventLog.{EventLogStore}
use iso26430_6_asm_prototype.EventLog.Jsonl.{Calendar}
use iso26430_6_asm_prototype.LeKey.Jsonl.Opened.{opened-IsKept}
use iso26430_6_asm_prototype.LeKey.Jsonl.Saved.{IsWorking, IsKept, open_store-IsKept}
use iso26430_6_asm_prototype.LeKey.Jsonl.Store.{Disk, open_store, jsonl}
use iso26430_6_asm_prototype.QuerySpb.{not_playing}
use iso26430_6_asm_prototype.Security.Certificates.{OpenSsl}
use iso26430_6_asm_prototype.Security.Profile.{Returns, TlsConfig}
use iso26430_6_asm_prototype.Service.Persistence.{handle-IsKept}
use iso26430_6_asm_prototype.Transport.Server.{Listening, Turn, run}
use iso26430_6_asm_prototype.Transport.Server.Stores.{BringsBytes}
use iso26430_6_asm_prototype.Transport.Server.Starting.{run-keeps}

-- A run that ends with a store over a file leaves a file that the store can be opened from.
unfoldable pub Reopens : Disk → Ran → Type 0
Reopens disk (ran outcome lines (some store)) =
    open_store disk (some store.file)
    ≡ ok (record { keys = store.keys; file = store.file; openings = 0 })
Reopens disk _ = Unit {0}

module _ {Tm P : Type 0} (calendar : Calendar Tm) (disk : Disk) (files : Text → Option Text)
    (returns : Returns) (openssl : OpenSsl P) (system : Listening) (turns : List (Turn P))
    (w : IsWorking disk) (bytes : All BringsBytes turns) where
  over_file-Reopens :
      (log : EventLogStore) (config : TlsConfig) (file : Option Text)
      → Reopens disk (
          over_file calendar disk files returns openssl system turns log config
            (open_store disk file))
  unfolding Reopens
  over_file-Reopens log config file = elim (Result-cases (open_store disk file)) [
    | inr (what, e) ↦ rw e tt
    | inl (store, e) ↦
        let service = service_over log (jsonl disk) in
        rw e (
          open_store-IsKept disk
            (run service config returns openssl true system turns (fresh_server store)).1.store w
            (run-keeps service config returns openssl true IsKept system turns (fresh_server store)
              (λ now request raw s payload.
                handle-IsKept log (record { status = not_playing }) disk w
                  (record { now = now; request = request; raw = raw }) s payload)
              bytes (opened-IsKept disk file store e)))
  ]

  with_keys-Reopens :
      (log : EventLogStore) (config : TlsConfig) (path : Option Text)
      → Reopens disk (with_keys calendar disk files returns openssl system turns log config path)
  unfolding Reopens
  with_keys-Reopens log config none = tt
  with_keys-Reopens log config (some path) = over_file-Reopens log config (files path)

  with_events-Reopens :
      (chosen : Setup) (log : Result EventLogStore)
      → Reopens disk (with_events calendar disk files returns openssl system turns chosen log)
  unfolding Reopens
  with_events-Reopens chosen (err what) = tt
  with_events-Reopens chosen (ok log) = with_keys-Reopens log chosen.config chosen.keys

  with_setup-Reopens :
      (chosen : Option Setup)
      → Reopens disk (with_setup calendar disk files returns openssl system turns chosen)
  unfolding Reopens
  with_setup-Reopens none = tt
  with_setup-Reopens (some chosen) =
      with_events-Reopens chosen
        (event_log calendar disk files returns openssl system turns chosen.events)

  -- On a file system that never fails, whatever the arguments, the files, the clients and the system calls: if
  -- the responder comes to serve with a key file, a responder that starts on the file that it leaves has the
  -- keys that it had. What clients send is bytes.
  pub main-Reopens :
      (argv : List Text) → Reopens disk (main calendar disk files returns openssl system turns argv)
  unfolding main
  main-Reopens argv = with_setup-Reopens (setup argv)
