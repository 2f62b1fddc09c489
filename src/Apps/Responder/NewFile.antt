-- ===== src/Apps/Responder/NewFile.antt =====
-- The responder of src/apps/asm_responder.cpp with a new key file, and without one.
use iso26430_6_asm_prototype.Base.{
  ◌≡◌, refl, Option, none, some, List, [], ◌∷◌, ok, Result-cases, inl, inr, Text, true,
}
use iso26430_6_asm_prototype.Apps.Responder.{
  setup, Ran, ran, fresh_server, event_log, over_memory, over_file, main,
}
use iso26430_6_asm_prototype.EventLog.{EventLogStore}
use iso26430_6_asm_prototype.EventLog.Jsonl.{Calendar}
use iso26430_6_asm_prototype.LeKey.Jsonl.Saved.{IsWorking, jsonl-Refines}
use iso26430_6_asm_prototype.LeKey.Jsonl.Store.{Disk, open_store, jsonl}
use iso26430_6_asm_prototype.LeKey.Store.{in_memory}
use iso26430_6_asm_prototype.QuerySpb.{not_playing}
use iso26430_6_asm_prototype.Security.Certificates.{OpenSsl}
use iso26430_6_asm_prototype.Security.Profile.{Returns, TlsConfig, tls_config}
use iso26430_6_asm_prototype.Transport.Server.{Listening, Turn}
use iso26430_6_asm_prototype.Transport.Server.Simulation.Loops.{run-see}

-- How the program ended and what it printed, without the store.
abbrev pub seen : Ran → Ran
seen (ran outcome lines store) = ran outcome lines none
seen other = other

module _ {Tm P : Type 0} (calendar : Calendar Tm) (disk : Disk) (files : Text → Option Text)
    (returns : Returns) (openssl : OpenSsl P) (system : Listening) (turns : List (Turn P))
    (w : IsWorking disk) where
  over_file-over_memory :
      (log : EventLogStore) (config : TlsConfig)
      → seen (
          over_file calendar disk files returns openssl system turns log config
            (ok (record { keys = []; file = []; openings = 0 })))
        ≡ over_memory calendar disk files returns openssl system turns log config
  over_file-over_memory log config =
      let same =
        run-see log (record { status = not_playing }) (jsonl disk) in_memory (λ s. s.keys)
          (jsonl-Refines disk w) config returns openssl true system turns
          (fresh_server (record { keys = []; file = []; openings = 0 })) in
      rw same refl

  open_new :
      (keys : Text)
      → disk.creates ≡ true
      → files keys ≡ none
      → open_store disk (files keys) ≡ ok (record { keys = []; file = []; openings = 0 })
  unfolding open_store
  open_new keys creates absent = rw (absent, creates) refl

  -- On a file system that never fails, a responder that is given a key file which is not there yet ends as one
  -- that is given no key file, and prints the same lines, whatever the event file, the clients and the
  -- system calls.
  pub main-seen :
      (name certificate key ca events keys : Text)
      → disk.creates ≡ true
      → files keys ≡ none
      → seen (
          main calendar disk files returns openssl system turns
            (name ∷ certificate ∷ key ∷ ca ∷ events ∷ keys ∷ []))
        ≡ main calendar disk files returns openssl system turns
            (name ∷ certificate ∷ key ∷ ca ∷ events ∷ [])
  unfolding main setup
  main-seen name certificate key ca events keys creates absent =
      elim (Result-cases
        (event_log calendar disk files returns openssl system turns (some events))) [
          | inr (what, e) ↦ rw e refl
          | inl (log, e) ↦
              rw (e, open_new keys creates absent)
                (over_file-over_memory log (tls_config certificate key ca))
        ]
