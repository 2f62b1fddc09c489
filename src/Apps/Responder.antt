-- ===== src/Apps/Responder.antt =====
-- src/apps/asm_responder.cpp: which stores the server gets, and what it prints. The loop is in
-- Transport/Server; a signal sets the stop flag, which the loop's rounds carry.
pub mod Restart
pub mod NewFile
use iso26430_6_asm_prototype.Base.{
  ℕ, String, Option, none, some, List, map, [], ◌∷◌, ◌++◌, length, get_or, Bool, true, Result, ok,
  err, ◌>>=◌, ◌!=◌, leb, ◌==◌, ◌&&◌, if◌then◌else◌, Text, codes,
}
use iso26430_6_asm_prototype.Apps.Initiator.Printing.{id_text}
use iso26430_6_asm_prototype.EventLog
use iso26430_6_asm_prototype.EventLog.{EventLogStore, default_events}
use iso26430_6_asm_prototype.EventLog.Jsonl as EventJsonl
use iso26430_6_asm_prototype.EventLog.Jsonl.{Calendar, open_log}
use iso26430_6_asm_prototype.LeKey.{LeKeyStore}
use iso26430_6_asm_prototype.LeKey.Jsonl.Store.{Disk, JsonlLeKeyStore, open_store, jsonl}
use iso26430_6_asm_prototype.LeKey.Store as Memory
use iso26430_6_asm_prototype.QuerySpb.{not_playing}
use iso26430_6_asm_prototype.Security.Certificates.{OpenSsl}
use iso26430_6_asm_prototype.Service.Constructors.{of_stores, default_provider}
use iso26430_6_asm_prototype.Service.Handlers.{AsmService}
use iso26430_6_asm_prototype.Transport.Server.{Server, Outcome, Listening, Turn, run}
use iso26430_6_asm_prototype.Common.{command_to_string, response_to_string}
use iso26430_6_asm_prototype.Security.Profile.{Returns, TlsConfig, tls_config}
use iso26430_6_asm_prototype.Transport.Session.{SessionTrace}

-- Where the events and the keys come from: a file, or memory.
pub record Setup : Type 0 where
  pub config : TlsConfig
  pub events : Option Text
  pub keys : Option Text

-- `main` up to the server; `none` is the usage message and status 1.
unfoldable pub setup : List Text → Option Setup
setup argv =
    if length argv != 4 && length argv != 5 && length argv != 6
    then none
    else some (record {
      config = tls_config (get_or argv 1 []) (get_or argv 2 []) (get_or argv 3 []);
      events = if leb 5 (length argv) then some (get_or argv 4 []) else none;
      keys = if length argv == 6 then some (get_or argv 5 []) else none;
    })

-- The line of the observer.
unfoldable pub trace_line : SessionTrace → Text
trace_line trace =
    codes "peer="
    ++ (trace.peer_thumbprint
        ++ (codes " command="
            ++ (codes (command_to_string trace.command)
                ++ (codes " response="
                    ++ (codes (response_to_string trace.status)
                        ++ (id_text trace.request_id
                            ++ (codes " note=" ++ (codes trace.note ++ (b'\n' ∷ [])))))))))

-- How the program ends: with the usage message and status 1, by an exception of a store's constructor, or
-- as the server's loop does, with the lines that were printed and the store with a file, if there is one.
pub data Ran : Type 0 where
  usage : Ran
  aborted : String → Ran
  ran : Outcome → List Text → Option JsonlLeKeyStore → Ran

-- `AsmService` with its default status provider, and a server before its first round.
abbrev pub service_over : {S : Type 0} → EventLogStore → LeKeyStore S → AsmService S
service_over log store = of_stores log store default_provider

abbrev pub fresh_server : {S : Type 0} → S → Server S
fresh_server store = record { store = store; traces = []; written = []; sockets = [] }

-- The files, by their paths; `none` is a file that is not there.
module _ {Tm P : Type 0} (calendar : Calendar Tm) (disk : Disk) (files : Text → Option Text)
    (returns : Returns) (openssl : OpenSsl P) (system : Listening) (turns : List (Turn P)) where
  unfoldable pub event_log : Option Text → Result EventLogStore
  event_log none = ok (EventLog.in_memory default_events)
  event_log (some path) = do events ← open_log calendar (files path); ok (EventJsonl.jsonl events)

  abbrev pub over_memory : EventLogStore → TlsConfig → Ran
  over_memory log config =
      let (outcome, last) =
        run (service_over log Memory.in_memory) config returns openssl true system turns
          (fresh_server []) in
      ran outcome (map trace_line last.traces) none

  abbrev pub over_file : EventLogStore → TlsConfig → Result JsonlLeKeyStore → Ran
  over_file log config (err what) = aborted what
  over_file log config (ok store) =
      let (outcome, last) =
        run (service_over log (jsonl disk)) config returns openssl true system turns
          (fresh_server store) in
      ran outcome (map trace_line last.traces) (some last.store)

  abbrev pub with_keys : EventLogStore → TlsConfig → Option Text → Ran
  with_keys log config none = over_memory log config
  with_keys log config (some path) = over_file log config (open_store disk (files path))

  abbrev pub with_events : Setup → Result EventLogStore → Ran
  with_events chosen (err what) = aborted what
  with_events chosen (ok log) = with_keys log chosen.config chosen.keys

  abbrev pub with_setup : Option Setup → Ran
  with_setup none = usage
  with_setup (some chosen) = with_events chosen (event_log chosen.events)

  unfoldable pub main : List Text → Ran
  main argv = with_setup (setup argv)
