-- ===== src/Examples/Programs.antt =====
-- The command line programs.
use iso26430_6_asm_prototype.Base.{
  ◌≡◌, refl, List, [], ◌∷◌, arith, true, Option, some, none, ok, Text, codes, text_eq,
  if◌then◌else◌,
}
use iso26430_6_asm_prototype.Apps.Initiator.{prepare, prepared}
use iso26430_6_asm_prototype.Apps.Initiator.Orders.{
  load, asked, IsOrder, command_line, prepare-command_line,
}
use iso26430_6_asm_prototype.Apps.Responder.{main, service_over}
use iso26430_6_asm_prototype.Apps.Responder.NewFile.{seen, main-seen}
use iso26430_6_asm_prototype.Apps.Responder.Restart.{Reopens, main-Reopens}
use iso26430_6_asm_prototype.Transport.Server.{Listening}
use iso26430_6_asm_prototype.Examples.Files.{calendar, disk, disk-IsWorking}
use iso26430_6_asm_prototype.Examples.Peers.{openssl, returns, turns}
use iso26430_6_asm_prototype.EventLog
use iso26430_6_asm_prototype.EventLog.{EventLogStore, default_events}
use iso26430_6_asm_prototype.Security.Profile.{tls_config}
use iso26430_6_asm_prototype.LeKey.Store as Memory
use iso26430_6_asm_prototype.Service.Constructors.{by_default}
use iso26430_6_asm_prototype.Examples.Data.{query_message, all_bytes-IsByte, key, key_bytes}

abbrev log : EventLogStore
log = EventLog.in_memory default_events

abbrev typed : List Text
typed =
    command_line (codes "asm_initiator") (codes "localhost") (codes "cert.pem") (codes "key.pem")
      (codes "ca.pem") (load (key 7 1776758400))

prepare-command_line_example :
    prepare typed
    ≡ prepared
        (tls_config (codes "cert.pem") (codes "key.pem") (codes "ca.pem"))
        (codes "localhost")
        (asked (load (key 7 1776758400)))
unfolding IsOrder
prepare-command_line_example =
    prepare-command_line (codes "asm_initiator") (codes "localhost") (codes "cert.pem")
      (codes "key.pem") (codes "ca.pem") (load (key 7 1776758400))
      (record {
        fields_fit = record {
          id_fits = omega arith;
          key_size = omega arith;
          expire_fits = omega arith;
          attribute_fits = omega arith;
        };
        key_bytes = all_bytes-IsByte (key_bytes 0xab) refl;
      })

-- An event file without events, and no key file yet.
abbrev files : Text → Option Text
files path = if text_eq path (codes "events.jsonl") then some [] else none

abbrev responder_argv : List Text
responder_argv =
    codes "asm_responder"
    ∷ codes "cert.pem"
    ∷ codes "key.pem"
    ∷ codes "ca.pem"
    ∷ codes "events.jsonl"
    ∷ codes "keys.jsonl"
    ∷ []

abbrev system : Listening
system = record {
  context = λ method. true;
  socket = ok 3;
  reuse = true;
  bound = ok tt;
  listening = ok tt;
}

main-Reopens_example :
    Reopens disk (main calendar disk files returns openssl system turns responder_argv)
main-Reopens_example =
    main-Reopens calendar disk files returns openssl system turns disk-IsWorking
      (all_bytes-IsByte query_message refl, (tt, (tt, (tt, tt)))) responder_argv

main-seen_example :
    seen (main calendar disk files returns openssl system turns responder_argv)
    ≡ main calendar disk files returns openssl system turns (
        codes "asm_responder"
        ∷ codes "cert.pem"
        ∷ codes "key.pem"
        ∷ codes "ca.pem"
        ∷ codes "events.jsonl"
        ∷ [])
unfolding text_eq
main-seen_example =
    main-seen calendar disk files returns openssl system turns disk-IsWorking
      (codes "asm_responder") (codes "cert.pem") (codes "key.pem") (codes "ca.pem")
      (codes "events.jsonl") (codes "keys.jsonl") refl refl

-- `asm_responder` without files serves by the service that has nothing given to it.
without_files : service_over log Memory.in_memory ≡ by_default
without_files = refl
