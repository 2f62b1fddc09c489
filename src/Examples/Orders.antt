-- ===== src/Examples/Orders.antt =====
-- Orders, from the command line to the keys.
use iso26430_6_asm_prototype.Base.{
  ℕ, ◌≡◌, refl, List, [], ◌∷◌, ◌++◌, true, false, ok, Text, codes, arith,
}
use iso26430_6_asm_prototype.Common.{
  ByteBuffer, get_event_list, invalid, command_to_string, response_to_string,
}
use iso26430_6_asm_prototype.Apps.EndToEnd.{responder_over, session, responder, order_carried_out}
use iso26430_6_asm_prototype.Apps.EndToEnd.Reply.{reply_line}
use iso26430_6_asm_prototype.Apps.EndToEnd.Uncaught.{inverted_range_uncaught}
use iso26430_6_asm_prototype.Apps.EndToEnd.OnDisk.{visits_on_disk}
use iso26430_6_asm_prototype.Apps.EndToEnd.Visits.{
  Visit, visits_over, AllGood, visits_end, all_lines, all_carried_out, visits_carried_out,
}
use iso26430_6_asm_prototype.Apps.Initiator.Answers.{IsAnswerable, told}
use iso26430_6_asm_prototype.Apps.Initiator.Orders.{
  Order, list_events, find_key, purge, asked, IsOrder, command_line,
}
use iso26430_6_asm_prototype.Apps.Initiator.Printing.{exits, aborts, main}
use iso26430_6_asm_prototype.Apps.Initiator.Replies.{carried_out, reply_code, reply_size}
use iso26430_6_asm_prototype.Apps.Initiator.Trust.{Talked, main-Talked}
use iso26430_6_asm_prototype.EventLog
use iso26430_6_asm_prototype.EventLog.{EventLogStore, default_events}
use iso26430_6_asm_prototype.LeKey.Jsonl.{bytes_to_hex}
use iso26430_6_asm_prototype.LeKey.Store.{Keys}
use iso26430_6_asm_prototype.LeKey.Store.Table.{find}
use iso26430_6_asm_prototype.Security.Certificates.{
  PeerIdentity, require, demand, name_to_string, read_peer_identity,
  validate_certificate_profile_from_file, validate_certificate_profile,
}
use iso26430_6_asm_prototype.Security.Profile.{
  Call, set_verify, set_cipher_list, set_min_tls1, set_max_tls1, set_security_level,
  set_no_compression, use_certificate_file, use_private_key_file, check_private_key,
  load_verify_locations, create_server, create_client, create_ctx, made, apply, expect,
  allow_tls10_only, use_credentials, verify_mode, tls_config,
}
use iso26430_6_asm_prototype.Streams.{hex_byte, decimal}
use iso26430_6_asm_prototype.Transport.Client.Reached.{Reaches}
use iso26430_6_asm_prototype.Transport.Errors.{ssl_expect_positive}
use iso26430_6_asm_prototype.Transport.Frames.{encoded_request}
use iso26430_6_asm_prototype.Transport.Server.{Connection, Server}
use iso26430_6_asm_prototype.Transport.Server.Admitted.{Admits}
use iso26430_6_asm_prototype.Transport.Server.Rounds.{admission}
use iso26430_6_asm_prototype.Transport.Session.{SessionTrace}
use iso26430_6_asm_prototype.Transport.Socket.{connect}
use iso26430_6_asm_prototype.Examples.Data.{status_provider, two_keys}
use iso26430_6_asm_prototype.Examples.Files.{disk, disk-IsWorking}
use iso26430_6_asm_prototype.LeKey.Jsonl.Store.{JsonlLeKeyStore}
use iso26430_6_asm_prototype.Service.KeyCommands.{in_memory_service}
use iso26430_6_asm_prototype.Service.Persistence.{jsonl_service}
use iso26430_6_asm_prototype.Examples.Peers.{
  openssl, returns, config, client, route, server, file_server,
}
use iso26430_6_asm_prototype.Examples.Sessions.{input-Delivers}

abbrev log : EventLogStore
log = EventLog.in_memory default_events

abbrev identity : PeerIdentity
identity = record { subject = []; issuer = []; sha256_thumbprint = codes "ab12" }

-- A client asks for a certificate too, but cannot demand one.
abbrev client_calls : List Call
client_calls =
    set_cipher_list "AES128-SHA"
    ∷ set_min_tls1
    ∷ set_max_tls1
    ∷ set_security_level 0
    ∷ set_no_compression
    ∷ use_certificate_file (codes "cert.pem")
    ∷ use_private_key_file (codes "key.pem")
    ∷ check_private_key
    ∷ load_verify_locations (codes "ca.pem")
    ∷ set_verify true false
    ∷ []

admits : Admits config returns openssl client identity
unfolding admission create_server create_ctx made apply expect allow_tls10_only use_credentials
    verify_mode validate_certificate_profile_from_file validate_certificate_profile require demand
    ssl_expect_positive read_peer_identity name_to_string tls_config bytes_to_hex hex_byte
admits = record {
  enters = refl;
  writes = λ call size some_bytes. omega (arith, some_bytes);
  reads = input-Delivers;
}

reaches : Reaches config returns openssl route identity
unfolding create_client create_ctx made apply expect allow_tls10_only use_credentials verify_mode
    validate_certificate_profile_from_file validate_certificate_profile require demand
    ssl_expect_positive connect read_peer_identity name_to_string tls_config bytes_to_hex hex_byte
reaches = record {
  calls = client_calls;
  context_made = refl;
  descriptor = 3;
  opened = refl;
  connected = refl;
  object = refl;
  shaken = refl;
  validated = refl;
  identified = refl;
  writes = λ call size some_bytes. omega (arith, some_bytes);
  reads = input-Delivers;
}

abbrev talks : Connection ℕ → Server Keys → ByteBuffer → ByteBuffer
talks = responder log status_provider config returns openssl

abbrev typed : Order → List Text
typed =
    command_line (codes "asm_initiator") (codes "localhost") (codes "cert.pem") (codes "key.pem")
      (codes "ca.pem")

-- A user asks for key 7.
order_carried_out_example :
    (main returns openssl (λ host port. route) (talks client server) (typed (find_key 7))
      ≡ exits 0
          (reply_line log status_provider (codes "ab12") 1776758400 (find_key 7) server.store)
          "")
    × ((raw : ByteBuffer) × (trace : SessionTrace) × (encoded_request (asked (find_key 7)) ≡ ok raw)
        × ((session log status_provider config returns openssl client raw server).0 ≡ ok tt)
        × ((session log status_provider config returns openssl client raw server).1.store
            ≡ carried_out (find_key 7) server.store)
        × ((session log status_provider config returns openssl client raw server).1.traces
            ≡ server.traces ++ trace ∷ [])
        × (trace.peer_thumbprint ≡ codes "ab12")
        × (trace.command ≡ (asked (find_key 7)).command)
        × (trace.status ≡ reply_code log status_provider 1776758400 (find_key 7) server.store))
unfolding IsOrder IsAnswerable reply_size
order_carried_out_example =
    order_carried_out log status_provider config returns openssl returns openssl
      (codes "asm_initiator") (codes "localhost") (codes "cert.pem") (codes "key.pem")
      (codes "ca.pem") (find_key 7) (λ host port. route) client identity identity server
      (omega arith) tt (omega arith) reaches admits

-- A user asks for the events from 5 to 4.
inverted_range_uncaught_example :
    (main returns openssl
        (λ host port. route)
        (responder_over
          (in_memory_service log status_provider)
          config
          returns
          openssl
          client
          server)
        (typed (list_events 5 4))
      ≡ aborts "batch payload too short")
    × ((raw : ByteBuffer) × (trace : SessionTrace) × (encoded_request (asked (list_events 5 4))
          ≡ ok raw)
        × ((session log status_provider config returns openssl client raw server).0 ≡ ok tt)
        × ((session log status_provider config returns openssl client raw server).1.store
            ≡ server.store)
        × ((session log status_provider config returns openssl client raw server).1.traces
            ≡ server.traces ++ trace ∷ [])
        × (trace.command ≡ get_event_list)
        × (trace.status ≡ invalid))
inverted_range_uncaught_example =
    inverted_range_uncaught (in_memory_service log status_provider) config returns openssl returns
      openssl (codes "asm_initiator") (codes "localhost") (codes "cert.pem") (codes "key.pem")
      (codes "ca.pem") 5 4 (λ host port. route) client identity identity server (omega arith)
      (omega arith) (omega arith) reaches admits

abbrev visit_for : Order → Visit ℕ ℕ
visit_for o = record {
  order = o;
  route = λ host port. route;
  connection = client;
  server_identity = identity;
  client_identity = identity;
}

-- A user purges key 7, and another asks for it.
abbrev two_visits : List (Visit ℕ ℕ)
two_visits = visit_for (purge 7) ∷ visit_for (find_key 7) ∷ []

two_visits-AllGood :
    AllGood log status_provider config returns openssl returns openssl
      (codes "asm_initiator")
      (codes "localhost")
      (codes "cert.pem")
      (codes "key.pem")
      (codes "ca.pem")
      two_visits
      server.store
unfolding AllGood IsOrder IsAnswerable reply_size
two_visits-AllGood = (
  record {
    fits = omega arith;
    answerable = tt;
    short = omega arith;
    reaches = reaches;
    admits = admits;
  },
  (
    record {
      fits = omega arith;
      answerable = tt;
      short = omega arith;
      reaches = reaches;
      admits = admits;
    },
    tt,
  ),
)

visits_carried_out_example :
    let (ends, last) =
      visits_end log status_provider config returns openssl returns openssl
        (codes "asm_initiator")
        (codes "localhost")
        (codes "cert.pem")
        (codes "key.pem")
        (codes "ca.pem")
        two_visits
        server in
    (ends
      ≡ all_lines log status_provider config returns openssl returns openssl
          (codes "asm_initiator")
          (codes "localhost")
          (codes "cert.pem")
          (codes "key.pem")
          (codes "ca.pem")
          two_visits
          server.store)
    × (last.store ≡ all_carried_out two_visits server.store)
visits_carried_out_example =
    visits_carried_out log status_provider config returns openssl returns openssl
      (codes "asm_initiator") (codes "localhost") (codes "cert.pem") (codes "key.pem")
      (codes "ca.pem") two_visits server two_visits-AllGood

find_key_shown :
    main returns openssl (λ host port. route) (talks client server) (typed (find_key 7))
    ≡ exits 0
        (reply_line log status_provider (codes "ab12") 1776758400 (find_key 7) server.store)
        ""
unfolding IsOrder IsAnswerable reply_size
find_key_shown =
    (order_carried_out log status_provider config returns openssl returns openssl
      (codes "asm_initiator") (codes "localhost") (codes "cert.pem") (codes "key.pem")
      (codes "ca.pem") (find_key 7) (λ host port. route) client identity identity server
      (omega arith) tt (omega arith) reaches admits).0

main-Talked_example :
    Talked returns openssl
      (λ host port. route)
      (talks client server)
      (typed (find_key 7))
      (reply_line log status_provider (codes "ab12") 1776758400 (find_key 7) server.store)
main-Talked_example =
    main-Talked returns openssl (λ host port. route) (talks client server) (typed (find_key 7))
      (reply_line log status_provider (codes "ab12") 1776758400 (find_key 7) server.store) ""
      find_key_shown

-- What is printed, in letters.
line_shown :
    reply_line log status_provider (codes "ab12") 1776758400 (find_key 7) server.store
    ≡ codes "peer=ab12 command=LEKeyQueryID response=successful request_id=1 key_present=true\n"
unfolding asked told reply_code decimal command_to_string response_to_string find
line_shown = refl

-- Two keys in memory, and a file that is to be written.
abbrev two_on_disk : JsonlLeKeyStore
two_on_disk = record { keys = two_keys; file = []; openings = 0 }

visits_on_disk_example :
    let (ends, last) =
      visits_over
        (jsonl_service log status_provider disk)
        config
        returns
        openssl
        returns
        openssl
        (codes "asm_initiator")
        (codes "localhost")
        (codes "cert.pem")
        (codes "key.pem")
        (codes "ca.pem")
        two_visits
        (record file_server { store = two_on_disk }) in
    (ends
      ≡ all_lines log status_provider config returns openssl returns openssl
          (codes "asm_initiator")
          (codes "localhost")
          (codes "cert.pem")
          (codes "key.pem")
          (codes "ca.pem")
          two_visits
          two_keys)
    × (last.store.keys ≡ all_carried_out two_visits two_keys)
visits_on_disk_example =
    visits_on_disk log status_provider disk config returns openssl returns openssl
      (codes "asm_initiator") (codes "localhost") (codes "cert.pem") (codes "key.pem")
      (codes "ca.pem") two_visits (record file_server { store = two_on_disk }) disk-IsWorking
      two_visits-AllGood
