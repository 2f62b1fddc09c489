-- ===== src/Apps/EndToEnd/OnDisk.antt =====
-- Several users of src/apps/asm_initiator.cpp, one after another, at one responder with its keys in a file.
use iso26430_6_asm_prototype.Base.{◌≡◌, refl, ap, ◌∙◌, sym, List, [], ◌∷◌, Text, true}
use iso26430_6_asm_prototype.Common.{ByteBuffer}
use iso26430_6_asm_prototype.Apps.EndToEnd.{session_over, responder_over, first_written}
use iso26430_6_asm_prototype.Apps.EndToEnd.Visits.{
  Visit, visits_over, all_carried_out, all_lines, AllGood, visits_carried_out,
}
use iso26430_6_asm_prototype.EventLog.{EventLogStore}
use iso26430_6_asm_prototype.LeKey.{LeKeyStore}
use iso26430_6_asm_prototype.LeKey.Jsonl.Saved.{IsWorking, jsonl-Refines}
use iso26430_6_asm_prototype.LeKey.Jsonl.Store.{Disk, JsonlLeKeyStore, jsonl}
use iso26430_6_asm_prototype.LeKey.Store.{in_memory}
use iso26430_6_asm_prototype.QuerySpb.{StaticQuerySpbStatusProvider}
use iso26430_6_asm_prototype.Security.Certificates.{OpenSsl}
use iso26430_6_asm_prototype.Security.Profile.{Returns, TlsConfig}
use iso26430_6_asm_prototype.Service.Persistence.{jsonl_service}
use iso26430_6_asm_prototype.Service.Refinement.{Refines}
use iso26430_6_asm_prototype.Transport.Server.{Connection, Server}
use iso26430_6_asm_prototype.Transport.Server.Simulation.{see, serving, serve_client-Agrees}

module _ {S T P Q : Type 0} (log : EventLogStore) (status : StaticQuerySpbStatusProvider)
    (concrete : LeKeyStore S) (abstract : LeKeyStore T) (view : S → T)
    (h : Refines concrete abstract view) (config : TlsConfig) (server_returns : Returns)
    (server_ssl : OpenSsl Q) (returns : Returns) (openssl : OpenSsl P)
    (name host certificate key ca : Text) where
  session-see :
      (c : Connection Q) (raw : ByteBuffer) (s : Server S)
      → see view
          (session_over (serving log status concrete) config server_returns server_ssl c raw s).1
        ≡ (session_over
            (serving log status abstract)
            config
            server_returns
            server_ssl
            c
            raw
            (see view s)).1
  session-see c raw s =
      (serve_client-Agrees log status concrete abstract view h config server_returns server_ssl true
        (record c { pending = raw }) s).1

  responder-see :
      (c : Connection Q) (s : Server S)
      → responder_over (serving log status concrete) config server_returns server_ssl c s
        ≡ responder_over
            (serving log status abstract)
            config
            server_returns
            server_ssl
            c
            (see view s)
  responder-see c s i raw = first_written (session-see c raw (record s { written = [] }) i).written

  visits-see :
      (visits : List (Visit P Q)) (s : Server S)
      → visits_over
          (serving log status abstract)
          config
          server_returns
          server_ssl
          returns
          openssl
          name
          host
          certificate
          key
          ca
          visits
          (see view s)
        ≡ (
          (visits_over
              (serving log status concrete)
              config
              server_returns
              server_ssl
              returns
              openssl
              name
              host
              certificate
              key
              ca
              visits
              s).0,
          see view
              (visits_over
                (serving log status concrete)
                config
                server_returns
                server_ssl
                returns
                openssl
                name
                host
                certificate
                key
                ca
                visits
                s).1,
        )
  unfolding visits_over
  visits-see [] s = refl
  visits-see (v ∷ visits) s =
      rw (← (responder-see v.connection s), ← (session-see v.connection _ s), visits-see visits _)
        refl

-- On a file system that never fails, orders that users type one after another, each over a connection of its
-- own, are carried out by a responder with a key file as by one with the same keys in memory. For each
-- visit, the numbers of the order fit their types and a key has 16 bytes; a window of times does not end
-- before it starts; the answer, for the keys that the orders before have left, fits its fields and 4096
-- bytes; client and server let each other in; and every write takes a byte at least, and every read
-- delivers what there is. Then each asm_initiator exits with 0 and prints what the order asks for of the
-- keys that the orders before have left, and the responder has in the end the keys that all orders
-- together leave.
pub visits_on_disk :
    {P Q : Type 0}
    → (log : EventLogStore) (status : StaticQuerySpbStatusProvider) (disk : Disk)
      (config : TlsConfig) (server_returns : Returns) (server_ssl : OpenSsl Q) (returns : Returns)
      (openssl : OpenSsl P) (name host certificate key ca : Text) (visits : List (Visit P Q))
      (s : Server JsonlLeKeyStore)
    → IsWorking disk
    → AllGood log status config server_returns server_ssl returns openssl name host certificate key
        ca visits s.store.keys
    → let (ends, last) =
        visits_over
          (jsonl_service log status disk)
          config
          server_returns
          server_ssl
          returns
          openssl
          name
          host
          certificate
          key
          ca
          visits
          s in
      (ends
        ≡ all_lines log status config server_returns server_ssl returns openssl name host
            certificate key ca visits s.store.keys)
      × (last.store.keys ≡ all_carried_out visits s.store.keys)
visits_on_disk log status disk config server_returns server_ssl returns openssl name host
      certificate key ca visits s works good =
    let (ends, last) =
      visits_carried_out log status config server_returns server_ssl returns openssl name host
        certificate key ca visits (see (λ t. t.keys) s) good in
    let same =
      visits-see log status (jsonl disk) in_memory (λ t. t.keys) (jsonl-Refines disk works) config
        server_returns server_ssl returns openssl name host certificate key ca visits s in
    (sym (ap (λ p. p.0) same) ∙ ends, sym (ap (λ p. p.1.store) same) ∙ last)
