-- ===== src/Transport/Server/Views.antt =====
-- What the clients and the observer of `TlsServer`, of src/transport/tls_server.cpp, can and cannot tell of the key
-- store.
use iso26430_6_asm_prototype.Base.{◌≡◌, ap, ◌∙◌, sym, List, Bool}
use iso26430_6_asm_prototype.EventLog.{EventLogStore}
use iso26430_6_asm_prototype.LeKey.Jsonl.Saved.{IsWorking, jsonl-Refines}
use iso26430_6_asm_prototype.LeKey.Jsonl.Store.{Disk, JsonlLeKeyStore, jsonl}
use iso26430_6_asm_prototype.LeKey.Store.{Keys, in_memory, list_key_ids}
use iso26430_6_asm_prototype.QuerySpb.{StaticQuerySpbStatusProvider}
use iso26430_6_asm_prototype.Security.Certificates.{OpenSsl}
use iso26430_6_asm_prototype.Security.Profile.{Returns, TlsConfig}
use iso26430_6_asm_prototype.Service.KeyCommands.{in_memory_service}
use iso26430_6_asm_prototype.Service.KeyIds.{id_store, in_memory-Refines}
use iso26430_6_asm_prototype.Service.Persistence.{jsonl_service}
use iso26430_6_asm_prototype.Transport.Server.{Turn, Server, loop}
use iso26430_6_asm_prototype.Transport.Server.Simulation.{see, serving}
use iso26430_6_asm_prototype.Transport.Server.Simulation.Loops.{loop-see}

module _ {P : Type 0} (log : EventLogStore) (status : StaticQuerySpbStatusProvider)
    (config : TlsConfig) (returns : Returns) (openssl : OpenSsl P) (observer : Bool)
    (turns : List (Turn P)) where
  by_ids :
      (s : Server Keys)
      → loop
          (serving log status id_store)
          config
          returns
          openssl
          observer
          turns
          (see list_key_ids s)
        ≡ (
          (loop (in_memory_service log status) config returns openssl observer turns s).0,
          see list_key_ids
              (loop (in_memory_service log status) config returns openssl observer turns s).1,
        )
  by_ids s =
      loop-see log status in_memory id_store list_key_ids in_memory-Refines config returns openssl
        observer turns s

  -- A server whose key file can always be opened and read back does, whatever the rounds of its loop
  -- bring, what a server with the same keys in memory does: it writes the same bytes to each client,
  -- tells the observer the same, opens and closes the same sockets, ends in the same way, and has the
  -- same keys in the end.
  pub loop_as_in_memory :
      (disk : Disk) (s : Server JsonlLeKeyStore)
      → IsWorking disk
      → let (outcome, last) =
          loop (jsonl_service log status disk) config returns openssl observer turns s in
        loop
          (in_memory_service log status)
          config
          returns
          openssl
          observer
          turns
          (see (λ t. t.keys) s)
        ≡ (outcome, see (λ t. t.keys) last)
  loop_as_in_memory disk s works =
      loop-see log status (jsonl disk) in_memory (λ t. t.keys) (jsonl-Refines disk works) config
        returns openssl observer turns s

  -- No client learns more of the keys in memory than their ids. If other keys with the same ids, in the
  -- same order, are put in their place, the server writes the same bytes to each client, tells the
  -- observer the same, opens and closes the same sockets and ends in the same way, whatever the rounds
  -- of its loop bring; and the ids in the end are the same.
  pub keys_stay_hidden :
      (s : Server Keys) (others : Keys)
      → list_key_ids others ≡ list_key_ids s.store
      → let (outcome, last) =
          loop (in_memory_service log status) config returns openssl observer turns s in
        let (outcome2, last2) =
          loop
            (in_memory_service log status)
            config
            returns
            openssl
            observer
            turns
            (record s { store = others }) in
        (outcome2 ≡ outcome)
        × (last2.written ≡ last.written)
        × (last2.traces ≡ last.traces)
        × (last2.sockets ≡ last.sockets)
        × (list_key_ids last2.store ≡ list_key_ids last.store)
  keys_stay_hidden s others same =
      let alike =
        sym (by_ids (record s { store = others }))
        ∙ ap
            (λ ids.
              loop (serving log status id_store) config returns openssl observer turns
                (record (see list_key_ids s) { store = ids }))
            same
        ∙ by_ids s in
      (
        ap (λ p. p.0) alike,
        ap (λ p. p.1.written) alike,
        ap (λ p. p.1.traces) alike,
        ap (λ p. p.1.sockets) alike,
        ap (λ p. p.1.store) alike,
      )
