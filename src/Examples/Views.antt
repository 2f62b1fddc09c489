-- ===== src/Examples/Views.antt =====
-- The server over other key stores, and what requests can tell of the keys.
use iso26430_6_asm_prototype.Base.{◌≡◌, ◌↔◌, refl, [], ◌∷◌, true, arith}
use iso26430_6_asm_prototype.EventLog
use iso26430_6_asm_prototype.EventLog.{EventLogStore, default_events}
use iso26430_6_asm_prototype.LeKey.Store.{Keys, list_key_ids}
use iso26430_6_asm_prototype.Service.KeyCommands.{in_memory_service}
use iso26430_6_asm_prototype.Service.Observation.{AreIds, SameAnswers, SameAnswers-iff}
use iso26430_6_asm_prototype.Service.Refinement.{run}
use iso26430_6_asm_prototype.Transport.Server.{loop}
use iso26430_6_asm_prototype.Transport.Server.Requests.{arrivals, loop-run}
use iso26430_6_asm_prototype.Transport.Server.Views.{keys_stay_hidden}
use iso26430_6_asm_prototype.Examples.Data.{key, status_provider}
use iso26430_6_asm_prototype.Examples.Peers.{openssl, returns, config, turns, server}

abbrev log : EventLogStore
log = EventLog.in_memory default_events

loop-run_example :
    (loop (in_memory_service log status_provider) config returns openssl true turns server).1.store
    ≡ (run
        (in_memory_service log status_provider)
        (arrivals config returns openssl turns)
        server.store).1
loop-run_example =
    loop-run (in_memory_service log status_provider) config returns openssl true turns server

-- The ids of `two_keys`, and other expiry times.
abbrev other_keys : Keys
other_keys = key 7 0 ∷ key 4294967295 1776758400 ∷ []

keys_stay_hidden_example :
    let (outcome, last) =
      loop (in_memory_service log status_provider) config returns openssl true turns server in
    let (outcome2, last2) =
      loop
        (in_memory_service log status_provider)
        config
        returns
        openssl
        true
        turns
        (record server { store = other_keys }) in
    (outcome2 ≡ outcome)
    × (last2.written ≡ last.written)
    × (last2.traces ≡ last.traces)
    × (last2.sockets ≡ last.sockets)
    × (list_key_ids last2.store ≡ list_key_ids last.store)
unfolding list_key_ids
keys_stay_hidden_example =
    keys_stay_hidden log status_provider config returns openssl true turns server other_keys refl

other_keys-AreIds : AreIds (list_key_ids other_keys)
unfolding list_key_ids
other_keys-AreIds = (omega arith, (omega arith, (omega arith, tt)))

abbrev one_key : Keys
one_key = key 7 0 ∷ []

one_key-AreIds : AreIds (list_key_ids one_key)
unfolding list_key_ids
one_key-AreIds = (omega arith, (omega arith, tt))

SameAnswers-iff_example :
    SameAnswers log status_provider other_keys one_key
    ↔ (list_key_ids other_keys ≡ list_key_ids one_key)
SameAnswers-iff_example =
    SameAnswers-iff log status_provider other_keys one_key other_keys-AreIds one_key-AreIds
