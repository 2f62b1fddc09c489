-- ===== src/Examples/Dialogs.antt =====
-- The service over its in-memory stores.
use iso26430_6_asm_prototype.Base.{
  ℕ, ◌≤◌, ◌≡◌, ◌⊎◌, refl, ap, some, List, [], ◌∷◌, length, arith, ok, if◌then◌else◌,
}
use iso26430_6_asm_prototype.Common.{get_time, successful, StandardRequest, ServiceResult}
use iso26430_6_asm_prototype.EventLog
use iso26430_6_asm_prototype.EventLog.{EventLogStore, default_events}
use iso26430_6_asm_prototype.LeKey.Store.{capacity, is_found, list_key_ids, would_overflow}
use iso26430_6_asm_prototype.LeKey.Payload.{
  encode_load_request, decode_load_request, decode_query_all_response,
}
use iso26430_6_asm_prototype.LeKey.Payload.RoundTrip.{decode_load_request-encode_load_request}
use iso26430_6_asm_prototype.LeKey.Store.Table.{find, last_of, is_some}
use iso26430_6_asm_prototype.LeKey.Store.Capacity.{IsStore}
use iso26430_6_asm_prototype.Service.{handle_request}
use iso26430_6_asm_prototype.Service.Handlers.{handle_get_time}
use iso26430_6_asm_prototype.BigEndian.{append_be_u64}
use iso26430_6_asm_prototype.Service.Answers.{Echoes, Refuses, MustRefuse, handle_request_answer}
use iso26430_6_asm_prototype.Service.KeyCommands.{
  load_request, query_id_request, purge_id_request, in_memory_service, handle, handle-IsStore,
}
use iso26430_6_asm_prototype.Service.KeyDialog.{is_present, query_after_load}
use iso26430_6_asm_prototype.Service.KeyListing.{query_all_request, times, query_every_answer}
use iso26430_6_asm_prototype.Examples.Data.{two_keys, two_keys-IsKeyRecord, status_provider}

abbrev log : EventLogStore
log = EventLog.in_memory default_events

abbrev time_request : StandardRequest
time_request = record { command = get_time; request_id = 3; payload = [] }

abbrev time_result : ServiceResult
time_result = record {
  response = record {
    command = get_time;
    request_id = some 3;
    payload = 0 ∷ 0 ∷ 0 ∷ 0 ∷ 0x69 ∷ 0xe7 ∷ 0x2e ∷ 0x80 ∷ [];
    response_code = successful;
  };
  note = "GetTime handled";
}

time_handled :
    handle log status_provider 1776758400 [] time_request two_keys ≡ (ok time_result, two_keys)
unfolding handle_request handle_get_time append_be_u64
time_handled = refl

handle_request_answer_example :
    ((¬ MustRefuse time_request) × Echoes time_request time_result)
    ⊎ (MustRefuse time_request
        × Refuses [] time_result
        × ((handle log status_provider 1776758400 [] time_request two_keys).1 ≡ two_keys))
handle_request_answer_example =
    handle_request_answer (in_memory_service log status_provider) 1776758400 time_request []
      two_keys time_result (ap (λ o. o.0) time_handled)

two_keys-IsStore : IsStore two_keys
two_keys-IsStore = record {
  distinct = unfold is_found in (refl, (refl, tt));
  bounded = omega arith;
}

handle-IsStore_example : IsStore (handle log status_provider 0 [] (purge_id_request 1 7) two_keys).1
handle-IsStore_example =
    handle-IsStore log status_provider 0 [] (purge_id_request 1 7) two_keys two_keys-IsStore

query_every_answer_example :
    (result : ServiceResult) × (ids : List ℕ) × (handle log status_provider 0 []
        (query_all_request 3)
        two_keys
      ≡ (ok result, two_keys))
    × (result.response.response_code ≡ successful)
    × (decode_query_all_response result.response.payload ≡ ok (record { key_ids = ids }))
    × (length ids ≤ capacity)
    × ((id : ℕ) → times id ids ≡ (if is_some (find id two_keys) then 1 else 0))
query_every_answer_example =
    query_every_answer log status_provider 0 [] 3 two_keys (λ e. cc) two_keys-IsStore
      (unfold list_key_ids in (omega arith, (omega arith, tt)))

decode_load_request-encode_load_request_example :
    decode_load_request (encode_load_request (record { keys = two_keys }))
    ≡ ok (record { keys = two_keys })
decode_load_request-encode_load_request_example =
    decode_load_request-encode_load_request (record { keys = two_keys }) (omega arith)
      two_keys-IsKeyRecord

query_after_load_example :
    is_present
      (handle log status_provider 0 []
        (query_id_request 2 7)
        (handle log status_provider 0 [] (load_request 1 two_keys) []).1).0
    ≡ ok (record { key_present = is_some (last_of 7 two_keys (find 7 [])) })
query_after_load_example =
    query_after_load log status_provider 0 [] 1 2 7 two_keys [] (λ e. cc) (λ e. cc) (omega arith)
      (omega arith) two_keys-IsKeyRecord (unfold would_overflow in refl)
