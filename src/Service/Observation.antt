-- ===== src/Service/Observation.antt =====
-- What the answers of the service of src/asm/service.cpp show of the keys in memory, which is their ids in their
-- order.
use iso26430_6_asm_prototype.Base.{
  ℕ, ◌≡◌, ◌↔◌, refl, sym, ap, ◌∙◌, List, [], ◌∷◌, Result, ok, err, All, IsU32, length,
}
use iso26430_6_asm_prototype.Common.{ServiceResult}
use iso26430_6_asm_prototype.EventLog.{EventLogStore}
use iso26430_6_asm_prototype.LeKey.{LeKeyQueryAllResponsePayload}
use iso26430_6_asm_prototype.LeKey.Payload.{decode_query_all_response}
use iso26430_6_asm_prototype.LeKey.Payload.RoundTrip.{
  decode_query_all_response-encode_query_all_response,
}
use iso26430_6_asm_prototype.LeKey.Store.{Keys, in_memory, list_key_ids}
use iso26430_6_asm_prototype.QuerySpb.{StaticQuerySpbStatusProvider}
use iso26430_6_asm_prototype.Service.{handle_request, dispatch}
use iso26430_6_asm_prototype.Service.Handlers.{AsmService, handle_le_key_query_all}
use iso26430_6_asm_prototype.Service.KeyCommands.{in_memory_service}
use iso26430_6_asm_prototype.Service.KeyIds.{id_store, in_memory-Refines}
use iso26430_6_asm_prototype.Service.KeyListing.{query_all_request}
use iso26430_6_asm_prototype.Service.Refinement.{Arrival, run, run-Refines}

-- The ids fit their fields in an answer.
abbrev pub AreIds : List ℕ → Type 0
AreIds ids = IsU32 (length ids) × All IsU32 ids

-- What a client makes of the first answer, taken for a list of ids.
abbrev ids_in : Result LeKeyQueryAllResponsePayload → List ℕ
ids_in (ok payload) = payload.key_ids
ids_in (err what) = []

abbrev ids_heard : List (Result ServiceResult) → List ℕ
ids_heard (ok result ∷ others) = ids_in (decode_query_all_response result.response.payload)
ids_heard others = []

abbrev question : Arrival
question = record { now = 0; request = query_all_request 1; raw = [] }

module _ (log : EventLogStore) (status : StaticQuerySpbStatusProvider) where
  -- Whatever requests come in, they are answered alike.
  abbrev pub SameAnswers : Keys → Keys → Type 0
  SameAnswers s t =
      (arrivals : List Arrival)
      → (run (in_memory_service log status) arrivals s).0
        ≡ (run (in_memory_service log status) arrivals t).0

  ids_heard-question :
      (s : Keys)
      → AreIds (list_key_ids s)
      → ids_heard (run (in_memory_service log status) (question ∷ []) s).0 ≡ list_key_ids s
  unfolding run handle_request dispatch handle_le_key_query_all
  ids_heard-question s (counted, fits) =
      rw (decode_query_all_response-encode_query_all_response (list_key_ids s) counted fits) refl

  abbrev id_service : AsmService (List ℕ)
  id_service = record {
    event_log_store = log;
    le_key_store = id_store;
    spb_status_provider = status;
  }

  by_ids :
      (arrivals : List Arrival) (s : Keys)
      → (run (in_memory_service log status) arrivals s).0
        ≡ (run id_service arrivals (list_key_ids s)).0
  by_ids arrivals s =
      (run-Refines log status in_memory id_store list_key_ids in_memory-Refines arrivals s).0

  -- Two stores in memory whose key ids have 32 bits, and are fewer than 2 ^ 32, have the same answers to
  -- whatever requests come in just if they have the same ids in the same order: a client can learn the
  -- ids, and nothing else of the keys.
  pub SameAnswers-iff :
      (s t : Keys)
      → AreIds (list_key_ids s)
      → AreIds (list_key_ids t)
      → SameAnswers s t ↔ (list_key_ids s ≡ list_key_ids t)
  SameAnswers-iff s t hs ht = (
    λ same.
        sym (ids_heard-question s hs)
        ∙ ap ids_heard (same (question ∷ []))
        ∙ ids_heard-question t ht,
    λ same arrivals.
        by_ids arrivals s
        ∙ ap (λ ids. (run (id_service) arrivals ids).0) same
        ∙ sym (by_ids arrivals t),
  )
