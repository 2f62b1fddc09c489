-- ===== src/Service/Persistence.antt =====
-- The service over a key store with a file: what is on the disk after any requests, and what happens when
-- the file cannot be opened.
use iso26430_6_asm_prototype.Base.{
  ℕ, ◌+◌, ◌≡◌, ◌≢◌, refl, false, some, List, [], ◌∷◌, arith, All, IsByte, IsU32, length, Result, ok,
  err, Result-cases, Bool-cases, inl, inr, ◌==◌, ◌!=◌,
}
use iso26430_6_asm_prototype.Common.{
  ByteBuffer, Command, bad_request, get_time, le_key_load, le_key_purge_id, le_key_purge_all,
  StandardRequest, ServiceResult,
}
use iso26430_6_asm_prototype.EventLog.{EventLogStore}
use iso26430_6_asm_prototype.LeKey.Jsonl.Store.{
  Disk, JsonlLeKeyStore, open_store, persist, load_keys, purge_key, purge_all, jsonl,
}
use iso26430_6_asm_prototype.LeKey.Jsonl.Saved.{IsWorking, IsKept, open_store-IsKept, jsonl-Refines}
use iso26430_6_asm_prototype.LeKey.Jsonl.Operations.{
  load_keys-IsKept, purge_key-IsKept, purge_all-IsKept, decode_load_request-IsStorable,
}
use iso26430_6_asm_prototype.LeKey.Payload.{decode_load_request, decode_purge_id_request}
use iso26430_6_asm_prototype.LeKey.Payload.Records.{IsKeyRecord}
use iso26430_6_asm_prototype.LeKey.Payload.RoundTrip.{decode_load_request-encode_load_request}
use iso26430_6_asm_prototype.LeKey.Store.{Keys, capacity, would_overflow, put_all, in_memory}
use iso26430_6_asm_prototype.QuerySpb.{StaticQuerySpbStatusProvider}
use iso26430_6_asm_prototype.Service.{handle_request, dispatch}
use iso26430_6_asm_prototype.Service.Actions.{resume}
use iso26430_6_asm_prototype.Service.Handlers.{
  AsmService, handle_get_time, handle_get_event_list, handle_get_event_id, handle_query_spb,
  handle_le_key_load, handle_le_key_query_id, handle_le_key_query_all, handle_le_key_purge_id,
  handle_le_key_purge_all,
}
use iso26430_6_asm_prototype.Service.KeyCommands.{load_request, in_memory_service}
use iso26430_6_asm_prototype.Service.Refinement.{Arrival, run, run-Refines}

nonzero_test : (n : ℕ) → n ≢ 0 → (n == 0) ≡ false
nonzero_test n h = ground arith

module _ (log : EventLogStore) (status : StaticQuerySpbStatusProvider) (disk : Disk) where
  abbrev pub jsonl_service : AsmService JsonlLeKeyStore
  jsonl_service = record {
    event_log_store = log;
    le_key_store = jsonl disk;
    spb_status_provider = status;
  }

  -- An answer behind an action on the store has its state.
  after_action :
      {A : Type 0} (o : Result A × JsonlLeKeyStore) (f : A → ServiceResult)
      → IsKept o.1
      → IsKept (resume {B = ServiceResult} o.0 (λ a s. (ok (f a), s)) o.1).1
  after_action (ok a, s) f h = h
  after_action (err e, s) f h = h

  module _ (w : IsWorking disk) where
    load-IsKept :
        (r : StandardRequest) (s : JsonlLeKeyStore)
        → All IsByte r.payload
        → IsKept s
        → IsKept (handle_le_key_load jsonl_service r s).1
    unfolding handle_le_key_load
    load-IsKept r s bytes h = elim (Result-cases (decode_load_request r.payload)) [
      | inl (p, e) ↦ rw e (
          after_action (load_keys disk p.keys s) _ (
            load_keys-IsKept disk w p.keys s (decode_load_request-IsStorable r.payload p bytes e)
              h))
      | inr (m, e) ↦ rw e h
    ]

    purge-IsKept :
        (r : StandardRequest) (s : JsonlLeKeyStore)
        → IsKept s
        → IsKept (handle_le_key_purge_id jsonl_service r s).1
    unfolding handle_le_key_purge_id
    purge-IsKept r s h = elim (Result-cases (decode_purge_id_request r.payload)) [
      | inl (p, e) ↦
          rw e (after_action (purge_key disk p.key_id s) _ (purge_key-IsKept disk w p.key_id s h))
      | inr (m, e) ↦ rw e h
    ]

    clear-IsKept :
        (r : StandardRequest) (s : JsonlLeKeyStore)
        → IsKept s
        → IsKept (handle_le_key_purge_all jsonl_service r s).1
    unfolding handle_le_key_purge_all
    clear-IsKept r s h = elim (Bool-cases (length r.payload != 0)) [
      | inl full ↦ rw full h
      | inr empty ↦ rw empty (after_action (purge_all disk s) _ (purge_all-IsKept disk w s h))
    ]

    dispatch-IsKept :
        (c : Command) (now : ℕ) (r : StandardRequest) (raw : ByteBuffer) (s : JsonlLeKeyStore)
        → All IsByte r.payload
        → IsKept s
        → IsKept (dispatch jsonl_service c now r raw s).1
    unfolding dispatch handle_get_time handle_get_event_list handle_get_event_id handle_query_spb
        handle_le_key_query_id handle_le_key_query_all
    dispatch-IsKept bad_request now r raw s bytes h = h
    dispatch-IsKept get_time now r raw s bytes h = h
    dispatch-IsKept le_key_load now r raw s bytes h = load-IsKept r s bytes h
    dispatch-IsKept le_key_purge_id now r raw s bytes h = purge-IsKept r s h
    dispatch-IsKept le_key_purge_all now r raw s bytes h = clear-IsKept r s h
    dispatch-IsKept c now r raw s bytes h =
        let same : (dispatch jsonl_service c now r raw s).1 ≡ s = ground arith in rw same h

    pub handle-IsKept :
        (a : Arrival) (s : JsonlLeKeyStore)
        → All IsByte a.request.payload
        → IsKept s
        → IsKept (handle_request jsonl_service a.now a.request a.raw s).1
    unfolding handle_request
    handle-IsKept a s bytes h = elim (Bool-cases (a.request.request_id == 0)) [
      | inl zero ↦ rw zero h
      | inr nonzero ↦ rw nonzero (dispatch-IsKept a.request.command a.now a.request a.raw s bytes h)
    ]

    run-IsKept :
        (arrivals : List Arrival) (s : JsonlLeKeyStore)
        → All (λ a. All IsByte a.request.payload) arrivals
        → IsKept s
        → IsKept (run jsonl_service arrivals s).1
    unfolding run
    run-IsKept [] s bytes h = h
    run-IsKept (a ∷ arrivals) s (ha, bytes) h =
        run-IsKept arrivals (handle_request jsonl_service a.now a.request a.raw s).1 bytes
          (handle-IsKept a s ha h)

    -- Over a file system that never fails, and from a store whose file reads as its keys, any requests
    -- whose payloads are bytes are answered as they are over the in-memory store with the same keys. If the
    -- program ends then and starts again on the file, it has the keys that the in-memory store has.
    pub restart :
        (arrivals : List Arrival) (s : JsonlLeKeyStore)
        → All (λ a. All IsByte a.request.payload) arrivals
        → IsKept s
        → let memory = run (in_memory_service log status) arrivals s.keys in
          let (answers, last) = run jsonl_service arrivals s in
          (answers ≡ memory.0)
          × (open_store disk (some last.file)
              ≡ ok (record { keys = memory.1; file = last.file; openings = 0 }))
    restart arrivals s bytes h =
        let (same, seen) =
          run-Refines log status (jsonl disk) in_memory (λ s. s.keys) (jsonl-Refines disk w)
            arrivals s in
        (
          same,
          rw (← seen) (
              open_store-IsKept disk (run jsonl_service arrivals s).1 w
                (run-IsKept arrivals s bytes h)),
        )

  -- If the file cannot be opened for writing, a load of well-formed keys, fewer than 2 ^ 32 and under a
  -- request id other than zero, that would not overflow throws, and the file stays as it was; but the store
  -- in memory has taken the keys.
  pub load_not_saved :
      (now n : ℕ) (raw : ByteBuffer) (keys : Keys) (s : JsonlLeKeyStore)
      → n ≢ 0
      → IsU32 (length keys)
      → All IsKeyRecord keys
      → would_overflow keys s.keys capacity ≡ false
      → disk.opens s.openings ≡ false
      → handle_request jsonl_service now (load_request n keys) raw s ≡ (
        err "failed to persist LEKey JSONL store",
        record s { keys = put_all keys s.keys; openings = s.openings + 1 },
      )
  unfolding handle_request dispatch handle_le_key_load load_keys persist
  load_not_saved now n raw keys s nonzero counted fits room shut =
      rw
        (
          nonzero_test n nonzero,
          decode_load_request-encode_load_request (record { keys = keys }) counted fits,
          room,
          shut,
        )
        refl
