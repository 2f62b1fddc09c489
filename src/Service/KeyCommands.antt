-- ===== src/Service/KeyCommands.antt =====
-- The LE key commands over the in-memory store, from a request as a client writes it to the payload that
-- the client reads.
use iso26430_6_asm_prototype.Base.{
  ℕ, ◌≡◌, refl, [], length, arith, Result, ok, err, String, ◌==◌, if◌then◌else◌, Bool-cases, inl,
  inr,
}
use iso26430_6_asm_prototype.Common.{
  ByteBuffer, Command, bad_request, get_time, le_key_load, le_key_query_id, le_key_purge_id,
  le_key_purge_all, StandardRequest, ServiceResult,
}
use iso26430_6_asm_prototype.EventLog.{EventLogStore}
use iso26430_6_asm_prototype.LeKey.{LeKeyLoadRequestPayload, LeKeyPurgeIdRequestPayload}
use iso26430_6_asm_prototype.LeKey.Payload.{
  encode_load_request, decode_load_request, encode_query_id_request, encode_purge_id_request,
  decode_purge_id_request,
}
use iso26430_6_asm_prototype.LeKey.Store.{Keys, in_memory, load_keys, purge_key}
use iso26430_6_asm_prototype.LeKey.Store.Capacity.{IsStore, load_keys-IsStore, purge_key-IsStore}
use iso26430_6_asm_prototype.QuerySpb.{StaticQuerySpbStatusProvider}
use iso26430_6_asm_prototype.Service.{handle_request, dispatch}
use iso26430_6_asm_prototype.Service.Handlers.{
  AsmService, handle_get_time, handle_get_event_list, handle_get_event_id, handle_query_spb,
  handle_le_key_load, handle_le_key_query_id, handle_le_key_query_all, handle_le_key_purge_id,
  handle_le_key_purge_all,
}

-- The requests of a client, by request id.
abbrev pub load_request : ℕ → Keys → StandardRequest
load_request n keys = record {
  command = le_key_load;
  request_id = n;
  payload = encode_load_request (record { keys = keys });
}

abbrev pub query_id_request : ℕ → ℕ → StandardRequest
query_id_request n id = record {
  command = le_key_query_id;
  request_id = n;
  payload = encode_query_id_request (record { key_id = id });
}

abbrev pub purge_id_request : ℕ → ℕ → StandardRequest
purge_id_request n id = record {
  command = le_key_purge_id;
  request_id = n;
  payload = encode_purge_id_request (record { key_id = id });
}

loaded : Result LeKeyLoadRequestPayload → Keys → Keys
loaded (ok p) s = (load_keys p.keys s).1
loaded (err m) s = s

purged : Result LeKeyPurgeIdRequestPayload → Keys → Keys
purged (ok p) s = (purge_key p.key_id s).1
purged (err m) s = s

-- The effect of each command on the keys: a load, a purge of one id and a purge of all change them, if
-- the payload is well formed, and no other command does.
unfoldable pub store_after : Command → ByteBuffer → Keys → Keys
unfolding loaded purged
store_after le_key_load payload s = loaded (decode_load_request payload) s
store_after le_key_purge_id payload s = purged (decode_purge_id_request payload) s
store_after le_key_purge_all payload s = if length payload == 0 then [] else s
store_after _ payload s = s

loaded-IsStore : (d : Result LeKeyLoadRequestPayload) (s : Keys) → IsStore s → IsStore (loaded d s)
unfolding loaded
loaded-IsStore (ok p) s h = load_keys-IsStore p.keys s h
loaded-IsStore (err m) s h = h

purged-IsStore :
    (d : Result LeKeyPurgeIdRequestPayload) (s : Keys) → IsStore s → IsStore (purged d s)
unfolding purged
purged-IsStore (ok p) s h = purge_key-IsStore p.key_id s h
purged-IsStore (err m) s h = h

store_after-IsStore :
    (c : Command) (payload : ByteBuffer) (s : Keys) → IsStore s → IsStore (store_after c payload s)
unfolding store_after
store_after-IsStore le_key_load payload s h = loaded-IsStore (decode_load_request payload) s h
store_after-IsStore le_key_purge_id payload s h =
    purged-IsStore (decode_purge_id_request payload) s h
store_after-IsStore le_key_purge_all payload s h = elim (Bool-cases (length payload == 0)) [
  | inl empty ↦ rw empty (record { distinct = tt; bounded = omega arith })
  | inr full ↦ rw full h
]
store_after-IsStore bad_request payload s h = h
store_after-IsStore _ payload s h = h

module _ (log : EventLogStore) (status : StaticQuerySpbStatusProvider) where
  abbrev pub in_memory_service : AsmService Keys
  in_memory_service = record {
    event_log_store = log;
    le_key_store = in_memory;
    spb_status_provider = status;
  }

  module _ (now : ℕ) (raw : ByteBuffer) where
    abbrev pub handle : StandardRequest → Keys → Result ServiceResult × Keys
    handle r s = handle_request in_memory_service now r raw s

    dispatch_throws :
        (c : Command) (r : StandardRequest) (s : Keys) (m : String)
        → (dispatch in_memory_service c now r raw s).0 ≡ err m
        → (dispatch in_memory_service c now r raw s).1 ≡ s
    unfolding dispatch handle_get_time handle_get_event_list handle_get_event_id handle_query_spb
        handle_le_key_load handle_le_key_query_id handle_le_key_query_all handle_le_key_purge_id
        handle_le_key_purge_all
    dispatch_throws bad_request r s m e = refl
    dispatch_throws get_time r s m e = refl
    dispatch_throws _ r s m e = ground arith

    dispatch-store_after :
        (c : Command) (r : StandardRequest) (s : Keys)
        → (dispatch in_memory_service c now r raw s).1 ≡ store_after c r.payload s
    unfolding dispatch handle_get_time handle_get_event_list handle_get_event_id handle_query_spb
        handle_le_key_load handle_le_key_query_id handle_le_key_query_all handle_le_key_purge_id
        handle_le_key_purge_all store_after
    dispatch-store_after bad_request r s = refl
    dispatch-store_after get_time r s = refl
    dispatch-store_after _ r s = ground arith

    -- Over the in-memory store a request has just the effect of its command, and none if its id is zero
    -- or the service throws.
    pub handle-store_after :
        (r : StandardRequest) (s : Keys)
        → ((handle r s).1 ≡ (if r.request_id == 0 then s else store_after r.command r.payload s))
          × ((m : String) → (handle r s).0 ≡ err m → (handle r s).1 ≡ s)
    unfolding handle_request
    handle-store_after r s = elim (Bool-cases (r.request_id == 0)) [
      | inl zero ↦ rw zero (refl, λ m e. refl)
      | inr nonzero ↦ rw nonzero (dispatch-store_after r.command r s, dispatch_throws r.command r s)
    ]

    -- Whatever the request, a store whose ids are distinct and which has at most sixteen keys
    -- remains one.
    pub handle-IsStore : (r : StandardRequest) (s : Keys) → IsStore s → IsStore (handle r s).1
    handle-IsStore r s h = elim (Bool-cases (r.request_id == 0)) [
      | inl zero ↦ rw ((handle-store_after r s).0, zero) h
      | inr nonzero ↦
          rw ((handle-store_after r s).0, nonzero) (store_after-IsStore r.command r.payload s h)
    ]
