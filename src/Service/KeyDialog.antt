-- ===== src/Service/KeyDialog.antt =====
-- What a client of the in-memory store is told: its requests go through the payload encoders, and the
-- answers through the payload decoders.
use iso26430_6_asm_prototype.Base.{
  ℕ, ◌≡◌, ◌≢◌, refl, Bool, false, not, arith, All, IsU32, length, Result, ok, ◌==◌, if◌then◌else◌,
  ap, ◌∙◌, ◌>>=◌,
}
use iso26430_6_asm_prototype.Common.{
  ByteBuffer, successful, failed, ServiceResult, StandardRequest, le_key_load, le_key_query_id,
  le_key_purge_id,
}
use iso26430_6_asm_prototype.EventLog.{EventLogStore}
use iso26430_6_asm_prototype.LeKey.{LeKeyQueryIdResponsePayload}
use iso26430_6_asm_prototype.LeKey.Payload.{
  decode_load_response, encode_load_response, decode_query_id_response, encode_query_id_response,
  decode_purge_id_response, encode_purge_id_response,
}
use iso26430_6_asm_prototype.LeKey.Payload.Records.{IsKeyRecord}
use iso26430_6_asm_prototype.LeKey.Payload.RoundTrip.{
  decode_load_request-encode_load_request, flag_responses, decode_id_requests,
}
use iso26430_6_asm_prototype.LeKey.Store.{
  Keys, capacity, would_overflow, load_keys, contains_key, purge_key,
}
use iso26430_6_asm_prototype.LeKey.Store.Table.{
  find, last_of, is_some, load_keys-find, purge_key-find, contains_key-find,
}
use iso26430_6_asm_prototype.QuerySpb.{StaticQuerySpbStatusProvider}
use iso26430_6_asm_prototype.Service.{handle_request, dispatch}
use iso26430_6_asm_prototype.Service.Handlers.{
  handle_le_key_load, handle_le_key_query_id, handle_le_key_purge_id, reply,
}
use iso26430_6_asm_prototype.Service.KeyCommands.{
  load_request, query_id_request, purge_id_request, handle,
}

load_result : StandardRequest → Bool → ServiceResult
load_result r overflow =
    reply le_key_load r (encode_load_response (record { overflow = overflow }))
      (if overflow then failed else successful)
      (if overflow
        then "LEKeyLoad rejected because key buffer would overflow"
        else "LEKeyLoad handled")

query_id_result : StandardRequest → Bool → ServiceResult
query_id_result r present =
    reply le_key_query_id r (encode_query_id_response (record { key_present = present })) successful
      "LEKeyQueryID handled"

purge_id_result : StandardRequest → Bool → ServiceResult
purge_id_result r removed =
    reply le_key_purge_id r (encode_purge_id_response (record { no_key_id = not removed }))
      successful
      (if removed then "LEKeyPurgeID handled" else "LEKeyPurgeID handled with missing key id")

-- What a client makes of an answer to a query.
pub is_present : Result ServiceResult → Result LeKeyQueryIdResponsePayload
is_present r = do result ← r; decode_query_id_response result.response.payload

module _ (log : EventLogStore) (status : StaticQuerySpbStatusProvider) (now : ℕ)
    (raw : ByteBuffer) where
  -- A load, under a request id other than zero, of well-formed keys that are fewer than 2 ^ 32 is
  -- answered with the overflow flag of the store, in the payload and in the response code, and the
  -- store is what `load_keys` makes of it.
  pub load_answer :
      (n : ℕ) (keys s : Keys)
      → n ≢ 0
      → IsU32 (length keys)
      → All IsKeyRecord keys
      → (result : ServiceResult) × (handle log status now raw (load_request n keys) s
          ≡ (ok result, (load_keys keys s).1))
        × (decode_load_response result.response.payload
            ≡ ok (record { overflow = would_overflow keys s capacity }))
        × (result.response.response_code
            ≡ (if would_overflow keys s capacity then failed else successful))
  unfolding handle_request dispatch handle_le_key_load load_result
  load_answer n keys s nonzero counted fits =
      let (same, _, _) = load_keys-find keys s in
      let (flag, _, _) = flag_responses (load_keys keys s).0 in
      (
        load_result (load_request n keys) (load_keys keys s).0,
        ground
            (arith, decode_load_request-encode_load_request (record { keys = keys }) counted fits),
        ground (arith, flag, same),
        ground (arith, same),
      )

  -- A query, under a request id other than zero, for a key id of 32 bits is answered whether there
  -- is a record under the key id, and changes nothing.
  pub query_id_answer :
      (n id : ℕ) (s : Keys)
      → n ≢ 0
      → IsU32 id
      → (result : ServiceResult) × (handle log status now raw (query_id_request n id) s
          ≡ (ok result, s))
        × (decode_query_id_response result.response.payload
            ≡ ok (record { key_present = is_some (find id s) }))
        × (result.response.response_code ≡ successful)
  unfolding handle_request dispatch handle_le_key_query_id query_id_result
  query_id_answer n id s nonzero fits =
      let (_, flag, _) = flag_responses (contains_key id s) in
      let (read, _) = decode_id_requests id fits in
      (
        query_id_result (query_id_request n id) (contains_key id s),
        ground (arith, read),
        ground (arith, flag, contains_key-find id s),
        refl,
      )

  -- A purge, under a request id other than zero, of a key id of 32 bits is answered whether there
  -- was no record under the key id; the store is what `purge_key` makes of it.
  pub purge_id_answer :
      (n id : ℕ) (s : Keys)
      → n ≢ 0
      → IsU32 id
      → (result : ServiceResult) × (handle log status now raw (purge_id_request n id) s
          ≡ (ok result, (purge_key id s).1))
        × (decode_purge_id_response result.response.payload
            ≡ ok (record { no_key_id = not (is_some (find id s)) }))
        × (result.response.response_code ≡ successful)
  unfolding handle_request dispatch handle_le_key_purge_id purge_id_result
  purge_id_answer n id s nonzero fits =
      let (_, _, flag) = flag_responses (not (purge_key id s).0) in
      let (_, read) = decode_id_requests id fits in
      let (there, _) = purge_key-find id s in
      (
        purge_id_result (purge_id_request n id) (purge_key id s).0,
        ground (arith, read),
        ground (arith, flag, there),
        refl,
      )

  query_reads :
      (k id : ℕ) (s : Keys)
      → k ≢ 0
      → IsU32 id
      → is_present (handle log status now raw (query_id_request k id) s).0
        ≡ ok (record { key_present = is_some (find id s) })
  unfolding is_present
  query_reads k id s hk fits =
      let (result, e, read, _) = query_id_answer k id s hk fits in rw e read

  -- After a load that was not refused, of well-formed keys that are fewer than 2 ^ 32, a query for
  -- any key id of 32 bits tells whether the batch had the key id, or the store had it before. The
  -- request ids are not zero.
  pub query_after_load :
      (n k id : ℕ) (keys s : Keys)
      → n ≢ 0
      → k ≢ 0
      → IsU32 id
      → IsU32 (length keys)
      → All IsKeyRecord keys
      → would_overflow keys s capacity ≡ false
      → is_present
          (handle log status now raw
            (query_id_request k id)
            (handle log status now raw (load_request n keys) s).1).0
        ≡ ok (record { key_present = is_some (last_of id keys (find id s)) })
  query_after_load n k id keys s hn hk fits counted good room =
      let (result, e, _, _) = load_answer n keys s hn counted good in
      let (same, _, table) = load_keys-find keys s in
      query_reads k id (handle log status now raw (load_request n keys) s).1 hk fits
      ∙ ap (λ o. ok (record { key_present = is_some o }))
          (ap (λ o. find id o.1) e ∙ table (same ∙ room) id)

  -- After a purge of one key id, a query for any key id tells that this one is gone, and of every
  -- other what it would have told before. The key ids have 32 bits, and the request ids are not
  -- zero.
  pub query_after_purge :
      (m k purged id : ℕ) (s : Keys)
      → m ≢ 0
      → k ≢ 0
      → IsU32 purged
      → IsU32 id
      → is_present
          (handle log status now raw
            (query_id_request k id)
            (handle log status now raw (purge_id_request m purged) s).1).0
        ≡ ok (record { key_present = (if purged == id then false else is_some (find id s)) })
  query_after_purge m k purged id s hm hk gone fits =
      let (result, e, _, _) = purge_id_answer m purged s hm gone in
      let (_, table) = purge_key-find purged s in
      query_reads k id (handle log status now raw (purge_id_request m purged) s).1 hk fits
      ∙ ap (λ o. ok (record { key_present = o }))
          (ap (λ o. is_some (find id o.1)) e ∙ ground (arith, table id))
