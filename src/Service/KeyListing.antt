-- ===== src/Service/KeyListing.antt =====
-- What a client is told that asks for all key ids.
use iso26430_6_asm_prototype.Base.{
  suc, if◌then◌else◌, Bool-cases, ==_iff, inl, inr, ℕ, ◌≤◌, ◌≡◌, ◌≢◌, refl, ap, false, List, [],
  ◌∷◌, arith, All, IsU32, length, ok, ◌==◌,
}
use iso26430_6_asm_prototype.Common.{
  ByteBuffer, le_key_query_all, successful, StandardRequest, ServiceResult,
}
use iso26430_6_asm_prototype.EventLog.{EventLogStore}
use iso26430_6_asm_prototype.LeKey.Payload.{encode_query_all_response, decode_query_all_response}
use iso26430_6_asm_prototype.LeKey.Payload.RoundTrip.{
  decode_query_all_response-encode_query_all_response,
}
use iso26430_6_asm_prototype.LeKey.Store.{Keys, capacity, is_found, list_key_ids}
use iso26430_6_asm_prototype.LeKey.Store.Table.{find, is_some}
use iso26430_6_asm_prototype.LeKey.Store.Capacity.{Distinct, IsStore}
use iso26430_6_asm_prototype.QuerySpb.{StaticQuerySpbStatusProvider}
use iso26430_6_asm_prototype.Service.{handle_request, dispatch}
use iso26430_6_asm_prototype.Service.Handlers.{reply, handle_le_key_query_all}
use iso26430_6_asm_prototype.Service.KeyCommands.{handle}

abbrev pub query_all_request : ℕ → StandardRequest
query_all_request n = record { command = le_key_query_all; request_id = n; payload = [] }

-- How often an id is listed.
pub times : ℕ → List ℕ → ℕ
times id [] = 0
times id (x ∷ ids) = if x == id then suc (times id ids) else times id ids

times-absent : (id : ℕ) (s : Keys) → is_found id s ≡ false → times id (list_key_ids s) ≡ 0
unfolding times list_key_ids is_found
times-absent id [] h = refl
times-absent id (k ∷ rest) h = ground (arith, times-absent id rest)

times-find :
    (id : ℕ) (s : Keys)
    → Distinct s
    → times id (list_key_ids s) ≡ (if is_some (find id s) then 1 else 0)
unfolding times list_key_ids find
times-find id [] d = refl
times-find id (k ∷ rest) (fresh, d) = elim (Bool-cases (k.key_id == id)) [
  | inl here ↦ let same = (==_iff k.key_id id).0 here in ground (arith, times-absent id rest)
  | inr other ↦ rw other (times-find id rest d)
]

pub length-list_key_ids : (s : Keys) → length (list_key_ids s) ≡ length s
unfolding list_key_ids
length-list_key_ids [] = refl
length-list_key_ids (k ∷ rest) = ap suc (length-list_key_ids rest)

module _ (log : EventLogStore) (status : StaticQuerySpbStatusProvider) (now : ℕ)
    (raw : ByteBuffer) where
  -- Over a well-formed store whose key ids have 32 bits, a QueryAll whose request id is not zero is
  -- answered with a list that the client reads back: each key id that has a record stands in it
  -- once, no other stands in it, and there are at most sixteen. The store is unchanged.
  pub query_every_answer :
      (n : ℕ) (s : Keys)
      → n ≢ 0
      → IsStore s
      → All IsU32 (list_key_ids s)
      → (result : ServiceResult) × (ids : List ℕ) × (handle log status now raw
            (query_all_request n)
            s
          ≡ (ok result, s))
        × (result.response.response_code ≡ successful)
        × (decode_query_all_response result.response.payload ≡ ok (record { key_ids = ids }))
        × (length ids ≤ capacity)
        × ((id : ℕ) → times id ids ≡ (if is_some (find id s) then 1 else 0))
  unfolding handle_request dispatch handle_le_key_query_all
  query_every_answer n s nonzero good fits =
      let ids = list_key_ids s in
      let size = length-list_key_ids s in
      (
        reply le_key_query_all (query_all_request n)
            (encode_query_all_response (record { key_ids = ids })) successful
            "LEKeyQueryAll handled",
        ids,
        ground arith,
        refl,
        decode_query_all_response-encode_query_all_response ids (omega (arith, size, good.bounded))
            fits,
        omega (arith, size, good.bounded),
        λ id. times-find id s good.distinct,
      )
