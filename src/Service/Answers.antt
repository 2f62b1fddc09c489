-- ===== src/Service/Answers.antt =====
-- What every answer of the service has in common, and which commands leave the key store alone.
use iso26430_6_asm_prototype.Base.{
  ℕ, ◌≡◌, ◌≢◌, refl, ◌⊎◌, inl, inr, none, some, arith, ok, ◌==◌, Bool-cases,
}
use iso26430_6_asm_prototype.Common.{
  ByteBuffer, Command, bad_request, get_time, invalid, StandardRequest, ServiceResult,
}
use iso26430_6_asm_prototype.Codec.Responses.{is_bad_request}
use iso26430_6_asm_prototype.Service.{handle_request, dispatch}
use iso26430_6_asm_prototype.Service.Handlers.{
  AsmService, handle_get_time, handle_get_event_list, handle_get_event_id, handle_query_spb,
  handle_le_key_load, handle_le_key_query_id, handle_le_key_query_all, handle_le_key_purge_id,
  handle_le_key_purge_all,
}

-- The result carries the command and the id of the request.
abbrev pub Echoes : StandardRequest → ServiceResult → Type 0
Echoes r result =
    (result.response.command ≡ r.command) × (result.response.request_id ≡ some r.request_id)

-- The result is a BadRequest: no id, a copy of what came in, and `invalid`.
abbrev pub Refuses : ByteBuffer → ServiceResult → Type 0
Refuses raw result =
    (result.response.command ≡ bad_request)
    × (result.response.request_id ≡ none)
    × (result.response.payload ≡ raw)
    × (result.response.response_code ≡ invalid)

-- What the service must refuse: the id zero, and a BadRequest as a request.
abbrev pub MustRefuse : StandardRequest → Type 0
MustRefuse r = (r.request_id ≡ 0) ⊎ (r.command ≡ bad_request)

module _ {S : Type 0} (service : AsmService S) where
  dispatch-Echoes :
      (c : Command) (now : ℕ) (r : StandardRequest) (raw : ByteBuffer) (s : S)
      (result : ServiceResult)
      → c ≡ r.command
      → c ≢ bad_request
      → (dispatch service c now r raw s).0 ≡ ok result
      → Echoes r result
  unfolding dispatch handle_get_time handle_get_event_list handle_get_event_id handle_query_spb
      handle_le_key_load handle_le_key_query_id handle_le_key_query_all handle_le_key_purge_id
      handle_le_key_purge_all
  dispatch-Echoes bad_request now r raw s result e n h = absurd (n refl)
  dispatch-Echoes get_time now r raw s result e n h = ground arith
  dispatch-Echoes _ now r raw s result e n h = ground arith

  -- A result of the service echoes the command and the id of a request that is not to be refused. It
  -- is a BadRequest with a copy of the raw bytes for one that is, and the key store is then untouched.
  pub handle_request_answer :
      (now : ℕ) (r : StandardRequest) (raw : ByteBuffer) (s : S) (result : ServiceResult)
      → (handle_request service now r raw s).0 ≡ ok result
      → ((¬ MustRefuse r) × Echoes r result)
        ⊎ (MustRefuse r × Refuses raw result × ((handle_request service now r raw s).1 ≡ s))
  unfolding handle_request dispatch
  handle_request_answer now r raw s result h = elim (Bool-cases (r.request_id == 0)) [
    | inl zero ↦ inr (inl (ground arith), ground arith, rw zero)
    | inr nonzero ↦ elim (is_bad_request r.command) [
      | inl (bad, _) ↦ inr (inr bad, ground arith, ground arith)
      | inr (other, _) ↦ inl (
        (λ m. ground arith),
        dispatch-Echoes r.command now r raw s result refl other (rw nonzero at h),
      )
    ]
  ]
