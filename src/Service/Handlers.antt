-- ===== src/Service/Handlers.antt =====
-- One handler for each command of src/asm/service.cpp.
use iso26430_6_asm_prototype.Base.{
  ℕ, not, String, Option, none, some, [], length, ltb, ◌!=◌, if◌then◌else◌, Text,
}
use iso26430_6_asm_prototype.Common.{
  ByteBuffer, Command, get_time, get_event_list, get_event_id, query_spb, le_key_load,
  le_key_query_id, le_key_query_all, le_key_purge_id, le_key_purge_all, GeneralResponse, successful,
  failed, invalid, StandardRequest, ServiceResult,
}
use iso26430_6_asm_prototype.BigEndian.{append_be_u64}
use iso26430_6_asm_prototype.EventLog.{EventLogStore}
use iso26430_6_asm_prototype.EventLog.Payload
use iso26430_6_asm_prototype.LeKey.{LeKeyStore}
use iso26430_6_asm_prototype.LeKey.Payload as KeyPayload
use iso26430_6_asm_prototype.QuerySpb
use iso26430_6_asm_prototype.QuerySpb.{StaticQuerySpbStatusProvider, current_status}
use iso26430_6_asm_prototype.Service.Actions.{Action, pure, lift, read, ◌>>=◌}

pub record AsmService (S : Type 0) : Type 0 where
  pub event_log_store : EventLogStore
  pub le_key_store : LeKeyStore S
  pub spb_status_provider : StaticQuerySpbStatusProvider

-- A result that answers `request`.
abbrev pub reply : Command → StandardRequest → ByteBuffer → GeneralResponse → String → ServiceResult
reply command request payload code note = record {
  response = record {
    command = command;
    request_id = some request.request_id;
    payload = payload;
    response_code = code;
  };
  note = note;
}

module _ {S : Type 0} (service : AsmService S) where
  open service use {event_log_store, le_key_store, spb_status_provider}

  unfoldable pub handle_get_time : ℕ → StandardRequest → Action S ServiceResult
  handle_get_time now request =
      pure (reply get_time request (append_be_u64 [] now) successful "GetTime handled")

  unfoldable pub handle_get_event_list : StandardRequest → Action S ServiceResult
  handle_get_event_list request = do
    payload ← lift (Payload.decode_list_request request.payload)
    if ltb payload.time_stop payload.time_start
        then pure (
            reply get_event_list request [] invalid
              "GetEventList rejected because time_start > time_stop")
        else pure (
            reply get_event_list request
              (Payload.encode_list_response (record {
                event_ids = event_log_store.list_event_ids payload.time_start payload.time_stop;
              }))
              successful "GetEventList handled")

  unfoldable pub answer_event_id : StandardRequest → Option Text → ServiceResult
  answer_event_id request none =
      reply get_event_id request [] invalid "GetEventID rejected because event id was not found"
  answer_event_id request (some xml) =
      reply get_event_id request (Payload.encode_id_response (record { log_record_xml = xml }))
        successful "GetEventID handled"

  unfoldable pub handle_get_event_id : StandardRequest → Action S ServiceResult
  unfolding answer_event_id
  handle_get_event_id request = do
    payload ← lift (Payload.decode_id_request request.payload)
    pure (answer_event_id request (event_log_store.get_event_xml payload.event_id))

  unfoldable pub handle_query_spb : StandardRequest → Action S ServiceResult
  handle_query_spb request =
      if length request.payload != 0
      then pure
          (reply query_spb request [] invalid "QuerySPB rejected because payload was not empty")
      else pure (
          reply query_spb request
            (QuerySpb.encode_response
              (record { protocol_version = 0x01; status = current_status spb_status_provider }))
            successful "QuerySPB handled")

  unfoldable pub handle_le_key_load : StandardRequest → Action S ServiceResult
  handle_le_key_load request = do
    payload ← lift (KeyPayload.decode_load_request request.payload)
    overflow ← le_key_store.load_keys payload.keys
    pure (
        reply le_key_load request (KeyPayload.encode_load_response (record { overflow = overflow }))
          (if overflow then failed else successful)
          (if overflow
            then "LEKeyLoad rejected because key buffer would overflow"
            else "LEKeyLoad handled"))

  unfoldable pub handle_le_key_query_id : StandardRequest → Action S ServiceResult
  handle_le_key_query_id request = do
    payload ← lift (KeyPayload.decode_query_id_request request.payload)
    present ← read (le_key_store.contains_key payload.key_id)
    pure (
        reply le_key_query_id request
          (KeyPayload.encode_query_id_response (record { key_present = present })) successful
          "LEKeyQueryID handled")

  unfoldable pub handle_le_key_query_all : StandardRequest → Action S ServiceResult
  handle_le_key_query_all request =
      if length request.payload != 0
      then pure (
          reply le_key_query_all request [] invalid
            "LEKeyQueryAll rejected because payload was not empty")
      else do
        ids ← read le_key_store.list_key_ids
        pure (
            reply le_key_query_all request
              (KeyPayload.encode_query_all_response (record { key_ids = ids })) successful
              "LEKeyQueryAll handled")

  unfoldable pub handle_le_key_purge_id : StandardRequest → Action S ServiceResult
  handle_le_key_purge_id request = do
    payload ← lift (KeyPayload.decode_purge_id_request request.payload)
    removed ← le_key_store.purge_key payload.key_id
    pure (
        reply le_key_purge_id request
          (KeyPayload.encode_purge_id_response (record { no_key_id = not removed })) successful
          (if removed then "LEKeyPurgeID handled" else "LEKeyPurgeID handled with missing key id"))

  unfoldable pub handle_le_key_purge_all : StandardRequest → Action S ServiceResult
  handle_le_key_purge_all request =
      if length request.payload != 0
      then pure (
          reply le_key_purge_all request [] invalid
            "LEKeyPurgeAll rejected because payload was not empty")
      else do
        _ ← le_key_store.purge_all
        pure (reply le_key_purge_all request [] successful "LEKeyPurgeAll handled")
