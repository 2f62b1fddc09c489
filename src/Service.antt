-- ===== src/Service.antt =====
-- include/asm/service.hpp and src/asm/service.cpp. The service holds a log that does not change, a key
-- store with a state, and a status provider; a handler takes the store's state and returns it with its
-- result. The clock is an argument: the seconds since the epoch at the time of the call, in 64 bits.
pub mod Actions
pub mod Handlers
pub mod Constructors
pub mod Answers
pub mod KeyCommands
pub mod KeyDialog
pub mod KeyListing
pub mod EventAnswers
pub mod Refinement
pub mod KeyIds
pub mod Observation
pub mod Persistence
use iso26430_6_asm_prototype.Base.{ℕ, String, none, ◌==◌, if◌then◌else◌}
use iso26430_6_asm_prototype.Common.{
  ByteBuffer, Command, bad_request, get_time, get_event_list, get_event_id, query_spb, le_key_load,
  le_key_query_id, le_key_query_all, le_key_purge_id, le_key_purge_all, invalid, StandardRequest,
  ServiceResult,
}
use Actions.{Action, pure}
use Handlers.{
  AsmService, handle_get_time, handle_get_event_list, handle_get_event_id, handle_query_spb,
  handle_le_key_load, handle_le_key_query_id, handle_le_key_query_all, handle_le_key_purge_id,
  handle_le_key_purge_all,
}

-- The private `bad_request`.
unfoldable pub bad_request_result : ByteBuffer → String → ServiceResult
bad_request_result raw_request reason = record {
  response = record {
    command = bad_request;
    request_id = none;
    payload = raw_request;
    response_code = invalid;
  };
  note = reason;
}

module _ {S : Type 0} (service : AsmService S) where
  unfoldable pub dispatch : Command → ℕ → StandardRequest → ByteBuffer → Action S ServiceResult
  dispatch get_time now request raw = handle_get_time service now request
  dispatch get_event_list now request raw = handle_get_event_list service request
  dispatch get_event_id now request raw = handle_get_event_id service request
  dispatch query_spb now request raw = handle_query_spb service request
  dispatch le_key_load now request raw = handle_le_key_load service request
  dispatch le_key_query_id now request raw = handle_le_key_query_id service request
  dispatch le_key_query_all now request raw = handle_le_key_query_all service request
  dispatch le_key_purge_id now request raw = handle_le_key_purge_id service request
  dispatch le_key_purge_all now request raw = handle_le_key_purge_all service request
  dispatch bad_request now request raw = pure (bad_request_result raw "unsupported request command")

  unfoldable pub handle_request : ℕ → StandardRequest → ByteBuffer → Action S ServiceResult
  unfolding dispatch bad_request_result
  handle_request now request raw =
      if request.request_id == 0
      then pure (bad_request_result raw "request id must be non-zero")
      else dispatch request.command now request raw

  unfoldable pub handle_decode_failure : ByteBuffer → String → ServiceResult
  unfolding bad_request_result
  handle_decode_failure raw reason = bad_request_result raw reason
