-- ===== src/Common.antt =====
-- include/asm/common.hpp: commands, response codes, requests, responses and service results, with
-- the `to_string` functions of src/asm/codec.cpp. A `ByteBuffer` is a list of numbers, each meant
-- to be below 256. `RequestContext` has no field that the service reads, so it is left out.
use iso26430_6_asm_prototype.Base.{ℕ, String, Option, List}

abbrev pub ByteBuffer : Type 0
ByteBuffer = List ℕ

-- A universal label, of 16 bytes.
abbrev pub Ul : Type 0
Ul = List ℕ

pub data Command : Type 0 where
  bad_request get_time get_event_list get_event_id query_spb le_key_load le_key_query_id
        le_key_query_all le_key_purge_id le_key_purge_all :
      Command

pub data GeneralResponse : Type 0 where
  successful failed invalid busy : GeneralResponse

-- The numeric values of the enumerators.
unfoldable pub command_code : Command → ℕ
command_code bad_request = 0x00
command_code get_time = 0x01
command_code get_event_list = 0x02
command_code get_event_id = 0x03
command_code query_spb = 0x04
command_code le_key_load = 0x10
command_code le_key_query_id = 0x11
command_code le_key_query_all = 0x12
command_code le_key_purge_id = 0x13
command_code le_key_purge_all = 0x14

unfoldable pub response_byte : GeneralResponse → ℕ
response_byte successful = 0x00
response_byte failed = 0x01
response_byte invalid = 0x02
response_byte busy = 0x03

pub record StandardRequest : Type 0 where
  pub command : Command
  pub request_id : ℕ
  pub payload : ByteBuffer

pub record StandardResponse : Type 0 where
  pub command : Command
  pub request_id : Option ℕ
  pub payload : ByteBuffer
  pub response_code : GeneralResponse

pub record ServiceResult : Type 0 where
  pub response : StandardResponse
  pub note : String

unfoldable pub command_to_string : Command → String
command_to_string bad_request = "BadRequest"
command_to_string get_time = "GetTime"
command_to_string get_event_list = "GetEventList"
command_to_string get_event_id = "GetEventID"
command_to_string query_spb = "QuerySPB"
command_to_string le_key_load = "LEKeyLoad"
command_to_string le_key_query_id = "LEKeyQueryID"
command_to_string le_key_query_all = "LEKeyQueryAll"
command_to_string le_key_purge_id = "LEKeyPurgeID"
command_to_string le_key_purge_all = "LEKeyPurgeAll"

unfoldable pub response_to_string : GeneralResponse → String
response_to_string successful = "successful"
response_to_string failed = "failed"
response_to_string invalid = "invalid"
response_to_string busy = "busy"
