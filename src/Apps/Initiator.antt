-- ===== src/Apps/Initiator.antt =====
-- src/apps/asm_initiator.cpp: from the command line to the request, and from the response to the line that is
-- printed. `argv` is a list with the program's name first; the exchange is in Transport/Client.
pub mod Printing
pub mod Orders
pub mod Answers
pub mod Replies
pub mod Trust
use iso26430_6_asm_prototype.Base.{
  ℕ, ◌+◌, String, Option, none, some, List, [], ◌∷◌, ◌++◌, length, get_or, Bool, true, false,
  Result, ok, err, ◌>>=◌, u32, u64, ltb, ◌!=◌, if◌then◌else◌, Text, codes, text_eq,
}
use iso26430_6_asm_prototype.Common.{
  ByteBuffer, Command, bad_request, get_time, get_event_list, get_event_id, query_spb, le_key_load,
  le_key_query_id, le_key_query_all, le_key_purge_id, le_key_purge_all, StandardRequest,
  StandardResponse,
}
use iso26430_6_asm_prototype.EventLog.Payload as EventPayload
use iso26430_6_asm_prototype.LeKey.Jsonl.{hex_loop}
use iso26430_6_asm_prototype.LeKey.Payload as KeyPayload
use iso26430_6_asm_prototype.Security.Profile.{TlsConfig, tls_config}
use iso26430_6_asm_prototype.Streams.{ten, stoul, stoull}

unfoldable pub parse_command : Text → Result Command
parse_command value =
    if text_eq value (codes "get-time")
    then ok get_time
    else if text_eq value (codes "query-spb")
    then ok query_spb
    else if text_eq value (codes "get-event-list")
    then ok get_event_list
    else if text_eq value (codes "get-event-id")
    then ok get_event_id
    else if text_eq value (codes "le-key-load")
    then ok le_key_load
    else if text_eq value (codes "le-key-query-id")
    then ok le_key_query_id
    else if text_eq value (codes "le-key-query-all")
    then ok le_key_query_all
    else if text_eq value (codes "le-key-purge-id")
    then ok le_key_purge_id
    else if text_eq value (codes "le-key-purge-all")
    then ok le_key_purge_all
    else err "unsupported command"

-- The loop is the one of `hex_to_key`.
unfoldable pub parse_key_hex : Text → Result ByteBuffer
parse_key_hex hex =
    if length hex != 32 then err "LE key hex must be 32 characters" else hex_loop 16 0 hex

-- How many arguments a command has; there is no request for BadRequest.
unfoldable pub command_argc : Command → Option ℕ
command_argc bad_request = none
command_argc get_event_id = some 1
command_argc le_key_query_id = some 1
command_argc le_key_purge_id = some 1
command_argc get_event_list = some 2
command_argc le_key_load = some 4
command_argc _ = some 0

abbrev pub arg : List Text → ℕ → Text
arg argv i = get_or argv i []

-- `static_cast<std::uint32_t>(std::stoul(argv[i]))`
unfoldable pub u32_arg : List Text → ℕ → Result ℕ
u32_arg argv i = do value ← stoul ten (arg argv i); ok (u32 value)

unfoldable pub build_payload : Command → List Text → Result ByteBuffer
build_payload get_event_list argv = do
  time_start ← u32_arg argv 3
  time_stop ← u32_arg argv 4
  ok (EventPayload.encode_list_request (record { time_start = time_start; time_stop = time_stop }))
build_payload get_event_id argv = do
  event_id ← u32_arg argv 3
  ok (EventPayload.encode_id_request (record { event_id = event_id }))
build_payload le_key_load argv = do
  key_id ← u32_arg argv 3
  key ← parse_key_hex (arg argv 4)
  expire_time ← u32_arg argv 5
  attribute_data ← stoull (arg argv 6)
  ok (
      KeyPayload.encode_load_request (record {
        keys =
            record {
              key_id = key_id;
              key = key;
              expire_time = expire_time;
              attribute_data = u64 attribute_data;
            }
            ∷ [];
      }))
build_payload le_key_query_id argv = do
  key_id ← u32_arg argv 3
  ok (KeyPayload.encode_query_id_request (record { key_id = key_id }))
build_payload le_key_purge_id argv = do
  key_id ← u32_arg argv 3
  ok (KeyPayload.encode_purge_id_request (record { key_id = key_id }))
build_payload _ argv = ok []

-- The program ends with status 1 and a message, or with an exception that nobody catches, or it has a
-- request for a host.
pub data Prepared : Type 0 where
  refused uncaught : String → Prepared
  prepared : TlsConfig → Text → StandardRequest → Prepared

with_payload : Command → List Text → ℕ → Result ByteBuffer → Prepared
with_payload command argv cert_index (err what) = uncaught what
with_payload command argv cert_index (ok payload) =
    prepared
      (tls_config (arg argv cert_index) (arg argv (cert_index + 1)) (arg argv (cert_index + 2)))
      (arg argv 1) (record { command = command; request_id = 1; payload = payload })

with_argc : Command → List Text → Option ℕ → Prepared
unfolding with_payload
with_argc command argv none = refused "BadRequest is response-only\n"
with_argc command argv (some command_argc) =
    let expected_argc = 3 + command_argc + 3 in
    if length argv != expected_argc
    then refused "unexpected arguments for command\n"
    else with_payload command argv (3 + command_argc) (build_payload command argv)

with_command : List Text → Result Command → Prepared
unfolding with_argc
with_command argv (err what) = uncaught what
with_command argv (ok command) = with_argc command argv (command_argc command)

-- `main` up to the exchange.
unfoldable pub prepare : List Text → Prepared
unfolding with_command
prepare argv =
    if ltb (length argv) 6
    then refused
        "usage: asm_initiator <host> <command> [command args...] <cert.pem> <key.pem> <ca.pem>\n"
    else with_command argv (parse_command (arg argv 2))
